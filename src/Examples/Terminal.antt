-- ===== src/Examples/Terminal.antt =====
-- The keyboard, the display and the editing of a line.
use challenge.Base.{◌≡◌, refl, true, false, [], ◌∷◌, arith}
use challenge.Console.Display.{Crt, cons_putc}
use challenge.Console.Display.Screen.{
  Inside, Cursor, with_text, put_text, cons_putc-Inside, put_text-shown,
}
use challenge.Console.Keyboard.{Kbd, kbd_values}
use challenge.Console.Keyboard.Keymaps.{shiftcode, togglecode, normalmap}
use challenge.Console.Keyboard.Keys.{typed}
use challenge.Console.Keyboard.Typing.{kbd_values-held}
use challenge.Readline.{Line, readline, got_line}
use challenge.Readline.Edited.{Editing, readline-Editing}

-- The cursor is in the last row.
abbrev screen : Crt
screen = record {
  addr_6845 = 0x3D4;
  crt_buf = λ _. 0;
  crt_pos = 1990;
  console_color = 7;
  ports = [];
}

cons_putc-Inside_example : Inside screen (cons_putc 0x09 screen) × Cursor (cons_putc 0x09 screen)
cons_putc-Inside_example = cons_putc-Inside 0x09 screen (omega arith)

put_text-shown_example :
    ((put_text (b'o' ∷ b'k' ∷ []) screen).crt_buf ≡ with_text 7 (b'o' ∷ b'k' ∷ []) 1990 (λ _. 0))
    × ((put_text (b'o' ∷ b'k' ∷ []) screen).crt_pos ≡ 1992)
put_text-shown_example = put_text-shown (b'o' ∷ b'k' ∷ []) screen (omega arith) (omega arith)

-- Caps Lock is on; Shift and the key A give a small letter.
abbrev caps : Kbd
caps = record { shift = 8; rebooted = false }

kbd_values-held_example :
    kbd_values (0x2A ∷ 0x1E ∷ 0x9E ∷ 0xAA ∷ []) caps ≡ (0 ∷ b'a' ∷ 0 ∷ 0 ∷ [], caps)
unfolding shiftcode togglecode typed normalmap
kbd_values-held_example =
    kbd_values-held 0x2A 0x1E caps (omega arith) (omega arith) refl (omega arith) (omega arith) refl
      (omega arith)

-- "ab", Backspace, "c", Return
readline-Editing_example :
    (t : Line) × (readline true (b'a' ∷ b'b' ∷ 0x08 ∷ b'c' ∷ 0x0D ∷ []) (λ _. 7) ≡ got_line t)
    × Editing (λ _. 7) t (b'c' ∷ b'a' ∷ [])
    × (t.buf t.i ≡ 0)
readline-Editing_example =
    readline-Editing true (λ _. 7) (b'a' ∷ b'b' ∷ 0x08 ∷ b'c' ∷ []) [] 0x0D (omega arith) refl
