-- ===== src/Console/Keyboard.antt =====
-- kern/console.c: the keyboard. The scan codes that wait in the controller are a list; the value -1 of
-- `kbd_proc_data` is that the list is empty.
pub mod Keymaps
pub mod Keys
pub mod Typing
use challenge.Base.{
  ℕ, ◌+◌, ◌-◌, ◌%◌, ◌^◌, ◌≡◌, ◌&&◌, Bool, true, false, not, bit_and, bit_or, bit_xor, List, [], ◌∷◌,
  ◌==◌, leb, if◌then◌else◌,
}
use challenge.Console.{Cons, cons_intr}
use Keymaps.{shiftcode, togglecode, charcode}

abbrev pub shift_bit : ℕ
shift_bit = 1

abbrev pub ctl_bit : ℕ
ctl_bit = 2

abbrev pub alt_bit : ℕ
alt_bit = 4

abbrev pub capslock : ℕ
capslock = 8

abbrev pub e0esc : ℕ
e0esc = 64

abbrev pub key_del : ℕ
key_del = 0xE9

-- `x & ~y` of 32 bits
abbrev pub clear_bits : ℕ → ℕ → ℕ
clear_bits x y = bit_and x (2 ^ 32 - 1 - y)

abbrev pub is_set : ℕ → ℕ → Bool
is_set x y = not (bit_and x y == 0)

swap_case : ℕ → ℕ
swap_case c =
    if leb b'a' c && leb c b'z' then c - 0x20 else if leb b'A' c && leb c b'Z' then c + 0x20 else c

-- The static variable `shift`, and whether the machine was told to reboot.
pub record Kbd : Type 0 where
  pub shift : ℕ
  pub rebooted : Bool

-- A key that is pressed: its character, or 0.
unfoldable pub press : ℕ → Kbd → ℕ × Kbd
unfolding swap_case charcode shiftcode togglecode
press key s =
    let shift' = bit_xor (bit_or s.shift (shiftcode key)) (togglecode key) in
    let c = charcode (bit_and shift' 3) key in
    let c' = if is_set shift' capslock then swap_case c else c in
    let ctl_alt_del = bit_and shift' 6 == 6 && c' == key_del in
    (c', record s { shift = shift'; rebooted = if ctl_alt_del then true else s.rebooted })

unfoldable pub release : ℕ → Kbd → ℕ × Kbd
unfolding shiftcode
release code s =
    let key = if is_set s.shift e0esc then code else bit_and code 0x7F in
    (0, record s { shift = clear_bits s.shift (bit_or (shiftcode key) e0esc) })

-- The value for one byte from the keyboard
unfoldable pub kbd_proc_data : ℕ → Kbd → ℕ × Kbd
kbd_proc_data code s =
    if code == 0xE0
    then (0, record s { shift = bit_or s.shift e0esc })
    else if is_set code 0x80
    then release code s
    else if is_set s.shift e0esc
    then press (bit_or code 0x80) (record s { shift = clear_bits s.shift e0esc })
    else press code s

-- The values that `cons_intr` gets, before the -1.
unfoldable pub kbd_values : List ℕ → Kbd → List ℕ × Kbd
unfolding kbd_proc_data press release
kbd_values [] s = ([], s)
kbd_values (code ∷ codes) s =
    let r = kbd_proc_data code s in let rest = kbd_values codes r.1 in (r.0 ∷ rest.0, rest.1)

unfoldable pub kbd_intr : List ℕ → Kbd → Cons → Cons × Kbd
unfolding kbd_values cons_intr
kbd_intr codes s cons = let r = kbd_values codes s in (cons_intr r.0 cons, r.1)
