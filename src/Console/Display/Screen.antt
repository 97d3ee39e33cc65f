-- ===== src/Console/Display/Screen.antt =====
-- kern/console.c: the characters on the display.
use challenge.Base.{
  ℕ, zero, suc, ◌+◌, ◌*◌, ◌/◌, ◌%◌, ◌^◌, ◌≤◌, ◌<◌, ◌≡◌, refl, ◌∙◌, List, [], ◌∷◌, arith, ◌==◌, inl,
  inr, Bool-cases, ◌≢◌, ap, bit_or, update, lt→ltb, ==_ne, All, length, subst, sym, false,
}
use challenge.Base.Bits.{bit_or_comm, bit_or-disjoint}
use challenge.Mmu.{word}
use challenge.Console.Display.{
  Crt, colored, cga_write, scroll, move_cursor, spaces, cons_space, cga_putc, cons_putc,
  serial_putc, lpt_putc,
}

-- The position is on the screen, and the memory behind the screen is that of `s`.
pub record Inside (s t : Crt) : Type 0 where
  pub on_screen : t.crt_pos < 2000
  pub beyond : (i : ℕ) → 2000 ≤ i → t.crt_buf i ≡ s.crt_buf i

-- As `Inside`, before the screen scrolls.
record Below (s t : Crt) : Type 0 where
  below : t.crt_pos < 2080
  beyond : (i : ℕ) → 2000 ≤ i → t.crt_buf i ≡ s.crt_buf i

cga_write-Below : (c : ℕ) (s t : Crt) → Inside s t → Below s (cga_write c t)
unfolding cga_write
cga_write-Below c s t h = record {
  below = ground (arith, h.on_screen);
  beyond = λ i le. ground (arith, h.beyond i le, h.on_screen);
}

scroll-Inside : (s t : Crt) → Below s t → Inside s (scroll t)
unfolding scroll
scroll-Inside s t h = record {
  on_screen = ground (arith, h.below);
  beyond = λ i le. ground (arith, h.beyond i le);
}

-- The last position told to the controller of the display is that of the state.
abbrev pub Cursor : Crt → Type 0
Cursor s =
    (rest : List (ℕ × ℕ)) × (s.ports
      ≡ (s.addr_6845 + 1, s.crt_pos % 2 ^ 8)
        ∷ (s.addr_6845, 15)
        ∷ (s.addr_6845 + 1, s.crt_pos / 2 ^ 8 % 2 ^ 8)
        ∷ (s.addr_6845, 14)
        ∷ rest)

move_cursor-Cursor : (s : Crt) → Cursor (move_cursor s)
unfolding move_cursor
move_cursor-Cursor s = (s.ports, refl)

move_cursor-Inside : (s t : Crt) → Inside s t → Inside s (move_cursor t)
unfolding move_cursor
move_cursor-Inside s t h = record { on_screen = h.on_screen; beyond = h.beyond }

show-Inside : (c : ℕ) (s t : Crt) → Inside s t → Inside s (move_cursor (scroll (cga_write c t)))
show-Inside c s t h = move_cursor-Inside s _ (scroll-Inside s _ (cga_write-Below c s t h))

-- What is sent to the two ports leaves the screen as it is.
sent : ℕ → Crt → Crt
sent c s = lpt_putc c (serial_putc c s)

sent-Inside : (c : ℕ) (s t : Crt) → Inside s t → Inside s (sent c t)
unfolding sent lpt_putc serial_putc
sent-Inside c s t h = record { on_screen = h.on_screen; beyond = h.beyond }

cons_space-Inside : (s t : Crt) → Inside s t → Inside s (cons_space t)
unfolding cons_space sent
cons_space-Inside s t h =
    show-Inside (colored t.console_color 0x20) s (sent 0x20 t) (sent-Inside 0x20 s t h)

spaces-Inside : (n : ℕ) (s t : Crt) → Inside s t → Inside s (spaces n t)
unfolding spaces
spaces-Inside zero s t h = h
spaces-Inside (suc n) s t h = spaces-Inside n s (cons_space t) (cons_space-Inside s t h)

Inside-Below : (s t : Crt) → Inside s t → Below s t
Inside-Below s t h = record { below = omega (arith, h.on_screen); beyond = h.beyond }

cga_putc-Inside : (c : ℕ) (s t : Crt) → Inside s t → Inside s (cga_putc c t) × Cursor (cga_putc c t)
unfolding cga_putc
cga_putc-Inside c s t h = elim (Bool-cases (colored t.console_color c % 2 ^ 8 == 0x09)) [
  | inl tab ↦ rw tab (
    move_cursor-Inside s (scroll (spaces 5 t))
        (scroll-Inside s (spaces 5 t) (Inside-Below s (spaces 5 t) (spaces-Inside 5 s t h))),
    move_cursor-Cursor (scroll (spaces 5 t)),
  )
  | inr other ↦
      let c' = colored t.console_color c in
      rw other (show-Inside c' s t h, move_cursor-Cursor (scroll (cga_write c' t)))
]

-- Output of any character, with the position on the screen: it stays there, nothing behind the
-- 2000 cells of the screen is written, and the controller of the display is told the position.
pub cons_putc-Inside :
    (c : ℕ) (s : Crt) → s.crt_pos < 2000 → Inside s (cons_putc c s) × Cursor (cons_putc c s)
unfolding cons_putc sent
cons_putc-Inside c s lt =
    cga_putc-Inside c s (sent c s)
      (sent-Inside c s s (record { on_screen = lt; beyond = λ i le. refl }))

-- Characters that are shown as they are: not '\b', '\t', '\n' or '\r'.
abbrev pub Plain : ℕ → Type 0
Plain c = (c < 2 ^ 8) × (c ≢ 0x08) × (c ≢ 0x09) × (c ≢ 0x0A) × (c ≢ 0x0D)

-- A cell of the display: the character with the colour above it.
abbrev pub cell : ℕ → ℕ → ℕ
cell color c = color % 2 ^ 8 * 2 ^ 8 + c

colored_lem : (color c : ℕ) → c < 2 ^ 8 → colored color c ≡ color % 2 ^ 24 * 2 ^ 8 + c
colored_lem color c lt = rw (lt→ltb c (2 ^ 8) lt) (
    bit_or_comm c c (word (color * 2 ^ 8)) (omega arith)
    ∙ ap (λ (h : ℕ). bit_or h c) {x = word (color * 2 ^ 8)} {y = color % 2 ^ 24 * 2 ^ 8}
        (omega arith)
    ∙ bit_or-disjoint 8 (color % 2 ^ 24) c lt)

-- The memory after the cells of `cs` are written from `p` on.
abbrev pub with_text : ℕ → List ℕ → ℕ → (ℕ → ℕ) → ℕ → ℕ
with_text color [] p buf = buf
with_text color (c ∷ cs) p buf = with_text color cs (p + 1) (update buf p (cell color c))

abbrev pub put_text : List ℕ → Crt → Crt
put_text [] s = s
put_text (c ∷ cs) s = put_text cs (cons_putc c s)

-- The display after one plain character that does not fill the screen.
record Shown (buf : ℕ → ℕ) (p color : ℕ) (t : Crt) : Type 0 where
  cells : t.crt_buf ≡ buf
  position : t.crt_pos ≡ p
  same_color : t.console_color ≡ color

write-Shown :
    (v color : ℕ) (t : Crt)
    → Plain (v % 2 ^ 8)
    → t.crt_pos + 1 < 2000
    → t.console_color ≡ color
    → Shown
        (update t.crt_buf t.crt_pos (v % 2 ^ 16))
        (t.crt_pos + 1)
        color
        (move_cursor (scroll (cga_write v t)))
unfolding cga_write scroll move_cursor
write-Shown v color t plain lt same = record {
  cells = ground (arith, plain, lt);
  position = ground (arith, plain, lt);
  same_color = ground (arith, plain, lt, same);
}

cons_putc-Shown :
    (c : ℕ) (s : Crt)
    → Plain c
    → s.crt_pos + 1 < 2000
    → Shown
        (update s.crt_buf s.crt_pos (cell s.console_color c))
        (s.crt_pos + 1)
        s.console_color
        (cons_putc c s)
unfolding cons_putc cga_putc sent
cons_putc-Shown c s plain lt =
    let v = colored s.console_color c in
    let e : v ≡ s.console_color % 2 ^ 24 * 2 ^ 8 + c = colored_lem s.console_color c plain.0 in
    let low : v % 2 ^ 8 ≡ c = omega (arith, e, plain.0) in
    let high : v % 2 ^ 16 ≡ cell s.console_color c = omega (arith, e, plain.0) in
    let not_tab : (v % 2 ^ 8 == 0x09) ≡ false = rw low (==_ne c 0x09 plain.2) in
    rw (not_tab, ← high)
      (write-Shown v s.console_color (sent c s) (subst Plain (sym low) plain) lt refl)

-- A text of plain characters that ends before the last cell of the screen is written into the cells
-- from the position on, each character in the colour of the console. No other cell changes, and the position moves
-- to the end of the text.
pub put_text-shown :
    (cs : List ℕ) (s : Crt)
    → All Plain cs
    → s.crt_pos + length cs < 2000
    → ((put_text cs s).crt_buf ≡ with_text s.console_color cs s.crt_pos s.crt_buf)
      × ((put_text cs s).crt_pos ≡ s.crt_pos + length cs)
put_text-shown [] s h lt = (refl, omega arith)
put_text-shown (c ∷ cs) s h lt =
    let one = cons_putc-Shown c s h.0 (omega arith) in
    let more = put_text-shown cs (cons_putc c s) h.1 (omega (arith, one.position)) in
    (
      more.0 ∙ rw (one.cells, one.position, one.same_color) refl,
      omega (arith, more.1, one.position),
    )

-- The display after a new line in the last row.
pub record Scrolled (buf : ℕ → ℕ) (t : Crt) : Type 0 where
  pub rows : (i : ℕ) → i < 1920 → t.crt_buf i ≡ buf (i + 80)
  pub blank : (i : ℕ) → 1920 ≤ i → i < 2000 → t.crt_buf i ≡ 0x0720
  pub start : t.crt_pos ≡ 1920

write-Scrolled :
    (v : ℕ) (t : Crt)
    → v % 2 ^ 8 ≡ 0x0A
    → 1920 ≤ t.crt_pos
    → t.crt_pos < 2000
    → Scrolled t.crt_buf (move_cursor (scroll (cga_write v t)))
unfolding cga_write scroll move_cursor
write-Scrolled v t e le lt = record {
  rows = λ i li. ground (arith, e, le, lt);
  blank = λ i li hi. ground (arith, e, le, lt);
  start = ground (arith, e, le, lt);
}

-- A new line in the last row: every row moves up by one, the last one becomes blank, and the position
-- is its start.
pub cons_putc-Scrolled :
    (s : Crt) → 1920 ≤ s.crt_pos → s.crt_pos < 2000 → Scrolled s.crt_buf (cons_putc 0x0A s)
unfolding cons_putc cga_putc sent
cons_putc-Scrolled s le lt =
    let v = colored s.console_color 0x0A in
    let low : v % 2 ^ 8 ≡ 0x0A = omega (arith, colored_lem s.console_color 0x0A (omega arith)) in
    let not_tab : (v % 2 ^ 8 == 0x09) ≡ false = rw low refl in
    rw not_tab (write-Scrolled v (sent 0x0A s) low le lt)
