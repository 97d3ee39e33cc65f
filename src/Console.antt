-- ===== src/Console.antt =====
-- kern/console.c: the circular buffer of console input. What the devices deliver is a list of the
-- values that `serial_proc_data` and `kbd_proc_data` return before they return -1.
pub mod Queue
pub mod Display
pub mod Keyboard
use challenge.Base.{ℕ, ◌+◌, ◌%◌, ◌^◌, List, [], ◌∷◌, ◌==◌, if◌then◌else◌, update}

abbrev pub consbufsize : ℕ
consbufsize = 512

pub record Cons : Type 0 where
  pub buf : ℕ → ℕ  -- uint8_t
  pub rpos : ℕ
  pub wpos : ℕ

-- `pos++; if (pos == CONSBUFSIZE) pos = 0`
abbrev pub next_pos : ℕ → ℕ
next_pos p = if p + 1 == consbufsize then 0 else p + 1

cons_put : ℕ → Cons → Cons
cons_put c s = record s { buf = update s.buf s.wpos (c % 2 ^ 8); wpos = next_pos s.wpos }

unfoldable pub cons_intr : List ℕ → Cons → Cons
unfolding cons_put
cons_intr [] s = s
cons_intr (c ∷ cs) s = cons_intr cs (if c == 0 then s else cons_put c s)

-- The character taken, 0 if none is waiting.
cons_take : Cons → ℕ × Cons
cons_take s =
    if s.rpos == s.wpos then (0, s) else (s.buf s.rpos, record s { rpos = next_pos s.rpos })

unfoldable pub cons_getc : List ℕ → List ℕ → Cons → ℕ × Cons
unfolding cons_intr cons_take
cons_getc serial kbd s = cons_take (cons_intr kbd (cons_intr serial s))
