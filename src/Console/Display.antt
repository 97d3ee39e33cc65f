-- ===== src/Console/Display.antt =====
-- kern/console.c: output of characters to the serial port, the parallel port and the display.
--
-- `ports` are the writes by `outb`, the latest first. The waits until the devices are ready, which end
-- after 12,800 rounds and only read ports, are left out.
pub mod Screen
use challenge.Base.{
  ℕ, zero, suc, ◌+◌, ◌-◌, ◌*◌, ◌/◌, ◌%◌, ◌^◌, bit_or, List, ◌∷◌, ◌==◌, leb, ltb, if◌then◌else◌,
  update,
}
use challenge.Mmu.{word}

abbrev pub crt_cols : ℕ
crt_cols = 80

abbrev pub crt_size : ℕ
crt_size = 2000

pub record Crt : Type 0 where
  pub addr_6845 : ℕ
  pub crt_buf : ℕ → ℕ  -- uint16_t
  pub crt_pos : ℕ  -- uint16_t
  pub console_color : ℕ
  pub ports : List (ℕ × ℕ)

abbrev pub outb : ℕ → ℕ → Crt → Crt
outb port v s = record s { ports = (port, v % 2 ^ 8) ∷ s.ports }

serial_putc : ℕ → Crt → Crt
serial_putc c s = outb 0x3F8 c s

lpt_putc : ℕ → Crt → Crt
lpt_putc c s = outb 0x37A 0x08 (outb 0x37A 0x0D (outb 0x378 c s))

-- `if (!(c & ~0xFF)) c |= console_color << 8`
abbrev pub colored : ℕ → ℕ → ℕ
colored color c = if ltb c (2 ^ 8) then bit_or c (word (color * 2 ^ 8)) else c

abbrev pub set_cell : ℕ → ℕ → Crt → Crt
set_cell i v s = record s { crt_buf = update s.crt_buf i (v % 2 ^ 16) }

abbrev pub set_pos : ℕ → Crt → Crt
set_pos p s = record s { crt_pos = p % 2 ^ 16 }

abbrev carriage_return : Crt → Crt
carriage_return s = set_pos (s.crt_pos - s.crt_pos % crt_cols) s

-- the cases of the switch but for '\t'
cga_write : ℕ → Crt → Crt
cga_write c s =
    if c % 2 ^ 8 == 0x08
    then if s.crt_pos == 0
      then s
      else set_cell (s.crt_pos - 1) (bit_or (c - c % 2 ^ 8) 0x20) (set_pos (s.crt_pos - 1) s)
    else if c % 2 ^ 8 == 0x0A
    then carriage_return (set_pos (s.crt_pos + crt_cols) s)
    else if c % 2 ^ 8 == 0x0D
    then carriage_return s
    else set_pos (s.crt_pos + 1) (set_cell s.crt_pos c s)

-- The cells after the `memmove` and the loop of blanks
abbrev pub scrolled : (ℕ → ℕ) → ℕ → ℕ
scrolled buf i =
    if ltb i (crt_size - crt_cols)
    then buf (i + crt_cols)
    else if ltb i crt_size
    then 0x0720
    else buf i

scroll : Crt → Crt
scroll s =
    if leb crt_size s.crt_pos
    then set_pos (s.crt_pos - crt_cols) (record s { crt_buf = scrolled s.crt_buf })
    else s

move_cursor : Crt → Crt
move_cursor s =
    outb (s.addr_6845 + 1) s.crt_pos
      (outb s.addr_6845 15 (outb (s.addr_6845 + 1) (s.crt_pos / 2 ^ 8) (outb s.addr_6845 14 s)))

-- `cga_putc` of a character other than '\t', with its colour
abbrev show : ℕ → Crt → Crt
show c s = move_cursor (scroll (cga_write c s))

-- `cons_putc(' ')`, as `cga_putc` calls it
cons_space : Crt → Crt
unfolding serial_putc lpt_putc cga_write scroll move_cursor
cons_space s = show (colored s.console_color 0x20) (lpt_putc 0x20 (serial_putc 0x20 s))

spaces : ℕ → Crt → Crt
unfolding cons_space
spaces zero s = s
spaces (suc n) s = spaces n (cons_space s)

cga_putc : ℕ → Crt → Crt
unfolding spaces scroll move_cursor cga_write
cga_putc c s =
    let c' = colored s.console_color c in
    if c' % 2 ^ 8 == 0x09 then move_cursor (scroll (spaces 5 s)) else show c' s

unfoldable pub cons_putc : ℕ → Crt → Crt
unfolding serial_putc lpt_putc cga_putc
cons_putc c s = cga_putc c (lpt_putc c (serial_putc c s))
