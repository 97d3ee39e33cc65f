-- ===== src/Mpconfig.antt =====
-- kern/mpconfig.c: the search for the multiprocessor configuration table, and its CPUs.
--
-- Memory is the function `m` from a physical address to the byte there, and a pointer the physical address
-- that KADDR maps; the addresses are below 2^32. The first megabyte is in memory. The messages and
-- the ports of the interrupt mode register are left out.
pub mod Table
pub mod Cpus
use challenge.Base.{
  ℕ, zero, suc, ◌+◌, ◌-◌, ◌*◌, ◌/◌, ◌%◌, ◌^◌, Bool, true, false, not, ◌&&◌, ◌||◌, Option, none,
  some, List, [], ◌∷◌, ◌==◌, leb, ltb, if◌then◌else◌, update,
}
use challenge.Mmu.{pgnum, word}

abbrev pub read16 : (ℕ → ℕ) → ℕ → ℕ
read16 m a = m a + m (a + 1) * 2 ^ 8

abbrev pub read32 : (ℕ → ℕ) → ℕ → ℕ
read32 m a = read16 m a + read16 m (a + 2) * 2 ^ 16

-- The sum of the bytes as a `uint8_t`
unfoldable pub sum : (ℕ → ℕ) → ℕ → ℕ → ℕ
sum m a zero = 0
sum m a (suc len) = (m a + sum m (a + 1) len) % 2 ^ 8

-- `memcmp(..., 4) == 0` with a signature
abbrev pub has_bytes : (ℕ → ℕ) → ℕ → List ℕ → Bool
has_bytes m a [] = true
has_bytes m a (c ∷ cs) = m a == c && has_bytes m (a + 1) cs

abbrev pub is_mp : (ℕ → ℕ) → ℕ → Bool
is_mp m a = has_bytes m a (b'_' ∷ b'M' ∷ b'P' ∷ b'_' ∷ []) && sum m a 16 == 0

-- `n` places of 16 bytes from `a` on
unfoldable pub mpsearch1 : ℕ → (ℕ → ℕ) → ℕ → Option ℕ
mpsearch1 zero m a = none
mpsearch1 (suc n) m a = let rest = mpsearch1 n m (a + 16) in if is_mp m a then some a else rest

abbrev pub or_else : Option ℕ → Option ℕ → Option ℕ
or_else none b = b
or_else (some a) b = some a

-- In the first KB of the EBDA, or in the last KB of base memory, and then in the BIOS ROM.
unfoldable pub mpsearch : (ℕ → ℕ) → Option ℕ
unfolding mpsearch1
mpsearch m =
    let p = read16 m 0x40E in
    or_else
      (if p == 0
        then mpsearch1 64 m (word (read16 m 0x413 * 1024 + 2 ^ 32 - 1024))
        else mpsearch1 64 m (p * 16))
      (mpsearch1 4096 m 0xF0000)

-- The tests of the table at `conf`
abbrev pub valid_table : (ℕ → ℕ) → ℕ → Bool
valid_table m conf =
    let length = read16 m (conf + 4) in
    let version = m (conf + 6) in
    let xlength = read16 m (conf + 40) in
    has_bytes m conf (b'P' ∷ b'C' ∷ b'M' ∷ b'P' ∷ [])
    && (sum m conf length == 0
        && ((version == 1 || version == 4)
            && (sum m (conf + length) xlength + m (conf + 42)) % 2 ^ 8 == 0))

-- The outer `none` is the panic of KADDR; the addresses found are `mp` and the table.
unfoldable pub mpconfig : ℕ → (ℕ → ℕ) → Option (Option (ℕ × ℕ))
unfolding mpsearch
mpconfig npages m = elim (mpsearch m) [
  | none ↦ some none
  | some mp ↦
      let conf = read32 m (mp + 4) in
      if conf == 0 || not (m (mp + 11) == 0)
      then some none
      else if leb npages (pgnum conf)
      then none
      else if valid_table m conf
      then some (some (mp, conf))
      else some none
]

abbrev pub ncpu_max : ℕ
ncpu_max = 8

-- The globals; `started` is the CPU whose `cpu_status` is set to CPU_STARTED.
pub record Mp : Type 0 where
  pub ismp : Bool
  pub ncpu : ℕ
  pub bootcpu : ℕ
  pub cpu_id : ℕ → ℕ
  pub started : Option ℕ
  pub lapicaddr : ℕ

-- An entry for a processor
abbrev pub add_cpu : ℕ → Mp → Mp
add_cpu flags s =
    let boot = if flags / 2 % 2 == 1 then s.ncpu else s.bootcpu in
    if ltb s.ncpu ncpu_max
    then record s { bootcpu = boot; cpu_id = update s.cpu_id s.ncpu s.ncpu; ncpu = s.ncpu + 1 }
    else record s { bootcpu = boot }

-- The loop over the `n` entries at `p`; an unknown type ends it.
unfoldable pub scan : ℕ → (ℕ → ℕ) → ℕ → Mp → Mp
scan zero m p s = s
scan (suc n) m p s =
    let after_cpu = scan n m (p + 20) (add_cpu (m (p + 3)) s) in
    let after_other = scan n m (p + 8) s in
    if m p == 0 then after_cpu else if leb (m p) 4 then after_other else record s { ismp = false }

abbrev pub finish : Mp → Mp
finish s =
    let s1 = record s { started = some s.bootcpu } in
    if s.ismp then s1 else record s1 { ncpu = 1; lapicaddr = 0 }

unfoldable pub mp_init : ℕ → (ℕ → ℕ) → Mp → Option Mp
unfolding mpconfig scan
mp_init npages m s =
    let s0 = record s { bootcpu = 0 } in
    elim (mpconfig npages m) [
      | none ↦ none
      | some none ↦ some s0
      | some (some (mp, conf)) ↦
          let s1 = record s0 { ismp = true; lapicaddr = read32 m (conf + 36) } in
          some (finish (scan (read16 m (conf + 34)) m (conf + 44) s1))
    ]
