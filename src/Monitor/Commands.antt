-- ===== src/Monitor/Commands.antt =====
-- kern/monitor.c: what `setperm` does to an entry, and the numbers that `xtoi` reads.
use challenge.Base.{
  ◌==◌, false, inl, inr, replicate, ◌++◌, ==_ne, true, write_same, ℕ, zero, suc, ◌+◌, ◌*◌, ◌/◌, ◌%◌,
  ◌^◌, ◌≤◌, ◌<◌, ◌≡◌, ◌≢◌, refl, sym, subst, ◌∙◌, ap, some, List, [], ◌∷◌, arith, bit_and, length,
  All, Option, none,
}
use challenge.Base.Bits.{bit_or-high, bit_and-shift, bit_and_fifteen}
use challenge.Base.Run.{ok}
use challenge.Mmu.{pte_addr, word}
use challenge.Pmap.Pages.{Pmap, PtePtr, read_pte, write_word}
use challenge.Pmap.Tables.{pgdir_walk}
use challenge.Strings.{Bytes}
use mathlib.Core.Option.{some-injective}
use native.Mathlib.Nat.{mod-eq_of_lt}
use challenge.Format.{printnum, num_fuel, digit_char}
use challenge.Format.Number.{IsDigit, Printed, value, printnum-Printed}
use challenge.Format.Reading.{value-le}
use challenge.Strings.Text.{IsString}
use challenge.Monitor.{setperm, xtoi, xtoi_loop, changed, hex_digit}

-- What `change` leaves of an entry: the frame it names loses all but four of its bits.
changed-frame : (perm pte : ℕ) → perm < 2 ^ 12 → changed perm pte / 2 ^ 12 ≡ pte / 2 ^ 12 % 2 ^ 4
changed-frame perm pte lt =
    bit_or-high 12 (bit_and pte 0xFFF8) perm (omega arith)
    ∙ bit_and-shift 12 pte 0xFFF8
    ∙ bit_and_fifteen (pte / 2 ^ 12)

-- The command `setperm addr change perm`
module _ (g : ℕ) (m : Bytes) (name addr how number : ℕ) (pm pm' : Pmap) (a perm : ℕ) (e : PtePtr)
    (reads_addr : xtoi g m addr ≡ some (some a)) (reads_perm : xtoi g m number ≡ some (some perm))
    (walks : pgdir_walk pm.kern_pgdir a true pm ≡ ok (some e) pm')
    (change : m (how + 1) ≡ b'h') where
  abbrev argv : List ℕ
  argv = name ∷ addr ∷ how ∷ number ∷ []

  abbrev after : Pmap
  after = write_word e.table e.index (changed perm (read_pte pm' e)) pm'

  setperm-runs : setperm g m argv pm ≡ ok (some tt) after
  unfolding setperm
  setperm-runs = rw (reads_addr, walks, change, reads_perm) refl

  written : read_pte after e ≡ changed perm (read_pte pm' e)
  written = write_same pm'.mem e.table e.index (changed perm (read_pte pm' e))

  frame : perm < 8 → read_pte after e / 2 ^ 12 ≡ read_pte pm' e / 2 ^ 12 % 2 ^ 4
  frame lt = ap (λ (x : ℕ). x / 2 ^ 12) written ∙ changed-frame perm (read_pte pm' e) (omega arith)

  -- The command `setperm addr change perm`, with numbers that `xtoi` reads, a mode whose second character is
  -- `h`, `perm` below 8 and an entry found for the address: where the entry names a frame from 16 up, the
  -- command succeeds, and the entry then names the frame that is the old one modulo 16, another one.
  pub setperm-changes_frame :
      perm < 8
      → 16 ≤ read_pte pm' e / 2 ^ 12
      → (after : Pmap) × (setperm g m argv pm ≡ ok (some tt) after)
        × (read_pte after e / 2 ^ 12 ≡ read_pte pm' e / 2 ^ 12 % 2 ^ 4)
        × (pte_addr (read_pte after e) ≢ pte_addr (read_pte pm' e))
  setperm-changes_frame lt le =
      (after, setperm-runs, frame lt, λ same. omega (arith, frame lt, le, same))

hex_digit-digit_char : (d : ℕ) → d < 16 → hex_digit (digit_char d) ≡ some d
hex_digit-digit_char d lt = ground arith

abbrev after_digit : ℕ → Bytes → ℕ → ℕ → Option ℕ → Option (Option ℕ)
after_digit f m s val o = elim o [
  | none ↦ some none
  | some d ↦ xtoi_loop f m (s + 1) (word (val * 16 + d))
]

-- The loop on digits, when the value fits in 32 bits
xtoi_loop-value :
    (f : ℕ) (m : Bytes) (s val : ℕ) (cs : List ℕ)
    → IsString m s cs
    → All (IsDigit 16) cs
    → value 16 val cs < 2 ^ 32
    → length cs < f
    → xtoi_loop f m s val ≡ some (some (value 16 val cs))
unfolding xtoi_loop
xtoi_loop-value zero m s val cs str all fits lt = absurd (omega arith)
xtoi_loop-value (suc f) m s val [] str all fits lt = rw (str, xtoi_loop) refl
xtoi_loop-value (suc f) m s val (c ∷ cs) str all fits lt =
    let (d, e, small, same) = all.0 in
    let more : value 16 val (c ∷ cs) ≡ value 16 (val * 16 + d) cs =
      ap (λ (o : Option ℕ). value 16 (elim o [ none ↦ val | some d ↦ val * 16 + d ]) cs) e in
    let wraps : word (val * 16 + d) ≡ val * 16 + d =
      mod-eq_of_lt (omega (arith, more, value-le 16 (val * 16 + d) cs (omega arith) all.1)) in
    let not_end : (m s == 0) ≡ false = rw str.0 (==_ne c 0 str.1) in
    rw (xtoi_loop, not_end)
      (ap (after_digit f m s val) (ap hex_digit (str.0 ∙ same) ∙ hex_digit-digit_char d small)
        ∙ ap (xtoi_loop f m (s + 1)) wraps
        ∙ xtoi_loop-value f m (s + 1) (val * 16 + d) cs str.2 all.1 (omega (arith, more))
            (omega arith)
        ∙ ap (λ (n : ℕ). some (some n)) (sym more))

no_padding : (num padc : ℕ) (out : List ℕ) (p : Printed num 16 0 padc out) → out ≡ p.head ∷ p.tail
no_padding num padc out p =
    p.layout ∙ ap (λ (n : ℕ). replicate n padc ++ p.head ∷ p.tail) none_in_front
  where
    not_empty : (n : ℕ) → length (replicate n padc ++ p.head ∷ p.tail) ≢ 0
    not_empty zero = λ e. omega (arith, e)
    not_empty (suc n) = λ e. omega (arith, e)

    none_in_front : p.front ≡ 0
    none_in_front = elim p.tight [
      | inl le ↦ absurd (not_empty p.front (sym (ap length p.layout) ∙ omega (arith, le)))
      | inr e ↦ e
    ]

-- `xtoi` reads a number of 32 bits behind two characters, which it does not look at, as `printnum` prints it
-- in base 16 with no padding.
pub xtoi-printnum :
    (f : ℕ) (m : Bytes) (s num padc : ℕ) (out : List ℕ)
    → num < 2 ^ 32
    → printnum num_fuel num 16 0 padc ≡ some out
    → IsString m (s + 2) out
    → length out < f
    → xtoi f m s ≡ some (some num)
unfolding xtoi
xtoi-printnum f m s num padc out lt run str enough =
    let (out', run', h) =
      printnum-Printed num 16 0 padc (omega arith) (omega arith) (omega arith) in
    let p = subst (Printed num 16 0 padc) (some-injective out' out (sym run' ∙ run)) h in
    let plain : out ≡ p.head ∷ p.tail = no_padding num padc out p in
    xtoi_loop-value f m (s + 2) 0 (p.head ∷ p.tail) (subst (IsString m (s + 2)) plain str)
      p.all_digits (omega (arith, p.same)) (omega (arith, ap length plain))
    ∙ ap (λ (n : ℕ). some (some n)) p.same
