-- ===== src/Format/Reading.antt =====
-- lib/string.c and lib/printfmt.c: `strtol` on the output of `printnum`.
use challenge.Base.{
  ℕ, zero, suc, ◌+◌, ◌*◌, ◌%◌, ◌^◌, ◌≤◌, ◌<◌, ◌≡◌, ◌≢◌, refl, sym, subst, ◌∙◌, ap, true, false,
  Option, none, some, List, [], ◌∷◌, ◌++◌, arith, leb, replicate, length, All, lt→not_leb, ==_ne,
  length-append, length-replicate,
}
use mathlib.Core.Option.{some-injective}
use native.Mathlib.Nat.{mul-le-mul_left, mod-eq_of_lt}
use challenge.Strings.{Bytes, strtol, digit, digits, skip_blanks, sign, prefix}
use challenge.Strings.Text.{IsString}
use challenge.Format.{printnum, num_fuel, digit_char}
use challenge.Format.Number.{IsDigit, Printed, value, printnum-Printed}

pub value-le :
    (base val : ℕ) (cs : List ℕ) → 0 < base → All (IsDigit base) cs → val ≤ value base val cs
value-le base val [] pos h = omega arith
value-le base val (c ∷ cs) pos h =
    let (d, e, _, _) = h.0 in
    let more : val * 1 ≤ val * base = mul-le-mul_left val pos in
    let step : elim (digit c) [ none ↦ val | some d ↦ val * base + d ] ≡ val * base + d =
      ap (λ (o : Option ℕ). elim o [ none ↦ val | some d ↦ val * base + d ]) e in
    omega (
      arith,
      more,
      step,
      value-le base (elim (digit c) [ none ↦ val | some d ↦ val * base + d ]) cs pos h.1,
    )

module _ (f : ℕ) (m : Bytes) (s base val : ℕ) where
  -- The loop by the digit at `s`.
  abbrev after : Option ℕ → Option (ℕ × ℕ)
  after o = elim o [
    | none ↦ some (val, s)
    | some dig ↦ elim (leb base dig) [
      | true ↦ some (val, s)
      | false ↦ digits f m (s + 1) base ((val * base + dig) % 2 ^ 32)
    ]
  ]

  no_digit : digit (m s) ≡ none → digits (suc f) m s base val ≡ some (val, s)
  unfolding digits
  no_digit e = ap after e

  next_digit :
      (d : ℕ)
      → digit (m s) ≡ some d
      → d < base
      → digits (suc f) m s base val ≡ digits f m (s + 1) base ((val * base + d) % 2 ^ 32)
  unfolding digits
  next_digit d e lt = ap after e ∙ rw (after, lt→not_leb base d lt) refl

-- The loop reads the digits up to the NUL, when the value fits in 32 bits.
digits-value :
    (f : ℕ) (m : Bytes) (s base val : ℕ) (cs : List ℕ)
    → IsString m s cs
    → All (IsDigit base) cs
    → 0 < base
    → value base val cs < 2 ^ 32
    → length cs < f
    → digits f m s base val ≡ some (value base val cs, s + length cs)
unfolding digits
digits-value zero m s base val cs str all pos fits lt = absurd (omega arith)
digits-value (suc f) m s base val [] str all pos fits lt =
    no_digit f m s base val (ap digit str) ∙ ap (λ (t : ℕ). some (val, t)) (omega arith)
digits-value (suc f) m s base val (c ∷ cs) str all pos fits lt =
    let (d, e, small, _) = all.0 in
    let more : value base val (c ∷ cs) ≡ value base (val * base + d) cs =
      ap (λ (o : Option ℕ). value base (elim o [ none ↦ val | some d ↦ val * base + d ]) cs) e in
    let wraps : (val * base + d) % 2 ^ 32 ≡ val * base + d =
      mod-eq_of_lt (omega (arith, more, value-le base (val * base + d) cs pos all.1)) in
    next_digit f m s base val d (ap digit str.0 ∙ e) small
    ∙ ap (digits f m (s + 1) base) wraps
    ∙ digits-value f m (s + 1) base (val * base + d) cs str.2 all.1 pos (omega (arith, more))
        (omega arith)
    ∙ rw more (ap (λ (t : ℕ). some (value base (val * base + d) cs, t)) (omega arith))

digit_char-not_special :
    (d : ℕ)
    → d < 16
    → (digit_char d ≢ b' ')
      × (digit_char d ≢ b'\t')
      × (digit_char d ≢ b'+')
      × (digit_char d ≢ b'-')
      × (digit_char d ≢ b'x')
digit_char-not_special d lt = (
  (λ e. ground arith),
  (λ e. ground arith),
  (λ e. ground arith),
  (λ e. ground arith),
  λ e. ground arith,
)

-- The blanks in front of the digits are skipped.
skip_blanks-lem :
    (f : ℕ) (m : Bytes) (s n c : ℕ) (cs : List ℕ)
    → IsString m s (replicate n b' ' ++ c ∷ cs)
    → c ≢ b' '
    → c ≢ b'\t'
    → n < f
    → (skip_blanks f m s ≡ some (s + n)) × IsString m (s + n) (c ∷ cs)
unfolding skip_blanks
skip_blanks-lem zero m s n c cs str b t lt = absurd (omega arith)
skip_blanks-lem (suc f) m s zero c cs str b t lt =
    let same : s ≡ s + 0 = omega arith in
    (
      rw (str.0, ==_ne c b' ' b, ==_ne c b'\t' t) (ap some same),
      subst (λ a. IsString m a (c ∷ cs)) same str,
    )
skip_blanks-lem (suc f) m s (suc n) c cs str b t lt =
    let rest = skip_blanks-lem f m (s + 1) n c cs str.2 b t (omega arith) in
    let same : s + 1 + n ≡ s + suc n = omega arith in
    (rw str.0 (rest.0 ∙ ap some same), subst (λ a. IsString m a (c ∷ cs)) same rest.1)

second_char :
    (m : Bytes) (s base : ℕ) (cs : List ℕ)
    → base ≤ 16
    → IsString m s cs
    → All (IsDigit base) cs
    → m s ≢ b'x'
second_char m s base [] le str all = λ e. omega (arith, str, e)
second_char m s base (c ∷ cs) le str all =
    let (d, _, small, same) = all.0 in
    λ e. (digit_char-not_special d (omega arith)).4 (sym same ∙ sym str.0 ∙ e)

-- A printed number has no sign and no prefix.
no_sign : (m : Bytes) (s : ℕ) → m s ≢ b'+' → m s ≢ b'-' → sign m s ≡ (false, s)
unfolding sign
no_sign m s plus minus = rw (==_ne (m s) b'+' plus, ==_ne (m s) b'-' minus) refl

no_prefix : (m : Bytes) (s base : ℕ) → 0 < base → m (s + 1) ≢ b'x' → prefix m s base ≡ (base, s)
unfolding prefix
no_prefix m s base pos ne =
    rw (==_ne base 0 (λ e. omega arith), ==_ne (m (s + 1)) b'x' ne) (ground arith)

-- `strtol` of digits alone, from its parts.
strtol_parts :
    (f : ℕ) (m : Bytes) (p s base v e : ℕ)
    → skip_blanks f m p ≡ some s
    → sign m s ≡ (false, s)
    → prefix m s base ≡ (base, s)
    → digits f m s base 0 ≡ some (v, e)
    → strtol f m p base ≡ some (v, e)
unfolding strtol
strtol_parts f m p s base v e skipped signed prefixed read =
    rw (skipped, signed, prefixed, read) refl

-- `strtol` reads the blanks and digits of a printed number.
strtol-Printed :
    (f : ℕ) (m : Bytes) (p num base width : ℕ) (out : List ℕ)
    → 1 < base
    → base ≤ 16
    → num < 2 ^ 32
    → Printed num base width b' ' out
    → IsString m p out
    → length out < f
    → strtol f m p base ≡ some (num, p + length out)
strtol-Printed f m p num base width out pos le lt h str enough =
    let (d, _, small, same) = h.all_digits.0 in
    let (blank, tab, plus, minus, _) = digit_char-not_special d (omega arith) in
    let size : length out ≡ h.front + suc (length h.tail) =
      ap length h.layout
      ∙ length-append (replicate h.front b' ') (h.head ∷ h.tail)
      ∙ ap (λ (t : ℕ). t + suc (length h.tail)) (length-replicate h.front b' ') in
    let (skipped, text) =
      skip_blanks-lem f m p h.front h.head h.tail (subst (λ t. IsString m p t) h.layout str)
        (λ e. blank (sym same ∙ e)) (λ e. tab (sym same ∙ e)) (omega (arith, size)) in
    let first : m (p + h.front) ≡ digit_char d = text.0 ∙ same in
    strtol_parts f m p (p + h.front) base num (p + length out) skipped
      (no_sign m (p + h.front) (λ e. plus (sym first ∙ e)) (λ e. minus (sym first ∙ e)))
      (no_prefix m (p + h.front) base (omega arith)
        (second_char m (p + h.front + 1) base h.tail le text.2 h.all_digits.1))
      (digits-value f m (p + h.front) base 0 (h.head ∷ h.tail) text h.all_digits (omega arith)
          (omega (arith, h.same)) (omega (arith, size))
        ∙ ap (λ (v : ℕ). some (v, p + h.front + suc (length h.tail))) h.same
        ∙ ap (λ (t : ℕ). some (num, t)) (omega (arith, size)))

-- `strtol` reads back a number of 32 bits that `printnum` printed with blanks in front, in the same
-- base from 2 to 16: it returns the number, and `endptr` is the end of the text.
pub strtol-printnum :
    (f : ℕ) (m : Bytes) (p num base width : ℕ) (out : List ℕ)
    → 1 < base
    → base ≤ 16
    → num < 2 ^ 32
    → printnum num_fuel num base width b' ' ≡ some out
    → IsString m p out
    → length out < f
    → strtol f m p base ≡ some (num, p + length out)
strtol-printnum f m p num base width out pos le lt run str enough =
    let (out', run', h) = printnum-Printed num base width b' ' pos le (omega arith) in
    strtol-Printed f m p num base width out pos le lt
      (subst (Printed num base width b' ') (some-injective out' out (sym run' ∙ run)) h) str enough
