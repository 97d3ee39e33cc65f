-- ===== src/Format/Number.antt =====
-- lib/printfmt.c: the padding and the digits that `printnum` prints.
use challenge.Base.{
  ℕ, zero, suc, ◌+◌, ◌-◌, ◌*◌, ◌/◌, ◌%◌, ◌^◌, ◌≤◌, ◌<◌, ◌≡◌, refl, ◌∙◌, ap, true, Option, none,
  some, List, [], ◌∷◌, ◌++◌, arith, ◌⊎◌, inl, inr, leb, replicate, length, All, lt→not_leb,
  All-append, append_assoc, length-append, length-replicate,
}
use native.Mathlib.Nat.{
  mod-lt, div-add-mod', div-lt_iff_lt-mul, pow-succ', mul-le-mul_left, mod-eq_of_lt,
}
use native.Mathlib.Decide.{dec_lt}
use challenge.Strings.{digit}
use challenge.Format.{printnum, num_fuel, digit_char, pads}

-- The number that the digits `cs` in base `base` continue from `val`.
abbrev pub value : ℕ → ℕ → List ℕ → ℕ
value base val [] = val
value base val (c ∷ cs) = value base (elim (digit c) [ none ↦ val | some d ↦ val * base + d ]) cs

abbrev pub IsDigit : ℕ → ℕ → Type 0
IsDigit base c = (d : ℕ) × (digit c ≡ some d) × (d < base) × (c ≡ digit_char d)

-- The padding in front of the digits of `num`.
pub record Printed (num base width padc : ℕ) (out : List ℕ) : Type 0 where
  pub front : ℕ
  pub head : ℕ
  pub tail : List ℕ
  pub layout : out ≡ replicate front padc ++ head ∷ tail
  pub all_digits : All (IsDigit base) (head ∷ tail)
  pub same : value base 0 (head ∷ tail) ≡ num
  pub enough : width ≤ length out
  pub tight : length out ≤ width ⊎ (front ≡ 0)

digit-digit_char : (d : ℕ) → d < 16 → digit (digit_char d) ≡ some d
digit-digit_char d h = ground arith

digit_char-IsDigit : (base d : ℕ) → d < base → base ≤ 16 → IsDigit base (digit_char d)
digit_char-IsDigit base d h le = (d, digit-digit_char d (omega arith), h, refl)

value-append :
    (base val : ℕ) (cs : List ℕ) (d : ℕ)
    → digit (digit_char d) ≡ some d
    → value base val (cs ++ digit_char d ∷ []) ≡ value base val cs * base + d
value-append base val [] d h =
    ap (λ (o : Option ℕ). value base (elim o [ none ↦ val | some e ↦ val * base + e ]) []) h
value-append base val (c ∷ cs) d h =
    value-append base (elim (digit c) [ none ↦ val | some e ↦ val * base + e ]) cs d h

-- One digit is printed behind the padding.
last-Printed :
    (num base width padc : ℕ)
    → num < base
    → base ≤ 16
    → Printed num base width padc (pads width padc ++ digit_char num ∷ [])
last-Printed num base width padc lt le =
    let size : length (pads width padc ++ digit_char num ∷ []) ≡ width - 1 + 1 =
      length-append (pads width padc) (digit_char num ∷ [])
      ∙ ap (λ (t : ℕ). t + 1) (length-replicate (width - 1) padc) in
    record {
      front = width - 1;
      head = digit_char num;
      tail = [];
      layout = refl;
      all_digits = (digit_char-IsDigit base num lt le, tt);
      same =
          ap (λ (o : Option ℕ). value base (elim o [ none ↦ 0 | some e ↦ 0 * base + e ]) [])
            (digit-digit_char num (omega arith))
          ∙ omega arith;
      enough = omega (arith, size);
      tight = elim (dec_lt 0 width) [
        | yes p ↦ inl (omega (arith, size))
        | no p ↦ inr (omega arith)
      ];
    }

-- One more digit is printed behind those of the quotient.
next-Printed :
    (num base width padc : ℕ) (out : List ℕ)
    → 0 < base
    → base ≤ 16
    → Printed (num / base) base (width - 1) padc out
    → Printed num base width padc (out ++ digit_char (num % base) ∷ [])
next-Printed num base width padc out pos le h =
    let small : num % base < base = mod-lt num pos in
    let size : length (out ++ digit_char (num % base) ∷ []) ≡ length out + 1 =
      length-append out (digit_char (num % base) ∷ []) in
    let some_digit : 0 < length out =
      omega (arith, ap length h.layout, length-append (replicate h.front padc) (h.head ∷ h.tail)) in
    record {
      front = h.front;
      head = h.head;
      tail = h.tail ++ digit_char (num % base) ∷ [];
      layout =
          ap (λ (t : List ℕ). t ++ digit_char (num % base) ∷ []) h.layout
          ∙ append_assoc (replicate h.front padc) (h.head ∷ h.tail) (digit_char (num % base) ∷ []);
      all_digits =
          All-append (IsDigit base) (h.head ∷ h.tail) (digit_char (num % base)) h.all_digits
            (digit_char-IsDigit base (num % base) small le);
      same =
          value-append base 0 (h.head ∷ h.tail) (num % base)
            (digit-digit_char (num % base) (omega arith))
          ∙ ap (λ (t : ℕ). t * base + num % base) h.same
          ∙ div-add-mod' num base;
      enough = omega (arith, h.enough, size);
      tight = elim h.tight [ inl p ↦ inl (omega (arith, size, some_digit)) | inr p ↦ inr p ];
    }

-- A quotient has one binary digit less.
div-lt_pow : (f num base : ℕ) → 1 < base → num < 2 ^ suc f → num / base < 2 ^ f
div-lt_pow f num base pos lt =
    let twice : 2 ^ f * 2 ≤ 2 ^ f * base = mul-le-mul_left (2 ^ f) pos in
    (div-lt_iff_lt-mul (omega arith)).1 (omega (arith, twice, pow-succ' 2 f))

-- With `2 ^ f` above the number, `f + 1` rounds are enough.
printnum_loop-Printed :
    (f num base width padc : ℕ)
    → 1 < base
    → base ≤ 16
    → num < 2 ^ f
    → (out : List ℕ) × (printnum (suc f) num base width padc ≡ some out)
      × Printed num base width padc out
unfolding printnum
printnum_loop-Printed zero num base width padc pos le lt = (
  pads width padc ++ digit_char num ∷ [],
  rw (lt→not_leb base num (omega arith), mod-eq_of_lt {n = num} {m = base} (omega arith)) refl,
  last-Printed num base width padc (omega arith) le,
)
printnum_loop-Printed (suc f) num base width padc pos le lt = elim (dec_lt num base) [
  | yes p ↦ (
    pads width padc ++ digit_char num ∷ [],
    rw (lt→not_leb base num p, mod-eq_of_lt {n = num} {m = base} p) refl,
    last-Printed num base width padc p le,
  )
  | no np ↦
      let e : leb base num ≡ true = ground arith in
      let (out, run, h) =
        printnum_loop-Printed f (num / base) base (width - 1) padc pos le
          (div-lt_pow f num base pos lt) in
      (
        out ++ digit_char (num % base) ∷ [],
        rw (e, run) refl,
        next-Printed num base width padc out (omega arith) le h,
      )
]

-- A number of 64 bits, in a base from 2 to 16, is printed: its digits in that base, the first one
-- first, behind as much of the padding as the width asks for.
pub printnum-Printed :
    (num base width padc : ℕ)
    → 1 < base
    → base ≤ 16
    → num < 2 ^ 64
    → (out : List ℕ) × (printnum num_fuel num base width padc ≡ some out)
      × Printed num base width padc out
printnum-Printed num base width padc = printnum_loop-Printed 64 num base width padc
