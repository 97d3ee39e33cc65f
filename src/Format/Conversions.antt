-- ===== src/Format/Conversions.antt =====
-- lib/printfmt.c: each conversion of a format ends.
use challenge.Base.{
  ℕ, zero, suc, ◌+◌, ◌-◌, ◌%◌, ◌^◌, ◌≤◌, ◌<◌, ◌≡◌, refl, subst, ap, Bool, true, false, Option, none,
  some, List, ◌∷◌, arith, ◌==◌, if◌then◌else◌, is_some, lt→not_leb, ==_ne,
}
use native.Mathlib.Nat.{pow-le-pow_right, mod-lt}
use native.Mathlib.Decide.{dec_lt, ℕ_discrete}
use challenge.Strings.{Bytes, ◌>>=◌}
use challenge.Format.{
  Conversion, printnum, num_fuel, or_zero, text_loop, text_at, print_text, print_signed,
  print_unsigned, print_error, error_string, num_arg, num_bits, convert,
}
use challenge.Format.Escape.{Spec, new_spec, is_negative, int_arg}
use challenge.Format.Number.{printnum-Printed}

-- Every argument, taken as a pointer, is to a text that ends within `f` characters.
abbrev pub TextsEnd : ℕ → Bytes → (ℕ → ℕ) → Type 0
TextsEnd f m va = (i : ℕ) → (k : ℕ) × (k < f) × (m (va i % 2 ^ 32 + k) ≡ 0)

is_some-map :
    {A B : Type 0} (o : Option A) (g : A → B)
    → is_some o ≡ true
    → is_some (o >>= λ a. some (g a)) ≡ true
is_some-map none g h = h
is_some-map (some a) g h = refl

module _ {A : Type 0} where
  is_some-if :
      (b : Bool) (x y : Option A)
      → is_some x ≡ true
      → is_some y ≡ true
      → is_some (if b then x else y) ≡ true
  is_some-if true x y p q = p
  is_some-if false x y p q = q

  is_some-or :
      (o d : Option A) → is_some d ≡ true → is_some (elim o [ some a ↦ some a | none ↦ d ]) ≡ true
  is_some-or none d h = h
  is_some-or (some a) d h = refl

text_loop_ends :
    (f : ℕ) (m : Bytes) (p k : ℕ) (left : Option ℕ) (altflag : Bool)
    → m (p + k) ≡ 0
    → k < f
    → is_some (text_loop f m p left altflag) ≡ true
unfolding text_loop
text_loop_ends zero m p k left altflag e lt = absurd (omega arith)
text_loop_ends (suc f) m p zero left altflag e lt =
    let now : m p ≡ 0 = subst (λ a. m a ≡ 0) (omega arith) e in rw now refl
text_loop_ends (suc f) m p (suc k) left altflag e lt =
    let later : m (p + 1 + k) ≡ 0 = subst (λ a. m a ≡ 0) (omega arith) e in
    let left' : Option ℕ = elim left [ none ↦ none | some n ↦ some (n - 1) ] in
    is_some-if (m p == 0) _ _ refl (
      is_some-if (elim left [ none ↦ false | some n ↦ n == 0 ]) _ _ refl
        (is_some-map (text_loop f m (p + 1) left' altflag) _
          (text_loop_ends f m (p + 1) k left' altflag later (omega arith))))

printnum_ends :
    (num base width padc : ℕ)
    → 1 < base
    → base ≤ 16
    → num < 2 ^ 64
    → is_some (printnum num_fuel num base width padc) ≡ true
printnum_ends num base width padc pos le lt =
    let (out, run, _) = printnum-Printed num base width padc pos le lt in ap is_some run

print_signed_ends :
    (bits num : ℕ) (sp : Spec)
    → 0 < bits
    → num < 2 ^ bits
    → bits ≤ 64
    → is_some (print_signed bits num sp) ≡ true
print_signed_ends bits num sp pos lt le =
    let small : 2 ^ bits ≤ 2 ^ 64 = pow-le-pow_right {n = 2} (omega arith) le in
    let some_bit : 2 ^ 0 ≤ 2 ^ (bits - 1) =
      pow-le-pow_right {n = 2} (omega arith) {i = 0} {j = bits - 1} (omega arith) in
    elim (dec_lt num (2 ^ (bits - 1))) [
      | yes p ↦
          rw (lt→not_leb (2 ^ (bits - 1)) num p)
            (printnum_ends num 10 _ _ (omega arith) (omega arith) (omega arith))
      | no np ↦
          is_some-if (is_negative bits num) _ _
            (is_some-map (printnum num_fuel (2 ^ bits - num) 10 (or_zero sp.width) sp.padc) _ (
              printnum_ends (2 ^ bits - num) 10 _ _ (omega arith) (omega arith)
                (omega (arith, small, some_bit, np))))
            (printnum_ends num 10 _ _ (omega arith) (omega arith) (omega arith))
    ]

print_text_ends :
    (f : ℕ) (m : Bytes) (p k : ℕ) (sp : Spec)
    → 6 < f
    → m (p + k) ≡ 0
    → k < f
    → is_some (print_text f m p sp) ≡ true
unfolding print_text
print_text_ends f m p k sp long e lt =
    is_some-map (text_loop f (text_at m p).0 (text_at m p).1 sp.precision sp.altflag) _
      (elim (ℕ_discrete p 0) [
        | yes null ↦ rw null (text_loop_ends f _ 0 6 sp.precision sp.altflag refl long)
        | no np ↦ rw (==_ne p 0 np) (text_loop_ends f m p k sp.precision sp.altflag e lt)
      ])

print_error_ends : (err : ℕ) → err < 2 ^ 32 → is_some (print_error err) ≡ true
unfolding print_error
print_error_ends err lt =
    let e : ℕ = if is_negative 32 err then 2 ^ 32 - err else err in
    let small : e < 2 ^ 32 = ground arith in
    is_some-or (error_string e) _ (
      is_some-map (print_signed 32 e (new_spec 0)) _
        (print_signed_ends 32 e (new_spec 0) (omega arith) small (omega arith)))

unfoldable pub AllEnd : Option Conversion → Type 0
AllEnd none = Unit
AllEnd (some r) = is_some r.0 ≡ true

AllEnd-if : (b : Bool) (x y : Option Conversion) → AllEnd x → AllEnd y → AllEnd (if b then x else y)
AllEnd-if true x y p q = p
AllEnd-if false x y p q = q

AllEnd-some : (o : Option (List ℕ)) (i : ℕ) → is_some o ≡ true → AllEnd (some (o, i))
unfolding AllEnd
AllEnd-some o i h = h

AllEnd-none : AllEnd none
unfolding AllEnd
AllEnd-none = tt

num_arg_small : (va : ℕ → ℕ) (sp : Spec) → num_arg va sp < 2 ^ num_bits sp.lflag
num_arg_small va sp =
    let first = mod-lt (va sp.arg) {m = 2 ^ 32} (omega arith) in
    let second = mod-lt (va (sp.arg + 1)) {m = 2 ^ 32} (omega arith) in ground arith

num_bits_small : (n : ℕ) → (0 < num_bits n) × num_bits n ≤ 64
num_bits_small n = (ground arith, ground arith)

num_arg_below : (va : ℕ → ℕ) (sp : Spec) → num_arg va sp < 2 ^ 64
num_arg_below va sp =
    let first = mod-lt (va sp.arg) {m = 2 ^ 32} (omega arith) in
    let second = mod-lt (va (sp.arg + 1)) {m = 2 ^ 32} (omega arith) in ground arith

pub convert-AllEnd :
    (f : ℕ) (m : Bytes) (va : ℕ → ℕ) (c : ℕ) (sp : Spec)
    → 6 < f
    → TextsEnd f m va
    → AllEnd (convert f m va c sp)
unfolding convert
convert-AllEnd f m va c sp long ends =
    let (k, lt, e) = ends sp.arg in
    let text = print_text_ends f m (int_arg va sp.arg) k sp long e lt in
    let signed =
      print_signed_ends (num_bits sp.lflag) (num_arg va sp) sp (num_bits_small sp.lflag).0
        (num_arg_small va sp) (num_bits_small sp.lflag).1 in
    let unsigned : (base : ℕ)
        → 1 < base
        → base ≤ 16
        → is_some (print_unsigned (num_arg va sp) base sp) ≡ true =
      λ base pos le. printnum_ends (num_arg va sp) base _ _ pos le (num_arg_below va sp) in
    let pointer =
      is_some-map (print_unsigned (int_arg va sp.arg) 16 sp) (λ cs. b'0' ∷ b'x' ∷ cs)
        (printnum_ends (int_arg va sp.arg) 16 _ _ (omega arith) (omega arith)
          (omega (arith, mod-lt (va sp.arg) {m = 2 ^ 32} (omega arith)))) in
    AllEnd-if (c == b'c') _ _ (AllEnd-some _ _ refl) (
      AllEnd-if (c == b'e') _ _
        (AllEnd-some _ _ (print_error_ends (int_arg va sp.arg) (mod-lt (va sp.arg) (omega arith))))
        (AllEnd-if (c == b's') _ _ (AllEnd-some _ _ text) (
          AllEnd-if (c == b'd') _ _ (AllEnd-some _ _ signed) (
            AllEnd-if (c == b'u') _ _ (AllEnd-some _ _ (unsigned 10 (omega arith) (omega arith))) (
              AllEnd-if (c == b'o') _ _ (AllEnd-some _ _ (unsigned 8 (omega arith) (omega arith))) (
                AllEnd-if (c == b'p') _ _ (AllEnd-some _ _ pointer) (
                  AllEnd-if (c == b'x') _ _
                    (AllEnd-some _ _ (unsigned 16 (omega arith) (omega arith)))
                    (AllEnd-if (c == b'%') _ _ (AllEnd-some _ _ refl) AllEnd-none))))))))
