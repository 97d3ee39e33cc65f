-- ===== src/Format/Ends.antt =====
-- lib/printfmt.c: the end of formatted printing.
use challenge.Base.{
  ℕ, zero, suc, ◌≤◌, ◌<◌, ◌≡◌, refl, Bool, true, false, Option, none, some, List, [], ◌∷◌, arith,
  inl, inr, ◌==◌, if◌then◌else◌, length, Bool-cases, Option-cases,
}
use mathlib.Core.Bool.{false≢true}
use challenge.Strings.{Bytes, ◌>>=◌}
use challenge.Format.{Printing, Conversion, put, convert, finish, vprintfmt}
use challenge.Format.Escape.{Spec, parse, new_spec, flag_or_digit}
use challenge.Format.Conversions.{TextsEnd, AllEnd, convert-AllEnd}

-- What an escape leaves of the format.
parse-length : (va : ℕ → ℕ) (sp : Spec) (cs : List ℕ) → length (parse va sp cs).1.1 ≤ length cs
unfolding parse
parse-length va sp [] = omega arith
parse-length va sp (c ∷ cs) = elim (Option-cases (flag_or_digit va c sp)) [
  | inl e ↦ rw (length, e) (omega arith)
  | inr (sp', e) ↦ rw (length, e) (omega (arith, parse-length va sp' cs))
]

-- A round that returns and leaves no more of the format than `cs`.
abbrev Returns : List ℕ → Option (Printing × List ℕ) → Type 0
Returns cs o = (r : Printing × List ℕ) × (o ≡ some r) × (length r.1 ≤ length cs)

Returns-if :
    (cs : List ℕ) (b : Bool) (x y : Option (Printing × List ℕ))
    → Returns cs x
    → Returns cs y
    → Returns cs (if b then x else y)
Returns-if cs true x y p q = p
Returns-if cs false x y p q = q

Returns-conversion :
    (cs rest : List ℕ) (s : Printing) (other : Printing) (o : Option Conversion)
    → AllEnd o
    → length rest ≤ length cs
    → Returns cs (elim o [
      | none ↦ some (other, cs)
      | some conversion ↦ (do
        out ← conversion.0
        some (put out (record s { next_arg = conversion.1 }), rest))
    ])
unfolding AllEnd
Returns-conversion cs rest s other none all le = ((other, cs), refl, omega arith)
Returns-conversion cs rest s other (some (none, i)) all le = absurd (false≢true all)
Returns-conversion cs rest s other (some (some out, i)) all le =
    ((put out (record s { next_arg = i }), rest), refl, le)

finish-Returns :
    (f : ℕ) (m : Bytes) (va : ℕ → ℕ) (cs : List ℕ) (s : Printing) (sp : Spec) (c : ℕ)
    (rest : List ℕ)
    → 6 < f
    → TextsEnd f m va
    → length rest ≤ length cs
    → Returns cs (finish f m va cs (sp, (c, rest)) s)
unfolding finish
finish-Returns f m va cs s sp c rest long ends le =
    Returns-if cs (c == b'r') _ _ (_, refl, le)
      (Returns-conversion cs rest s _ (convert f m va c sp) (convert-AllEnd f m va c sp long ends)
        le)

-- The round for a '%', from its parts.
vprintfmt-escape :
    (n f : ℕ) (m : Bytes) (va : ℕ → ℕ) (c : ℕ) (cs : List ℕ) (s s' : Printing)
    (r : Printing × List ℕ)
    → (c == b'%') ≡ true
    → finish f m va cs (parse va (new_spec s.next_arg) cs) s ≡ some r
    → vprintfmt n f m va r.1 r.0 ≡ some s'
    → vprintfmt (suc n) f m va (c ∷ cs) s ≡ some s'
unfolding vprintfmt
vprintfmt-escape n f m va c cs s s' r e round run = rw (vprintfmt, e, round) run

-- Formatted printing returns: with fuel above the length of the format, when every argument, taken as
-- a pointer, is to a text that ends within `f` characters, and `f` is above 6, the length of "(null)".
pub vprintfmt_ends :
    (n f : ℕ) (m : Bytes) (va : ℕ → ℕ) (fmt : List ℕ) (s : Printing)
    → 6 < f
    → TextsEnd f m va
    → length fmt < n
    → (s' : Printing) × (vprintfmt n f m va fmt s ≡ some s')
unfolding vprintfmt
vprintfmt_ends zero f m va fmt s long ends lt = absurd (omega arith)
vprintfmt_ends (suc n) f m va [] s long ends lt = (s, refl)
vprintfmt_ends (suc n) f m va (c ∷ cs) s long ends lt = elim (Bool-cases (c == b'%')) [
  | inr e ↦
      let (s', run) = vprintfmt_ends n f m va cs (put (c ∷ []) s) long ends (omega arith) in
      (s', rw (vprintfmt, e) run)
  | inl e ↦
      let p = parse va (new_spec s.next_arg) cs in
      let (r, round, le) =
        finish-Returns f m va cs s p.0 p.1.0 p.1.1 long ends
          (parse-length va (new_spec s.next_arg) cs) in
      let (s', run) = vprintfmt_ends n f m va r.1 r.0 long ends (omega arith) in
      (s', vprintfmt-escape n f m va c cs s s' r e round run)
]
