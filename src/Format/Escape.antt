-- ===== src/Format/Escape.antt =====
-- lib/printfmt.c: the flags of a %-escape, and the arguments that they and the conversions take.
use Prim.Native.Char.{code}
use Prim.Native.String.{String}
use challenge.Base.{
  ℕ, ◌+◌, ◌-◌, ◌*◌, ◌%◌, ◌^◌, Bool, true, false, ◌&&◌, Option, none, some, List, [], ◌∷◌, ◌==◌, leb,
  if◌then◌else◌,
}

-- The bytes of a text in the source.
abbrev pub text_codes : String → List ℕ
text_codes String.[] = []
text_codes (String.◌∷◌ c s) = code c ∷ text_codes s

-- Whether a number of `bits` bits is negative.
abbrev pub is_negative : ℕ → ℕ → Bool
is_negative bits n = leb (2 ^ (bits - 1)) n

abbrev pub int_arg : (ℕ → ℕ) → ℕ → ℕ
int_arg va i = va i % 2 ^ 32

abbrev pub long_long_arg : (ℕ → ℕ) → ℕ → ℕ
long_long_arg va i = va i % 2 ^ 32 + va (i + 1) % 2 ^ 32 * 2 ^ 32

-- The variables of `vprintfmt` for one escape; `number` is the number that is being read.
pub record Spec : Type 0 where
  pub padc : ℕ
  pub width : Option ℕ
  pub precision : Option ℕ
  pub lflag : ℕ
  pub altflag : Bool
  pub number : Option ℕ
  pub arg : ℕ

abbrev pub new_spec : ℕ → Spec
new_spec i = record {
  padc = b' ';
  width = none;
  precision = none;
  lflag = 0;
  altflag = false;
  number = none;
  arg = i;
}

-- `process_precision`, for the precision `p`
abbrev process_precision : Option ℕ → Spec → Spec
process_precision p sp = elim sp.width [
  | none ↦ record sp { width = p; precision = none }
  | some w ↦ record sp { precision = p }
]

-- The end of a number: the character `c` is not a digit of it.
abbrev pub settle : ℕ → Spec → Spec
settle c sp = elim sp.number [
  | none ↦ sp
  | some n ↦
      if leb b'0' c && leb c b'9'
      then sp
      else process_precision (some n) (record sp { number = none })
]

-- `va_arg(ap, int)` as a width or precision
abbrev star_arg : (ℕ → ℕ) → ℕ → Option ℕ
star_arg va i = if is_negative 32 (int_arg va i) then none else some (int_arg va i)

-- The cases of the switch that go on to the next character, for one that starts no conversion.
flag : (ℕ → ℕ) → ℕ → Spec → Option Spec
flag va c sp =
    if c == b'-'
    then some (record sp { padc = b'-' })
    else if c == b'0'
    then some (record sp { padc = b'0' })
    else if leb b'1' c && leb c b'9'
    then some (record sp { number = some (c - b'0') })
    else if c == b'*'
    then some (process_precision (star_arg va sp.arg) (record sp { arg = sp.arg + 1 }))
    else if c == b'.'
    then some (record sp { width = elim sp.width [ none ↦ some 0 | some w ↦ some w ] })
    else if c == b'#'
    then some (record sp { altflag = true })
    else if c == b'l'
    then some (record sp { lflag = sp.lflag + 1 })
    else none

-- One character of an escape: `none` where it is a conversion.
unfoldable pub flag_or_digit : (ℕ → ℕ) → ℕ → Spec → Option Spec
unfolding flag
flag_or_digit va c sp = elim (settle c sp).number [
  | none ↦ flag va c (settle c sp)
  | some n ↦ some (record sp { number = some (n * 10 + (c - b'0')) })
]

-- The flags, the conversion and the rest of the format; a NUL, the end of the format, is 0.
unfoldable pub parse : (ℕ → ℕ) → Spec → List ℕ → Spec × (ℕ × List ℕ)
unfolding flag_or_digit
parse va sp [] = (settle 0 sp, (0, []))
parse va sp (c ∷ cs) = elim (flag_or_digit va c sp) [
  | some sp' ↦ parse va sp' cs
  | none ↦ (settle c sp, (c, cs))
]
