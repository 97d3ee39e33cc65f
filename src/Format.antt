-- ===== src/Format.antt =====
-- lib/printfmt.c: formatted printing.
--
-- What is printed is the list of the values given to `putch`, in their order. The format is the list of
-- its characters before the NUL. The variable arguments are 32-bit words, `va` by their place, read one
-- after the other; a `long long` takes two. `width` and `precision` are `none` where they are negative:
-- no code tells negative values apart. Signed numbers do not overflow in a width. A pointer to text is
-- read in the memory `m` of lib/string.c.
pub mod Escape
pub mod Number
pub mod Reading
pub mod Conversions
pub mod Ends
pub mod Buffer
pub mod Output
use challenge.Base.{
  ℕ, zero, suc, ◌+◌, ◌-◌, ◌*◌, ◌/◌, ◌%◌, ◌^◌, Bool, true, false, not, ◌&&◌, ◌||◌, Option, none,
  some, List, [], ◌∷◌, ◌++◌, ◌==◌, leb, ltb, if◌then◌else◌, update, replicate, get_elem?, length,
}
use challenge.Strings.{Bytes, ◌>>=◌, strnlen}
use challenge.Format.Escape.{Spec, new_spec, parse, int_arg, long_long_arg, is_negative, text_codes}

-- "0123456789abcdef"[d]
abbrev pub digit_char : ℕ → ℕ
digit_char d = if ltb d 10 then b'0' + d else b'a' + (d - 10)

-- `while (--width > 0) putch(padc, putdat);`. A negative width counts as 0.
abbrev pub pads : ℕ → ℕ → List ℕ
pads width padc = replicate (width - 1) padc

-- The recursion has fuel, one round for each digit.
unfoldable pub printnum : ℕ → ℕ → ℕ → ℕ → ℕ → Option (List ℕ)
printnum zero num base width padc = none
printnum (suc f) num base width padc =
    let before = printnum f (num / base) base (width - 1) padc in
    do
      out ← if leb base num then before else some (pads width padc)
      some (out ++ digit_char (num % base) ∷ [])

-- A number has at most 64 bits.
abbrev pub num_fuel : ℕ
num_fuel = 65

abbrev pub or_zero : Option ℕ → ℕ
or_zero none = 0
or_zero (some n) = n

-- The state of `vprintfmt` between two characters of the format.
pub record Printing : Type 0 where
  pub printed : List ℕ
  pub next_arg : ℕ
  pub console_color : ℕ

abbrev pub put : List ℕ → Printing → Printing
put cs s = record s { printed = s.printed ++ cs }

-- A `char` is signed: its value as the argument of `putch`.
abbrev pub char_arg : ℕ → ℕ
char_arg c = if is_negative 8 c then c + (2 ^ 32 - 2 ^ 8) else c

-- The loop of `%s` over the characters, with `left` of the precision: what is printed.
unfoldable pub text_loop : ℕ → Bytes → ℕ → Option ℕ → Bool → Option (List ℕ)
text_loop zero m p left altflag = none
text_loop (suc f) m p left altflag =
    let shown = if altflag && (ltb (m p) b' ' || ltb b'~' (m p)) then b'?' else char_arg (m p) in
    let rest = text_loop f m (p + 1) (elim left [ none ↦ none | some n ↦ some (n - 1) ]) altflag in
    if m p == 0
    then some []
    else if elim left [ none ↦ false | some n ↦ n == 0 ]
    then some []
    else (do cs ← rest; some (shown ∷ cs))

-- The padding in front of text; as a size, a negative precision is a large number.
text_pads : Bytes → ℕ → Spec → List ℕ
text_pads m p sp =
    let size : ℕ = elim sp.precision [ none ↦ 2 ^ 32 - 1 | some n ↦ n ] in
    if ltb 0 (or_zero sp.width) && not (sp.padc == b'-')
    then replicate (or_zero sp.width - strnlen m p size) sp.padc
    else []

-- The text in the case `%s`: the memory and the address, where a null pointer stands for "(null)".
abbrev pub text_at : Bytes → ℕ → Bytes × ℕ
text_at m p = if p == 0 then (λ i. or_zero (get_elem? (text_codes "(null)") i), 0) else (m, p)

-- The case `%s`: the padding, the text, and spaces up to the width where there was no padding.
unfoldable pub print_text : ℕ → Bytes → ℕ → Spec → Option (List ℕ)
unfolding text_loop text_pads
print_text f m p sp =
    let (text, start) = text_at m p in
    do
      cs ← text_loop f text start sp.precision sp.altflag
      some (
          text_pads text start sp
          ++ cs
          ++ (if sp.padc == b'-' then replicate (or_zero sp.width - length cs) b' ' else []))

-- `printnum` of a signed number, the case `%d`
abbrev pub print_signed : ℕ → ℕ → Spec → Option (List ℕ)
print_signed bits num sp =
    if is_negative bits num
    then (do
      cs ← printnum num_fuel (2 ^ bits - num) 10 (or_zero sp.width) sp.padc
      some (b'-' ∷ cs))
    else printnum num_fuel num 10 (or_zero sp.width) sp.padc

abbrev pub print_unsigned : ℕ → ℕ → Spec → Option (List ℕ)
print_unsigned num base sp = printnum num_fuel num base (or_zero sp.width) sp.padc

-- error_string, where E_NO_SYS has no text.
abbrev pub error_string : ℕ → Option (List ℕ)
error_string err =
    if err == 1
    then some (text_codes "unspecified error")
    else if err == 2
    then some (text_codes "bad environment")
    else if err == 3
    then some (text_codes "invalid parameter")
    else if err == 4
    then some (text_codes "out of memory")
    else if err == 5
    then some (text_codes "out of environments")
    else if err == 6
    then some (text_codes "segmentation fault")
    else if err == 8
    then some (text_codes "env is not recving")
    else if err == 9
    then some (text_codes "unexpected end of file")
    else none

-- The case `%e`, for the number `err` of 32 bits.
unfoldable pub print_error : ℕ → Option (List ℕ)
print_error err =
    let e = if is_negative 32 err then 2 ^ 32 - err else err in
    elim (error_string e) [
      | some cs ↦ some cs
      | none ↦ (do cs ← print_signed 32 e (new_spec 0); some (text_codes "error " ++ cs))
    ]

-- getint and getuint: the number, of 64 bits with `lflag` two or more, and where the arguments go on.
abbrev num_bits : ℕ → ℕ
num_bits lflag = if leb 2 lflag then 64 else 32

abbrev num_arg : (ℕ → ℕ) → Spec → ℕ
num_arg va sp = if leb 2 sp.lflag then long_long_arg va sp.arg else int_arg va sp.arg

abbrev after_num : Spec → ℕ
after_num sp = if leb 2 sp.lflag then sp.arg + 2 else sp.arg + 1

-- What a conversion prints, and the next argument.
abbrev Conversion : Type 0
Conversion = Option (List ℕ) × ℕ

-- The conversions that print, for the escape `sp`; `none` is an escape that is not recognized.
unfoldable pub convert : ℕ → Bytes → (ℕ → ℕ) → ℕ → Spec → Option Conversion
convert f m va c sp =
    if c == b'c'
    then some (some (int_arg va sp.arg ∷ []), sp.arg + 1)
    else if c == b'e'
    then some (print_error (int_arg va sp.arg), sp.arg + 1)
    else if c == b's'
    then some (print_text f m (int_arg va sp.arg) sp, sp.arg + 1)
    else if c == b'd'
    then some (print_signed (num_bits sp.lflag) (num_arg va sp) sp, after_num sp)
    else if c == b'u'
    then some (print_unsigned (num_arg va sp) 10 sp, after_num sp)
    else if c == b'o'
    then some (print_unsigned (num_arg va sp) 8 sp, after_num sp)
    else if c == b'p'
    then some
        ((do cs ← print_unsigned (int_arg va sp.arg) 16 sp; some (b'0' ∷ b'x' ∷ cs)), sp.arg + 1)
    else if c == b'x'
    then some (print_unsigned (num_arg va sp) 16 sp, after_num sp)
    else if c == b'%'
    then some (some (b'%' ∷ []), sp.arg)
    else none

-- The end of an escape, whose text after the '%' is `after`: the new state, and where the format goes on.
unfoldable pub finish :
    ℕ → Bytes → (ℕ → ℕ) → List ℕ → Spec × (ℕ × List ℕ) → Printing → Option (Printing × List ℕ)
finish f m va after (sp, (c, rest)) s =
    if c == b'r'
    then some (record s { console_color = num_arg va sp % 2 ^ 32; next_arg = after_num sp }, rest)
    else elim (convert f m va c sp) [
      | none ↦ some (put (b'%' ∷ []) (record s { next_arg = sp.arg }), after)
      | some conversion ↦ (do
        cs ← conversion.0
        some (put cs (record s { next_arg = conversion.1 }), rest))
    ]

-- The fuel `n` is for the characters of the format, and `f` for those of a text.
unfoldable pub vprintfmt : ℕ → ℕ → Bytes → (ℕ → ℕ) → List ℕ → Printing → Option Printing
vprintfmt zero f m va fmt s = none
vprintfmt (suc n) f m va [] s = some s
vprintfmt (suc n) f m va (c ∷ cs) s = elim (c == b'%') [
  | false ↦ vprintfmt n f m va cs (put (c ∷ []) s)
  | true ↦
      finish f m va cs (parse va (new_spec s.next_arg) cs) s >>= λ r. vprintfmt n f m va r.1 r.0
]

-- The arguments from the first one.
unfoldable pub printfmt : ℕ → ℕ → Bytes → (ℕ → ℕ) → List ℕ → ℕ → Option Printing
printfmt n f m va fmt color =
    vprintfmt n f m va fmt (record { printed = []; next_arg = 0; console_color = color })
