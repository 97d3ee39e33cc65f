-- ===== src/Examples/Printing.antt =====
-- Printing into a small memory.
use challenge.Base.{
  ℕ, ◌-◌, ◌%◌, ◌^◌, ◌≡◌, refl, none, some, List, [], arith, get_elem?, All, leb, if◌then◌else◌,
}
use challenge.Strings.{Bytes, strtol, memmove}
use challenge.Strings.Move.{moved, memmove-moved}
use challenge.Format.Escape.{text_codes, parse, flag_or_digit}
use challenge.Format.{Printing, printnum, convert, finish, vprintfmt, printfmt, num_fuel}
use challenge.Format.Reading.{strtol-printnum}
use challenge.Format.Conversions.{TextsEnd}
use challenge.Format.Ends.{vprintfmt_ends}
use challenge.Format.Buffer.{vsnprintf, stored_byte, vsnprintf-stored}
use challenge.Format.Output.{user_vcprintf, concat, bytes_of, Short, user_vcprintf-Short}

abbrev zeros : Bytes
zeros _ = 0

abbrev arguments : ℕ → ℕ
arguments i = if leb i 0 then 1234 else 0x1000

abbrev start : Printing
start = record { printed = []; next_arg = 0; console_color = 7 }

texts-TextsEnd : TextsEnd 7 zeros arguments
texts-TextsEnd i = (0, omega arith, refl)

vprintfmt_ends_example :
    (s' : Printing) × (vprintfmt 12 7 zeros arguments (text_codes "%08d: %s%q") start ≡ some s')
vprintfmt_ends_example =
    vprintfmt_ends 12 7 zeros arguments (text_codes "%08d: %s%q") start (omega arith) texts-TextsEnd
      (omega arith)

-- "  ff" at the address 100
abbrev digits : List ℕ
digits = text_codes "  ff"

abbrev digits_memory : Bytes
digits_memory a =
    if leb 100 a then elim (get_elem? digits (a - 100)) [ none ↦ 0 | some c ↦ c ] else 0

printed_digits : printnum num_fuel 255 16 4 b' ' ≡ some digits
unfolding printnum
printed_digits = refl

strtol-printnum_example : strtol 6 digits_memory 100 16 ≡ some (255, 104)
strtol-printnum_example =
    strtol-printnum 6 digits_memory 100 255 16 4 digits (omega arith) (omega arith) (omega arith)
      printed_digits
      (
        refl,
        (λ e. omega arith),
        (refl, (λ e. omega arith), (refl, (λ e. omega arith), (refl, (λ e. omega arith), refl))),
      )
      (omega arith)

abbrev number : Printing
number = record { printed = text_codes "n=1234"; next_arg = 1; console_color = 7 }

number_printed : printfmt 5 7 zeros arguments (text_codes "n=%d") 7 ≡ some number
unfolding printfmt vprintfmt finish convert parse flag_or_digit printnum
number_printed = refl

number_printed_from : (m : Bytes) → printfmt 5 7 m arguments (text_codes "n=%d") 7 ≡ some number
unfolding printfmt vprintfmt finish convert parse flag_or_digit printnum
number_printed_from m = refl

vsnprintf-stored_example :
    (m' : Bytes) × (vsnprintf 5 7 zeros 200 4 (text_codes "n=%d") arguments 7 ≡ some (m', 6, 7))
    × (m' 202 ≡ stored_byte zeros 200 4 (text_codes "n=1234") 202)
vsnprintf-stored_example =
    vsnprintf-stored 5 7 zeros 200 4 (text_codes "n=%d") arguments 7 number 202 (omega arith)
      (omega arith) (omega arith) (omega arith) (λ m' same. number_printed_from m')

user_vcprintf-Short_example :
    (texts : List (List ℕ)) × (user_vcprintf 5 7 zeros (text_codes "n=%d") arguments 7
      ≡ some (texts, 6))
    × (concat texts ≡ bytes_of (text_codes "n=1234"))
    × All Short texts
user_vcprintf-Short_example =
    user_vcprintf-Short 5 7 zeros (text_codes "n=%d") arguments 7 number number_printed

abbrev numbered : Bytes
numbered a = a % 2 ^ 8

memmove-moved_example : memmove numbered 5 3 4 6 ≡ moved 4 3 5 numbered 6
memmove-moved_example = memmove-moved numbered 5 3 4 (omega arith) (omega arith) 6
