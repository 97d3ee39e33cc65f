-- ===== src/Format/Buffer.antt =====
-- lib/printfmt.c: printing into a buffer, `vsnprintf` and `snprintf`.
--
-- The source stores each character as soon as it is printed; here the output is printed to a list first, from the
-- memory before the call. The two agree where the printing reads nothing from the buffer, as `ReadsOutside` says;
-- for a text of the arguments that lies in the buffer they do not.
use challenge.Base.{
  ℕ, zero, suc, ◌+◌, ◌-◌, ◌%◌, ◌^◌, ◌≤◌, ◌<◌, ◌≡◌, refl, sym, subst, ◌∙◌, ap, ◌&&◌, ◌||◌, Option,
  some, List, [], ◌∷◌, arith, leb, ltb, ◌==◌, if◌then◌else◌, update, length, ==_ne, lt→not_leb,
  lt→ltb, le→not_ltb, ◌⊎◌,
}
use native.Mathlib.Nat.{mod-eq_of_lt}
use native.Mathlib.Decide.{ℕ_discrete, dec_lt}
use challenge.Strings.{Bytes, ◌>>=◌}
use challenge.Format.Escape.{is_negative}
use challenge.Format.{Printing, printfmt}

pub record Sprintbuf : Type 0 where
  pub buf : ℕ
  pub ebuf : ℕ
  pub cnt : ℕ

unfoldable pub sprintputch : ℕ → Bytes × Sprintbuf → Bytes × Sprintbuf
sprintputch ch (m, b) =
    if ltb b.buf b.ebuf
    then (update m b.buf (ch % 2 ^ 8), record b { buf = b.buf + 1; cnt = b.cnt + 1 })
    else (m, record b { cnt = b.cnt + 1 })

-- `vprintfmt` with `sprintputch`
put_all : List ℕ → Bytes × Sprintbuf → Bytes × Sprintbuf
unfolding sprintputch
put_all [] r = r
put_all (c ∷ cs) r = put_all cs (sprintputch c r)

-- The memory, the value returned and the color, for the buffer `buf` of `n` bytes.
unfoldable pub vsnprintf : ℕ → ℕ → Bytes → ℕ → ℕ → List ℕ → (ℕ → ℕ) → ℕ → Option (Bytes × ℕ × ℕ)
unfolding put_all
vsnprintf f g m buf n fmt va color =
    if buf == 0 || (n == 0 || is_negative 32 n) then some (m, 2 ^ 32 - 3, color) else (do
      s ← printfmt f g m va fmt color
      let r = put_all s.printed (m, record { buf = buf; ebuf = (buf + n - 1) % 2 ^ 32; cnt = 0 })
      some (update r.0 r.1.buf 0, r.1.cnt % 2 ^ 32, s.console_color))

-- The bytes of the characters `cs`.
abbrev pub byte_at : List ℕ → ℕ → ℕ
byte_at [] i = 0
byte_at (c ∷ cs) zero = c % 2 ^ 8
byte_at (c ∷ cs) (suc i) = byte_at cs i

-- How many of the characters `cs` fit in `room` bytes.
abbrev pub fitting : ℕ → List ℕ → ℕ
fitting room cs = if ltb (length cs) room then length cs else room

-- The byte at `a` when `k` of the characters `cs` stand at `buf`.
abbrev pub printed_byte : Bytes → ℕ → ℕ → List ℕ → ℕ → ℕ
printed_byte m buf k cs a = if leb buf a && ltb a (buf + k) then byte_at cs (a - buf) else m a

-- The state that has printed `cs` from the state `m`, `b`.
record Filled (m : Bytes) (b : Sprintbuf) (cs : List ℕ) (r : Bytes × Sprintbuf) : Type 0 where
  bytes : (a : ℕ) → r.0 a ≡ printed_byte m b.buf (fitting (b.ebuf - b.buf) cs) cs a
  end : r.1.buf ≡ b.buf + fitting (b.ebuf - b.buf) cs
  count : r.1.cnt ≡ b.cnt + length cs

printed_byte-none : (m : Bytes) (buf : ℕ) (cs : List ℕ) (a : ℕ) → m a ≡ printed_byte m buf 0 cs a
printed_byte-none m buf cs a = ground arith

printed_byte-cons :
    (m : Bytes) (buf k c : ℕ) (cs : List ℕ) (a : ℕ)
    → printed_byte (update m buf (c % 2 ^ 8)) (buf + 1) k cs a
      ≡ printed_byte m buf (suc k) (c ∷ cs) a
printed_byte-cons m buf k c cs a = elim (dec_lt buf a) [
  | yes p ↦
      let next : byte_at (c ∷ cs) (a - buf) ≡ byte_at cs (a - (buf + 1)) =
        ap (byte_at (c ∷ cs)) {x = a - buf} {y = suc (a - (buf + 1))} (omega arith) in
      ground (arith, next)
  | no np ↦ elim (ℕ_discrete a buf) [
    | yes e ↦
        let first : byte_at (c ∷ cs) (a - buf) ≡ c % 2 ^ 8 =
          ap (byte_at (c ∷ cs)) {x = a - buf} {y = 0} (omega arith) in
        ground (arith, first)
    | no ne ↦ ground arith
  ]
]

fitting-cons : (room c : ℕ) (cs : List ℕ) → fitting (suc room) (c ∷ cs) ≡ suc (fitting room cs)
fitting-cons room c cs = ground arith

fitting-nil : (room : ℕ) → fitting room [] ≡ 0
fitting-nil room = ground arith

fitting-none : (cs : List ℕ) → fitting 0 cs ≡ 0
fitting-none cs = ground arith

put_all-Filled :
    (cs : List ℕ) (m : Bytes) (b : Sprintbuf) → b.buf ≤ b.ebuf → Filled m b cs (put_all cs (m, b))
unfolding put_all sprintputch
put_all-Filled [] m b le = record {
  bytes = λ a.
      printed_byte-none m b.buf [] a
      ∙ ap (λ (n : ℕ). printed_byte m b.buf n [] a) (sym (fitting-nil (b.ebuf - b.buf)));
  end = omega (arith, fitting-nil (b.ebuf - b.buf));
  count = omega arith;
}
put_all-Filled (c ∷ cs) m b le = elim (dec_lt b.buf b.ebuf) [
  | yes p ↦
      let h =
        put_all-Filled cs (update m b.buf (c % 2 ^ 8))
          (record b { buf = b.buf + 1; cnt = b.cnt + 1 }) (omega arith) in
      let room : fitting (b.ebuf - b.buf) (c ∷ cs) ≡ suc (fitting (b.ebuf - (b.buf + 1)) cs) =
        ap (λ (n : ℕ). fitting n (c ∷ cs)) {x = b.ebuf - b.buf} {y = suc (b.ebuf - (b.buf + 1))}
          (omega arith)
        ∙ fitting-cons (b.ebuf - (b.buf + 1)) c cs in
      subst (Filled m b (c ∷ cs)) (ap (put_all cs) (rw (lt→ltb b.buf b.ebuf p) refl)) (record {
        bytes = λ a.
            h.bytes a
            ∙ printed_byte-cons m b.buf (fitting (b.ebuf - (b.buf + 1)) cs) c cs a
            ∙ ap (λ (n : ℕ). printed_byte m b.buf n (c ∷ cs) a) (sym room);
        end = h.end ∙ omega (arith, room);
        count = h.count ∙ omega arith;
      })
  | no np ↦
      let h = put_all-Filled cs m (record b { cnt = b.cnt + 1 }) le in
      let room : (xs : List ℕ) → fitting (b.ebuf - b.buf) xs ≡ 0 = λ xs.
        ap (λ (n : ℕ). fitting n xs) {x = b.ebuf - b.buf} {y = 0} (omega arith) ∙ fitting-none xs in
      subst (Filled m b (c ∷ cs))
        (ap (put_all cs) (rw (le→not_ltb b.buf b.ebuf (omega arith)) refl))
        (record {
          bytes = λ a.
              h.bytes a
              ∙ ap (λ (n : ℕ). printed_byte m b.buf n cs a) (room cs)
              ∙ sym (printed_byte-none m b.buf cs a)
              ∙ printed_byte-none m b.buf (c ∷ cs) a
              ∙ ap (λ (n : ℕ). printed_byte m b.buf n (c ∷ cs) a) (sym (room (c ∷ cs)));
          end = h.end ∙ omega (arith, room cs, room (c ∷ cs));
          count = h.count ∙ omega arith;
        })
]

-- The byte at `a` when `cs` is stored in the `n` bytes at `buf`: as many characters as fit in `n - 1`
-- bytes, and a NUL behind them.
abbrev pub stored_byte : Bytes → ℕ → ℕ → List ℕ → ℕ → ℕ
stored_byte m buf n cs a =
    if a == buf + fitting (n - 1) cs then 0 else printed_byte m buf (fitting (n - 1) cs) cs a

-- The printing, with the fuel `f` and `g`, ends in the state `s` whatever the `n` bytes at `buf` hold.
abbrev pub ReadsOutside : ℕ → ℕ → Bytes → ℕ → ℕ → List ℕ → (ℕ → ℕ) → ℕ → Printing → Type 0
ReadsOutside f g m buf n fmt va color s =
    (m' : Bytes)
    → ((x : ℕ) → ((x < buf) ⊎ (buf + n ≤ x)) → m' x ≡ m x)
    → printfmt f g m' va fmt color ≡ some s

-- For a buffer of `n` bytes that is not null and lies in the address space, with `0 < n < 2 ^ 31`, where the fuel is
-- enough for the printing and the printing is the same whatever the buffer holds, so that no text of the arguments
-- lies in it: `vsnprintf` returns the number of characters of the whole output, and leaves in memory the `n - 1` first of
-- them, or all, and a NUL behind them; every byte outside the buffer stays.
pub vsnprintf-stored :
    (f g : ℕ) (m : Bytes) (buf n : ℕ) (fmt : List ℕ) (va : ℕ → ℕ) (color : ℕ) (s : Printing) (a : ℕ)
    → 0 < buf
    → 0 < n
    → n < 2 ^ 31
    → buf + n ≤ 2 ^ 32
    → ReadsOutside f g m buf n fmt va color s
    → (m' : Bytes) × (vsnprintf f g m buf n fmt va color
        ≡ some (m', length s.printed % 2 ^ 32, s.console_color))
      × (m' a ≡ stored_byte m buf n s.printed a)
unfolding vsnprintf
vsnprintf-stored f g m buf n fmt va color s a pos some_room small fits outside =
    let run = outside m (λ x o. refl) in
    let b : Sprintbuf = record { buf = buf; ebuf = (buf + n - 1) % 2 ^ 32; cnt = 0 } in
    let last : b.ebuf ≡ buf + n - 1 = mod-eq_of_lt (omega arith) in
    let h = put_all-Filled s.printed m b (omega (arith, last)) in
    let room : fitting (b.ebuf - buf) s.printed ≡ fitting (n - 1) s.printed =
      ap (λ (k : ℕ). fitting k s.printed) {x = b.ebuf - buf} {y = n - 1} (omega (arith, last)) in
    let r = put_all s.printed (m, b) in
    let total : r.1.cnt ≡ length s.printed = h.count ∙ omega arith in
    (
      update r.0 r.1.buf 0,
      rw
          (
            ==_ne buf 0 (λ e. omega arith),
            ==_ne n 0 (λ e. omega arith),
            lt→not_leb (2 ^ 31) n small,
            run,
          )
          (ap (λ (t : ℕ). some (update r.0 r.1.buf 0, t % 2 ^ 32, s.console_color)) total),
      ap (λ (t : ℕ). if a == t then 0 else r.0 a) (h.end ∙ ap (λ (k : ℕ). buf + k) room)
          ∙ ap (λ (t : ℕ). if a == buf + fitting (n - 1) s.printed then 0 else t)
              (h.bytes a ∙ ap (λ (k : ℕ). printed_byte m buf k s.printed a) room),
    )
