-- ===== src/Console/Queue.antt =====
-- kern/console.c: the buffer of input, as a queue of characters.
use challenge.Base.{
  ℕ, suc, ◌+◌, ◌%◌, ◌^◌, ◌<◌, ◌≡◌, ◌≢◌, refl, sym, subst, subst₂, true, ◌∙◌, ap, List, [], ◌∷◌,
  ◌++◌, arith, ◌==◌, if◌then◌else◌, update, update_self, update_ne, length, length-append, ==_ne,
  ==_refl, if_true, if_false, append_assoc, append_nil,
}
use native.Mathlib.Decide.{ℕ_discrete}
use challenge.Console.{Cons, next_pos, cons_put, cons_intr, cons_take, cons_getc}

-- The place of the character `i` places behind `r`
abbrev slot : ℕ → ℕ → ℕ
slot r i = (r + i) % 512

-- From the place `i` behind `r` on, the buffer holds `xs`.
abbrev Stored : (ℕ → ℕ) → ℕ → ℕ → List ℕ → Type 0
Stored buf r i [] = Unit
Stored buf r i (x ∷ xs) = (buf (slot r i) ≡ x) × Stored buf r (i + 1) xs

-- The buffer holds the characters `xs`, the next one first. One place is always free.
pub record Holds (s : Cons) (xs : List ℕ) : Type 0 where
  pub read_place : s.rpos < 512
  pub write_place : s.wpos ≡ slot s.rpos (length xs)
  pub room : length xs < 512
  pub stored : Stored s.buf s.rpos 0 xs

-- The characters that the devices deliver are stored as bytes, but for 0.
abbrev pub accepted : List ℕ → List ℕ
accepted [] = []
accepted (c ∷ cs) = if c == 0 then accepted cs else c % 2 ^ 8 ∷ accepted cs

abbrev pub first_or_zero : List ℕ → ℕ
first_or_zero [] = 0
first_or_zero (x ∷ xs) = x

abbrev pub rest_of : List ℕ → List ℕ
rest_of [] = []
rest_of (x ∷ xs) = xs

next_slot : (r i : ℕ) → next_pos (slot r i) ≡ slot r (suc i)
next_slot r i = ground arith

next_read : (r : ℕ) → r < 512 → next_pos r ≡ slot r 1
next_read r lt = ground arith

slot-shift : (r i : ℕ) → slot (slot r 1) i ≡ slot r (suc i)
slot-shift r i = omega arith

slot-≢ : (r i n : ℕ) → i < n → n < 512 → slot r i ≢ slot r n
slot-≢ r i n lt le = λ e. omega arith

-- A character is stored behind the others.
Stored-put :
    (buf : ℕ → ℕ) (r i c : ℕ) (xs : List ℕ)
    → i + length xs < 512
    → Stored buf r i xs
    → Stored (update buf (slot r (i + length xs)) c) r i (xs ++ c ∷ [])
Stored-put buf r i c [] lt h = (
  subst (λ (w : ℕ). update buf w c (slot r i) ≡ c) (ap (slot r) (omega arith))
      (update_self buf (slot r i) c),
  tt,
)
Stored-put buf r i c (x ∷ xs) lt h = (
  update_ne buf (slot r (i + suc (length xs))) (slot r i) c
        (slot-≢ r i (i + suc (length xs)) (omega arith) lt)
      ∙ h.0,
  subst (λ (w : ℕ). Stored (update buf w c) r (i + 1) (xs ++ c ∷ [])) (ap (slot r) (omega arith))
      (Stored-put buf r (i + 1) c xs (omega arith) h.1),
)

Stored-shift :
    (buf : ℕ → ℕ) (r i : ℕ) (xs : List ℕ) → Stored buf r (suc i) xs → Stored buf (slot r 1) i xs
Stored-shift buf r i [] h = tt
Stored-shift buf r i (x ∷ xs) h = (
  ap buf (slot-shift r i) ∙ h.0,
  Stored-shift buf r (i + 1) xs (subst (λ (n : ℕ). Stored buf r n xs) (omega arith) h.1),
)

cons_put-Holds :
    (c : ℕ) (s : Cons) (xs : List ℕ)
    → suc (length xs) < 512
    → Holds s xs
    → Holds (cons_put c s) (xs ++ c % 2 ^ 8 ∷ [])
unfolding cons_put
cons_put-Holds c s xs lt h = record {
  read_place = h.read_place;
  write_place =
      ap next_pos h.write_place
      ∙ next_slot s.rpos (length xs)
      ∙ ap (slot s.rpos) (sym (length-append xs (c % 2 ^ 8 ∷ []) ∙ omega arith));
  room = omega (arith, length-append xs (c % 2 ^ 8 ∷ []));
  stored =
      subst (λ (w : ℕ). Stored (update s.buf w (c % 2 ^ 8)) s.rpos 0 (xs ++ c % 2 ^ 8 ∷ []))
        (ap (slot s.rpos) (omega arith) ∙ sym h.write_place)
        (Stored-put s.buf s.rpos 0 (c % 2 ^ 8) xs (omega (arith, h.room)) h.stored);
}

-- What the devices deliver is put behind what is there, as long as it fits.
cons_intr-Holds :
    (cs : List ℕ) (s : Cons) (xs : List ℕ)
    → length xs + length (accepted cs) < 512
    → Holds s xs
    → Holds (cons_intr cs s) (xs ++ accepted cs)
unfolding cons_intr
cons_intr-Holds [] s xs lt h = subst (Holds s) (sym (append_nil xs)) h
cons_intr-Holds (c ∷ cs) s xs lt h = elim (ℕ_discrete c 0) [
  | yes e ↦
      let acc : accepted (c ∷ cs) ≡ accepted cs = if_true {b = c == 0} _ _ (rw e refl) in
      let run : cons_intr (c ∷ cs) s ≡ cons_intr cs s =
        ap (cons_intr cs) (if_true {b = c == 0} s (cons_put c s) (rw e refl)) in
      subst₂ Holds (sym run) (ap (λ t. xs ++ t) (sym acc))
        (cons_intr-Holds cs s xs (omega (arith, ap length acc)) h)
  | no ne ↦
      let acc : accepted (c ∷ cs) ≡ c % 2 ^ 8 ∷ accepted cs =
        if_false {b = c == 0} _ _ (==_ne c 0 ne) in
      let run : cons_intr (c ∷ cs) s ≡ cons_intr cs (cons_put c s) =
        ap (cons_intr cs) (if_false {b = c == 0} s (cons_put c s) (==_ne c 0 ne)) in
      let more = length-append xs (c % 2 ^ 8 ∷ []) in
      subst₂ Holds (sym run)
        (append_assoc xs (c % 2 ^ 8 ∷ []) (accepted cs) ∙ ap (λ t. xs ++ t) (sym acc))
        (cons_intr-Holds cs (cons_put c s) (xs ++ c % 2 ^ 8 ∷ [])
          (omega (arith, ap length acc, more))
          (cons_put-Holds c s xs (omega (arith, ap length acc)) h))
]

cons_take-Holds :
    (s : Cons) (xs : List ℕ)
    → Holds s xs
    → ((cons_take s).0 ≡ first_or_zero xs) × Holds (cons_take s).1 (rest_of xs)
unfolding cons_take
cons_take-Holds s [] h =
    let here : s.rpos ≡ s.wpos = omega (arith, h.read_place, h.write_place) in
    rw (cons_take, subst (λ (w : ℕ). (s.rpos == w) ≡ true) here (==_refl s.rpos)) (refl, h)
cons_take-Holds s (x ∷ xs) h =
    let away : s.rpos ≢ s.wpos = λ e. omega (arith, e, h.read_place, h.write_place, h.room) in
    let place : slot s.rpos 0 ≡ s.rpos = omega (arith, h.read_place) in
    rw (cons_take, ==_ne s.rpos s.wpos away)
      (
        ap s.buf (sym place) ∙ h.stored.0,
        record {
          read_place = omega (arith, next_read s.rpos h.read_place);
          write_place =
              h.write_place
              ∙ sym (
                  ap (λ (p : ℕ). slot p (length xs)) (next_read s.rpos h.read_place)
                  ∙ slot-shift s.rpos (length xs));
          room = omega (arith, h.room);
          stored =
              subst (λ (p : ℕ). Stored s.buf p 0 xs) (sym (next_read s.rpos h.read_place))
                (Stored-shift s.buf s.rpos 0 xs h.stored.1);
        },
      )

-- `cons_getc` returns the next character that waits, where those that the serial port and then the keyboard
-- deliver come behind those in the buffer, and 0 where none waits; the others wait, in their order.
-- All of them fit in the buffer: fewer than 512 wait.
pub cons_getc-Holds :
    (serial kbd : List ℕ) (s : Cons) (xs : List ℕ)
    → Holds s xs
    → length xs + length (accepted serial) + length (accepted kbd) < 512
    → ((cons_getc serial kbd s).0 ≡ first_or_zero (xs ++ accepted serial ++ accepted kbd))
      × Holds (cons_getc serial kbd s).1 (rest_of (xs ++ accepted serial ++ accepted kbd))
unfolding cons_getc
cons_getc-Holds serial kbd s xs h lt =
    let more = length-append xs (accepted serial) in
    cons_take-Holds (cons_intr kbd (cons_intr serial s)) (xs ++ accepted serial ++ accepted kbd) (
      cons_intr-Holds kbd (cons_intr serial s) (xs ++ accepted serial) (omega (arith, more))
        (cons_intr-Holds serial s xs (omega arith) h))

-- A character that arrives when 511 wait is stored, and then none waits: all 512 are lost.
pub cons_intr-overrun :
    (c : ℕ) (s : Cons) (xs : List ℕ)
    → Holds s xs
    → length xs ≡ 511
    → c ≢ 0
    → Holds (cons_intr (c ∷ []) s) []
unfolding cons_intr cons_put
cons_intr-overrun c s xs h full ne =
    subst (λ t. Holds t []) (sym (if_false {b = c == 0} s (cons_put c s) (==_ne c 0 ne)))
      (record {
        read_place = h.read_place;
        write_place =
            ap next_pos h.write_place
            ∙ next_slot s.rpos (length xs)
            ∙ omega (arith, full, h.read_place);
        room = omega arith;
        stored = tt;
      })
