-- ===== src/Console/Keyboard/Typing.antt =====
-- kern/console.c: keys that are pressed and released, alone and with a modifier key held.
use challenge.Base.{
  ℕ, ◌+◌, ◌<◌, ◌≡◌, ◌≢◌, refl, sym, ap, ◌∙◌, Bool, true, false, ◌&&◌, ◌||◌, not, [], ◌∷◌, arith,
  ◌==◌, ltb, if◌then◌else◌, if_true, if_false, ==_iff, ==_ne, ltb→lt, ==_false→≢,
}
use mathlib.Core.Bool.{false≢true}
use challenge.Console.Keyboard.{
  Kbd, kbd_proc_data, kbd_values, is_set, e0esc, clear_bits, key_del, press, release,
}
use challenge.Console.Keyboard.Keymaps.{shiftcode}
use challenge.Console.Keyboard.Keys.{
  test_escape, escape_table, eq_bool-eq, typed, is_ordinary, value, next_shift, value_lem,
  next_shift_lem, rebooted_lem, passes, passes_at, at, test_press, press_table, test_release,
  release_table,
}

and_split : (a b : Bool) → (a && b) ≡ true → (a ≡ true) × (b ≡ true)
and_split true b h = (refl, h)
and_split false b h = absurd (false≢true h)

false_of_not : (a : Bool) → not a ≡ true → a ≡ false
false_of_not true h = absurd (false≢true h)
false_of_not false h = refl

Kbd_ext :
    (r : ℕ × Kbd) (c : ℕ) (s : Kbd)
    → r.0 ≡ c
    → r.1.shift ≡ s.shift
    → r.1.rebooted ≡ s.rebooted
    → r ≡ (c, s)
Kbd_ext r c s p q w = λ i. (p i, record { shift = q i; rebooted = w i })

-- One byte, whose value and next state are known
step_lem :
    (code : ℕ) (s t : Kbd) (c : ℕ)
    → value code s.shift ≡ c
    → next_shift code s.shift ≡ t.shift
    → c ≢ key_del
    → s.rebooted ≡ t.rebooted
    → kbd_proc_data code s ≡ (c, t)
step_lem code s t c p q ne same =
    let v = value_lem code s ∙ p in
    Kbd_ext _ c t v (next_shift_lem code s ∙ q) (rebooted_lem code s (λ e. ne (sym v ∙ e)) ∙ same)

ordinary_press :
    (key : ℕ) (s : Kbd)
    → key < 128
    → s.shift < 64
    → is_ordinary key ≡ true
    → kbd_proc_data key s ≡ (typed s.shift key, s)
unfolding test_press
ordinary_press key s lk ls o =
    let row = at 128 64 test_press press_table key s.shift lk ls in
    let facts : (value key s.shift == typed s.shift key
          && next_shift key s.shift == s.shift
          && not (typed s.shift key == key_del))
        ≡ true =
      sym (if_true _ _ o) ∙ row in
    let (ab, c) = and_split _ _ facts in
    let (a, b) = and_split _ _ ab in
    step_lem key s s (typed s.shift key) ((==_iff _ _).0 a) ((==_iff _ _).0 b)
      (==_false→≢ _ _ (false_of_not _ c)) refl

key_release :
    (key : ℕ) (s : Kbd)
    → key < 128
    → s.shift < 64
    → key ≢ 0x60
    → kbd_proc_data (key + 0x80) s ≡ (0, record s { shift = clear_bits s.shift (shiftcode key) })
unfolding test_release
key_release key s lk ls ne =
    let row = at 128 64 test_release release_table key s.shift lk ls in
    let facts : (value (key + 0x80) s.shift == 0
          && next_shift (key + 0x80) s.shift == clear_bits s.shift (shiftcode key))
        ≡ true =
      sym (if_false _ _ (==_ne key 0x60 ne)) ∙ row in
    let (a, b) = and_split _ _ facts in
    step_lem (key + 0x80) s (record s { shift = clear_bits s.shift (shiftcode key) }) 0
      ((==_iff _ _).0 a) ((==_iff _ _).0 b) (λ e. omega arith) refl

neither : (a b : Bool) → a ≡ false → b ≡ false → (a || b) ≡ false
neither true b p q = absurd (false≢true (sym p))
neither false b p q = q

test_modifier : ℕ → ℕ → Bool
test_modifier m shift =
    if shiftcode m == 0 || is_set shift (shiftcode m)
    then true
    else value m shift == 0
      && next_shift m shift == shift + shiftcode m
      && ltb (shift + shiftcode m) 64
      && clear_bits (shift + shiftcode m) (shiftcode m) == shift

modifier_table : passes (λ m. passes (test_modifier m) 64) 128 ≡ true
unfolding passes test_modifier kbd_proc_data press release
modifier_table = refl

clear_none : (shift : ℕ) → shift < 64 → clear_bits shift 0 ≡ shift
unfolding passes
clear_none shift lt = (==_iff _ _).0 (passes_at (λ x. clear_bits x 0 == x) 64 shift lt refl)

clear_ordinary :
    (key shift : ℕ) → shift < 64 → is_ordinary key ≡ true → clear_bits shift (shiftcode key) ≡ shift
clear_ordinary key shift lt o =
    let none_set : shiftcode key ≡ 0 = (==_iff _ _).0 (and_split _ _ o).0 in
    ap (clear_bits shift) none_set ∙ clear_none shift lt

-- An ordinary key, pressed and released, gives its character for the modifier keys that are held, and the state is as
-- before. (The code of the key 0x60 in a release is 0xE0, which no keyboard sends for a key.)
pub kbd_values-typed :
    (key : ℕ) (s : Kbd)
    → key < 128
    → key ≢ 0x60
    → is_ordinary key ≡ true
    → s.shift < 64
    → kbd_values (key ∷ (key + 0x80) ∷ []) s ≡ (typed s.shift key ∷ 0 ∷ [], s)
unfolding kbd_values
kbd_values-typed key s lk ne o ls =
    let same : clear_bits s.shift (shiftcode key) ≡ s.shift = clear_ordinary key s.shift ls o in
    rw (ordinary_press key s lk ls o, key_release key s lk ls ne, same) refl

code_0x60 : shiftcode 0x60 ≡ 0
unfolding shiftcode
code_0x60 = refl

-- A key `m` that is a modifier and is not held yet is pressed, an ordinary key other than 0x60 is pressed and
-- released, and `m` is released, in a state below 64 (no escape code came before): only the press of the ordinary
-- key gives a value, which is its character for the modifiers then held, `m` among them, and the state is as
-- before.
pub kbd_values-held :
    (m key : ℕ) (s : Kbd)
    → m < 128
    → shiftcode m ≢ 0
    → is_set s.shift (shiftcode m) ≡ false
    → key < 128
    → key ≢ 0x60
    → is_ordinary key ≡ true
    → s.shift < 64
    → kbd_values (m ∷ key ∷ (key + 0x80) ∷ (m + 0x80) ∷ []) s
      ≡ (0 ∷ typed (s.shift + shiftcode m) key ∷ 0 ∷ 0 ∷ [], s)
unfolding kbd_values test_modifier
kbd_values-held m key s lm ne0 free lk ne o ls =
    let row = at 128 64 test_modifier modifier_table m s.shift lm ls in
    let facts : (value m s.shift == 0
          && next_shift m s.shift == s.shift + shiftcode m
          && ltb (s.shift + shiftcode m) 64
          && clear_bits (s.shift + shiftcode m) (shiftcode m) == s.shift)
        ≡ true =
      sym (
        if_false _ _
          (neither (shiftcode m == 0) (is_set s.shift (shiftcode m)) (==_ne _ 0 ne0) free))
      ∙ row in
    let (abc, d) = and_split _ _ facts in
    let (ab, c) = and_split _ _ abc in
    let (a, b) = and_split _ _ ab in
    let held = record s { shift = s.shift + shiftcode m } in
    let lh = ltb→lt _ _ c in
    let down : kbd_proc_data m s ≡ (0, held) =
      step_lem m s held 0 ((==_iff _ _).0 a) ((==_iff _ _).0 b) (λ e. omega arith) refl in
    let same : clear_bits held.shift (shiftcode key) ≡ held.shift =
      clear_ordinary key held.shift lh o in
    let not_0x60 : m ≢ 0x60 = λ e. ne0 (ap shiftcode e ∙ code_0x60) in
    let up : clear_bits held.shift (shiftcode m) ≡ s.shift = (==_iff _ _).0 d in
    rw
      (
        down,
        ordinary_press key held lk lh o,
        key_release key held lk lh ne,
        same,
        key_release m held lm lh not_0x60,
        up,
      )
      refl

-- After every byte the state is below 128, and it says that the escape code came last exactly when it did.
pub kbd_proc_data-escape :
    (code : ℕ) (s : Kbd)
    → code < 256
    → s.shift < 128
    → let next = (kbd_proc_data code s).1.shift in
      (next < 128) × (is_set next e0esc ≡ (code == 0xE0))
unfolding test_escape
kbd_proc_data-escape code s lc ls =
    let row = at 256 128 test_escape escape_table code s.shift lc ls in
    let (a, b) = and_split _ _ row in rw (next_shift_lem code s) (ltb→lt _ _ a, eq_bool-eq _ _ b)
