-- ===== src/Env/Load/Word.antt =====
-- The bytes of a word of memory, as `set_byte` leaves them.
use challenge.Base.{
  ℕ, zero, suc, ◌*◌, ◌/◌, ◌%◌, ◌^◌, ◌<◌, ◌≡◌, ◌≢◌, ap, ◌∙◌, sym, subst₂, arith, ◌==◌, Bool-cases,
  ==_iff, inl, inr, ◌⊎◌, update, write_same, write_other,
}
use challenge.Env.Load.{set_byte}

-- The byte at the place `i` of the word `w`
abbrev pub byte_in : ℕ → ℕ → ℕ
byte_in w i = w / 2 ^ (8 * i) % 2 ^ 8

pub byte_in-set_byte_same : (w i b : ℕ) → i < 4 → b < 2 ^ 8 → byte_in (set_byte w i b) i ≡ b
byte_in-set_byte_same w zero b lt below = omega arith
byte_in-set_byte_same w (suc zero) b lt below = omega arith
byte_in-set_byte_same w (suc (suc zero)) b lt below = omega arith
byte_in-set_byte_same w (suc (suc (suc zero))) b lt below = omega arith
byte_in-set_byte_same w (suc (suc (suc (suc i)))) b lt below = absurd (omega arith)

pub byte_in-set_byte_other :
    (w i j b : ℕ) → i < 4 → j < 4 → i ≢ j → b < 2 ^ 8 → byte_in (set_byte w i b) j ≡ byte_in w j
byte_in-set_byte_other w zero zero b lt lt' ne below = absurd (omega arith)
byte_in-set_byte_other w zero (suc zero) b lt lt' ne below = omega arith
byte_in-set_byte_other w zero (suc (suc zero)) b lt lt' ne below = omega arith
byte_in-set_byte_other w zero (suc (suc (suc zero))) b lt lt' ne below = omega arith
byte_in-set_byte_other w (suc zero) zero b lt lt' ne below = omega arith
byte_in-set_byte_other w (suc zero) (suc zero) b lt lt' ne below = absurd (omega arith)
byte_in-set_byte_other w (suc zero) (suc (suc zero)) b lt lt' ne below = omega arith
byte_in-set_byte_other w (suc zero) (suc (suc (suc zero))) b lt lt' ne below = omega arith
byte_in-set_byte_other w (suc (suc zero)) zero b lt lt' ne below = omega arith
byte_in-set_byte_other w (suc (suc zero)) (suc zero) b lt lt' ne below = omega arith
byte_in-set_byte_other w (suc (suc zero)) (suc (suc zero)) b lt lt' ne below = absurd (omega arith)
byte_in-set_byte_other w (suc (suc zero)) (suc (suc (suc zero))) b lt lt' ne below = omega arith
byte_in-set_byte_other w (suc (suc (suc zero))) zero b lt lt' ne below = omega arith
byte_in-set_byte_other w (suc (suc (suc zero))) (suc zero) b lt lt' ne below = omega arith
byte_in-set_byte_other w (suc (suc (suc zero))) (suc (suc zero)) b lt lt' ne below = omega arith
byte_in-set_byte_other w (suc (suc (suc zero))) (suc (suc (suc zero))) b lt lt' ne below =
    absurd (omega arith)
byte_in-set_byte_other w (suc (suc (suc (suc i)))) j b lt lt' ne below = absurd (omega arith)
byte_in-set_byte_other w zero (suc (suc (suc (suc j)))) b lt lt' ne below = absurd (omega arith)
byte_in-set_byte_other w (suc zero) (suc (suc (suc (suc j)))) b lt lt' ne below =
    absurd (omega arith)
byte_in-set_byte_other w (suc (suc zero)) (suc (suc (suc (suc j)))) b lt lt' ne below =
    absurd (omega arith)
byte_in-set_byte_other w (suc (suc (suc zero))) (suc (suc (suc (suc j)))) b lt lt' ne below =
    absurd (omega arith)

-- A store of the byte `x` at the place `r` of the word `i` of the page `f` leaves the byte at another place as it was.
pub byte_in-other :
    (m : ℕ → ℕ → ℕ) (f i r x g j s : ℕ)
    → r < 4
    → s < 4
    → x < 2 ^ 8
    → (g ≡ f → j ≡ i → r ≢ s)
    → byte_in (update m f (update (m f) i (set_byte (m f i) r x)) g j) s ≡ byte_in (m g j) s
byte_in-other m f i r x g j s lt lt' below ne =
    let m' = update m f (update (m f) i (set_byte (m f i) r x)) in
    let kept = λ (o : (g ≢ f) ⊎ (j ≢ i)).
      ap (λ v. byte_in v s) (write_other m f i (set_byte (m f i) r x) g j o) in
    elim (Bool-cases (g == f)) [
      | inr n ↦ kept (inl (λ e. ground arith))
      | inl y ↦ elim (Bool-cases (j == i)) [
        | inr n ↦ kept (inr (λ e. ground arith))
        | inl y' ↦
            let e = (==_iff g f).0 y in
            let e' = (==_iff j i).0 y' in
            subst₂ (λ h k. byte_in (m' h k) s ≡ byte_in (m h k) s) (sym e) (sym e')
              (ap (λ v. byte_in v s) (write_same m f i (set_byte (m f i) r x))
                ∙ byte_in-set_byte_other (m f i) r s x lt lt' (ne e e') below)
      ]
    ]
