-- ===== src/Base/Update.antt =====
-- Arrays in memory are functions from the index; a write is an update at one place.
use Prim.Native.Nat.{ℕ}
use mathlib.Core.Path.{◌≡◌, refl, ap}
use mathlib.Core.Logic.{◌≢◌, ◌⊎◌, inl, inr}
use native.Mathlib.Omega.{arith}
use challenge.Base.Tests.{◌==◌, if◌then◌else◌, ==_refl, ==_ne}

module _ {ℓ} {A : Type ℓ} where
  abbrev pub update : (ℕ → A) → ℕ → A → ℕ → A
  update f i v j = if j == i then v else f j

  pub update_self : (f : ℕ → A) (i : ℕ) (v : A) → update f i v i ≡ v
  update_self f i v = rw (==_refl i)

  pub update_ne : (f : ℕ → A) (i j : ℕ) (v : A) → j ≢ i → update f i v j ≡ f j
  update_ne f i j v h = rw (==_ne j i h)

-- A write to one word of a memory of rows leaves the other words.
pub write_other :
    (m : ℕ → ℕ → ℕ) (f i v g j : ℕ) → (g ≢ f) ⊎ (j ≢ i) → update m f (update (m f) i v) g j ≡ m g j
write_other m f i v g j (inl ne) = rw (==_ne g f ne) refl
write_other m f i v g j (inr ne) = ground (arith, ap (λ r. m r j) {x = f} {y = g})

pub write_same : (m : ℕ → ℕ → ℕ) (f i v : ℕ) → update m f (update (m f) i v) f i ≡ v
write_same m f i v = rw (==_refl f, ==_refl i) refl
