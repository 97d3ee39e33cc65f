-- ===== src/Pmap/Init/Loops.antt =====
-- The arrays of pages that the loops of `page_init` of kern/pmap.c leave, page by page.
use challenge.Base.{
  ℕ, zero, suc, ◌+◌, ◌-◌, ◌≤◌, ◌<◌, ◌≡◌, refl, ◌∙◌, ap, Option, some, arith, ◌⊎◌, inl, inr,
  update_self, update_ne, ==_ne,
}
use native.Mathlib.Decide.{ℕ_discrete}
use challenge.Pmap.Pages.{PageInfo}
use challenge.Pmap.Init.{init_loop, hole_loop, reserve, skip_hole}

init_loop-before :
    (n i j : ℕ) (r : (ℕ → PageInfo) × Option ℕ) → j < i → (init_loop n i r).0 j ≡ r.0 j
unfolding init_loop
init_loop-before zero i j r lt = refl
init_loop-before (suc n) i j r lt =
    init_loop-before n (i + 1) j _ (omega arith) ∙ update_ne r.0 i j _ (λ e. omega arith)

pub init_loop-first :
    (n i : ℕ) (r : (ℕ → PageInfo) × Option ℕ)
    → 0 < n
    → (init_loop n i r).0 i ≡ record { pp_ref = 0; pp_link = r.1 }
unfolding init_loop
init_loop-first zero i r lt = absurd (omega arith)
init_loop-first (suc n) i r lt = init_loop-before n (i + 1) i _ (omega arith) ∙ update_self r.0 i _

pub init_loop-page :
    (n i j : ℕ) (r : (ℕ → PageInfo) × Option ℕ)
    → i < j
    → j < i + n
    → (init_loop n i r).0 j ≡ record { pp_ref = 0; pp_link = some (j - 1) }
unfolding init_loop
init_loop-page zero i j r lt le = absurd (omega arith)
init_loop-page (suc n) i j r lt le = elim (ℕ_discrete j (i + 1)) [
  | yes e ↦ rw e (
      init_loop-first n (i + 1) _ (omega arith)
      ∙ ap (λ (k : ℕ). record { pp_ref = 0; pp_link = some k }) {x = i} {y = i + 1 - 1}
          (omega arith))
  | no ne ↦ init_loop-page n (i + 1) j _ (omega (arith, ne)) (omega arith)
]

pub init_loop-head :
    (n i : ℕ) (r : (ℕ → PageInfo) × Option ℕ) → 0 < n → (init_loop n i r).1 ≡ some (i + n - 1)
unfolding init_loop
init_loop-head zero i r lt = absurd (omega arith)
init_loop-head (suc zero) i r lt = ap some (omega arith)
init_loop-head (suc (suc n)) i r lt =
    init_loop-head (suc n) (i + 1) _ (omega arith) ∙ ap some (omega arith)

hole_loop-other :
    (n i j : ℕ) (pages : ℕ → PageInfo) → (j < i) ⊎ (i + n ≤ j) → hole_loop n i pages j ≡ pages j
unfolding hole_loop
hole_loop-other zero i j pages out = refl
hole_loop-other (suc n) i j pages (inl lt) =
    hole_loop-other n (i + 1) j _ (inl (omega arith)) ∙ update_ne pages i j _ (λ e. omega arith)
hole_loop-other (suc n) i j pages (inr le) =
    hole_loop-other n (i + 1) j _ (inr (omega arith)) ∙ update_ne pages i j _ (λ e. omega arith)

module _ (ff : ℕ) (pages : ℕ → PageInfo) (above : 160 ≤ ff) where
  -- The pages in use are marked.
  abbrev hole : ℕ → PageInfo
  hole = hole_loop (ff - 160) 160 pages

  abbrev ended : PageInfo
  ended = record (hole (160 + (ff - 160))) { pp_link = (pages 160).pp_link }

  pub skip_hole-other : (j : ℕ) → (j < 160) ⊎ (ff < j) → skip_hole ff pages j ≡ pages j
  skip_hole-other j (inl lt) =
      update_ne hole (160 + (ff - 160)) j ended (λ e. omega arith)
      ∙ hole_loop-other (ff - 160) 160 j pages (inl lt)
  skip_hole-other j (inr lt) =
      update_ne hole (160 + (ff - 160)) j ended (λ e. omega arith)
      ∙ hole_loop-other (ff - 160) 160 j pages (inr (omega arith))

  pub skip_hole-end : skip_hole ff pages ff ≡ record (pages ff) { pp_link = (pages 160).pp_link }
  skip_hole-end =
      ap (skip_hole ff pages) {x = ff} {y = 160 + (ff - 160)} (omega arith)
      ∙ update_self hole (160 + (ff - 160)) ended
      ∙ ap (λ (p : PageInfo). record p { pp_link = (pages 160).pp_link })
          (hole_loop-other (ff - 160) 160 (160 + (ff - 160)) pages (inr (omega arith))
            ∙ ap pages (omega arith))

pub reserve-other :
    (j : ℕ) (pages : ℕ → PageInfo) → (8 < j) ⊎ ((1 < j) × (j < 7)) → reserve pages j ≡ pages j
reserve-other j pages (inl lt) =
    rw
      (
        ==_ne j 1 (λ e. omega arith),
        ==_ne j 0 (λ e. omega arith),
        ==_ne j 8 (λ e. omega arith),
        ==_ne j 7 (λ e. omega arith),
      )
      refl
reserve-other j pages (inr lt) =
    rw
      (
        ==_ne j 1 (λ e. omega arith),
        ==_ne j 0 (λ e. omega arith),
        ==_ne j 8 (λ e. omega arith),
        ==_ne j 7 (λ e. omega arith),
      )
      refl
