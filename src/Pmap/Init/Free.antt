-- ===== src/Pmap/Init/Free.antt =====
-- The free list that `page_init` of kern/pmap.c builds.
use challenge.Base.{
  ℕ, zero, suc, ◌+◌, ◌-◌, ◌^◌, ◌≤◌, ◌<◌, ◌≡◌, refl, sym, subst, ◌∙◌, ap, Option, none, some, List,
  [], ◌∷◌, ◌++◌, arith, All, ◌⊎◌, inl, inr, le→not_ltb,
}
use native.Mathlib.Decide.{ℕ_discrete}
use challenge.Base.Run.{ok}
use challenge.Mmu.{pgnum, kernbase}
use challenge.Pmap.Pages.{PageInfo, Pmap}
use challenge.Pmap.FreeList.Alloc.{Chain, Avoids, Distinct, IsFreeList}
use challenge.Pmap.Init.{boot_alloc, init_loop, page_init, reserve, skip_hole}
use challenge.Pmap.Init.Loops.{
  init_loop-page, init_loop-head, skip_hole-other, skip_hole-end, reserve-other,
}

-- `n` pages from `lo` on, the last one first
abbrev pub down : ℕ → ℕ → List ℕ
down lo zero = []
down lo (suc n) = (lo + n) ∷ down lo n

module _ (pages : ℕ → PageInfo) (rest : List ℕ) (lo : ℕ) where
  Chain-down :
      (n : ℕ)
      → ((j : ℕ) → lo < j → j < lo + n → (pages j).pp_link ≡ some (j - 1))
      → Chain pages (pages lo).pp_link rest
      → 0 < n
      → Chain pages (some (lo + n - 1)) (down lo n ++ rest)
  Chain-down zero links c pos = absurd (omega arith)
  Chain-down (suc zero) links c pos =
      (omega arith, subst (λ j. Chain pages (pages j).pp_link rest) (omega arith) c)
  Chain-down (suc (suc n)) links c pos = (
    omega arith,
    subst (λ h. Chain pages h (down lo (suc n) ++ rest))
        (sym (links (lo + suc n) (omega arith) (omega arith) ∙ ap some (omega arith)))
        (Chain-down (suc n) (λ j p q. links j p (omega arith)) c (omega arith)),
  )

All-down :
    (P : ℕ → Type 0) (rest : List ℕ) (lo n : ℕ)
    → ((j : ℕ) → lo ≤ j → j < lo + n → P j)
    → All P rest
    → All P (down lo n ++ rest)
All-down P rest lo zero h r = r
All-down P rest lo (suc n) h r =
    (h (lo + n) (omega arith) (omega arith), All-down P rest lo n (λ j p q. h j p (omega arith)) r)

-- Every page is below the one before it.
Descending : ℕ → List ℕ → Type 0
Descending b [] = Unit
Descending b (x ∷ xs) = (x < b) × Descending x xs

Descending-le : (b lo : ℕ) (xs : List ℕ) → lo ≤ b → Descending lo xs → Descending b xs
unfolding Descending
Descending-le b lo [] le h = tt
Descending-le b lo (x ∷ xs) le h = (omega (arith, h.0), h.1)

Descending-down :
    (b lo n : ℕ) (rest : List ℕ)
    → lo + n ≤ b
    → Descending lo rest
    → Descending b (down lo n ++ rest)
unfolding Descending
Descending-down b lo zero rest le h = Descending-le b lo rest (omega arith) h
Descending-down b lo (suc n) rest le h =
    (omega arith, Descending-down (lo + n) lo n rest (omega arith) h)

Descending-Avoids : (b q : ℕ) (xs : List ℕ) → b ≤ q → Descending b xs → Avoids q xs
unfolding Descending
Descending-Avoids b q [] le h = tt
Descending-Avoids b q (x ∷ xs) le h =
    ((λ e. omega (arith, h.0)), Descending-Avoids x q xs (omega (arith, h.0)) h.1)

Descending-Distinct : (b : ℕ) (xs : List ℕ) → Descending b xs → Distinct xs
unfolding Descending
Descending-Distinct b [] h = tt
Descending-Distinct b (x ∷ xs) h =
    (Descending-Avoids x x xs (omega arith) h.1, Descending-Distinct x xs h.1)

-- The page where the kernel's memory ends, as `boot_alloc(0)` gives it
abbrev pub first_free : ℕ → ℕ → ℕ
first_free end nextfree = pgnum ((boot_alloc end 0 nextfree).0 - kernbase)

-- The pages above the kernel, and the pages below the IO hole but 0 and 7, the highest first
abbrev pub free_pages : ℕ → ℕ → List ℕ
free_pages ff np = down ff (np - ff) ++ (down 8 152 ++ down 1 6)

module _ (pages : ℕ → PageInfo) (head : Option ℕ) (np ff : ℕ) (above : 160 < ff)
    (below : ff < np) where
  filled : ℕ → PageInfo
  filled = (init_loop np 0 (pages, head)).0

  final : ℕ → PageInfo
  unfolding filled
  final = skip_hole ff (reserve filled)

  initial_page : (j : ℕ) → 0 < j → j < np → filled j ≡ record { pp_ref = 0; pp_link = some (j - 1) }
  unfolding filled
  initial_page j pos lt = init_loop-page np 0 j (pages, head) pos (omega arith)

  -- The pages that keep the link of the first loop
  kept :
      (j : ℕ)
      → 1 < j
      → j < np
      → ((j < 7) ⊎ ((8 < j) × (j < 160))) ⊎ (ff < j)
      → final j ≡ record { pp_ref = 0; pp_link = some (j - 1) }
  unfolding final
  kept j pos lt (inl (inl p)) =
      skip_hole-other ff (reserve filled) (omega arith) j (inl (omega arith))
      ∙ reserve-other j filled (inr (pos, p))
      ∙ initial_page j (omega arith) lt
  kept j pos lt (inl (inr p)) =
      skip_hole-other ff (reserve filled) (omega arith) j (inl p.1)
      ∙ reserve-other j filled (inl p.0)
      ∙ initial_page j (omega arith) lt
  kept j pos lt (inr p) =
      skip_hole-other ff (reserve filled) (omega arith) j (inr p)
      ∙ reserve-other j filled (inl (omega arith))
      ∙ initial_page j (omega arith) lt

  at_end : final ff ≡ record { pp_ref = 0; pp_link = some 159 }
  unfolding final
  at_end =
      skip_hole-end ff (reserve filled) (omega arith)
      ∙ ap (λ (p : PageInfo). record p { pp_link = (reserve filled 160).pp_link })
          (reserve-other ff filled (inl (omega arith)) ∙ initial_page ff (omega arith) below)
      ∙ ap (λ (p : PageInfo). record { pp_ref = 0; pp_link = p.pp_link })
          (reserve-other 160 filled (inl (omega arith))
            ∙ initial_page 160 (omega arith) (omega arith))

  at_eight : final 8 ≡ record { pp_ref = 0; pp_link = some 6 }
  unfolding final
  at_eight =
      skip_hole-other ff (reserve filled) (omega arith) 8 (inl (omega arith))
      ∙ ap (λ (p : PageInfo). record p { pp_link = some 6 })
          (initial_page 8 (omega arith) (omega arith))

  at_one : final 1 ≡ record { pp_ref = 0; pp_link = none }
  unfolding final
  at_one =
      skip_hole-other ff (reserve filled) (omega arith) 1 (inl (omega arith))
      ∙ ap (λ (p : PageInfo). record p { pp_link = none })
          (initial_page 1 (omega arith) (omega arith))

  kept_link :
      (j : ℕ)
      → 1 < j
      → j < np
      → ((j < 7) ⊎ ((8 < j) × (j < 160))) ⊎ (ff < j)
      → (final j).pp_link ≡ some (j - 1)
  kept_link j pos lt which = ap (λ (p : PageInfo). p.pp_link) (kept j pos lt which)

  low_links : Chain final (some 6) (down 1 6)
  low_links =
      Chain-down final [] 1 6 (λ j p q. kept_link j p (omega arith) (inl (inl (omega arith))))
        (subst (λ (p : PageInfo). Chain final p.pp_link []) (sym at_one) tt) (omega arith)

  base_links : Chain final (some 159) (down 8 152 ++ down 1 6)
  base_links =
      Chain-down final (down 1 6) 8 152
        (λ j p q. kept_link j (omega arith) (omega arith) (inl (inr (p, omega arith))))
        (subst (λ (p : PageInfo). Chain final p.pp_link (down 1 6)) (sym at_eight) low_links)
        (omega arith)

  all_links : Chain final (some (ff + (np - ff) - 1)) (free_pages ff np)
  all_links =
      Chain-down final (down 8 152 ++ down 1 6) ff (np - ff)
        (λ j p q. kept_link j (omega arith) (omega arith) (inr p))
        (subst (λ (p : PageInfo). Chain final p.pp_link (down 8 152 ++ down 1 6)) (sym at_end)
          base_links)
        (omega arith)

  abbrev Zero : ℕ → Type 0
  Zero j = (j < np) × ((final j).pp_ref ≡ 0)

  kept-Zero : (j : ℕ) → 1 < j → j < np → ((j < 7) ⊎ ((8 < j) × (j < 160))) ⊎ (ff < j) → Zero j
  kept-Zero j pos lt which = (lt, ap (λ (p : PageInfo). p.pp_ref) (kept j pos lt which))

  -- One of the pages of a run, the first of which is `lo`
  first_or : (lo j : ℕ) → Zero lo → lo ≤ j → (lo < j → Zero j) → Zero j
  first_or lo j first le later = elim (ℕ_discrete j lo) [
    | yes e ↦ subst Zero (sym e) first
    | no ne ↦ later (omega (arith, ne))
  ]

  free_pages-Zero : All Zero (free_pages ff np)
  free_pages-Zero =
      All-down Zero (down 8 152 ++ down 1 6) ff (np - ff)
        (λ j p q.
          first_or ff j (below, ap (λ (p : PageInfo). p.pp_ref) at_end) p
            (λ lt. kept-Zero j (omega arith) (omega arith) (inr lt)))
        (All-down Zero (down 1 6) 8 152
          (λ j p q.
            first_or 8 j (omega arith, ap (λ (p : PageInfo). p.pp_ref) at_eight) p
              (λ lt. kept-Zero j (omega arith) (omega arith) (inl (inr (lt, omega arith)))))
          (All-down Zero [] 1 6
            (λ j p q.
              first_or 1 j (omega arith, ap (λ (p : PageInfo). p.pp_ref) at_one) p
                (λ lt. kept-Zero j lt (omega arith) (inl (inl (omega arith)))))
            tt))

  descending : Descending np (free_pages ff np)
  unfolding Descending
  descending = Descending-down np ff (np - ff) (down 8 152 ++ down 1 6) (omega arith) (
      Descending-down ff 8 152 (down 1 6) (omega arith) (Descending-down 8 1 6 [] (omega arith) tt))

-- `page_init` puts on the free list, the highest first, the pages from the end of the kernel's
-- memory on, those from 159 down to 8 and those from 6 to 1, and nothing else: every page of it is in memory and
-- without references, none stands on it twice, and the links end in NULL. The kernel's memory ends above
-- the IO hole and below the last page, at an address from KERNBASE on.
pub page_init-IsFreeList :
    (end nextfree : ℕ) (pm : Pmap)
    → kernbase ≤ (boot_alloc end 0 nextfree).0
    → 160 < first_free end nextfree
    → first_free end nextfree < pm.npages
    → pm.npages ≤ 2 ^ 20
    → (pm' : Pmap) × (page_init end nextfree pm ≡ ok tt pm')
      × IsFreeList pm' (free_pages (first_free end nextfree) pm.npages)
unfolding page_init final filled
page_init-IsFreeList end nextfree pm mapped above below fits =
    let ff = first_free end nextfree in
    let r = init_loop pm.npages 0 (pm.pages, pm.page_free_list) in
    let pm' : Pmap = record pm { pages = skip_hole ff (reserve r.0); page_free_list = r.1 } in
    (
      pm',
      rw (le→not_ltb (boot_alloc end 0 nextfree).0 kernbase mapped) refl,
      record {
        fits = fits;
        chain =
            subst (λ h. Chain pm'.pages h (free_pages ff pm.npages))
              (ap some (omega arith)
                ∙ sym (init_loop-head pm.npages 0 (pm.pages, pm.page_free_list) (omega arith)))
              (all_links pm.pages pm.page_free_list pm.npages ff above below);
        distinct =
            Descending-Distinct pm.npages (free_pages ff pm.npages)
              (descending pm.pages pm.page_free_list pm.npages ff above below);
        idle = free_pages-Zero pm.pages pm.page_free_list pm.npages ff above below;
      },
    )
