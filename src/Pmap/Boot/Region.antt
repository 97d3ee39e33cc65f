-- ===== src/Pmap/Boot/Region.antt =====
-- What `boot_map_region` of kern/pmap.c maps, for a region inside one page table.
use challenge.Base.{
  ℕ, zero, suc, ◌+◌, ◌-◌, ◌*◌, ◌^◌, ◌<◌, ◌≤◌, ◌≡◌, ◌≢◌, refl, sym, ◌∙◌, ap, true, some, arith, inl,
  ◌==◌, ◌&&◌, ltb, leb, if◌then◌else◌, write_other, ==_ne, ==_refl,
}
use native.Mathlib.Decide.{ℕ_discrete, dec_lt}
use challenge.Base.Run.{ok}
use challenge.Mmu.{word, pgsize, pdx, ptx, pgnum}
use challenge.Pmap.Pages.{Pmap, write_word}
use challenge.Pmap.Tables.{is_present}
use challenge.Pmap.Mapping.Walk.{HasTable, pgdir_walk-present}
use challenge.Pmap.Boot.{region_end, region_entry, map_loop, boot_map_region}

-- The entry `j` of the page table for the region of `n` pages from the entry `first` on
abbrev pub region_word : ℕ → ℕ → ℕ → ℕ → ℕ → ℕ → ℕ
region_word old first n pa perm j =
    if leb first j && ltb j (first + n) then region_entry (pa + (j - first) * pgsize) perm else old

-- A region that ends below 2^32, with as much room behind it as it has pages, stops at its end.
region_end_lem :
    (va size : ℕ) → va + size < 2 ^ 32 → va + 2 * size ≤ 2 ^ 32 → region_end va size ≡ va + size
unfolding region_end
region_end_lem va size lt room = ground arith

wraps : (a : ℕ) → a < 2 ^ 32 → word a ≡ a
wraps a lt = omega arith

-- The page `k` of the table of the directory entry `d`
abbrev pub page_at : ℕ → ℕ → ℕ
page_at d k = d * 2 ^ 22 + k * pgsize

pub page_at-pdx : (d k : ℕ) → k < 1024 → pdx (page_at d 0) ≡ pdx (page_at d k)
page_at-pdx d k lt = omega arith

pub page_at-ptx : (d k : ℕ) → k < 1024 → ptx (page_at d k) ≡ k
page_at-ptx d k lt = omega arith

pub page_at-next :
    (d k : ℕ) → page_at d (k + 1) < 2 ^ 32 → word (page_at d k + pgsize) ≡ page_at d (k + 1)
page_at-next d k lt = omega arith

HasTable-write :
    (pm : Pmap) (pgdir va t i v : ℕ)
    → HasTable pm pgdir va t
    → HasTable (write_word t i v pm) pgdir va t
HasTable-write pm pgdir va t i v h =
    let kept : (j : ℕ) → (write_word t i v pm).mem pgdir j ≡ pm.mem pgdir j =
      λ j. write_other pm.mem t i v pgdir j (inl (λ e. h.apart (sym e))) in
    record {
      present = ap is_present (kept (pdx va)) ∙ h.present;
      entry = ap pgnum (kept (pdx va)) ∙ h.entry;
      below = h.below;
      apart = h.apart;
    }

pub next_table :
    (pm : Pmap) (pgdir va va' t : ℕ)
    → pdx va ≡ pdx va'
    → HasTable pm pgdir va t
    → HasTable pm pgdir va' t
next_table pm pgdir va va' t e h = record {
  present = ap (λ i. is_present (pm.mem pgdir i)) (sym e) ∙ h.present;
  entry = ap (λ i. pgnum (pm.mem pgdir i)) (sym e) ∙ h.entry;
  below = h.below;
  apart = h.apart;
}

-- The `n` entries of the page table `t` from `first` on map the pages from `pa` on; the other words of
-- memory are the same.
pub record RegionMapped (pm pm' : Pmap) (t first n pa perm : ℕ) : Type 0 where
  pub entries : (j : ℕ) → pm'.mem t j ≡ region_word (pm.mem t j) first n pa perm j
  pub others : (g : ℕ) → g ≢ t → (j : ℕ) → pm'.mem g j ≡ pm.mem g j

-- The test of a place in a region, and in the region from one place more on
abbrev inside : ℕ → ℕ → ℕ → ℕ → ℕ → ℕ
inside j first n new old = if leb first j && ltb j (first + n) then new else old

later :
    (j first n x old a b : ℕ)
    → first < j
    → a ≡ b
    → x ≡ old
    → inside j (first + 1) n a x ≡ inside j first (suc n) b old
later j first n x old a b lt e f = ground arith

at_first :
    (j first n x old a b : ℕ)
    → j ≡ first
    → x ≡ b
    → inside j (first + 1) n a x ≡ inside j first (suc n) b old
at_first j first n x old a b q e = ground arith

before :
    (j first n x old a b : ℕ)
    → j < first
    → x ≡ old
    → inside j (first + 1) n a x ≡ inside j first (suc n) b old
before j first n x old a b lt e = ground arith

nowhere : (j first new old : ℕ) → old ≡ inside j first 0 new old
nowhere j first new old = ground arith

-- One entry more, in front of the others
region_word-first :
    (x old first n pa perm j : ℕ)
    → x ≡ (if j == first then region_entry pa perm else old)
    → region_word x (first + 1) n (pa + pgsize) perm j ≡ region_word old first (suc n) pa perm j
region_word-first x old first n pa perm j e = elim (dec_lt first j) [
  | yes p ↦
      let same : region_entry (pa + pgsize + (j - (first + 1)) * pgsize) perm
          ≡ region_entry (pa + (j - first) * pgsize) perm =
        ap (λ (a : ℕ). region_entry a perm) (omega arith) in
      let kept : x ≡ old = e ∙ rw (==_ne j first (λ q. omega arith)) refl in
      later j first n x old _ _ p same kept
  | no np ↦ elim (ℕ_discrete j first) [
    | yes q ↦
        let here : region_entry pa perm ≡ region_entry (pa + (j - first) * pgsize) perm =
          ap (λ (a : ℕ). region_entry a perm) (omega (arith, q)) in
        let new : x ≡ region_entry pa perm = e ∙ rw (q, ==_refl first) refl in
        at_first j first n x old _ _ q (new ∙ here)
    | no nq ↦
        let kept : x ≡ old = e ∙ rw (==_ne j first nq) refl in
        before j first n x old _ _ (omega (arith, nq)) kept
  ]
]

RegionMapped-first :
    (pm pm' : Pmap) (t first n pa perm : ℕ)
    → RegionMapped
        (write_word t first (region_entry pa perm) pm)
        pm'
        t
        (first + 1)
        n
        (pa + pgsize)
        perm
    → RegionMapped pm pm' t first (suc n) pa perm
RegionMapped-first pm pm' t first n pa perm h = record {
  entries =
      λ j. h.entries j ∙ region_word-first _ (pm.mem t j) first n pa perm j (rw (==_refl t) refl);
  others =
      λ g ne j. h.others g ne j ∙ write_other pm.mem t first (region_entry pa perm) g j (inl ne);
}

module _ (pgdir t vend perm : ℕ) where
  map_loop-end :
      (f : ℕ) (pm : Pmap) (pa : ℕ) → map_loop (suc f) pgdir vend pa vend perm pm ≡ ok (some tt) pm
  unfolding map_loop
  map_loop-end f pm pa = rw (==_refl vend) refl

  map_loop-page :
      (f : ℕ) (pm : Pmap) (va pa : ℕ)
      → va ≢ vend
      → HasTable pm pgdir va t
      → map_loop (suc f) pgdir va pa vend perm pm
        ≡ map_loop f pgdir
            (word (va + pgsize))
            (word (pa + pgsize))
            vend
            perm
            (write_word t (ptx va) (region_entry pa perm) pm)
  unfolding map_loop
  map_loop-page f pm va pa ne h = rw (==_ne va vend ne, pgdir_walk-present true h) refl

  map_loop-RegionMapped :
      (n f : ℕ) (pm : Pmap) (d k pa : ℕ)
      → n < f
      → k + n ≤ 1024
      → vend ≡ page_at d (k + n)
      → vend < 2 ^ 32
      → pa + n * pgsize < 2 ^ 32
      → HasTable pm pgdir (page_at d 0) t
      → (pm' : Pmap) × (map_loop f pgdir (page_at d k) pa vend perm pm ≡ ok (some tt) pm')
        × RegionMapped pm pm' t k n pa perm
  map_loop-RegionMapped n zero pm d k pa fuel room e below phys h = absurd (omega arith)
  map_loop-RegionMapped zero (suc f) pm d k pa fuel room e below phys h = (
    pm,
    ap (λ (va : ℕ). map_loop (suc f) pgdir va pa vend perm pm) {x = page_at d k} {y = vend}
          (omega (arith, e))
        ∙ map_loop-end f pm pa,
    record { entries = λ j. nowhere j k _ (pm.mem t j); others = λ g ne j. refl },
  )
  map_loop-RegionMapped (suc n) (suc f) pm d k pa fuel room e below phys h =
      let new = region_entry pa perm in
      let here =
        next_table pm pgdir (page_at d 0) (page_at d k) t (page_at-pdx d k (omega arith)) h in
      let (pm', run, mapped) =
        map_loop-RegionMapped n f (write_word t k new pm) d (k + 1) (pa + pgsize) (omega arith)
          (omega arith) (omega (arith, e)) below (omega arith)
          (HasTable-write pm pgdir (page_at d 0) t k new h) in
      (
        pm',
        map_loop-page f pm (page_at d k) pa (λ q. omega (arith, q, e)) here
            ∙ ap
                (λ (i : ℕ).
                  map_loop f pgdir (word (page_at d k + pgsize)) (word (pa + pgsize)) vend perm
                    (write_word t i new pm))
                (page_at-ptx d k (omega arith))
            ∙ ap
                (λ (va : ℕ).
                  map_loop f pgdir va (word (pa + pgsize)) vend perm (write_word t k new pm))
                (page_at-next d k (omega (arith, e)))
            ∙ ap
                (λ (a : ℕ).
                  map_loop f pgdir (page_at d (k + 1)) a vend perm (write_word t k new pm))
                (wraps (pa + pgsize) (omega arith))
            ∙ run,
        RegionMapped-first pm pm' t k n pa perm mapped,
      )

-- `boot_map_region`, for a region of `n` pages inside one page table that is present, stops, and maps
-- each page of the region to the page at the same distance from `pa`, with the permissions `perm` and PTE_P; every
-- other word of memory is the same. The region has as much room behind it as it has pages.
pub boot_map_region-RegionMapped :
    (n f : ℕ) (pm : Pmap) (pgdir t d k pa perm : ℕ)
    → n < f
    → k + n ≤ 1024
    → page_at d k + 2 * (n * pgsize) < 2 ^ 32
    → pa + n * pgsize < 2 ^ 32
    → HasTable pm pgdir (page_at d 0) t
    → (pm' : Pmap) × (boot_map_region f pgdir (page_at d k) (n * pgsize) pa perm pm
        ≡ ok (some tt) pm')
      × RegionMapped pm pm' t k n pa perm
unfolding boot_map_region
boot_map_region-RegionMapped n f pm pgdir t d k pa perm fuel room below phys h =
    let end = region_end_lem (page_at d k) (n * pgsize) (omega arith) (omega arith) in
    map_loop-RegionMapped pgdir t (region_end (page_at d k) (n * pgsize)) perm n f pm d k pa fuel
      room (end ∙ omega arith) (omega (arith, end)) phys h
