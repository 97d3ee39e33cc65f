-- ===== src/Env/Load/Filling.antt =====
-- kern/env.c: how a segment changes the address space that `load_icode` fills.
use challenge.Base.{
  ℕ, ◌+◌, ◌<◌, ◌≤◌, ◌≡◌, ◌≢◌, refl, sym, ◌∙◌, ap, false, true, some, List, [], ◌∷◌, ◌++◌, arith,
  inl, inr, ◌⊎◌, length, All,
}
use native.Mathlib.Decide.{ℕ_discrete, dec_lt}
use challenge.Mmu.{pdx, pgnum}
use challenge.Pmap.Pages.{Pmap}
use challenge.Pmap.Tables.{is_present}
use challenge.Pmap.FreeList.Alloc.{IsFreeList, Avoids, Distinct}
use challenge.Env.Load.{Proghdr}
use challenge.Env.Load.Pages.{nth, All-nth, All-prefix}
use challenge.Env.Load.Segment.{Extent, Untouched, SegmentLoaded}
use challenge.Env.Load.Space.{Tables, Used, Space, Held, Held-same, Placed, mark}
use challenge.Env.Load.Growing.{All-map}

All-suffix : (P : ℕ → Type 0) (xs ys : List ℕ) → All P (xs ++ ys) → All P ys
All-suffix P [] ys h = h
All-suffix P (x ∷ xs) ys h = All-suffix P xs ys h.1

Distinct-apart : (xs ys : List ℕ) → Distinct (xs ++ ys) → All (λ x. Avoids x ys) xs
Distinct-apart [] ys d = tt
Distinct-apart (x ∷ xs) ys d = (All-suffix (λ y. y ≢ x) xs ys d.0, Distinct-apart xs ys d.1)

still_used :
    (used : Used) (d0 : ℕ) (x : Extent) (d j : ℕ) → used d j ≡ true → mark d0 x used d j ≡ true
still_used used d0 x d j e = rw e refl

mark_inside :
    (used : Used) (d0 : ℕ) (x : Extent) (j : ℕ)
    → x.first ≤ j
    → j < x.first + length x.pages
    → mark d0 x used d0 j ≡ true
mark_inside used d0 x j le lt = ground arith

was_unused :
    (used : Used) (d0 : ℕ) (x : Extent) (d j : ℕ) → mark d0 x used d j ≡ false → used d j ≡ false
was_unused used d0 x d j e = ground arith

mark_outside :
    (used : Used) (d0 : ℕ) (x : Extent) (j : ℕ)
    → mark d0 x used d0 j ≡ false
    → (j < x.first) ⊎ (x.first + length x.pages ≤ j)
mark_outside used d0 x j e = ground arith

module _ (pm pm' : Pmap) (pgdir : ℕ) (x : Extent) (d : ℕ) (rest : List ℕ) (tabs : Tables)
    (used : Used) (s : Space pm pgdir (x.pages ++ rest) tabs used) (known : tabs d ≡ some x.table)
    (free' : IsFreeList pm' rest) (size : pm'.npages ≡ pm.npages)
    (words : (g j : ℕ) → Untouched g j x → pm'.mem g j ≡ pm.mem g j) where
  same_dir : (j : ℕ) → pm'.mem pgdir j ≡ pm.mem pgdir j
  same_dir j = words pgdir j (
    All-prefix (λ p. p ≢ pgdir) x.pages rest s.off_dir,
    inl (λ e. s.apart d x.table known (sym e)),
  )

  off_pages : (d' t : ℕ) → tabs d' ≡ some t → Avoids t x.pages
  off_pages d' t e = All-prefix (λ p. p ≢ t) x.pages rest (s.away d' t e)

  same_word :
      (d' t j : ℕ)
      → tabs d' ≡ some t
      → ((d' ≢ d) ⊎ ((j < x.first) ⊎ (x.first + length x.pages ≤ j)))
      → pm'.mem t j ≡ pm.mem t j
  same_word d' t j e (inl ne) =
      words t j (off_pages d' t e, inl (λ q. ne (s.one d' d t e (known ∙ ap some (sym q)))))
  same_word d' t j e (inr out) = words t j (off_pages d' t e, inr out)

  outside :
      (d' j : ℕ)
      → mark d x used d' j ≡ false
      → (d' ≢ d) ⊎ ((j < x.first) ⊎ (x.first + length x.pages ≤ j))
  outside d' j e = elim (ℕ_discrete d' d) [
    | yes q ↦ inr (mark_outside used d x j (ap (λ i. mark d x used i j) (sym q) ∙ e))
    | no ne ↦ inl ne
  ]

  pub filled-Space : Space pm' pgdir rest tabs (mark d x used)
  filled-Space = record {
    free_list = free';
    off_dir = All-suffix (λ p. p ≢ pgdir) x.pages rest s.off_dir;
    missing = λ d' lt e. ap is_present (same_dir d') ∙ s.missing d' lt e;
    present = λ d' t e. ap is_present (same_dir d') ∙ s.present d' t e;
    entry = λ d' t e. ap pgnum (same_dir d') ∙ s.entry d' t e;
    below = λ d' t e. omega (arith, s.below d' t e, size);
    apart = s.apart;
    away = λ d' t e. All-suffix (λ p. p ≢ t) x.pages rest (s.away d' t e);
    one = s.one;
    unmapped = λ d' t j e free.
        ap is_present (same_word d' t j e (outside d' j free))
        ∙ s.unmapped d' t j e (was_unused used d x d' j free);
  }

  module _ (unused : (j : ℕ) → x.first ≤ j → j < x.first + length x.pages → used d j ≡ false) where
    -- A segment in memory stays when another one is loaded.
    pub filled-Held :
        (binary : ℕ → ℕ) (f : ℕ) (ph : Proghdr) (y : Extent)
        → Held pm pgdir (x.pages ++ rest) tabs used binary f ph y
        → Held pm' pgdir rest tabs (mark d x used) binary f ph y
    filled-Held binary f ph y h =
        Held-same pm pm' pgdir (x.pages ++ rest) rest tabs tabs used (mark d x used) binary f ph y h
          (same_dir (pdx ph.p_va))
          (λ j le lt. same_word (pdx ph.p_va) y.table j h.known (elim (ℕ_discrete (pdx ph.p_va) d) [
            | no ne ↦ inl ne
            | yes q ↦
                let taken : used d j ≡ true = ap (λ i. used i j) (sym q) ∙ h.marked j le lt in
                elim (dec_lt j x.first) [
                  | yes before ↦ inr (inl before)
                  | no later ↦ elim (dec_lt j (x.first + length x.pages)) [
                    | yes within ↦ absurd (cc (sym taken ∙ unused j (omega (arith, later)) within))
                    | no after ↦ inr (inr (omega (arith, after)))
                  ]
                ]
          ]))
          (λ i j lt. words (nth y.pages i) j (
            All-prefix (λ p. p ≢ nth y.pages i) x.pages rest
                (All-nth (λ q. Avoids q (x.pages ++ rest)) y.pages i lt h.not_free),
            inl (All-nth (λ q. q ≢ x.table) y.pages i lt (h.not_table d x.table known)),
          ))
          h.known (still_used used d x)
          (All-map (λ q. Avoids q (x.pages ++ rest)) (λ q. Avoids q rest) y.pages
            (λ q. All-suffix (λ p. p ≢ q) x.pages rest) h.not_free)
          h.not_table

  not_pgdir : All (λ p. p ≢ pgdir) x.pages
  not_pgdir = All-prefix (λ p. p ≢ pgdir) x.pages rest s.off_dir

  -- The segment that is loaded is in memory.
  pub loaded-Held :
      (binary : ℕ → ℕ) (f : ℕ) (ph : Proghdr)
      → Placed f ph x
      → d ≡ pdx ph.p_va
      → SegmentLoaded pm pgdir binary ph x rest pm'
      → Held pm' pgdir rest tabs (mark d x used) binary f ph x
  loaded-Held binary f ph placed at l = record {
    placed = placed;
    segment = l.segment;
    writable = l.writable;
    tables = l.tables;
    own_pages = l.own_pages;
    known = ap tabs (sym at) ∙ known;
    marked = λ j le lt. ap (λ i. mark d x used i j) (sym at) ∙ mark_inside used d x j le lt;
    not_free = Distinct-apart x.pages rest s.free_list.distinct;
    not_dir = not_pgdir;
    not_table = λ d' t e. off_pages d' t e;
  }
