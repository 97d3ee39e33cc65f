-- ===== src/Env/Load/Pages.antt =====
-- kern/env.c: the addresses of a region that `region_alloc` maps can be written.
use challenge.Base.{
  ℕ, zero, suc, ◌+◌, ◌-◌, ◌/◌, ◌^◌, ◌<◌, ◌≤◌, ◌≡◌, ◌≢◌, refl, sym, ◌∙◌, ap, List, [], ◌∷◌, ◌++◌,
  arith, inl, length, All, bit_and, ◌==◌,
}
use challenge.Mmu.{pgsize, pdx, ptx, pgnum, pte_w}
use challenge.Pmap.Pages.{Pmap}
use challenge.Pmap.Tables.{is_present, leaf_entry}
use challenge.Pmap.FreeList.Alloc.{IsFreeList, Avoids, Distinct, Idle}
use challenge.Pmap.Mapping.Walk.{HasTable}
use challenge.Pmap.Mapping.Insert.{leaf_entry_present, leaf_entry_page, leaf_entry_writable}
use challenge.Pmap.Access.Check.{table_of}
use challenge.Env.Load.Region.{Loaded, Entries, pages_of}
use challenge.Env.Load.Store.{entry_for, page_of, Writable}

-- The page at the place `i` of the list
unfoldable pub nth : List ℕ → ℕ → ℕ
nth [] i = 0
nth (p ∷ ps) zero = p
nth (p ∷ ps) (suc i) = nth ps i

pub All-nth : (P : ℕ → Type 0) (ps : List ℕ) (i : ℕ) → i < length ps → All P ps → P (nth ps i)
unfolding nth
All-nth P [] i lt h = absurd (omega arith)
All-nth P (p ∷ ps) zero lt h = h.0
All-nth P (p ∷ ps) (suc i) lt h = All-nth P ps i (omega arith) h.1

Distinct-nth :
    (ps : List ℕ) (i j : ℕ)
    → i < length ps
    → j < length ps
    → Distinct ps
    → nth ps i ≡ nth ps j
    → i ≡ j
unfolding nth
Distinct-nth [] i j lt lt' d e = absurd (omega arith)
Distinct-nth (p ∷ ps) zero zero lt lt' d e = refl
Distinct-nth (p ∷ ps) zero (suc j) lt lt' d e =
    absurd (All-nth (λ x. x ≢ p) ps j (omega arith) d.0 (sym e))
Distinct-nth (p ∷ ps) (suc i) zero lt lt' d e =
    absurd (All-nth (λ x. x ≢ p) ps i (omega arith) d.0 e)
Distinct-nth (p ∷ ps) (suc i) (suc j) lt lt' d e =
    let h : i ≡ j = Distinct-nth ps i j (omega arith) (omega arith) d.1 e in omega (arith, h)

Entries-nth :
    (pm : Pmap) (t k i : ℕ) (ps : List ℕ)
    → i < length ps
    → Entries pm t k ps
    → pm.mem t (k + i) ≡ leaf_entry (nth ps i) 6
unfolding nth
Entries-nth pm t k i [] lt h = absurd (omega arith)
Entries-nth pm t k zero (p ∷ ps) lt h = ap (pm.mem t) {x = k + 0} {y = k} (omega arith) ∙ h.0
Entries-nth pm t k (suc i) (p ∷ ps) lt h =
    ap (pm.mem t) {x = k + suc i} {y = k + 1 + i} (omega arith)
    ∙ Entries-nth pm t (k + 1) i ps (omega arith) h.1

pub All-prefix : (P : ℕ → Type 0) (ps rest : List ℕ) → All P (ps ++ rest) → All P ps
All-prefix P [] rest h = tt
All-prefix P (p ∷ ps) rest h = (h.0, All-prefix P ps rest h.1)

Distinct-prefix : (ps rest : List ℕ) → Distinct (ps ++ rest) → Distinct ps
Distinct-prefix [] rest d = tt
Distinct-prefix (p ∷ ps) rest d = (All-prefix (λ x. x ≢ p) ps rest d.0, Distinct-prefix ps rest d.1)

-- The place of the page of `a` among those of a region at `va`
abbrev pub place : ℕ → ℕ → ℕ
place va a = ptx a - ptx va

module _ (pm pm' : Pmap) (pgdir t va len : ℕ) (ps rest : List ℕ)
    (count : length ps ≡ pages_of va len) (room : ptx va + length ps ≤ 1024)
    (below : va + len + pgsize < 2 ^ 32) (table : HasTable pm pgdir va t)
    (free : IsFreeList pm (ps ++ rest)) (off_dir : Avoids pgdir ps) (off_table : Avoids t ps)
    (l : Loaded pm t (ptx va) ps rest pm') where
  pub same_directory : (a : ℕ) → va ≤ a → a < va + len → pdx a ≡ pdx va
  same_directory a le lt = omega (arith, count, room)

  pub place_inside : (a : ℕ) → va ≤ a → a < va + len → place va a < length ps
  place_inside a le lt = omega (arith, count, room)

  pub place_entry : (a : ℕ) → va ≤ a → a < va + len → ptx va + place va a ≡ ptx a
  place_entry a le lt = omega (arith, count, room)

  place_same :
      (a b : ℕ)
      → va ≤ a
      → a < va + len
      → va ≤ b
      → b < va + len
      → place va a ≡ place va b
      → a / pgsize ≡ b / pgsize
  place_same a b le lt le' lt' e = omega (arith, count, room, e)

  directory_word : (a : ℕ) → va ≤ a → a < va + len → pm'.mem pgdir (pdx a) ≡ pm.mem pgdir (pdx va)
  directory_word a le lt =
      ap (pm'.mem pgdir) (same_directory a le lt)
      ∙ l.words pgdir (pdx va) off_dir (inl (λ e. table.apart (sym e)))

  pub the_table : (a : ℕ) → va ≤ a → a < va + len → table_of pm' pgdir a ≡ t
  the_table a le lt = ap pgnum (directory_word a le lt) ∙ table.entry

  the_entry :
      (a : ℕ) → va ≤ a → a < va + len → entry_for pm' pgdir a ≡ leaf_entry (nth ps (place va a)) 6
  the_entry a le lt =
      ap (λ g. pm'.mem g (ptx a)) (the_table a le lt)
      ∙ ap (pm'.mem t) (sym (place_entry a le lt))
      ∙ Entries-nth pm' t (ptx va) (place va a) ps (place_inside a le lt) l.entries

  pub the_page : (a : ℕ) → va ≤ a → a < va + len → page_of pm' pgdir a ≡ nth ps (place va a)
  the_page a le lt =
      let idle : Idle pm (nth ps (place va a)) =
        All-nth (Idle pm) ps (place va a) (place_inside a le lt)
          (All-prefix (Idle pm) ps rest free.idle) in
      ap pgnum (the_entry a le lt)
      ∙ leaf_entry_page (nth ps (place va a)) 6 (omega (arith, idle.0, free.fits)) (omega arith)

  pub Loaded-Writable : Writable pm' pgdir va (va + len)
  Loaded-Writable = record {
    limit = omega (arith, below);
    directory = λ a le lt. ap is_present (directory_word a le lt) ∙ table.present;
    present =
        λ a le lt. ap is_present (the_entry a le lt) ∙ leaf_entry_present (nth ps (place va a)) 6;
    writes = λ a le lt.
        ap (λ e. bit_and e pte_w == 0) (the_entry a le lt)
        ∙ ap (λ e. e == 0) (leaf_entry_writable (nth ps (place va a)) 6);
    not_dir = λ a le lt e.
        All-nth (λ x. x ≢ pgdir) ps (place va a) (place_inside a le lt) off_dir
          (sym (the_page a le lt) ∙ e);
    not_table = λ a b le lt le' lt' e.
        All-nth (λ x. x ≢ t) ps (place va a) (place_inside a le lt) off_table
          (sym (the_page a le lt) ∙ e ∙ the_table b le' lt');
    own = λ a b le lt le' lt' e. place_same a b le lt le' lt' (
        Distinct-nth ps (place va a) (place va b) (place_inside a le lt) (place_inside b le' lt')
          (Distinct-prefix ps rest free.distinct)
          (sym (the_page a le lt) ∙ e ∙ the_page b le' lt'));
  }
