-- ===== src/Env/Load/Growing.antt =====
-- kern/env.c: how a new page table and a new segment change the address space that `load_icode` fills.
use challenge.Base.{
  ℕ, ◌<◌, ◌≡◌, ◌≢◌, sym, ◌∙◌, ap, subst, some, none, Option, List, [], ◌∷◌, arith, inl, inr, ◌⊎◌,
  All, update, update_self, update_ne,
}
use native.Mathlib.Decide.{ℕ_discrete}
use challenge.Mmu.{pdx, pgnum}
use challenge.Pmap.Pages.{Pmap}
use challenge.Pmap.Tables.{is_present}
use challenge.Pmap.FreeList.Alloc.{Avoids}
use challenge.Env.Load.{Proghdr}
use challenge.Env.Load.Region.Grown.{Grown}
use challenge.Env.Load.Pages.{nth, All-nth}
use challenge.Env.Load.Segment.{Extent}
use challenge.Env.Load.Space.{Tables, Used, Space, Held, Held-same}

abbrev pub with_table : Tables → ℕ → ℕ → Tables
with_table tabs d t = update tabs d (some t)

-- A table of the larger address space is the new one or one of the old ones.
old_or_new :
    (tabs : Tables) (d t d' t' : ℕ)
    → with_table tabs d t d' ≡ some t'
    → ((d' ≡ d) × (t ≡ t')) ⊎ ((d' ≢ d) × (tabs d' ≡ some t'))
old_or_new tabs d t d' t' e = elim (ℕ_discrete d' d) [
  | yes q ↦ inl (
    q,
    ap (λ (o : Option ℕ). elim o [ none ↦ t | some x ↦ x ])
        (sym (update_self tabs d (some t)) ∙ ap (with_table tabs d t) (sym q) ∙ e),
  )
  | no q ↦ inr (q, sym (update_ne tabs d d' (some t) q) ∙ e)
]

not_new : (tabs : Tables) (d t d' : ℕ) → with_table tabs d t d' ≡ none → (d' ≢ d) × (tabs d' ≡ none)
not_new tabs d t d' e = elim (ℕ_discrete d' d) [
  | yes q ↦ absurd (cc (sym (update_self tabs d (some t)) ∙ ap (with_table tabs d t) (sym q) ∙ e))
  | no q ↦ (q, sym (update_ne tabs d d' (some t) q) ∙ e)
]

pub All-map : (P Q : ℕ → Type 0) (xs : List ℕ) → ((x : ℕ) → P x → Q x) → All P xs → All Q xs
All-map P Q [] f h = tt
All-map P Q (x ∷ xs) f h = (f x h.0, All-map P Q xs f h.1)

module _ (pm pm' : Pmap) (pgdir d t p : ℕ) (ts : List ℕ) (tabs : Tables) (used : Used)
    (s : Space pm pgdir (p ∷ t ∷ ts) tabs used) (g : Grown pm pgdir d t p ts pm')
    (new : tabs d ≡ none) where
  off_t : pgdir ≢ t
  off_t e = s.off_dir.1.0 (sym e)

  off_p : pgdir ≢ p
  off_p e = s.off_dir.0 (sym e)

  same_dir : (d' : ℕ) → d' ≢ d → pm'.mem pgdir d' ≡ pm.mem pgdir d'
  same_dir d' ne = g.words pgdir d' off_t off_p (inr ne)

  same_table : (d' t' : ℕ) → tabs d' ≡ some t' → (j : ℕ) → pm'.mem t' j ≡ pm.mem t' j
  same_table d' t' e j =
      let a = s.away d' t' e in
      g.words t' j (λ q. a.1.0 (sym q)) (λ q. a.0 (sym q)) (inl (s.apart d' t' e))

  pub grown-Space : Space pm' pgdir (p ∷ ts) (with_table tabs d t) used
  grown-Space = record {
    free_list = g.free;
    off_dir = (s.off_dir.0, s.off_dir.1.1);
    missing = λ d' lt e.
        let (ne, old) = not_new tabs d t d' e in
        ap is_present (same_dir d' ne) ∙ s.missing d' lt old;
    present = λ d' t' e. elim (old_or_new tabs d t d' t' e) [
      | inl (q, q') ↦ ap (λ i. is_present (pm'.mem pgdir i)) q ∙ g.present
      | inr (ne, old) ↦ ap is_present (same_dir d' ne) ∙ s.present d' t' old
    ];
    entry = λ d' t' e. elim (old_or_new tabs d t d' t' e) [
      | inl (q, q') ↦ ap (λ i. pgnum (pm'.mem pgdir i)) q ∙ g.entry ∙ q'
      | inr (ne, old) ↦ ap pgnum (same_dir d' ne) ∙ s.entry d' t' old
    ];
    below = λ d' t' e. elim (old_or_new tabs d t d' t' e) [
      | inl (q, q') ↦ subst (λ i. i < pm'.npages) q' g.below
      | inr (ne, old) ↦ omega (arith, s.below d' t' old, g.size)
    ];
    apart = λ d' t' e. elim (old_or_new tabs d t d' t' e) [
      | inl (q, q') ↦ λ z. off_t (sym (q' ∙ z))
      | inr (ne, old) ↦ s.apart d' t' old
    ];
    away = λ d' t' e. elim (old_or_new tabs d t d' t' e) [
      | inl (q, q') ↦
          subst (λ i. Avoids i (p ∷ ts)) q'
            ((λ z. s.free_list.distinct.0.0 (sym z)), s.free_list.distinct.1.0)
      | inr (ne, old) ↦ let a = s.away d' t' old in (a.0, a.1.1)
    ];
    one = λ d' d2 t' e e2. elim (old_or_new tabs d t d' t' e) [
      | inl (q, q') ↦ elim (old_or_new tabs d t d2 t' e2) [
        | inl (z, z') ↦ q ∙ sym z
        | inr (ne, old) ↦ absurd ((s.away d2 t' old).1.0 q')
      ]
      | inr (ne, old) ↦ elim (old_or_new tabs d t d2 t' e2) [
        | inl (z, z') ↦ absurd ((s.away d' t' old).1.0 z')
        | inr (ne2, old2) ↦ s.one d' d2 t' old old2
      ]
    ];
    unmapped = λ d' t' j e free. elim (old_or_new tabs d t d' t' e) [
      | inl (q, q') ↦ ap (λ i. is_present (pm'.mem i j)) (sym q') ∙ ap is_present (g.empty j)
      | inr (ne, old) ↦ ap is_present (same_table d' t' old j) ∙ s.unmapped d' t' j old free
    ];
  }

  pub grown-Held :
      (binary : ℕ → ℕ) (f : ℕ) (ph : Proghdr) (x : Extent)
      → Held pm pgdir (p ∷ t ∷ ts) tabs used binary f ph x
      → Held pm' pgdir (p ∷ ts) (with_table tabs d t) used binary f ph x
  grown-Held binary f ph x h =
      let ne : pdx ph.p_va ≢ d = λ q. absurd (cc (sym h.known ∙ ap tabs q ∙ new)) in
      Held-same pm pm' pgdir (p ∷ t ∷ ts) (p ∷ ts) tabs (with_table tabs d t) used used binary f ph
        x h (same_dir (pdx ph.p_va) ne) (λ j le lt. same_table (pdx ph.p_va) x.table h.known j)
        (λ i j lt.
          let a = All-nth (λ q. Avoids q (p ∷ t ∷ ts)) x.pages i lt h.not_free in
          g.words (nth x.pages i) j (λ q. a.1.0 (sym q)) (λ q. a.0 (sym q))
            (inl (All-nth (λ q. q ≢ pgdir) x.pages i lt h.not_dir)))
        (update_ne tabs d (pdx ph.p_va) (some t) ne ∙ h.known) (λ d' j m. m)
        (All-map (λ q. Avoids q (p ∷ t ∷ ts)) (λ q. Avoids q (p ∷ ts)) x.pages (λ q a. (a.0, a.1.1))
          h.not_free)
        (λ d' t' e. elim (old_or_new tabs d t d' t' e) [
          | inl (q, q') ↦
              All-map (λ q. Avoids q (p ∷ t ∷ ts)) (λ q. q ≢ t') x.pages
                (λ z a w. a.1.0 (q' ∙ sym w)) h.not_free
          | inr (ne', old) ↦ h.not_table d' t' old
        ])
