-- ===== src/Pmap/FreeList/Free.antt =====
-- What `page_free` and `page_decref` of kern/pmap.c do to the free list.
use challenge.Base.{
  ℕ, ◌+◌, ◌-◌, ◌%◌, ◌^◌, ◌<◌, ◌≡◌, refl, subst, sym, ◌∙◌, ◌≢◌, Option, none, some, List, [], ◌∷◌,
  ◌++◌, arith, All, All-middle, if_true, if_false, ==_iff, update, update_ne, ==_refl, ==_ne,
}
use native.Mathlib.Decide.{ℕ_discrete}
use challenge.Base.Run.{ok, exit, panicked, Panic}
use challenge.Pmap.Pages.{PageInfo, Pmap, page_free, page_decref, decref, set_page}
use challenge.Pmap.FreeList.Alloc.{
  Chain, Avoids, Distinct, Idle, IsFreeList, Chain-update, Idle-update, Allocated, page_alloc-head,
  head_eq, nil_head, set_page-IsFreeList,
}

-- What `page_free` needs of a page that is not on the list.
pub record Freeable (pm : Pmap) (p : ℕ) (xs : List ℕ) : Type 0 where
  pub below : p < pm.npages
  pub away : Avoids p xs
  pub unreferenced : (pm.pages p).pp_ref ≡ 0
  pub unlinked : (pm.pages p).pp_link ≡ none

abbrev pub after_free : ℕ → Pmap → Pmap
after_free p pm = record (set_page p (record (pm.pages p) { pp_link = pm.page_free_list }) pm) {
  page_free_list = some p;
}

Avoids-flip : (p : ℕ) (xs : List ℕ) → Avoids p xs → All (λ x. p ≢ x) xs
Avoids-flip p [] a = tt
Avoids-flip p (x ∷ xs) a = ((λ e. a.0 (sym e)), Avoids-flip p xs a.1)

free_runs :
    (pm : Pmap) (p : ℕ)
    → (pm.pages p).pp_ref ≡ 0
    → (pm.pages p).pp_link ≡ none
    → page_free p pm ≡ ok tt (after_free p pm)
unfolding page_free
free_runs pm p idle unlinked = rw (idle, unlinked)

module _ (pm : Pmap) (p : ℕ) (xs : List ℕ) (f : IsFreeList pm xs) (g : Freeable pm p xs) where
  page_free_runs : page_free p pm ≡ ok tt (after_free p pm)
  page_free_runs = free_runs pm p g.unreferenced g.unlinked

  pub pushed : IsFreeList (after_free p pm) (p ∷ xs)
  pushed = record {
    fits = f.fits;
    chain = (refl, rw (==_refl p) (Chain-update pm.pages p _ pm.page_free_list xs g.away f.chain));
    distinct = (g.away, f.distinct);
    idle = (
      (g.below, rw (==_refl p) g.unreferenced),
      Idle-update pm (after_free p pm) p _ xs g.away refl refl f.idle,
    );
  }

-- `page_free` of an unreferenced page that is not on the free list and has no link puts it in
-- front of the free list, and the next `page_alloc` hands the same page out again.
pub page_free-alloc :
    (flags : ℕ) (pm : Pmap) (p : ℕ) (xs : List ℕ)
    → IsFreeList pm xs
    → Freeable pm p xs
    → (pm' pm'' : Pmap) × (page_free p pm ≡ ok tt pm')
      × IsFreeList pm' (p ∷ xs)
      × Allocated flags pm' p xs pm''
page_free-alloc flags pm p xs f g =
    let list = pushed pm p xs f g in
    let (pm'', got) = page_alloc-head flags (after_free p pm) p xs list in
    (after_free p pm, pm'', page_free_runs pm p xs f g, list, got)

-- Along a list that leads to `p` there is no list without `p`, whatever the link of `p`.
no_way_round :
    (pages : ℕ → PageInfo) (p : ℕ) (i : PageInfo) (h : Option ℕ) (xs zs : List ℕ)
    → Avoids p xs
    → Chain pages h (xs ++ p ∷ [])
    → Avoids p zs
    → Chain (update pages p i) h zs
    → ⊥
no_way_round pages p i none [] zs a c b d = c
no_way_round pages p i none (x ∷ xs) zs a c b d = c
no_way_round pages p i (some q) [] [] a c b d = d
no_way_round pages p i (some q) [] (z ∷ zs) a c b d = b.0 (sym d.0 ∙ c.0)
no_way_round pages p i (some q) (x ∷ xs) [] a c b d = d
no_way_round pages p i (some q) (x ∷ xs) (z ∷ zs) a c b d =
    let at_x : Chain (update pages p i) (update pages p i x).pp_link zs =
      subst (λ w. Chain (update pages p i) (update pages p i w).pp_link zs) (sym d.0 ∙ c.0) d.1 in
    no_way_round pages p i (pages x).pp_link xs zs a.1 c.1 b.1 (
      subst (λ (r : PageInfo). Chain (update pages p i) r.pp_link zs) (update_ne pages p x i a.0)
        at_x)

not_list :
    (pages : ℕ → PageInfo) (p : ℕ) (i : PageInfo) (h : Option ℕ) (xs ys : List ℕ)
    → Avoids p xs
    → Chain pages h (xs ++ p ∷ [])
    → i.pp_link ≡ h
    → Distinct ys
    → Chain (update pages p i) (some p) ys
    → ⊥
not_list pages p i h xs [] a c e d chain = chain
not_list pages p i h xs (y ∷ ys) a c e d chain =
    no_way_round pages p i h xs ys a c (subst (λ w. Avoids w ys) (sym chain.0) d.0) (
      subst (λ l. Chain (update pages p i) l ys)
        (subst (λ w. (update pages p i w).pp_link ≡ h) chain.0 (rw (==_refl p) e)) chain.1)

-- The facts about one page of a list.
Avoids-last : (p : ℕ) (xs ys : List ℕ) → Distinct (xs ++ p ∷ ys) → Avoids p xs
Avoids-last p [] ys d = tt
Avoids-last p (x ∷ xs) ys d =
    ((λ e. All-middle (λ z. z ≢ x) xs p ys d.0 (sym e)), Avoids-last p xs ys d.1)

Chain-middle :
    (pages : ℕ → PageInfo) (h : Option ℕ) (p : ℕ) (xs ys : List ℕ)
    → Chain pages h (xs ++ p ∷ ys)
    → Chain pages (pages p).pp_link ys
Chain-middle pages none p [] ys c = absurd c
Chain-middle pages none p (x ∷ xs) ys c = absurd c
Chain-middle pages (some q) p [] ys c = c.1
Chain-middle pages (some q) p (x ∷ xs) ys c = Chain-middle pages (pages x).pp_link p xs ys c.1

-- Freeing a page that is on the free list already: `page_free` panics, except at the last page of
-- the list, whose link is NULL. There it succeeds, and what it leaves is no list at all: the links
-- go round.
pub page_free-twice :
    (pm : Pmap) (p : ℕ) (xs : List ℕ)
    → ((y : ℕ) (ys : List ℕ)
        → IsFreeList pm (xs ++ p ∷ y ∷ ys)
        → page_free p pm ≡ exit (panicked Panic.page_free_link) pm)
      × (IsFreeList pm (xs ++ p ∷ [])
          → (pm' : Pmap) × (page_free p pm ≡ ok tt pm') × ((zs : List ℕ) → ¬ (IsFreeList pm' zs)))
unfolding page_free
page_free-twice pm p xs = (
  (λ y ys f.
      let idle = All-middle (Idle pm) xs p (y ∷ ys) f.idle in
      let chain = Chain-middle pm.pages pm.page_free_list p xs (y ∷ ys) f.chain in
      rw (idle.1, head_eq pm.pages (pm.pages p).pp_link y ys chain)),
  (λ f.
      let idle = All-middle (Idle pm) xs p [] f.idle in
      let chain = Chain-middle pm.pages pm.page_free_list p xs [] f.chain in
      (
        after_free p pm,
        rw (idle.1, nil_head pm.pages (pm.pages p).pp_link chain) refl,
        λ zs g.
            not_list pm.pages p (record (pm.pages p) { pp_link = pm.page_free_list })
              pm.page_free_list xs zs (Avoids-last p xs [] f.distinct) f.chain refl g.distinct
              g.chain,
      )),
)

module _ (pm : Pmap) (p : ℕ) where
  abbrev fewer : ℕ
  fewer = ((pm.pages p).pp_ref + 2 ^ 16 - 1) % 2 ^ 16

  decref_count : ((decref p pm).pages p).pp_ref ≡ fewer
  decref_count = rw (==_refl p) refl

  decref_to_free : fewer ≡ 0 → page_decref p pm ≡ page_free p (decref p pm)
  unfolding page_decref
  decref_to_free e = if_true _ _ ((==_iff _ 0).1 (decref_count ∙ e))

  decref_kept : fewer ≢ 0 → page_decref p pm ≡ ok tt (decref p pm)
  unfolding page_decref
  decref_kept e = if_false _ _ (==_ne _ 0 (λ z. e (sym decref_count ∙ z)))

  decref-IsFreeList : (xs : List ℕ) → IsFreeList pm xs → Avoids p xs → IsFreeList (decref p pm) xs
  decref-IsFreeList xs f away = set_page-IsFreeList pm p _ pm.mem xs f away

-- The count of a page that holds at least one reference falls by one; at one it becomes a free page
-- in front of the list, above one the list stays.
pub page_decref_lem :
    (pm : Pmap) (p : ℕ) (xs : List ℕ)
    → IsFreeList pm xs
    → p < pm.npages
    → Avoids p xs
    → (pm.pages p).pp_link ≡ none
    → 0 < (pm.pages p).pp_ref
    → (pm.pages p).pp_ref < 2 ^ 16
    → (pm' : Pmap) × (page_decref p pm ≡ ok tt pm')
      × ((pm'.pages p).pp_ref + 1 ≡ (pm.pages p).pp_ref)
      × ((pm'.pages p).pp_ref ≡ 0 → IsFreeList pm' (p ∷ xs))
      × ((pm'.pages p).pp_ref ≢ 0 → IsFreeList pm' xs)
      × ((q : ℕ) → q ≢ p → pm'.pages q ≡ pm.pages q)
page_decref_lem pm p xs f lt away unl pos small = elim (ℕ_discrete (fewer pm p) 0) [
  | yes e ↦
      let g : Freeable (decref p pm) p xs = record {
        below = lt;
        away = away;
        unreferenced = decref_count pm p ∙ e;
        unlinked = rw (==_refl p) unl;
      } in
      let list = decref-IsFreeList pm p xs f away in
      (
        after_free p (decref p pm),
        decref_to_free pm p e ∙ page_free_runs (decref p pm) p xs list g,
        rw (==_refl p) (omega arith),
        (λ z. pushed (decref p pm) p xs list g),
        (λ n. absurd (n (rw (==_refl p) e))),
        (λ q ne. rw (==_ne q p ne) refl),
      )
  | no n ↦ (
    decref p pm,
    decref_kept pm p n,
    rw (==_refl p) (omega arith),
    (λ z. absurd (n (sym (decref_count pm p) ∙ z))),
    (λ _. decref-IsFreeList pm p xs f away),
    (λ q ne. rw (==_ne q p ne) refl),
  )
]

-- What `page_decref` leaves alone, and the count.
pub record Dropped (q : ℕ) (pm pm' : Pmap) : Type 0 where
  pub runs : page_decref q pm ≡ ok tt pm'
  pub memory : pm'.mem ≡ pm.mem
  pub size : pm'.npages ≡ pm.npages
  pub others : (p : ℕ) → p ≢ q → pm'.pages p ≡ pm.pages p
  pub count : (pm'.pages q).pp_ref ≡ ((pm.pages q).pp_ref + 2 ^ 16 - 1) % 2 ^ 16

pub page_decref-Dropped :
    (q : ℕ) (pm : Pmap) → (pm.pages q).pp_link ≡ none → (pm' : Pmap) × Dropped q pm pm'
page_decref-Dropped q pm unlinked = elim (ℕ_discrete (fewer pm q) 0) [
  | yes e ↦ (
    after_free q (decref q pm),
    record {
      runs =
          decref_to_free pm q e
          ∙ free_runs (decref q pm) q (decref_count pm q ∙ e) (rw (==_refl q) unlinked);
      memory = refl;
      size = refl;
      others = λ p ne. rw (==_ne p q ne) refl;
      count = rw (==_refl q) refl;
    },
  )
  | no n ↦ (
    decref q pm,
    record {
      runs = decref_kept pm q n;
      memory = refl;
      size = refl;
      others = λ p ne. rw (==_ne p q ne) refl;
      count = rw (==_refl q) refl;
    },
  )
]

-- A page freed twice in a row is noticed where another page is behind it on the free list: `page_free`
-- panics and nothing changes.
pub page_free-noticed :
    (pm : Pmap) (p : ℕ) (xs : List ℕ) (y : ℕ) (ys : List ℕ)
    → IsFreeList pm (xs ++ p ∷ y ∷ ys)
    → page_free p pm ≡ exit (panicked Panic.page_free_link) pm
page_free-noticed pm p xs = (page_free-twice pm p xs).0

-- A double free of the last page of the free list is not noticed: `page_free` returns, and no list of
-- pages is the free list any more.
pub page_free-unnoticed :
    (pm : Pmap) (p : ℕ) (xs : List ℕ)
    → IsFreeList pm (xs ++ p ∷ [])
    → (pm' : Pmap) × (page_free p pm ≡ ok tt pm') × ((zs : List ℕ) → ¬ (IsFreeList pm' zs))
page_free-unnoticed pm p xs = (page_free-twice pm p xs).1
