-- ===== src/Pmap/FreeList/Alloc.antt =====
-- The free list of kern/pmap.c as a list of pages, and what `page_alloc` does to it.
use challenge.Base.{
  ℕ, ◌^◌, ◌≤◌, ◌<◌, ◌≡◌, refl, ◌∙◌, ◌≢◌, ap, bit_and, Option, none, some, List, [], ◌∷◌, arith, All,
  ◌==◌, update, update_ne, inl, inr, Bool-cases, if◌then◌else◌, ==_refl, ==_ne,
}
use challenge.Base.Run.{ok}
use challenge.Pmap.Pages.{PageInfo, Pmap, page_alloc, page2kva, set_page}

-- The links lead from the head through the pages of the list to NULL.
abbrev pub Chain : (ℕ → PageInfo) → Option ℕ → List ℕ → Type 0
Chain pages none [] = Unit
Chain pages none (x ∷ xs) = ⊥
Chain pages (some p) [] = ⊥
Chain pages (some p) (x ∷ xs) = (p ≡ x) × Chain pages (pages x).pp_link xs

abbrev pub Avoids : ℕ → List ℕ → Type 0
Avoids p = All (λ x. x ≢ p)

abbrev pub Distinct : List ℕ → Type 0
Distinct [] = Unit
Distinct (x ∷ xs) = Avoids x xs × Distinct xs

-- A page that can be handed out.
abbrev pub Idle : Pmap → ℕ → Type 0
Idle pm x = (x < pm.npages) × ((pm.pages x).pp_ref ≡ 0)

pub record IsFreeList (pm : Pmap) (xs : List ℕ) : Type 0 where
  pub fits : pm.npages ≤ 2 ^ 20
  pub chain : Chain pm.pages pm.page_free_list xs
  pub distinct : Distinct xs
  pub idle : All (Idle pm) xs

-- A write to a page that is not on the list leaves the list alone.
pub Chain-update :
    (pages : ℕ → PageInfo) (q : ℕ) (i : PageInfo) (h : Option ℕ) (xs : List ℕ)
    → Avoids q xs
    → Chain pages h xs
    → Chain (update pages q i) h xs
Chain-update pages q i none [] a c = tt
Chain-update pages q i none (x ∷ xs) a c = absurd c
Chain-update pages q i (some p) [] a c = absurd c
Chain-update pages q i (some p) (x ∷ xs) a c =
    (c.0, rw (==_ne x q a.0) (Chain-update pages q i (pages x).pp_link xs a.1 c.1))

pub Idle-update :
    (pm pm' : Pmap) (q : ℕ) (i : PageInfo) (xs : List ℕ)
    → Avoids q xs
    → pm'.npages ≡ pm.npages
    → pm'.pages ≡ update pm.pages q i
    → All (Idle pm) xs
    → All (Idle pm') xs
Idle-update pm pm' q i [] a n e h = tt
Idle-update pm pm' q i (x ∷ xs) a n e h =
    ((omega arith, rw (e, ==_ne x q a.0) h.0.1), Idle-update pm pm' q i xs a.1 n e h.1)

-- New values for a page that is not on the list, or for memory, leave the list alone.
pub set_page-IsFreeList :
    (pm : Pmap) (q : ℕ) (i : PageInfo) (m : ℕ → ℕ → ℕ) (xs : List ℕ)
    → IsFreeList pm xs
    → Avoids q xs
    → IsFreeList (record (set_page q i pm) { mem = m }) xs
set_page-IsFreeList pm q i m xs f away = record {
  fits = f.fits;
  chain = Chain-update pm.pages q i pm.page_free_list xs away f.chain;
  distinct = f.distinct;
  idle = Idle-update pm (record (set_page q i pm) { mem = m }) q i xs away refl refl f.idle;
}

pub kva_ok : (pm : Pmap) (p : ℕ) → p < pm.npages → pm.npages ≤ 2 ^ 20 → page2kva p pm ≡ ok p pm
unfolding page2kva
kva_ok pm p lt fits = ground arith

-- What a successful `page_alloc` of the page `p` leaves behind.
pub record Allocated (flags : ℕ) (pm : Pmap) (p : ℕ) (xs : List ℕ) (pm' : Pmap) : Type 0 where
  pub runs : page_alloc flags pm ≡ ok (some p) pm'
  pub rest : IsFreeList pm' xs
  pub unlinked : (pm'.pages p).pp_link ≡ none
  pub unreferenced : (pm'.pages p).pp_ref ≡ 0
  pub others : (q : ℕ) → q ≢ p → pm'.pages q ≡ pm.pages q
  pub zeroed : bit_and flags 1 ≢ 0 → (i : ℕ) → pm'.mem p i ≡ 0
  pub memory : (f i : ℕ) → f ≢ p → pm'.mem f i ≡ pm.mem f i
  pub size : pm'.npages ≡ pm.npages
  pub keeps : pm'.kern_pgdir ≡ pm.kern_pgdir

abbrev unlink : ℕ → Pmap → Pmap
unlink p pm = record pm {
  page_free_list = (pm.pages p).pp_link;
  pages = update pm.pages p (record (pm.pages p) { pp_link = none });
}

abbrev after_alloc : ℕ → ℕ → Pmap → Pmap
after_alloc flags p pm =
    if bit_and flags 1 == 0
    then unlink p pm
    else record (unlink p pm) { mem = update pm.mem p (λ _. 0) }

pub head_eq :
    (pages : ℕ → PageInfo) (h : Option ℕ) (p : ℕ) (xs : List ℕ)
    → Chain pages h (p ∷ xs)
    → h ≡ some p
head_eq pages none p xs c = absurd c
head_eq pages (some q) p xs c = ap some c.0

tail-Chain :
    (pages : ℕ → PageInfo) (h : Option ℕ) (p : ℕ) (xs : List ℕ)
    → Chain pages h (p ∷ xs)
    → Chain pages (pages p).pp_link xs
tail-Chain pages none p xs c = absurd c
tail-Chain pages (some q) p xs c = c.1

alloc_runs :
    (flags : ℕ) (pm : Pmap) (p : ℕ) (xs : List ℕ)
    → IsFreeList pm (p ∷ xs)
    → page_alloc flags pm ≡ ok (some p) (after_alloc flags p pm)
unfolding page_alloc
alloc_runs flags pm p xs f =
    rw (head_eq pm.pages pm.page_free_list p xs f.chain) (elim (Bool-cases (bit_and flags 1 == 0)) [
      | inl e ↦ rw e refl
      | inr e ↦ rw (e, kva_ok (unlink p pm) p f.idle.0.0 f.fits) refl
    ])

module _ (flags : ℕ) (pm : Pmap) (p : ℕ) (xs : List ℕ) (f : IsFreeList pm (p ∷ xs)) where
  unlinked_rest : (m : ℕ → ℕ → ℕ) → IsFreeList (record (unlink p pm) { mem = m }) xs
  unlinked_rest m = record {
    fits = f.fits;
    chain =
        Chain-update pm.pages p _ (pm.pages p).pp_link xs f.distinct.0
          (tail-Chain pm.pages pm.page_free_list p xs f.chain);
    distinct = f.distinct.1;
    idle = Idle-update pm (record (unlink p pm) { mem = m }) p _ xs f.distinct.0 refl refl f.idle.1;
  }

  -- `page_alloc` with a free list that is not empty gives its first page, unlinked and
  -- unreferenced, zeroed if the caller asks for it, and the rest of the list stays a free list; no
  -- other page changes.
  pub page_alloc-head : (pm' : Pmap) × Allocated flags pm p xs pm'
  page_alloc-head = elim (Bool-cases (bit_and flags 1 == 0)) [
    | inl e ↦ (
      unlink p pm,
      record {
        runs = alloc_runs flags pm p xs f ∙ ap (ok (some p)) (rw e refl);
        rest = unlinked_rest pm.mem;
        unlinked = rw (==_refl p) refl;
        unreferenced = rw (==_refl p) f.idle.0.1;
        others = λ q ne. update_ne pm.pages p q _ ne;
        zeroed = λ ne. absurd (ground arith);
        memory = λ g i ne. refl;
        size = refl;
        keeps = refl;
      },
    )
    | inr e ↦ (
      record (unlink p pm) { mem = update pm.mem p (λ _. 0) },
      record {
        runs = alloc_runs flags pm p xs f ∙ ap (ok (some p)) (rw e refl);
        rest = unlinked_rest (update pm.mem p (λ _. 0));
        unlinked = rw (==_refl p) refl;
        unreferenced = rw (==_refl p) f.idle.0.1;
        others = λ q ne. update_ne pm.pages p q _ ne;
        zeroed = λ ne i. rw (==_refl p) refl;
        memory = λ g i ne. rw (==_ne g p ne) refl;
        size = refl;
        keeps = refl;
      },
    )
  ]

pub nil_head : (pages : ℕ → PageInfo) (h : Option ℕ) → Chain pages h [] → h ≡ none
nil_head pages none c = refl
nil_head pages (some q) c = absurd c

-- With no free page `page_alloc` returns NULL and changes nothing.
pub page_alloc-empty : (flags : ℕ) (pm : Pmap) → IsFreeList pm [] → page_alloc flags pm ≡ ok none pm
unfolding page_alloc
page_alloc-empty flags pm f = rw (nil_head pm.pages pm.page_free_list f.chain)
