-- ===== src/Env/Load/Program.antt =====
-- kern/env.c: the segments of a program, loaded one after the other with the page tables that they need.
use challenge.Base.{
  ℕ, suc, ◌+◌, ◌<◌, ◌≤◌, ◌≡◌, ◌≢◌, refl, sym, ◌∙◌, ap, subst, false, some, none, Option, List, [],
  ◌∷◌, ◌++◌, arith, length, update_self, update_ne,
}
use mathlib.Core.Path.{fun_ext}
use native.Mathlib.Decide.{ℕ_discrete}
use challenge.Mmu.{pgsize, pdx, ptx, rounddown, roundup, word}
use challenge.Pmap.Pages.{Pmap}
use challenge.Env.State.{Kernel}
use challenge.Env.Load.{Proghdr, region_alloc}
use challenge.Env.Load.Region.{region_start, region_stop}
use challenge.Env.Load.Region.Grown.{region_alloc-Grown}
use challenge.Env.Load.Pages.{All-prefix}
use challenge.Env.Load.Segment.{Extent, Loadable}
use challenge.Env.Load.Space.{Tables, Used, Space, Held, Placed, mark}
use challenge.Env.Load.Growing.{with_table, grown-Space, grown-Held}

-- The pages that a segment takes from the free list, in their order: where its page table is missing, that is the second
abbrev pub with_first : ℕ → List ℕ → List ℕ → List ℕ
with_first t [] rest = rest
with_first t (p ∷ ps) rest = p ∷ t ∷ (ps ++ rest)

abbrev pub taken : Option ℕ → Extent → List ℕ → List ℕ
taken (some t) x rest = x.pages ++ rest
taken none x rest = with_first x.table x.pages rest

abbrev pub all_taken : Tables → List (Proghdr × Extent) → List ℕ → List ℕ
all_taken tabs [] rest = rest
all_taken tabs (h ∷ hs) rest =
    taken (tabs (pdx h.0.p_va)) h.1 (all_taken (with_table tabs (pdx h.0.p_va) h.1.table) hs rest)

-- The segments can be placed one after the other: each in the table that its part of the directory has, at entries that
-- are not taken.
abbrev pub Planned : ℕ → Tables → Used → List (Proghdr × Extent) → Type 0
Planned f tabs used [] = Unit
Planned f tabs used (h ∷ hs) =
    let d = pdx h.0.p_va in
    Placed f h.0 h.1
    × ((t : ℕ) → tabs d ≡ some t → t ≡ h.1.table)
    × ((j : ℕ) → h.1.first ≤ j → j < h.1.first + length h.1.pages → used d j ≡ false)
    × Planned f (with_table tabs d h.1.table) (mark d h.1 used) hs

with_known : (tabs : Tables) (d t : ℕ) → tabs d ≡ some t → tabs ≡ with_table tabs d t
with_known tabs d t e = fun_ext (λ i. elim (ℕ_discrete i d) [
  | yes q ↦ ap tabs q ∙ e ∙ sym (update_self tabs d (some t)) ∙ ap (with_table tabs d t) (sym q)
  | no ne ↦ sym (update_ne tabs d i (some t) ne)
])

-- The state from which `region_alloc` does the same with the page table there
abbrev pub Ready : ℕ → ℕ → Kernel → ℕ → Proghdr → Extent → List ℕ → List ℕ → Tables → Used → Type 0
Ready f e k pgdir ph x free rest tabs used =
    (pm0 : Pmap) × (region_alloc f e ph.p_va ph.p_memsz k
      ≡ region_alloc f e ph.p_va ph.p_memsz (record k { pm = pm0 }))
    × Space pm0 pgdir (x.pages ++ rest) (with_table tabs (pdx ph.p_va) x.table) used
    × ((binary : ℕ → ℕ) (f' : ℕ) (ph' : Proghdr) (y : Extent)
        → Held k.pm pgdir free tabs used binary f' ph' y
        → Held pm0 pgdir (x.pages ++ rest) (with_table tabs (pdx ph.p_va) x.table) used binary f'
            ph' y)

module _ (f e : ℕ) (k : Kernel) (pgdir : ℕ) (ph : Proghdr) (x : Extent) (rest : List ℕ)
    (tabs : Tables) (used : Used) (dir : (k.envs e).env_pgdir ≡ some pgdir)
    (placed : Placed (suc f) ph x) where
  there-Ready :
      tabs (pdx ph.p_va) ≡ some x.table
      → Space k.pm pgdir (x.pages ++ rest) tabs used
      → Ready (suc f) e k pgdir ph x (x.pages ++ rest) rest tabs used
  there-Ready known s =
      let same = with_known tabs (pdx ph.p_va) x.table known in
      (
        k.pm,
        refl,
        subst (λ (q : Tables). Space k.pm pgdir (x.pages ++ rest) q used) same s,
        λ binary f' ph' y h.
            subst (λ (q : Tables). Held k.pm pgdir (x.pages ++ rest) q used binary f' ph' y) same h,
      )

  not_empty : rounddown ph.p_va pgsize < roundup (word (ph.p_va + ph.p_memsz)) pgsize
  not_empty =
      let room : ptx ph.p_va + length x.pages ≤ 1024 = omega (arith, placed.starts, placed.room) in
      let some_pages : 0 < length x.pages = omega (arith, placed.count, placed.some_size) in
      let start = region_start ph.p_va (omega (arith, placed.below)) in
      let stop = region_stop ph.p_va ph.p_memsz (length x.pages) placed.count room placed.below in
      omega (arith, start, stop, some_pages)

  created-Ready :
      (ps : List ℕ)
      → x.pages ≡ ps
      → tabs (pdx ph.p_va) ≡ none
      → Space k.pm pgdir (with_first x.table ps rest) tabs used
      → Ready (suc f) e k pgdir ph x (with_first x.table ps rest) rest tabs used
  created-Ready [] q new s = absurd (omega (arith, placed.count, placed.some_size, ap length q))
  created-Ready (p ∷ ps) q new s =
      let (pm0, same, g) =
        region_alloc-Grown f e k ph.p_va ph.p_memsz pgdir p x.table (ps ++ rest) dir s.free_list
          (s.missing (pdx ph.p_va) placed.low new) (λ z. s.off_dir.0 (sym z)) s.off_dir.1.0
          not_empty (omega (arith, placed.below)) in
      let d = pdx ph.p_va in
      (
        pm0,
        same,
        subst (λ zs. Space pm0 pgdir (zs ++ rest) (with_table tabs d x.table) used) (sym q)
            (grown-Space k.pm pm0 pgdir d x.table p (ps ++ rest) tabs used s g new),
        λ binary f' ph' y h.
            subst
              (λ zs. Held pm0 pgdir (zs ++ rest) (with_table tabs d x.table) used binary f' ph' y)
              (sym q)
              (grown-Held k.pm pm0 pgdir d x.table p (ps ++ rest) tabs used s g new binary f' ph' y
                h),
      )

  pub ready :
      (o : Option ℕ)
      → tabs (pdx ph.p_va) ≡ o
      → ((t : ℕ) → tabs (pdx ph.p_va) ≡ some t → t ≡ x.table)
      → Space k.pm pgdir (taken o x rest) tabs used
      → Ready (suc f) e k pgdir ph x (taken o x rest) rest tabs used
  ready none q here s = created-Ready x.pages refl q s
  ready (some t) q here s = there-Ready (q ∙ ap some (here t q)) s

  pub Space-Loadable :
      (pm : Pmap)
      → ((j : ℕ) → x.first ≤ j → j < x.first + length x.pages → used (pdx ph.p_va) j ≡ false)
      → Space pm pgdir (x.pages ++ rest) (with_table tabs (pdx ph.p_va) x.table) used
      → Loadable pm pgdir (suc f) ph x
  Space-Loadable pm unused s =
      let d = pdx ph.p_va in
      let known : with_table tabs d x.table d ≡ some x.table = update_self tabs d (some x.table) in
      record {
        type = placed.type;
        fits = placed.fits;
        starts = placed.starts;
        count = placed.count;
        fuel = placed.fuel;
        room = placed.room;
        below = placed.below;
        has_table = record {
          present = s.present d x.table known;
          entry = s.entry d x.table known;
          below = s.below d x.table known;
          apart = s.apart d x.table known;
        };
        off_dir = All-prefix (λ p. p ≢ pgdir) x.pages rest s.off_dir;
        off_table = All-prefix (λ p. p ≢ x.table) x.pages rest (s.away d x.table known);
        unmapped = λ j le lt. s.unmapped d x.table j known (unused j le lt);
      }
