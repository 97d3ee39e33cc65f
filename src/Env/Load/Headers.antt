-- ===== src/Env/Load/Headers.antt =====
-- kern/env.c: the loop of `load_icode` over the program headers.
use challenge.Base.{
  Option, none, ◌≢◌, le→not_ltb, ==_ne, ℕ, suc, ◌+◌, ◌<◌, ◌≤◌, ◌^◌, ◌≡◌, refl, ◌∙◌, some, List, [],
  ◌∷◌, ◌++◌, length, All, false, update_self,
}
use challenge.Base.Run.{ok}
use challenge.Mmu.{pdx}
use challenge.Pmap.Pages.{Pmap}
use challenge.Env.State.{Kernel}
use challenge.Env.Load.{Proghdr, proghdr, elf_prog_load, load_segment, load_segments}
use challenge.Env.Load.Segment.{Extent, load_segment-SegmentLoaded}
use challenge.Env.Load.Space.{Tables, Used, Space, Held, Placed, mark}
use challenge.Env.Load.Growing.{with_table}
use challenge.Env.Load.Filling.{filled-Space, filled-Held, loaded-Held}
use challenge.Env.Load.Program.{taken, all_taken, Planned, ready, Space-Loadable}

-- The program headers from the offset `ph` on that are to be loaded, and where they are placed; `none` is one that is not
abbrev pub headers : (ℕ → ℕ) → ℕ → List (Option Extent) → List (Proghdr × Extent)
headers binary ph [] = []
headers binary ph (none ∷ xs) = headers binary (ph + 32) xs
headers binary ph (some x ∷ xs) = (proghdr binary ph, x) ∷ headers binary (ph + 32) xs

-- The program headers that are not to be loaded
abbrev pub Skipped : (ℕ → ℕ) → ℕ → List (Option Extent) → Type 0
Skipped binary ph [] = Unit
Skipped binary ph (none ∷ xs) =
    let h = proghdr binary ph in
    (h.p_type ≢ elf_prog_load) × (h.p_filesz ≤ h.p_memsz) × Skipped binary (ph + 32) xs
Skipped binary ph (some x ∷ xs) = Skipped binary (ph + 32) xs

load_segment-skipped :
    (f e : ℕ) (binary : ℕ → ℕ) (ph : Proghdr) (k : Kernel)
    → ph.p_type ≢ elf_prog_load
    → ph.p_filesz ≤ ph.p_memsz
    → load_segment f e binary ph k ≡ ok (some tt) k
unfolding load_segment
load_segment-skipped f e binary ph k other fits =
    rw (le→not_ltb ph.p_memsz ph.p_filesz fits, ==_ne ph.p_type elf_prog_load other) refl

load_segments-next :
    (f e : ℕ) (binary : ℕ → ℕ) (ph n : ℕ) (k k1 : Kernel)
    → load_segment f e binary (proghdr binary ph) k ≡ ok (some tt) k1
    → load_segments f e binary ph (suc n) k ≡ load_segments f e binary (ph + 32) n k1
unfolding load_segments load_segment
load_segments-next f e binary ph n k k1 run = rw run refl

-- What is in memory in `pm` is so in `pm'`.
abbrev Keeps : ℕ → (ℕ → ℕ) → Pmap → List ℕ → Tables → Used → Pmap → List ℕ → Tables → Used → Type 0
Keeps pgdir binary pm free tabs used pm' free' tabs' used' =
    (f : ℕ) (ph : Proghdr) (y : Extent)
    → Held pm pgdir free tabs used binary f ph y
    → Held pm' pgdir free' tabs' used' binary f ph y

-- One segment with the table that it needs
one_segment :
    (f e : ℕ) (binary : ℕ → ℕ) (ph : Proghdr) (x : Extent) (k : Kernel) (pgdir : ℕ) (rest : List ℕ)
    (tabs : Tables) (used : Used)
    → ((j : ℕ) → binary j < 2 ^ 8)
    → (k.envs e).env_pgdir ≡ some pgdir
    → k.cr3 ≡ pgdir
    → Placed (suc f) ph x
    → ((t : ℕ) → tabs (pdx ph.p_va) ≡ some t → t ≡ x.table)
    → ((j : ℕ) → x.first ≤ j → j < x.first + length x.pages → used (pdx ph.p_va) j ≡ false)
    → Space k.pm pgdir (taken (tabs (pdx ph.p_va)) x rest) tabs used
    → (pm' : Pmap) × (load_segment (suc f) e binary ph k ≡ ok (some tt) (record k { pm = pm' }))
      × Space pm' pgdir rest (with_table tabs (pdx ph.p_va) x.table) (mark (pdx ph.p_va) x used)
      × Held pm' pgdir rest
          (with_table tabs (pdx ph.p_va) x.table)
          (mark (pdx ph.p_va) x used)
          binary
          (suc f)
          ph
          x
      × Keeps pgdir binary k.pm
          (taken (tabs (pdx ph.p_va)) x rest)
          tabs
          used
          pm'
          rest
          (with_table tabs (pdx ph.p_va) x.table)
          (mark (pdx ph.p_va) x used)
one_segment f e binary ph x k pgdir rest tabs used bytes dir cr3 placed here unused s =
    let d = pdx ph.p_va in
    let tabs' = with_table tabs d x.table in
    let known : tabs' d ≡ some x.table = update_self tabs d (some x.table) in
    let (pm0, same, s0, keeps) =
      ready f e k pgdir ph x rest tabs used dir placed (tabs d) refl here s in
    let (pm', run, l) =
      load_segment-SegmentLoaded (suc f) e binary ph k pm0 pgdir x rest bytes dir cr3 same
        s0.free_list (Space-Loadable f e k pgdir ph x rest tabs used dir placed pm0 unused s0) in
    (
      pm',
      run,
      filled-Space pm0 pm' pgdir x d rest tabs' used s0 known l.free l.size l.words,
      loaded-Held pm0 pm' pgdir x d rest tabs' used s0 known l.free l.size l.words binary (suc f) ph
          placed refl l,
      λ f' ph' y h.
          filled-Held pm0 pm' pgdir x d rest tabs' used s0 known l.free l.size l.words unused binary
            f' ph' y (keeps binary f' ph' y h),
    )

-- The loop loads each segment, and leaves those that are in memory as they are; the segments `zs` can be placed after it.
pub load_segments-Held :
    (f e : ℕ) (binary : ℕ → ℕ) (ph : ℕ) (k : Kernel) (pgdir : ℕ) (xs : List (Option Extent))
    (zs : List (Proghdr × Extent)) (rest : List ℕ) (tabs : Tables) (used : Used)
    → ((j : ℕ) → binary j < 2 ^ 8)
    → (k.envs e).env_pgdir ≡ some pgdir
    → k.cr3 ≡ pgdir
    → Skipped binary ph xs
    → Planned (suc f) tabs used (headers binary ph xs ++ zs)
    → Space k.pm pgdir (all_taken tabs (headers binary ph xs ++ zs) rest) tabs used
    → (pm' : Pmap) × (tabs' : Tables) × (used' : Used) × (load_segments
          (suc f)
          e
          binary
          ph
          (length xs)
          k
        ≡ ok (some tt) (record k { pm = pm' }))
      × Planned (suc f) tabs' used' zs
      × Space pm' pgdir (all_taken tabs' zs rest) tabs' used'
      × All
          (λ (h : Proghdr × Extent).
            Held pm' pgdir (all_taken tabs' zs rest) tabs' used' binary (suc f) h.0 h.1)
          (headers binary ph xs)
      × Keeps pgdir binary k.pm
          (all_taken tabs (headers binary ph xs ++ zs) rest)
          tabs
          used
          pm'
          (all_taken tabs' zs rest)
          tabs'
          used'
unfolding load_segments
load_segments-Held f e binary ph k pgdir [] zs rest tabs used bytes dir cr3 skip plan s =
    (k.pm, tabs, used, refl, plan, s, tt, λ f' ph' y h. h)
load_segments-Held f e binary ph k pgdir (none ∷ xs) zs rest tabs used bytes dir cr3 skip plan s =
    let (pm', tabs', used', run', planned, s', all, keeps) =
      load_segments-Held f e binary (ph + 32) k pgdir xs zs rest tabs used bytes dir cr3 skip.2 plan
        s in
    (
      pm',
      tabs',
      used',
      load_segments-next (suc f) e binary ph (length xs) k k
            (load_segment-skipped (suc f) e binary (proghdr binary ph) k skip.0 skip.1)
          ∙ run',
      planned,
      s',
      all,
      keeps,
    )
load_segments-Held f e binary ph k pgdir (some x ∷ xs) zs rest tabs used bytes dir cr3 skip plan s =
    let hdr = proghdr binary ph in
    let d = pdx hdr.p_va in
    let tabs1 = with_table tabs d x.table in
    let used1 = mark d x used in
    let (placed, here, unused, later) = plan in
    let (pm1, run, s1, held, keeps) =
      one_segment f e binary hdr x k pgdir
        (all_taken tabs1 (headers binary (ph + 32) xs ++ zs) rest) tabs used bytes dir cr3 placed
        here unused s in
    let (pm', tabs', used', run', planned, s', all, keeps') =
      load_segments-Held f e binary (ph + 32) (record k { pm = pm1 }) pgdir xs zs rest tabs1 used1
        bytes dir cr3 skip later s1 in
    (
      pm',
      tabs',
      used',
      load_segments-next (suc f) e binary ph (length xs) k (record k { pm = pm1 }) run ∙ run',
      planned,
      s',
      (keeps' (suc f) hdr x held, all),
      λ f' ph' y h. keeps' f' ph' y (keeps f' ph' y h),
    )
