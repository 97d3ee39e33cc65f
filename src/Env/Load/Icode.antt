-- ===== src/Env/Load/Icode.antt =====
-- kern/env.c: `load_icode` as a whole.
use challenge.Base.{
  ◌+◌, Option, ℕ, suc, ◌-◌, ◌^◌, ◌<◌, ◌≡◌, ◌≢◌, refl, ◌∙◌, ap, false, some, none, List, [], ◌∷◌,
  ◌++◌, arith, inl, inr, length, All, ==_refl, update_ne, update_self,
}
use challenge.Pmap.Tables.{is_present}
use challenge.Pmap.FreeList.Alloc.{Avoids}
use challenge.Base.Run.{ok}
use challenge.Mmu.{pdx, pgnum, utop, pgsize, ustacktop, ptx}
use challenge.Mpconfig.{read16, read32}
use challenge.Pmap.Pages.{Pmap}
use challenge.Pmap.FreeList.Alloc.{IsFreeList}
use challenge.Env.State.{Kernel}
use challenge.Env.Load.{Proghdr, elf_prog_load, load_segments, load_icode, finish_load, set_eip}
use challenge.Env.Load.Region.{Entries, region_alloc-Loaded}
use challenge.Env.Load.Bytes.{HasSegment}
use challenge.Env.Load.Store.{Writable}
use challenge.Env.Load.Segment.{Extent, Untouched}
use challenge.Env.Load.Space.{Tables, Used, Space, Held, mark}
use challenge.Env.Load.Growing.{with_table}
use challenge.Env.Load.Filling.{filled-Space, filled-Held}
use challenge.Env.Load.Program.{taken, all_taken, Planned, ready, Space-Loadable}
use challenge.Env.Load.Headers.{headers, Skipped, load_segments-Held}

-- The page of the stack, as a segment without bytes in the file
abbrev pub stack_header : Proghdr
stack_header = record {
  p_type = elf_prog_load;
  p_offset = 0;
  p_va = ustacktop - pgsize;
  p_filesz = 0;
  p_memsz = pgsize;
}

-- The kernel before the stack is allocated
abbrev entered : ℕ → (ℕ → ℕ) → Kernel → Kernel
entered e binary k = set_eip e (read32 binary 24) (record k { cr3 = k.pm.kern_pgdir })

-- The stack is mapped and empty of what is loaded, which stays.
finish_load-Held :
    (f e : ℕ) (binary : ℕ → ℕ) (k : Kernel) (pgdir : ℕ) (y : Extent) (rest : List ℕ) (tabs : Tables)
    (used : Used)
    → (k.envs e).env_pgdir ≡ some pgdir
    → Planned (suc f) tabs used ((stack_header, y) ∷ [])
    → Space k.pm pgdir (taken (tabs (pdx stack_header.p_va)) y rest) tabs used
    → (pm' : Pmap) × (tabs' : Tables) × (used' : Used) × (finish_load (suc f) e binary k
        ≡ ok (some tt) (record (entered e binary k) { pm = pm' }))
      × Space pm' pgdir rest tabs' used'
      × (tabs' (pdx stack_header.p_va) ≡ some y.table)
      × Entries pm' y.table (ptx stack_header.p_va) y.pages
      × ((f' : ℕ) (ph : Proghdr) (x : Extent)
          → Held k.pm pgdir (taken (tabs (pdx stack_header.p_va)) y rest) tabs used binary f' ph x
          → Held pm' pgdir rest tabs' used' binary f' ph x)
unfolding finish_load
finish_load-Held f e binary k pgdir y rest tabs used dir plan s =
    let (placed, here, unused, _) = plan in
    let d = pdx stack_header.p_va in
    let tabs' = with_table tabs d y.table in
    let known : tabs' d ≡ some y.table = update_self tabs d (some y.table) in
    let k1 = entered e binary k in
    let dir1 : (k1.envs e).env_pgdir ≡ some pgdir = rw (==_refl e) dir in
    let (pm0, same, s0, keeps) =
      ready f e k1 pgdir stack_header y rest tabs used dir1 placed (tabs d) refl here s in
    let h = Space-Loadable f e k1 pgdir stack_header y rest tabs used dir1 placed pm0 unused s0 in
    let (pm', run, l) =
      region_alloc-Loaded (suc f) e (record k1 { pm = pm0 }) stack_header.p_va pgsize pgdir y.table
        y.pages rest dir1 h.count h.fuel (omega (arith, h.starts, h.room)) h.below h.has_table
        s0.free_list h.off_dir h.off_table
        (λ j le lt. h.unmapped j (omega (arith, h.starts)) (omega (arith, h.starts))) in
    let words : (g j : ℕ) → Untouched g j y → pm'.mem g j ≡ pm0.mem g j = λ g j u.
      l.words g j u.0 (elim u.1 [
        | inl ne ↦ inl ne
        | inr (inl lt) ↦ inr (inl (omega (arith, h.starts)))
        | inr (inr le) ↦ inr (inr (omega (arith, h.starts)))
      ]) in
    (
      pm',
      tabs',
      mark d y used,
      same ∙ run,
      filled-Space pm0 pm' pgdir y d rest tabs' used s0 known l.free l.size words,
      known,
      l.entries,
      λ f' ph x held.
          filled-Held pm0 pm' pgdir y d rest tabs' used s0 known l.free l.size words unused binary
            f' ph x (keeps binary f' ph x held),
    )

load_icode-both :
    (f e : ℕ) (binary : ℕ → ℕ) (k k1 k2 : Kernel) (pgdir : ℕ)
    → read32 binary 0 ≡ 0x464C457F
    → (k.envs e).env_pgdir ≡ some pgdir
    → load_segments f e binary (read32 binary 28) (read16 binary 44) (record k { cr3 = pgdir })
      ≡ ok (some tt) k1
    → finish_load f e binary k1 ≡ ok (some tt) k2
    → load_icode f e binary k ≡ ok (some tt) k2
unfolding load_icode load_segments finish_load
load_icode-both f e binary k k1 k2 pgdir magic dir run run' = rw (magic, dir, run, run') refl

All-segments :
    (P Q : Proghdr × Extent → Type 0) (hs : List (Proghdr × Extent))
    → ((h : Proghdr × Extent) → P h → Q h)
    → All P hs
    → All Q hs
All-segments P Q [] f a = tt
All-segments P Q (h ∷ hs) f a = (f h a.0, All-segments P Q hs f a.1)

abbrev pub no_tables : Tables
no_tables d = none

abbrev pub none_used : Used
none_used d j = false

-- The address space of a new environment, with nothing in its user part
fresh-Space :
    (pm : Pmap) (pgdir : ℕ) (free : List ℕ)
    → IsFreeList pm free
    → Avoids pgdir free
    → ((d : ℕ) → d < pdx utop → is_present (pm.mem pgdir d) ≡ false)
    → Space pm pgdir free no_tables none_used
fresh-Space pm pgdir free list off empty = record {
  free_list = list;
  off_dir = off;
  missing = λ d lt e. empty d lt;
  present = λ d t e. absurd (cc e);
  entry = λ d t e. absurd (cc e);
  below = λ d t e. absurd (cc e);
  apart = λ d t e. absurd (cc e);
  away = λ d t e. absurd (cc e);
  one = λ d d' t e e'. absurd (cc e);
  unmapped = λ d t j e u. absurd (cc e);
}

-- A segment is mapped writable and has its bytes.
abbrev pub InPlace : Pmap → ℕ → (ℕ → ℕ) → Proghdr → Type 0
InPlace pm pgdir binary ph =
    HasSegment pm pgdir binary ph × Writable pm pgdir ph.p_va (ph.p_va + ph.p_memsz)

-- An ELF file, whose program headers have no more bytes in the file than in memory, and each of whose headers to be
-- loaded is a segment of at least one byte inside one page table of the user part, on pages of addresses that no other
-- one has, nor the stack, and an environment whose directory is not a free page and has no user page tables, as that of
-- a new one, with enough fuel, and enough free pages for the segments, the stack and their page tables: `load_icode`
-- succeeds; each segment is mapped writable and has the bytes of the file and zeros behind them, the page of the
-- stack is mapped, the environment is at the entry point, and the other environments are as they were.
pub load_icode-HasSegments :
    (f e : ℕ) (binary : ℕ → ℕ) (k : Kernel) (pgdir : ℕ) (xs : List (Option Extent)) (y : Extent)
    (rest : List ℕ)
    → ((j : ℕ) → binary j < 2 ^ 8)
    → read32 binary 0 ≡ 0x464C457F
    → read16 binary 44 ≡ length xs
    → (k.envs e).env_pgdir ≡ some pgdir
    → ((d : ℕ) → d < pdx utop → is_present (k.pm.mem pgdir d) ≡ false)
    → IsFreeList k.pm
        (all_taken no_tables (headers binary (read32 binary 28) xs ++ (stack_header, y) ∷ []) rest)
    → Avoids pgdir
        (all_taken no_tables (headers binary (read32 binary 28) xs ++ (stack_header, y) ∷ []) rest)
    → Skipped binary (read32 binary 28) xs
    → Planned
        (suc f)
        no_tables
        none_used
        (headers binary (read32 binary 28) xs ++ (stack_header, y) ∷ [])
    → (k' : Kernel) × (load_icode (suc f) e binary k ≡ ok (some tt) k')
      × All
          (λ (h : Proghdr × Extent). InPlace k'.pm pgdir binary h.0)
          (headers binary (read32 binary 28) xs)
      × (pgnum (k'.pm.mem pgdir (pdx (ustacktop - pgsize))) ≡ y.table)
      × Entries k'.pm y.table (ptx (ustacktop - pgsize)) y.pages
      × IsFreeList k'.pm rest
      × ((k'.envs e).env_tf.tf_eip ≡ read32 binary 24)
      × ((i : ℕ) → i ≢ e → k'.envs i ≡ k.envs i)
load_icode-HasSegments f e binary k pgdir xs y rest bytes magic count dir empty list off skip plan =
    let k0 : Kernel = record k { cr3 = pgdir } in
    let (pm1, tabs, used, run, planned, s1, held, _) =
      load_segments-Held f e binary (read32 binary 28) k0 pgdir xs ((stack_header, y) ∷ []) rest
        no_tables none_used bytes dir refl skip plan (fresh-Space k.pm pgdir _ list off empty) in
    let k1 : Kernel = record k0 { pm = pm1 } in
    let (pm2, tabs', used', run', s2, known, stack, keeps) =
      finish_load-Held f e binary k1 pgdir y rest tabs used dir planned s1 in
    let k2 : Kernel = record (entered e binary k1) { pm = pm2 } in
    (
      k2,
      load_icode-both (suc f) e binary k k1 k2 pgdir magic dir
          (ap (λ n. load_segments (suc f) e binary (read32 binary 28) n k0) count ∙ run) run',
      All-segments _ (λ (h : Proghdr × Extent). InPlace pm2 pgdir binary h.0)
          (headers binary (read32 binary 28) xs)
          (λ h a. let z = keeps (suc f) h.0 h.1 a in (z.segment, z.writable)) held,
      s2.entry (pdx (ustacktop - pgsize)) y.table known,
      stack,
      s2.free_list,
      rw (==_refl e) refl,
      λ i ne. update_ne k.envs e i _ ne,
    )
