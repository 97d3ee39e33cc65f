-- ===== src/Env/Load.antt =====
-- kern/env.c: `region_alloc`, `load_icode` and `env_create`, which load the first programs.
--
-- A program is the function `binary` from the offset in its ELF file to the byte there. The kernel writes
-- through the page directory in force, and faults where an address is not mapped writable. Loops over a
-- region have fuel, and `none` says that it ran out. The environment has a page directory.
pub mod Region
pub mod Unmapped
pub mod Word
pub mod Store
pub mod Bytes
pub mod Pages
pub mod Segment
pub mod Space
pub mod Growing
pub mod Filling
pub mod Program
pub mod Headers
pub mod Icode
use challenge.Base.{
  ℕ, zero, suc, ◌+◌, ◌-◌, ◌*◌, ◌/◌, ◌%◌, ◌^◌, bit_and, bit_or, Bool, true, false, not, ◌&&◌, Option,
  none, some, ◌==◌, leb, ltb, if◌then◌else◌,
}
use challenge.Base.Run.{Exit, Panic, ok, exit, Cmd, pure, panic, modify, ◌>>=◌, ◌>>◌}
use challenge.Mmu.{word, pgsize, pgnum, pdx, ptx, rounddown, roundup, pte_w, pte_u, ustacktop}
use challenge.Mpconfig.{read16, read32}
use challenge.Pmap.Pages.{Pmap, write_word, page_alloc}
use challenge.Pmap.Tables.{Current, is_present, page_insert}
use challenge.Env.State.{Env, Kernel, Result, done, fail, set_env, deref, lift, current}
use challenge.Env.Alloc.{env_alloc}

abbrev pub Looped : Type 0
Looped = Option (Unit {0})

-- `page_insert(e->env_pgdir, pp, va_ptr, PTE_W | PTE_U)`, whose value is not read, before the rest of the loop.
unfoldable pub insert_new : Current → ℕ → ℕ → Cmd Pmap Looped → Option ℕ → Cmd Pmap Looped
insert_new cur pgdir va rest none = panic Panic.region_alloc_failed
insert_new cur pgdir va rest (some p) = do _ ← page_insert cur pgdir p va (bit_or pte_w pte_u); rest

unfoldable pub region_loop : ℕ → Current → ℕ → ℕ → ℕ → Cmd Pmap Looped
region_loop zero cur pgdir va vend = pure none
region_loop (suc f) cur pgdir va vend =
    let rest = region_loop f cur pgdir (word (va + pgsize)) vend in
    if ltb va vend then (page_alloc 0 >>= insert_new cur pgdir va rest) else pure (some tt)

unfoldable pub region_alloc : ℕ → ℕ → ℕ → ℕ → Cmd Kernel Looped
unfolding region_loop rounddown roundup
region_alloc f e va len k =
    (do
      pgdir ← deref (k.envs e).env_pgdir
      lift (
          region_loop f (current k) pgdir (rounddown va pgsize) (roundup (word (va + len)) pgsize)))
      k

-- The word `w` with the byte `b` at the place `i`
abbrev pub set_byte : ℕ → ℕ → ℕ → ℕ
set_byte w i b = w - w / 2 ^ (8 * i) % 2 ^ 8 * 2 ^ (8 * i) + b * 2 ^ (8 * i)

-- A store of one byte by the processor, at the address `va`
unfoldable pub store_byte : ℕ → ℕ → ℕ → Cmd Pmap (Unit {0})
store_byte pgdir va b pm =
    let pde = pm.mem pgdir (pdx va) in
    let pte = pm.mem (pgnum pde) (ptx va) in
    let i = va / 4 % 2 ^ 10 in
    if is_present pde && (is_present pte && not (bit_and pte pte_w == 0))
    then ok tt (write_word (pgnum pte) i (set_byte (pm.mem (pgnum pte) i) (va % 4) b) pm)
    else exit Exit.kernel_fault pm

-- `memset` and `memcpy` to `va`: `n` bytes, the first one `src i`
unfoldable pub store_bytes : ℕ → ℕ → (ℕ → ℕ) → ℕ → ℕ → Cmd Pmap (Unit {0})
unfolding store_byte
store_bytes pgdir va src i zero = pure tt
store_bytes pgdir va src i (suc n) =
    store_byte pgdir (word va) (src i) >> store_bytes pgdir (va + 1) src (i + 1) n

-- The fields of a `struct Proghdr` in the file
abbrev pub elf_prog_load : ℕ
elf_prog_load = 1

pub record Proghdr : Type 0 where
  pub p_type : ℕ
  pub p_offset : ℕ
  pub p_va : ℕ
  pub p_filesz : ℕ
  pub p_memsz : ℕ

abbrev pub proghdr : (ℕ → ℕ) → ℕ → Proghdr
proghdr binary ph = record {
  p_type = read32 binary ph;
  p_offset = read32 binary (ph + 4);
  p_va = read32 binary (ph + 8);
  p_filesz = read32 binary (ph + 16);
  p_memsz = read32 binary (ph + 20);
}

-- The next step of a loop, unless a loop in it has run out of fuel.
abbrev pub then_loop : Cmd Kernel Looped → Cmd Kernel Looped → Cmd Kernel Looped
then_loop m rest = m >>= λ done. elim done [ none ↦ pure none | some _ ↦ rest ]

-- `memset` and `memcpy` of a segment
unfoldable pub fill_segment : ℕ → (ℕ → ℕ) → Proghdr → Cmd Pmap Looped
unfolding store_bytes
fill_segment pgdir binary ph = do
  store_bytes pgdir ph.p_va (λ _. 0) 0 ph.p_memsz
  store_bytes pgdir ph.p_va binary ph.p_offset ph.p_filesz
  pure (some tt)

unfoldable pub load_segment : ℕ → ℕ → (ℕ → ℕ) → Proghdr → Cmd Kernel Looped
unfolding region_alloc fill_segment
load_segment f e binary ph =
    if ltb ph.p_memsz ph.p_filesz
    then panic Panic.load_icode_filesz
    else if ph.p_type == elf_prog_load
    then then_loop (region_alloc f e ph.p_va ph.p_memsz)
        (λ (k : Kernel). lift (fill_segment k.cr3 binary ph) k)
    else pure (some tt)

-- The `n` program headers from the offset `ph` on
unfoldable pub load_segments : ℕ → ℕ → (ℕ → ℕ) → ℕ → ℕ → Cmd Kernel Looped
unfolding load_segment
load_segments f e binary ph zero = pure (some tt)
load_segments f e binary ph (suc n) =
    then_loop (load_segment f e binary (proghdr binary ph)) (load_segments f e binary (ph + 32) n)

-- `lcr3(PADDR(pgdir))`
abbrev pub lcr3 : ℕ → Cmd Kernel (Unit {0})
lcr3 pgdir = modify (λ (k : Kernel). record k { cr3 = pgdir })

abbrev pub set_eip : ℕ → ℕ → Kernel → Kernel
set_eip e entry k =
    set_env e (record (k.envs e) { env_tf = record (k.envs e).env_tf { tf_eip = entry } }) k

-- The entry point and the stack
unfoldable pub finish_load : ℕ → ℕ → (ℕ → ℕ) → Cmd Kernel Looped
unfolding region_alloc
finish_load f e binary k =
    (do
      lcr3 k.pm.kern_pgdir
      modify (set_eip e (read32 binary 24))
      region_alloc f e (ustacktop - pgsize) pgsize)
      k

unfoldable pub load_icode : ℕ → ℕ → (ℕ → ℕ) → Cmd Kernel Looped
unfolding load_segments finish_load
load_icode f e binary k =
    if not (read32 binary 0 == 0x464C457F)
    then panic Panic.load_icode_magic k
    else (do
      pgdir ← deref (k.envs e).env_pgdir
      lcr3 pgdir
      then_loop (load_segments f e binary (read32 binary 28) (read16 binary 44))
          (finish_load f e binary))
        k

-- The environment of `penv`, which an `env_alloc` that fails leaves as it was, `old`.
penv_of : ℕ → Result ℕ → ℕ
penv_of old (done e) = e
penv_of old (fail r) = old

-- `type` is not used.
unfoldable pub env_create : ℕ → ℕ → (ℕ → ℕ) → ℕ → Cmd Kernel Looped
unfolding penv_of load_icode env_alloc
env_create f old binary type = do r ← env_alloc 0; load_icode f (penv_of old r) binary
