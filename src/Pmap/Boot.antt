-- ===== src/Pmap/Boot.antt =====
-- kern/pmap.c: the mappings that are made while the kernel starts.
--
-- The loop of `boot_map_region` has fuel, one round for each page; `none` says that it ran out.
pub mod Region
use challenge.Base.{
  ℕ, zero, suc, ◌+◌, ◌-◌, ◌*◌, ◌^◌, Bool, true, Option, none, some, bit_or, ◌==◌, ltb,
  if◌then◌else◌,
}
use challenge.Base.Run.{ok, Cmd, pure, panic, modify, Panic, ◌>>=◌, ◌>>◌}
use challenge.Mmu.{
  word, pgsize, roundup, pte_addr, pte_p, pte_w, pte_pwt, pte_pcd, kstacktop, kstksize, kstkgap,
  mmiolim,
}
use challenge.Pmap.Pages.{Pmap, PtePtr, write_word}
use challenge.Pmap.Tables.{pgdir_walk}

abbrev pub Looped : Type 0
Looped = Option (Unit {0})

-- Where the loop over the region stops
unfoldable pub region_end : ℕ → ℕ → ℕ
region_end va size =
    let vend = word (va + size) in
    if ltb (word (2 ^ 32 - vend)) size then roundup 0xFFFF_F000 pgsize else vend

abbrev pub region_entry : ℕ → ℕ → ℕ
region_entry pa perm = bit_or (bit_or (pte_addr pa) perm) pte_p

-- `*ppte = ...`, before the rest of the loop
abbrev pub set_entry : ℕ → ℕ → Cmd Pmap Looped → Option PtePtr → Cmd Pmap Looped
set_entry pa perm rest none = panic Panic.boot_map_no_page
set_entry pa perm rest (some p) = modify (write_word p.table p.index (region_entry pa perm)) >> rest

unfoldable pub map_loop : ℕ → ℕ → ℕ → ℕ → ℕ → ℕ → Cmd Pmap Looped
map_loop zero pgdir va pa vend perm = pure none
map_loop (suc f) pgdir va pa vend perm =
    let rest = map_loop f pgdir (word (va + pgsize)) (word (pa + pgsize)) vend perm in
    if va == vend then pure (some tt) else (pgdir_walk pgdir va true >>= set_entry pa perm rest)

unfoldable pub boot_map_region : ℕ → ℕ → ℕ → ℕ → ℕ → ℕ → Cmd Pmap Looped
unfolding region_end map_loop
boot_map_region f pgdir va size pa perm = map_loop f pgdir va pa (region_end va size) perm

-- The stacks of the CPUs from the `i`th on, of which `n` are left; `stacks` are the physical addresses of
-- `percpu_kstacks`.
unfoldable pub map_stacks : ℕ → ℕ → ℕ → (ℕ → ℕ) → Cmd Pmap Looped
map_stacks f zero i stacks = pure (some tt)
map_stacks f (suc n) i stacks =
    let top = kstacktop - i * (kstksize + kstkgap) in
    let rest = map_stacks f n (i + 1) stacks in
    λ (pm : Pmap).
      (boot_map_region f pm.kern_pgdir (top - kstksize) kstksize (stacks i) pte_w >>= λ done.
      elim done [ none ↦ pure none | some _ ↦ rest ])
        pm

unfoldable pub mem_init_mp : ℕ → (ℕ → ℕ) → Cmd Pmap Looped
unfolding map_stacks
mem_init_mp f = map_stacks f 8 0

-- The base of the region reserved
unfoldable pub mmio_map_region : ℕ → ℕ → ℕ → Cmd Pmap (Option ℕ)
unfolding boot_map_region
mmio_map_region f pa size pm =
    let base = pm.mmio_base in
    let rounded = roundup size pgsize in
    if ltb mmiolim (word (base + size))
    then panic Panic.mmio_too_big pm
    else (boot_map_region f pm.kern_pgdir base rounded pa (bit_or (bit_or pte_pcd pte_pwt) pte_w)
          >>= λ done. elim done [
            | none ↦ pure none
            | some _ ↦
                (modify (λ (q : Pmap). record q { mmio_base = word (base + rounded) })
                  >> pure (some base))
          ])
        pm
