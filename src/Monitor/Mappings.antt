-- ===== src/Monitor/Mappings.antt =====
-- kern/monitor.c: when the loop of `showmappings` ends.
use challenge.Base.{
  ℕ, zero, suc, ◌+◌, ◌-◌, ◌/◌, ◌%◌, ◌^◌, ◌≤◌, ◌<◌, ◌≡◌, ◌≢◌, Option, some, none, [], ◌∷◌, arith,
  inl, inr, leb, le→leb, Bool-cases, leb→le, true,
}
use challenge.Base.Run.{Run, ok, exit, Cmd, and_then}
use challenge.Mmu.{word, pgsize}
use challenge.Pmap.Pages.{Pmap, PtePtr}
use challenge.Pmap.Tables.{pgdir_walk}
use challenge.Strings.{Bytes}
use challenge.Monitor.{Looped, show_page, show_loop, showmappings, xtoi}

-- The loop neither ends nor runs out of fuel with the value `v`.
abbrev Never : Looped → Run Pmap Looped → Type 0
Never v r = (pm' : Pmap) → r ≢ ok v pm'

show_page-Never :
    (v : Looped) (rest : Cmd Pmap Looped) (r : Run Pmap (Option PtePtr))
    → ((pm : Pmap) → Never v (rest pm))
    → Never v (and_then r (show_page rest))
unfolding show_page
show_page-Never v rest (exit e pm) h = λ pm' eq. cc
show_page-Never v rest (ok none pm) h = λ pm' eq. cc
show_page-Never v rest (ok (some p) pm) h = h pm

abbrev last_page : ℕ
last_page = 0xFFFF_F000

show_loop-endless :
    (f va vend : ℕ) (pm : Pmap)
    → va < 2 ^ 32
    → last_page + va % pgsize ≤ vend
    → Never (some tt) (show_loop f va vend pm)
unfolding show_loop
show_loop-endless zero va vend pm lt le = λ pm' eq. cc
show_loop-endless (suc f) va vend pm lt le = rw (le→leb va vend (omega arith)) (
    show_page-Never (some tt) _ (pgdir_walk pm.kern_pgdir va true pm)
      λ pm1. show_loop-endless f (word (va + pgsize)) vend pm1 (omega arith) (omega arith))

show_loop_ends :
    (f va vend : ℕ) (pm : Pmap)
    → va < 2 ^ 32
    → vend < last_page + va % pgsize
    → (vend + pgsize - va) / pgsize < f
    → Never none (show_loop f va vend pm)
unfolding show_loop
show_loop_ends zero va vend pm lt small enough = absurd (omega arith)
show_loop_ends (suc f) va vend pm lt small enough = elim (Bool-cases (leb va vend)) [
  | inl in_range ↦
      let le = leb→le va vend in_range in
      rw in_range (
        show_page-Never none _ (pgdir_walk pm.kern_pgdir va true pm) λ pm1.
          show_loop_ends f (word (va + pgsize)) vend pm1 (omega arith) (omega (arith, le))
            (omega (arith, le)))
  | inr past ↦ rw past (λ pm' eq. cc)
]

module _ (g : ℕ) (m : Bytes) (name from to va vend : ℕ) (pm : Pmap)
    (from_va : xtoi g m from ≡ some (some va)) (to_vend : xtoi g m to ≡ some (some vend)) where
  -- `showmappings from to` never ends by its test, whatever the fuel, when the last page of the address space, at the
  -- offset of `from` in its page, is not behind `to`: the address wraps around to the start.
  pub showmappings-endless :
      va < 2 ^ 32
      → 0xFFFF_F000 + va % 2 ^ 12 ≤ vend
      → (f : ℕ) (pm' : Pmap) → showmappings f g m (name ∷ from ∷ to ∷ []) pm ≢ ok (some tt) pm'
  unfolding showmappings
  showmappings-endless lt le f = rw (from_va, to_vend) (show_loop-endless f va vend pm lt le)

  -- Otherwise its loop needs no more fuel than 2 ^ 20 + 1 rounds: it ends by its test or by a panic.
  pub showmappings_ends :
      va < 2 ^ 32
      → vend < 2 ^ 32
      → vend < 0xFFFF_F000 + va % 2 ^ 12
      → (f : ℕ) (pm' : Pmap) → 2 ^ 20 < f
      → showmappings f g m (name ∷ from ∷ to ∷ []) pm ≢ ok none pm'
  unfolding showmappings
  showmappings_ends lt lt' small f pm' enough =
      rw (from_va, to_vend) (show_loop_ends f va vend pm lt small (omega arith) pm')
