-- ===== src/Examples/Calls.antt =====
-- System calls of environment 0 on the small machine.
use challenge.Base.{ℕ, ◌≡◌, refl, true, false, Option, none, some, [], ◌∷◌, arith, inl, inr}
use challenge.Base.Run.{ok}
use challenge.Mmu.{roundup}
use challenge.Pmap.FreeList.Alloc.{IsFreeList}
use challenge.Pmap.Mapping.Walk.{HasTable}
use challenge.Pmap.Mapping.Edit.{Mapped}
use challenge.Env.State.{Upcall, Kernel}
use challenge.Env.Ids.{Accepts}
use challenge.Syscall.Upcalls.{sys_env_set_upcall}
use challenge.Syscall.Upcalls.Register.{
  Registered, sys_env_set_upcall-Registered, syscall-call_number,
}
use challenge.Syscall.Dispatch.{syscall}
use challenge.Syscall.Memory.{sys_page_alloc}
use challenge.Syscall.Memory.PageAlloc.{sys_page_alloc-Mapped}
use challenge.Examples.{machine, with_free, two_envs, kernel, machine-IsFreeList}

abbrev caller : Kernel
caller = kernel (two_envs 3 2 false) 1 (some 0)

abbrev caller_with : Option ℕ → Kernel
caller_with p = record caller { pm = with_free p }

child_accepted : Accepts caller 0 0x1001 true
child_accepted = record { in_use = omega arith; current_id = refl; permitted = λ _. inr refl }

stranger_refused : ¬ (Accepts caller 0 0x1402 true)
stranger_refused a = absurd (omega (arith, a.in_use))

sys_env_set_upcall-Registered_example :
    (k' : Kernel) × (sys_env_set_upcall Upcall.debug 0x1001 0x80_0100 caller ≡ ok 0 k')
    × Registered caller k' 1 Upcall.debug 0x80_0100
sys_env_set_upcall-Registered_example =
    sys_env_set_upcall-Registered caller 0 0x1001 0x80_0100 Upcall.debug 1 refl
      (inr (omega arith, child_accepted, refl))

syscall-call_number_example :
    syscall 14 0 0x80_0100 0 0 0 ≡ sys_env_set_upcall Upcall.debug 0 0x80_0100
syscall-call_number_example = syscall-call_number Upcall.debug 0 0x80_0100 0 0 0

no_pages : IsFreeList (with_free none) []
no_pages = record { fits = omega arith; chain = tt; distinct = tt; idle = tt }

stack_table : HasTable machine 2 0xeebf_e000 3
stack_table = record { present = refl; entry = refl; below = omega arith; apart = omega arith }

sys_page_alloc-Mapped_example :
    (k' : Kernel) × (sys_page_alloc 0 0xeebf_e000 7 caller ≡ ok 0 k')
    × Mapped k'.pm 2 0xeebf_e000 3 10
    × ((i : ℕ) → k'.pm.mem 10 i ≡ 0)
    × ((k'.pm.pages 10).pp_ref ≡ 2)
    × (k'.envs ≡ caller.envs)
unfolding roundup
sys_page_alloc-Mapped_example =
    sys_page_alloc-Mapped caller 0 0 2 0 0xeebf_e000 7 refl (inl (refl, refl)) refl refl refl 10
      (11 ∷ 12 ∷ []) machine-IsFreeList 3 stack_table (omega arith) (omega arith) refl (omega arith)
      (omega arith)

one_page : IsFreeList (with_free (some 12)) (12 ∷ [])
one_page = record {
  fits = omega arith;
  chain = (refl, tt);
  distinct = (tt, tt);
  idle = ((omega arith, refl), tt);
}
