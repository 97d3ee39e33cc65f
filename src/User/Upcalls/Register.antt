-- ===== src/User/Upcalls/Register.antt =====
-- What registering a handler does, with the kernel's system calls.
use challenge.Base.{
  ℕ, ◌-◌, ◌<◌, ◌≡◌, refl, sym, ◌∙◌, some, ap, ◌≢◌, true, arith, ◌⊎◌, inl, inr, ==_ne, ◌^◌, lt→ltb,
  le→not_ltb, le→leb,
}
use native.Mathlib.Decide.{dec_lt}
use challenge.Base.Run.{ok, exit, Exit, Cmd, ◌>>=◌}
use challenge.Mmu.{uxstacktop, pgsize}
use challenge.Env.State.{Upcall, Kernel, curenv}
use challenge.Syscall.Target.{Target}
use challenge.Syscall.Dispatch.{syscall}
use challenge.Syscall.Upcalls.Register.{
  Registered, call_number, syscall-call_number, sys_env_set_upcall-Registered,
}
use challenge.User.Calls.{
  Process, Answers, lib_syscall, lib_sys_page_alloc, lib_sys_env_set_pgfault_upcall,
  lib_sys_env_set_divzero_upcall, lib_sys_env_set_debug_upcall, lib_sys_env_set_nmskint_upcall,
  lib_sys_env_set_bpoint_upcall, lib_sys_env_set_oflow_upcall, lib_sys_env_set_bdschk_upcall,
  lib_sys_env_set_illopcd_upcall, lib_sys_env_set_dvcntavl_upcall, lib_sys_env_set_dbfault_upcall,
  lib_sys_env_set_ivldtss_upcall, lib_sys_env_set_segntprst_upcall,
  lib_sys_env_set_stkexception_upcall, lib_sys_env_set_gpfault_upcall,
  lib_sys_env_set_fperror_upcall, lib_sys_env_set_algchk_upcall, lib_sys_env_set_mchchk_upcall,
  lib_sys_env_set_simdfperror_upcall,
}
use challenge.User.Upcalls.{
  panic_if_negative, set_variable, first_time, set_handler, set_upcall_handler, set_pgfault_handler,
  set_divzero_handler, set_debug_handler, set_nmskint_handler, set_bpoint_handler,
  set_oflow_handler, set_bdschk_handler, set_illopcd_handler, set_dvcntavl_handler,
  set_dbfault_handler, set_ivldtss_handler, set_segntprst_handler, set_stkexception_handler,
  set_gpfault_handler, set_fperror_handler, set_algchk_handler, set_mchchk_handler,
  set_simdfperror_handler,
}

module _ {K : Type 0} (int : Answers K) where
  -- The system call that a handler of each exception is registered with
  setter : Upcall → ℕ → ℕ → Cmd (Process K) ℕ
  setter u envid upcall = lib_syscall int (call_number u) true envid upcall 0 0 0

  set_upcall_handler_eq : (u : Upcall) → set_upcall_handler int u ≡ set_handler int u (setter u)
  unfolding setter set_pgfault_handler lib_sys_env_set_pgfault_upcall set_divzero_handler
      lib_sys_env_set_divzero_upcall set_debug_handler lib_sys_env_set_debug_upcall
      set_nmskint_handler lib_sys_env_set_nmskint_upcall set_bpoint_handler
      lib_sys_env_set_bpoint_upcall set_oflow_handler lib_sys_env_set_oflow_upcall
      set_bdschk_handler lib_sys_env_set_bdschk_upcall set_illopcd_handler
      lib_sys_env_set_illopcd_upcall set_dvcntavl_handler lib_sys_env_set_dvcntavl_upcall
      set_dbfault_handler lib_sys_env_set_dbfault_upcall set_ivldtss_handler
      lib_sys_env_set_ivldtss_upcall set_segntprst_handler lib_sys_env_set_segntprst_upcall
      set_stkexception_handler lib_sys_env_set_stkexception_upcall set_gpfault_handler
      lib_sys_env_set_gpfault_upcall set_fperror_handler lib_sys_env_set_fperror_upcall
      set_algchk_handler lib_sys_env_set_algchk_upcall set_mchchk_handler
      lib_sys_env_set_mchchk_upcall set_simdfperror_handler lib_sys_env_set_simdfperror_upcall
  set_upcall_handler_eq Upcall.pgfault = refl
  set_upcall_handler_eq Upcall.divzero = refl
  set_upcall_handler_eq Upcall.debug = refl
  set_upcall_handler_eq Upcall.nmskint = refl
  set_upcall_handler_eq Upcall.bpoint = refl
  set_upcall_handler_eq Upcall.oflow = refl
  set_upcall_handler_eq Upcall.bdschk = refl
  set_upcall_handler_eq Upcall.illopcd = refl
  set_upcall_handler_eq Upcall.dvcntavl = refl
  set_upcall_handler_eq Upcall.dbfault = refl
  set_upcall_handler_eq Upcall.ivldtss = refl
  set_upcall_handler_eq Upcall.segntprst = refl
  set_upcall_handler_eq Upcall.stkexception = refl
  set_upcall_handler_eq Upcall.gpfault = refl
  set_upcall_handler_eq Upcall.fperror = refl
  set_upcall_handler_eq Upcall.algchk = refl
  set_upcall_handler_eq Upcall.mchchk = refl
  set_upcall_handler_eq Upcall.simdfperror = refl

  stub_ok :
      (num a1 a2 a3 a4 a5 : ℕ) (p : Process K) (k : K)
      → int num a1 a2 a3 a4 a5 p.kernel ≡ ok 0 k
      → lib_syscall int num true a1 a2 a3 a4 a5 p ≡ ok 0 (record p { kernel = k })
  unfolding lib_syscall
  stub_ok num a1 a2 a3 a4 a5 p k e = rw e refl

  -- A positive answer panics in the stub, and a negative one behind it.
  stub_refused :
      (num a1 a2 a3 a4 a5 r : ℕ) (p : Process K) (k : K)
      → int num a1 a2 a3 a4 a5 p.kernel ≡ ok r k
      → 0 < r
      → (lib_syscall int num true a1 a2 a3 a4 a5 >>= panic_if_negative int) p
        ≡ exit Exit.user_panic (record p { kernel = k })
  unfolding lib_syscall
  stub_refused num a1 a2 a3 a4 a5 r p k e pos = rw e (elim (dec_lt r (2 ^ 31)) [
    | yes lt ↦ rw (lt→ltb 0 r pos, lt→ltb r (2 ^ 31) lt) refl
    | no np ↦
        rw (lt→ltb 0 r pos, le→not_ltb r (2 ^ 31) (omega arith), le→leb (2 ^ 31) r (omega arith))
          refl
  ])

  first_time-known : (u : Upcall) (p : Process K) → p.handlers u ≢ 0 → first_time int u p ≡ ok tt p
  unfolding first_time
  first_time-known u p ne = rw (==_ne (p.handlers u) 0 ne) refl

  first_time-page :
      (u : Upcall) (p : Process K) (k : K)
      → p.handlers u ≡ 0
      → int 4 0 (uxstacktop - pgsize) 7 0 0 p.kernel ≡ ok 0 k
      → first_time int u p ≡ ok tt (record p { kernel = k })
  unfolding first_time lib_sys_page_alloc
  first_time-page u p k zero e = rw (zero, stub_ok 4 0 (uxstacktop - pgsize) 7 0 0 p k e) refl

  first_time-refused :
      (u : Upcall) (p : Process K) (k : K) (r : ℕ)
      → p.handlers u ≡ 0
      → int 4 0 (uxstacktop - pgsize) 7 0 0 p.kernel ≡ ok r k
      → 0 < r
      → first_time int u p ≡ exit Exit.user_panic (record p { kernel = k })
  unfolding first_time lib_sys_page_alloc
  first_time-refused u p k r zero e pos =
      rw zero (stub_refused 4 0 (uxstacktop - pgsize) 7 0 0 r p k e pos)

-- The kernel when the exception stack is there: its page was there, or has just been allocated.
abbrev pub HasStack : Upcall → Process Kernel → Kernel → Type 0
HasStack u p k =
    ((p.handlers u ≢ 0) × (k ≡ p.kernel))
    ⊎ ((p.handlers u ≡ 0) × (syscall 4 0 (uxstacktop - pgsize) 7 0 0 p.kernel ≡ ok 0 k))

stack-HasStack :
    (u : Upcall) (p : Process Kernel) (k : Kernel)
    → HasStack u p k
    → first_time syscall u p ≡ ok tt (record p { kernel = k })
stack-HasStack u p k (inl (ne, e)) =
    first_time-known syscall u p ne ∙ ap (λ (t : Kernel). ok tt (record p { kernel = t })) (sym e)
stack-HasStack u p k (inr (z, e)) = first_time-page syscall u p k z e

-- The steps of a registration, from their answers.
set_handler_runs :
    (u : Upcall) (entry handler : ℕ) (p : Process Kernel) (k k' : Kernel)
    → HasStack u p k
    → syscall (call_number u) 0 entry 0 0 0 k ≡ ok 0 k'
    → set_handler syscall u (setter syscall u) entry handler p
      ≡ ok tt (set_variable syscall u handler (record p { kernel = k' }))
unfolding set_handler setter
set_handler_runs u entry handler p k k' stack call =
    rw
      (
        stack-HasStack u p k stack,
        stub_ok syscall (call_number u) 0 entry 0 0 0
            (set_variable syscall u handler (record p { kernel = k })) k' call,
      )
      refl

-- A registration panics, and nothing is registered, when the kernel gives no page for the exception stack.
pub set_upcall_handler-no_stack :
    (u : Upcall) (entry handler r : ℕ) (p : Process Kernel) (k : Kernel)
    → p.handlers u ≡ 0
    → syscall 4 0 (uxstacktop - pgsize) 7 0 0 p.kernel ≡ ok r k
    → 0 < r
    → set_upcall_handler syscall u entry handler p ≡ exit Exit.user_panic (record p { kernel = k })
unfolding set_handler
set_upcall_handler-no_stack u entry handler r p k first call pos =
    ap (λ (f : ℕ → ℕ → Cmd (Process Kernel) (Unit {0})). f entry handler p)
      (set_upcall_handler_eq syscall u)
    ∙ rw (first_time-refused syscall u p k r first call pos) refl

-- The function of the library for an exception, called by an environment that has its exception stack
-- or gets the page for it, registers the entry point with the kernel for that exception only, keeps the upcalls
-- for the other ones, and stores the handler in its variable, whichever of the 18 exceptions it is.
pub set_upcall_handler-Registered :
    (u : Upcall) (entry handler : ℕ) (p : Process Kernel) (k : Kernel) (c e : ℕ)
    → HasStack u p k
    → curenv k ≡ some c
    → Target k c 0 true e
    → (k' : Kernel) × (set_upcall_handler syscall u entry handler p
        ≡ ok tt (set_variable syscall u handler (record p { kernel = k' })))
      × Registered k k' e u entry
set_upcall_handler-Registered u entry handler p k c e stack cur target =
    let (k', call, registered) = sys_env_set_upcall-Registered k c 0 entry u e cur target in
    let named : syscall (call_number u) 0 entry 0 0 0 k ≡ ok 0 k' =
      ap (λ (f : Cmd Kernel ℕ). f k) (syscall-call_number u 0 entry 0 0 0) ∙ call in
    (
      k',
      ap (λ (f : ℕ → ℕ → Cmd (Process Kernel) (Unit {0})). f entry handler p)
            (set_upcall_handler_eq syscall u)
          ∙ set_handler_runs u entry handler p k k' stack named,
      registered,
    )
