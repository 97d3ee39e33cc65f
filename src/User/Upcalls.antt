-- ===== src/User/Upcalls.antt =====
-- lib/pgfault.c, lib/divzero.c and the 16 other files that register the handler of an exception.
--
-- Each file has its own variable `_..._handler`, its own entry point `_..._upcall` in assembly, whose
-- address is `entry`, and its own system call; the rest of the code is the same.
pub mod Register
use challenge.Base.{ℕ, ◌-◌, ◌==◌, if◌then◌else◌}
use challenge.Base.Run.{Exit, Cmd, pure, leave, modify, ◌>>=◌, ◌>>◌}
use challenge.Mmu.{uxstacktop, pgsize}
use challenge.Env.State.{Upcall, upcall_index}
use challenge.User.Calls.{
  Process, Answers, negative, lib_sys_page_alloc, lib_sys_env_set_pgfault_upcall,
  lib_sys_env_set_divzero_upcall, lib_sys_env_set_debug_upcall, lib_sys_env_set_nmskint_upcall,
  lib_sys_env_set_bpoint_upcall, lib_sys_env_set_oflow_upcall, lib_sys_env_set_bdschk_upcall,
  lib_sys_env_set_illopcd_upcall, lib_sys_env_set_dvcntavl_upcall, lib_sys_env_set_dbfault_upcall,
  lib_sys_env_set_ivldtss_upcall, lib_sys_env_set_segntprst_upcall,
  lib_sys_env_set_stkexception_upcall, lib_sys_env_set_gpfault_upcall,
  lib_sys_env_set_fperror_upcall, lib_sys_env_set_algchk_upcall, lib_sys_env_set_mchchk_upcall,
  lib_sys_env_set_simdfperror_upcall,
}

module _ {K : Type 0} (int : Answers K) where
  abbrev pub set_variable : Upcall → ℕ → Process K → Process K
  set_variable u handler p = record p {
    handlers = λ v. if upcall_index v == upcall_index u then handler else p.handlers v;
  }

  -- `if (r < 0) panic(...)`
  abbrev pub panic_if_negative : ℕ → Cmd (Process K) (Unit {0})
  panic_if_negative r = if negative r then leave Exit.user_panic else pure tt

  -- The page of the exception stack, where there is no handler yet.
  unfoldable pub first_time : Upcall → Cmd (Process K) (Unit {0})
  first_time u p =
      if p.handlers u == 0
      then (lib_sys_page_alloc int 0 (uxstacktop - pgsize) 7 >>= panic_if_negative) p
      else pure tt p

  unfoldable pub set_handler :
      Upcall → (ℕ → ℕ → Cmd (Process K) ℕ) → ℕ → ℕ → Cmd (Process K) (Unit {0})
  set_handler u set_upcall entry handler =
      first_time u
      >> (modify (set_variable u handler) >> (set_upcall 0 entry >>= panic_if_negative))

  unfoldable pub set_pgfault_handler : ℕ → ℕ → Cmd (Process K) (Unit {0})
  set_pgfault_handler = set_handler Upcall.pgfault (lib_sys_env_set_pgfault_upcall int)

  unfoldable pub set_divzero_handler : ℕ → ℕ → Cmd (Process K) (Unit {0})
  set_divzero_handler = set_handler Upcall.divzero (lib_sys_env_set_divzero_upcall int)

  unfoldable pub set_debug_handler : ℕ → ℕ → Cmd (Process K) (Unit {0})
  set_debug_handler = set_handler Upcall.debug (lib_sys_env_set_debug_upcall int)

  unfoldable pub set_nmskint_handler : ℕ → ℕ → Cmd (Process K) (Unit {0})
  set_nmskint_handler = set_handler Upcall.nmskint (lib_sys_env_set_nmskint_upcall int)

  unfoldable pub set_bpoint_handler : ℕ → ℕ → Cmd (Process K) (Unit {0})
  set_bpoint_handler = set_handler Upcall.bpoint (lib_sys_env_set_bpoint_upcall int)

  unfoldable pub set_oflow_handler : ℕ → ℕ → Cmd (Process K) (Unit {0})
  set_oflow_handler = set_handler Upcall.oflow (lib_sys_env_set_oflow_upcall int)

  unfoldable pub set_bdschk_handler : ℕ → ℕ → Cmd (Process K) (Unit {0})
  set_bdschk_handler = set_handler Upcall.bdschk (lib_sys_env_set_bdschk_upcall int)

  unfoldable pub set_illopcd_handler : ℕ → ℕ → Cmd (Process K) (Unit {0})
  set_illopcd_handler = set_handler Upcall.illopcd (lib_sys_env_set_illopcd_upcall int)

  unfoldable pub set_dvcntavl_handler : ℕ → ℕ → Cmd (Process K) (Unit {0})
  set_dvcntavl_handler = set_handler Upcall.dvcntavl (lib_sys_env_set_dvcntavl_upcall int)

  unfoldable pub set_dbfault_handler : ℕ → ℕ → Cmd (Process K) (Unit {0})
  set_dbfault_handler = set_handler Upcall.dbfault (lib_sys_env_set_dbfault_upcall int)

  unfoldable pub set_ivldtss_handler : ℕ → ℕ → Cmd (Process K) (Unit {0})
  set_ivldtss_handler = set_handler Upcall.ivldtss (lib_sys_env_set_ivldtss_upcall int)

  unfoldable pub set_segntprst_handler : ℕ → ℕ → Cmd (Process K) (Unit {0})
  set_segntprst_handler = set_handler Upcall.segntprst (lib_sys_env_set_segntprst_upcall int)

  unfoldable pub set_stkexception_handler : ℕ → ℕ → Cmd (Process K) (Unit {0})
  set_stkexception_handler =
      set_handler Upcall.stkexception (lib_sys_env_set_stkexception_upcall int)

  unfoldable pub set_gpfault_handler : ℕ → ℕ → Cmd (Process K) (Unit {0})
  set_gpfault_handler = set_handler Upcall.gpfault (lib_sys_env_set_gpfault_upcall int)

  unfoldable pub set_fperror_handler : ℕ → ℕ → Cmd (Process K) (Unit {0})
  set_fperror_handler = set_handler Upcall.fperror (lib_sys_env_set_fperror_upcall int)

  unfoldable pub set_algchk_handler : ℕ → ℕ → Cmd (Process K) (Unit {0})
  set_algchk_handler = set_handler Upcall.algchk (lib_sys_env_set_algchk_upcall int)

  unfoldable pub set_mchchk_handler : ℕ → ℕ → Cmd (Process K) (Unit {0})
  set_mchchk_handler = set_handler Upcall.mchchk (lib_sys_env_set_mchchk_upcall int)

  unfoldable pub set_simdfperror_handler : ℕ → ℕ → Cmd (Process K) (Unit {0})
  set_simdfperror_handler = set_handler Upcall.simdfperror (lib_sys_env_set_simdfperror_upcall int)

  -- The function of the library for each upcall.
  abbrev pub set_upcall_handler : Upcall → ℕ → ℕ → Cmd (Process K) (Unit {0})
  set_upcall_handler Upcall.pgfault = set_pgfault_handler
  set_upcall_handler Upcall.divzero = set_divzero_handler
  set_upcall_handler Upcall.debug = set_debug_handler
  set_upcall_handler Upcall.nmskint = set_nmskint_handler
  set_upcall_handler Upcall.bpoint = set_bpoint_handler
  set_upcall_handler Upcall.oflow = set_oflow_handler
  set_upcall_handler Upcall.bdschk = set_bdschk_handler
  set_upcall_handler Upcall.illopcd = set_illopcd_handler
  set_upcall_handler Upcall.dvcntavl = set_dvcntavl_handler
  set_upcall_handler Upcall.dbfault = set_dbfault_handler
  set_upcall_handler Upcall.ivldtss = set_ivldtss_handler
  set_upcall_handler Upcall.segntprst = set_segntprst_handler
  set_upcall_handler Upcall.stkexception = set_stkexception_handler
  set_upcall_handler Upcall.gpfault = set_gpfault_handler
  set_upcall_handler Upcall.fperror = set_fperror_handler
  set_upcall_handler Upcall.algchk = set_algchk_handler
  set_upcall_handler Upcall.mchchk = set_mchchk_handler
  set_upcall_handler Upcall.simdfperror = set_simdfperror_handler
