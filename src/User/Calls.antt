-- ===== src/User/Calls.antt =====
-- lib/syscall.c: the stubs of the system calls.
--
-- `int` is the kernel's answer to `int $T_SYSCALL`, on whatever state `K` the kernel keeps: the value that
-- the environment finds in %eax when it runs again. A stub whose `check` is set panics on a positive answer.
use challenge.Base.{ℕ, ◌^◌, Bool, true, false, ◌&&◌, leb, ltb, if◌then◌else◌}
use challenge.Base.Run.{Run, ok, exit, Exit, Cmd}
use challenge.Env.State.{Upcall}

-- What a call changes: the state of the kernel, and the variables `_..._handler` and `thisenv` of the
-- program, the latter as an index in `envs`.
pub record Process (K : Type 0) : Type 0 where
  pub kernel : K
  pub handlers : Upcall → ℕ
  pub thisenv : ℕ

abbrev pub Answers : Type 0 → Type 0
Answers K = ℕ → ℕ → ℕ → ℕ → ℕ → ℕ → Cmd K ℕ

-- An int32_t, as its bit pattern, above or below 0
abbrev pub positive : ℕ → Bool
positive r = ltb 0 r && ltb r (2 ^ 31)

abbrev pub negative : ℕ → Bool
negative r = leb (2 ^ 31) r

module _ {K : Type 0} where
  abbrev pub answer : Bool → Process K → Run K ℕ → Run (Process K) ℕ
  answer check p (ok ret k) =
      if check && positive ret
      then exit Exit.user_panic (record p { kernel = k })
      else ok ret (record p { kernel = k })
  answer check p (exit e k) = exit e (record p { kernel = k })

  unfoldable pub lib_syscall : Answers K → ℕ → Bool → ℕ → ℕ → ℕ → ℕ → ℕ → Cmd (Process K) ℕ
  lib_syscall int num check a1 a2 a3 a4 a5 p = answer check p (int num a1 a2 a3 a4 a5 p.kernel)

  unfoldable pub lib_sys_cputs : Answers K → ℕ → ℕ → Cmd (Process K) ℕ
  lib_sys_cputs int s len = lib_syscall int 0 false s len 0 0 0

  unfoldable pub lib_sys_cgetc : Answers K → Cmd (Process K) ℕ
  lib_sys_cgetc int = lib_syscall int 1 false 0 0 0 0 0

  unfoldable pub lib_sys_getenvid : Answers K → Cmd (Process K) ℕ
  lib_sys_getenvid int = lib_syscall int 2 false 0 0 0 0 0

  unfoldable pub lib_sys_env_destroy : Answers K → ℕ → Cmd (Process K) ℕ
  lib_sys_env_destroy int envid = lib_syscall int 3 true envid 0 0 0 0

  unfoldable pub lib_sys_page_alloc : Answers K → ℕ → ℕ → ℕ → Cmd (Process K) ℕ
  lib_sys_page_alloc int envid va perm = lib_syscall int 4 true envid va perm 0 0

  unfoldable pub lib_sys_page_map : Answers K → ℕ → ℕ → ℕ → ℕ → ℕ → Cmd (Process K) ℕ
  lib_sys_page_map int srcenv srcva dstenv dstva perm =
      lib_syscall int 5 true srcenv srcva dstenv dstva perm

  unfoldable pub lib_sys_page_unmap : Answers K → ℕ → ℕ → Cmd (Process K) ℕ
  lib_sys_page_unmap int envid va = lib_syscall int 6 true envid va 0 0 0

  unfoldable pub lib_sys_exofork : Answers K → Cmd (Process K) ℕ
  lib_sys_exofork int = lib_syscall int 7 false 0 0 0 0 0

  unfoldable pub lib_sys_env_set_status : Answers K → ℕ → ℕ → Cmd (Process K) ℕ
  lib_sys_env_set_status int envid status = lib_syscall int 8 true envid status 0 0 0

  unfoldable pub lib_sys_yield : Answers K → Cmd (Process K) ℕ
  lib_sys_yield int = lib_syscall int 10 false 0 0 0 0 0

  unfoldable pub lib_sys_ipc_try_send : Answers K → ℕ → ℕ → ℕ → ℕ → Cmd (Process K) ℕ
  lib_sys_ipc_try_send int envid value srcva perm =
      lib_syscall int 11 false envid value srcva perm 0

  unfoldable pub lib_sys_ipc_recv : Answers K → ℕ → Cmd (Process K) ℕ
  lib_sys_ipc_recv int dstva = lib_syscall int 12 true dstva 0 0 0 0

  unfoldable pub lib_sys_env_set_pgfault_upcall : Answers K → ℕ → ℕ → Cmd (Process K) ℕ
  lib_sys_env_set_pgfault_upcall int envid upcall = lib_syscall int 9 true envid upcall 0 0 0

  unfoldable pub lib_sys_env_set_divzero_upcall : Answers K → ℕ → ℕ → Cmd (Process K) ℕ
  lib_sys_env_set_divzero_upcall int envid upcall = lib_syscall int 13 true envid upcall 0 0 0

  unfoldable pub lib_sys_env_set_debug_upcall : Answers K → ℕ → ℕ → Cmd (Process K) ℕ
  lib_sys_env_set_debug_upcall int envid upcall = lib_syscall int 14 true envid upcall 0 0 0

  unfoldable pub lib_sys_env_set_nmskint_upcall : Answers K → ℕ → ℕ → Cmd (Process K) ℕ
  lib_sys_env_set_nmskint_upcall int envid upcall = lib_syscall int 15 true envid upcall 0 0 0

  unfoldable pub lib_sys_env_set_bpoint_upcall : Answers K → ℕ → ℕ → Cmd (Process K) ℕ
  lib_sys_env_set_bpoint_upcall int envid upcall = lib_syscall int 16 true envid upcall 0 0 0

  unfoldable pub lib_sys_env_set_oflow_upcall : Answers K → ℕ → ℕ → Cmd (Process K) ℕ
  lib_sys_env_set_oflow_upcall int envid upcall = lib_syscall int 17 true envid upcall 0 0 0

  unfoldable pub lib_sys_env_set_bdschk_upcall : Answers K → ℕ → ℕ → Cmd (Process K) ℕ
  lib_sys_env_set_bdschk_upcall int envid upcall = lib_syscall int 18 true envid upcall 0 0 0

  unfoldable pub lib_sys_env_set_illopcd_upcall : Answers K → ℕ → ℕ → Cmd (Process K) ℕ
  lib_sys_env_set_illopcd_upcall int envid upcall = lib_syscall int 19 true envid upcall 0 0 0

  unfoldable pub lib_sys_env_set_dvcntavl_upcall : Answers K → ℕ → ℕ → Cmd (Process K) ℕ
  lib_sys_env_set_dvcntavl_upcall int envid upcall = lib_syscall int 20 true envid upcall 0 0 0

  unfoldable pub lib_sys_env_set_dbfault_upcall : Answers K → ℕ → ℕ → Cmd (Process K) ℕ
  lib_sys_env_set_dbfault_upcall int envid upcall = lib_syscall int 21 true envid upcall 0 0 0

  unfoldable pub lib_sys_env_set_ivldtss_upcall : Answers K → ℕ → ℕ → Cmd (Process K) ℕ
  lib_sys_env_set_ivldtss_upcall int envid upcall = lib_syscall int 22 true envid upcall 0 0 0

  unfoldable pub lib_sys_env_set_segntprst_upcall : Answers K → ℕ → ℕ → Cmd (Process K) ℕ
  lib_sys_env_set_segntprst_upcall int envid upcall = lib_syscall int 23 true envid upcall 0 0 0

  unfoldable pub lib_sys_env_set_stkexception_upcall : Answers K → ℕ → ℕ → Cmd (Process K) ℕ
  lib_sys_env_set_stkexception_upcall int envid upcall = lib_syscall int 24 true envid upcall 0 0 0

  unfoldable pub lib_sys_env_set_gpfault_upcall : Answers K → ℕ → ℕ → Cmd (Process K) ℕ
  lib_sys_env_set_gpfault_upcall int envid upcall = lib_syscall int 25 true envid upcall 0 0 0

  unfoldable pub lib_sys_env_set_fperror_upcall : Answers K → ℕ → ℕ → Cmd (Process K) ℕ
  lib_sys_env_set_fperror_upcall int envid upcall = lib_syscall int 26 true envid upcall 0 0 0

  unfoldable pub lib_sys_env_set_algchk_upcall : Answers K → ℕ → ℕ → Cmd (Process K) ℕ
  lib_sys_env_set_algchk_upcall int envid upcall = lib_syscall int 27 true envid upcall 0 0 0

  unfoldable pub lib_sys_env_set_mchchk_upcall : Answers K → ℕ → ℕ → Cmd (Process K) ℕ
  lib_sys_env_set_mchchk_upcall int envid upcall = lib_syscall int 28 true envid upcall 0 0 0

  unfoldable pub lib_sys_env_set_simdfperror_upcall : Answers K → ℕ → ℕ → Cmd (Process K) ℕ
  lib_sys_env_set_simdfperror_upcall int envid upcall = lib_syscall int 29 true envid upcall 0 0 0
