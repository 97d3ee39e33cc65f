-- ===== src/Syscall/Dispatch.antt =====
-- kern/syscall.c: the dispatch of a system call by its number, of inc/syscall.h.
use challenge.Base.{ℕ, ◌==◌, if◌then◌else◌}
use challenge.Base.Run.{Cmd, pure, ◌>>◌}
use challenge.Pmap.Tables.{Errno}
use challenge.Env.State.{Kernel}
use challenge.Syscall.Envs.{
  neg, sys_cputs, sys_cgetc, sys_getenvid, sys_env_destroy, sys_yield, sys_exofork,
  sys_env_set_status,
}
use challenge.Syscall.Memory.{sys_page_alloc, sys_page_map, sys_page_unmap}
use challenge.Syscall.Ipc.{sys_ipc_try_send, sys_ipc_recv}
use challenge.Syscall.Upcalls.{
  sys_env_set_pgfault_upcall, sys_env_set_divzero_upcall, sys_env_set_debug_upcall,
  sys_env_set_nmskint_upcall, sys_env_set_bpoint_upcall, sys_env_set_oflow_upcall,
  sys_env_set_bdschk_upcall, sys_env_set_illopcd_upcall, sys_env_set_dvcntavl_upcall,
  sys_env_set_dbfault_upcall, sys_env_set_ivldtss_upcall, sys_env_set_segntprst_upcall,
  sys_env_set_stkexception_upcall, sys_env_set_gpfault_upcall, sys_env_set_fperror_upcall,
  sys_env_set_algchk_upcall, sys_env_set_mchchk_upcall, sys_env_set_simdfperror_upcall,
}

-- The cases of the switch for the upcalls of the exceptions other than the page fault.
dispatch_upcall : (syscallno a1 a2 : ℕ) → Cmd Kernel ℕ
dispatch_upcall syscallno a1 a2 =
    if syscallno == 13
    then sys_env_set_divzero_upcall a1 a2
    else if syscallno == 14
    then sys_env_set_debug_upcall a1 a2
    else if syscallno == 15
    then sys_env_set_nmskint_upcall a1 a2
    else if syscallno == 16
    then sys_env_set_bpoint_upcall a1 a2
    else if syscallno == 17
    then sys_env_set_oflow_upcall a1 a2
    else if syscallno == 18
    then sys_env_set_bdschk_upcall a1 a2
    else if syscallno == 19
    then sys_env_set_illopcd_upcall a1 a2
    else if syscallno == 20
    then sys_env_set_dvcntavl_upcall a1 a2
    else if syscallno == 21
    then sys_env_set_dbfault_upcall a1 a2
    else if syscallno == 22
    then sys_env_set_ivldtss_upcall a1 a2
    else if syscallno == 23
    then sys_env_set_segntprst_upcall a1 a2
    else if syscallno == 24
    then sys_env_set_stkexception_upcall a1 a2
    else if syscallno == 25
    then sys_env_set_gpfault_upcall a1 a2
    else if syscallno == 26
    then sys_env_set_fperror_upcall a1 a2
    else if syscallno == 27
    then sys_env_set_algchk_upcall a1 a2
    else if syscallno == 28
    then sys_env_set_mchchk_upcall a1 a2
    else if syscallno == 29
    then sys_env_set_simdfperror_upcall a1 a2
    else pure (neg Errno.no_sys)

unfoldable pub syscall : (syscallno a1 a2 a3 a4 a5 : ℕ) → Cmd Kernel ℕ
unfolding dispatch_upcall
syscall syscallno a1 a2 a3 a4 a5 =
    if syscallno == 0
    then (sys_cputs a1 a2 >> pure 0)
    else if syscallno == 1
    then sys_cgetc
    else if syscallno == 2
    then sys_getenvid
    else if syscallno == 3
    then (sys_env_destroy a1 >> pure 0)
    else if syscallno == 4
    then sys_page_alloc a1 a2 a3
    else if syscallno == 5
    then sys_page_map a1 a2 a3 a4 a5
    else if syscallno == 6
    then sys_page_unmap a1 a2
    else if syscallno == 7
    then sys_exofork
    else if syscallno == 8
    then sys_env_set_status a1 a2
    else if syscallno == 9
    then sys_env_set_pgfault_upcall a1 a2
    else if syscallno == 10
    then (sys_yield >> pure 0)
    else if syscallno == 11
    then sys_ipc_try_send a1 a2 a3 a4
    else if syscallno == 12
    then sys_ipc_recv a1
    else dispatch_upcall syscallno a1 a2
