-- ===== src/Syscall/Upcalls.antt =====
-- kern/syscall.c: the system calls that set the upcall of an exception.
pub mod Register
use challenge.Base.{ℕ, Bool, true, ◌==◌, if◌then◌else◌}
use challenge.Base.Run.{Run, ok, Cmd}
use challenge.Env.State.{Upcall, upcall_index, Env, Kernel, set_env}
use challenge.Syscall.Envs.{with_env}

-- `e->env_..._upcall = func`
abbrev pub set_upcall : Upcall → ℕ → Env → Env
set_upcall u func e = record e {
  env_upcall = λ v. if upcall_index v == upcall_index u then func else e.env_upcall v;
}

unfoldable pub sys_env_set_upcall : Upcall → ℕ → ℕ → Cmd Kernel ℕ
unfolding with_env
sys_env_set_upcall u envid func =
    with_env envid true (λ e (k : Kernel). ok 0 (set_env e (set_upcall u func (k.envs e)) k))

unfoldable pub sys_env_set_pgfault_upcall : ℕ → ℕ → Cmd Kernel ℕ
unfolding sys_env_set_upcall
sys_env_set_pgfault_upcall = sys_env_set_upcall Upcall.pgfault

unfoldable pub sys_env_set_divzero_upcall : ℕ → ℕ → Cmd Kernel ℕ
unfolding sys_env_set_upcall
sys_env_set_divzero_upcall = sys_env_set_upcall Upcall.divzero

unfoldable pub sys_env_set_debug_upcall : ℕ → ℕ → Cmd Kernel ℕ
unfolding sys_env_set_upcall
sys_env_set_debug_upcall = sys_env_set_upcall Upcall.debug

unfoldable pub sys_env_set_nmskint_upcall : ℕ → ℕ → Cmd Kernel ℕ
unfolding sys_env_set_upcall
sys_env_set_nmskint_upcall = sys_env_set_upcall Upcall.nmskint

unfoldable pub sys_env_set_bpoint_upcall : ℕ → ℕ → Cmd Kernel ℕ
unfolding sys_env_set_upcall
sys_env_set_bpoint_upcall = sys_env_set_upcall Upcall.bpoint

unfoldable pub sys_env_set_oflow_upcall : ℕ → ℕ → Cmd Kernel ℕ
unfolding sys_env_set_upcall
sys_env_set_oflow_upcall = sys_env_set_upcall Upcall.oflow

unfoldable pub sys_env_set_bdschk_upcall : ℕ → ℕ → Cmd Kernel ℕ
unfolding sys_env_set_upcall
sys_env_set_bdschk_upcall = sys_env_set_upcall Upcall.bdschk

unfoldable pub sys_env_set_illopcd_upcall : ℕ → ℕ → Cmd Kernel ℕ
unfolding sys_env_set_upcall
sys_env_set_illopcd_upcall = sys_env_set_upcall Upcall.illopcd

unfoldable pub sys_env_set_dvcntavl_upcall : ℕ → ℕ → Cmd Kernel ℕ
unfolding sys_env_set_upcall
sys_env_set_dvcntavl_upcall = sys_env_set_upcall Upcall.dvcntavl

unfoldable pub sys_env_set_dbfault_upcall : ℕ → ℕ → Cmd Kernel ℕ
unfolding sys_env_set_upcall
sys_env_set_dbfault_upcall = sys_env_set_upcall Upcall.dbfault

unfoldable pub sys_env_set_ivldtss_upcall : ℕ → ℕ → Cmd Kernel ℕ
unfolding sys_env_set_upcall
sys_env_set_ivldtss_upcall = sys_env_set_upcall Upcall.ivldtss

unfoldable pub sys_env_set_segntprst_upcall : ℕ → ℕ → Cmd Kernel ℕ
unfolding sys_env_set_upcall
sys_env_set_segntprst_upcall = sys_env_set_upcall Upcall.segntprst

unfoldable pub sys_env_set_stkexception_upcall : ℕ → ℕ → Cmd Kernel ℕ
unfolding sys_env_set_upcall
sys_env_set_stkexception_upcall = sys_env_set_upcall Upcall.stkexception

unfoldable pub sys_env_set_gpfault_upcall : ℕ → ℕ → Cmd Kernel ℕ
unfolding sys_env_set_upcall
sys_env_set_gpfault_upcall = sys_env_set_upcall Upcall.gpfault

unfoldable pub sys_env_set_fperror_upcall : ℕ → ℕ → Cmd Kernel ℕ
unfolding sys_env_set_upcall
sys_env_set_fperror_upcall = sys_env_set_upcall Upcall.fperror

unfoldable pub sys_env_set_algchk_upcall : ℕ → ℕ → Cmd Kernel ℕ
unfolding sys_env_set_upcall
sys_env_set_algchk_upcall = sys_env_set_upcall Upcall.algchk

unfoldable pub sys_env_set_mchchk_upcall : ℕ → ℕ → Cmd Kernel ℕ
unfolding sys_env_set_upcall
sys_env_set_mchchk_upcall = sys_env_set_upcall Upcall.mchchk

unfoldable pub sys_env_set_simdfperror_upcall : ℕ → ℕ → Cmd Kernel ℕ
unfolding sys_env_set_upcall
sys_env_set_simdfperror_upcall = sys_env_set_upcall Upcall.simdfperror
