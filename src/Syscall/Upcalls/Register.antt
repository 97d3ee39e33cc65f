-- ===== src/Syscall/Upcalls/Register.antt =====
-- The upcalls that the system calls of kern/syscall.c register.
use challenge.Base.{
  ℕ, ◌≡◌, refl, ◌≢◌, sym, ◌∙◌, ap, true, some, List, [], ◌∷◌, get_elem?, ==_refl, ==_ne,
}
use challenge.Base.Run.{ok, Cmd}
use challenge.Pmap.Tables.{Errno}
use challenge.Env.State.{Upcall, upcall_index, Kernel, curenv, set_env}
use challenge.Syscall.Envs.{neg}
use challenge.Syscall.Target.{Target, Refused, with_env-Target, with_env-Refused}
use challenge.Syscall.Upcalls.{
  set_upcall, sys_env_set_upcall, sys_env_set_pgfault_upcall, sys_env_set_divzero_upcall,
  sys_env_set_debug_upcall, sys_env_set_nmskint_upcall, sys_env_set_bpoint_upcall,
  sys_env_set_oflow_upcall, sys_env_set_bdschk_upcall, sys_env_set_illopcd_upcall,
  sys_env_set_dvcntavl_upcall, sys_env_set_dbfault_upcall, sys_env_set_ivldtss_upcall,
  sys_env_set_segntprst_upcall, sys_env_set_stkexception_upcall, sys_env_set_gpfault_upcall,
  sys_env_set_fperror_upcall, sys_env_set_algchk_upcall, sys_env_set_mchchk_upcall,
  sys_env_set_simdfperror_upcall,
}
use challenge.Syscall.Dispatch.{syscall}

abbrev upcalls : List Upcall
upcalls =
    Upcall.pgfault ∷ Upcall.divzero ∷ Upcall.debug ∷ Upcall.nmskint ∷ Upcall.bpoint ∷ Upcall.oflow
    ∷ Upcall.bdschk ∷ Upcall.illopcd ∷ Upcall.dvcntavl ∷ Upcall.dbfault ∷ Upcall.ivldtss
    ∷ Upcall.segntprst ∷ Upcall.stkexception ∷ Upcall.gpfault ∷ Upcall.fperror ∷ Upcall.algchk
    ∷ Upcall.mchchk ∷ Upcall.simdfperror ∷ []

nth-index : (u : Upcall) → get_elem? upcalls (upcall_index u) ≡ some u
nth-index Upcall.pgfault = refl
nth-index Upcall.divzero = refl
nth-index Upcall.debug = refl
nth-index Upcall.nmskint = refl
nth-index Upcall.bpoint = refl
nth-index Upcall.oflow = refl
nth-index Upcall.bdschk = refl
nth-index Upcall.illopcd = refl
nth-index Upcall.dvcntavl = refl
nth-index Upcall.dbfault = refl
nth-index Upcall.ivldtss = refl
nth-index Upcall.segntprst = refl
nth-index Upcall.stkexception = refl
nth-index Upcall.gpfault = refl
nth-index Upcall.fperror = refl
nth-index Upcall.algchk = refl
nth-index Upcall.mchchk = refl
nth-index Upcall.simdfperror = refl

index-≢ : (v u : Upcall) → v ≢ u → upcall_index v ≢ upcall_index u
index-≢ v u n e =
    let same : some v ≡ some u = sym (nth-index v) ∙ ap (get_elem? upcalls) e ∙ nth-index u in
    n (cc)

-- In the new state the environment `e` has `func` as its upcall for `u`, keeps its others and its
-- status, and the rest of the state is the same.
pub record Registered (k k' : Kernel) (e : ℕ) (u : Upcall) (func : ℕ) : Type 0 where
  pub upcall : (k'.envs e).env_upcall u ≡ func
  pub other_upcalls : (v : Upcall) → v ≢ u → (k'.envs e).env_upcall v ≡ (k.envs e).env_upcall v
  pub rest : k' ≡ set_env e (record (k.envs e) { env_upcall = (k'.envs e).env_upcall }) k

abbrev assign : Upcall → ℕ → ℕ → Cmd Kernel ℕ
assign u func e k = ok 0 (set_env e (set_upcall u func (k.envs e)) k)

-- A system call that sets an upcall, for an environment that the caller may change, returns 0;
-- that environment then has the upcall, keeps its others, and nothing else changes.
pub sys_env_set_upcall-Registered :
    (k : Kernel) (c envid func : ℕ) (u : Upcall) (e : ℕ)
    → curenv k ≡ some c
    → Target k c envid true e
    → (k' : Kernel) × (sys_env_set_upcall u envid func k ≡ ok 0 k') × Registered k k' e u func
unfolding sys_env_set_upcall
sys_env_set_upcall-Registered k c envid func u e cur target = (
  set_env e (set_upcall u func (k.envs e)) k,
  with_env-Target k c envid true e (assign u func) cur target,
  record {
    upcall = rw (==_refl e, ==_refl (upcall_index u)) refl;
    other_upcalls = λ v n. rw (==_refl e, ==_ne _ _ (index-≢ v u n)) refl;
    rest = rw (==_refl e) refl;
  },
)

-- A system call that sets an upcall, for an id that names no environment that the caller may
-- change, returns -E_BAD_ENV and nothing changes, whatever the upcall.
pub sys_env_set_upcall-Refused :
    (k : Kernel) (c envid func : ℕ) (u : Upcall)
    → curenv k ≡ some c
    → Refused k c envid true
    → sys_env_set_upcall u envid func k ≡ ok (neg Errno.bad_env) k
unfolding sys_env_set_upcall
sys_env_set_upcall-Refused k c envid func u cur =
    with_env-Refused k c envid true (assign u func) cur

-- The number of the system call for each upcall, of inc/syscall.h.
abbrev pub call_number : Upcall → ℕ
call_number Upcall.pgfault = 9
call_number Upcall.divzero = 13
call_number Upcall.debug = 14
call_number Upcall.nmskint = 15
call_number Upcall.bpoint = 16
call_number Upcall.oflow = 17
call_number Upcall.bdschk = 18
call_number Upcall.illopcd = 19
call_number Upcall.dvcntavl = 20
call_number Upcall.dbfault = 21
call_number Upcall.ivldtss = 22
call_number Upcall.segntprst = 23
call_number Upcall.stkexception = 24
call_number Upcall.gpfault = 25
call_number Upcall.fperror = 26
call_number Upcall.algchk = 27
call_number Upcall.mchchk = 28
call_number Upcall.simdfperror = 29

-- `syscall` with the number of inc/syscall.h for an upcall sets that upcall, for all 18 of them.
pub syscall-call_number :
    (u : Upcall) (a1 a2 a3 a4 a5 : ℕ)
    → syscall (call_number u) a1 a2 a3 a4 a5 ≡ sys_env_set_upcall u a1 a2
unfolding syscall sys_env_set_pgfault_upcall sys_env_set_divzero_upcall sys_env_set_debug_upcall
    sys_env_set_nmskint_upcall sys_env_set_bpoint_upcall sys_env_set_oflow_upcall
    sys_env_set_bdschk_upcall sys_env_set_illopcd_upcall sys_env_set_dvcntavl_upcall
    sys_env_set_dbfault_upcall sys_env_set_ivldtss_upcall sys_env_set_segntprst_upcall
    sys_env_set_stkexception_upcall sys_env_set_gpfault_upcall sys_env_set_fperror_upcall
    sys_env_set_algchk_upcall sys_env_set_mchchk_upcall sys_env_set_simdfperror_upcall
syscall-call_number Upcall.pgfault a1 a2 a3 a4 a5 = refl
syscall-call_number Upcall.divzero a1 a2 a3 a4 a5 = refl
syscall-call_number Upcall.debug a1 a2 a3 a4 a5 = refl
syscall-call_number Upcall.nmskint a1 a2 a3 a4 a5 = refl
syscall-call_number Upcall.bpoint a1 a2 a3 a4 a5 = refl
syscall-call_number Upcall.oflow a1 a2 a3 a4 a5 = refl
syscall-call_number Upcall.bdschk a1 a2 a3 a4 a5 = refl
syscall-call_number Upcall.illopcd a1 a2 a3 a4 a5 = refl
syscall-call_number Upcall.dvcntavl a1 a2 a3 a4 a5 = refl
syscall-call_number Upcall.dbfault a1 a2 a3 a4 a5 = refl
syscall-call_number Upcall.ivldtss a1 a2 a3 a4 a5 = refl
syscall-call_number Upcall.segntprst a1 a2 a3 a4 a5 = refl
syscall-call_number Upcall.stkexception a1 a2 a3 a4 a5 = refl
syscall-call_number Upcall.gpfault a1 a2 a3 a4 a5 = refl
syscall-call_number Upcall.fperror a1 a2 a3 a4 a5 = refl
syscall-call_number Upcall.algchk a1 a2 a3 a4 a5 = refl
syscall-call_number Upcall.mchchk a1 a2 a3 a4 a5 = refl
syscall-call_number Upcall.simdfperror a1 a2 a3 a4 a5 = refl
