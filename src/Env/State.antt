-- ===== src/Env/State.antt =====
-- inc/env.h, inc/trap.h and kern/cpu.h: the state of the kernel, and `envid2env` of kern/env.c.
--
-- A `struct Env *` is the index of the environment in `envs`. An `envid_t` and every other 32-bit
-- integer is its bit pattern. The upcall fields of `struct Env` are one function from their names.
use challenge.Base.{
  ℕ, ◌%◌, Bool, false, not, ◌&&◌, ◌||◌, Option, none, some, List, ◌==◌, if◌then◌else◌, update,
}
use challenge.Base.Run.{Run, ok, exit, Exit, Cmd}
use challenge.Console.{Cons}
use challenge.Spinlock.{Spinlock, spin_lock, spin_unlock}
use challenge.Pmap.Pages.{Pmap}
use challenge.Pmap.Tables.{Errno, Current}

abbrev pub nenv : ℕ
nenv = 1024

abbrev pub envx : ℕ → ℕ
envx envid = envid % nenv

abbrev pub maxipcwaiting : ℕ
maxipcwaiting = 10

abbrev pub env_free_status : ℕ
env_free_status = 0

abbrev pub env_dying : ℕ
env_dying = 1

abbrev pub env_runnable : ℕ
env_runnable = 2

abbrev pub env_running : ℕ
env_running = 3

abbrev pub env_not_runnable : ℕ
env_not_runnable = 4

pub record PushRegs : Type 0 where
  pub reg_edi : ℕ
  pub reg_esi : ℕ
  pub reg_ebp : ℕ
  pub reg_oesp : ℕ
  pub reg_ebx : ℕ
  pub reg_edx : ℕ
  pub reg_ecx : ℕ
  pub reg_eax : ℕ

pub record Trapframe : Type 0 where
  pub tf_regs : PushRegs
  pub tf_es : ℕ
  pub tf_ds : ℕ
  pub tf_trapno : ℕ
  pub tf_err : ℕ
  pub tf_eip : ℕ
  pub tf_cs : ℕ
  pub tf_eflags : ℕ
  pub tf_esp : ℕ
  pub tf_ss : ℕ

-- The fields `env_pgfault_upcall`, `env_divzero_upcall` and so on.
pub data Upcall : Type 0 where
  pgfault divzero debug nmskint bpoint oflow bdschk illopcd dvcntavl : Upcall
  dbfault ivldtss segntprst stkexception gpfault fperror algchk mchchk simdfperror : Upcall

abbrev pub upcall_index : Upcall → ℕ
upcall_index Upcall.pgfault = 0
upcall_index Upcall.divzero = 1
upcall_index Upcall.debug = 2
upcall_index Upcall.nmskint = 3
upcall_index Upcall.bpoint = 4
upcall_index Upcall.oflow = 5
upcall_index Upcall.bdschk = 6
upcall_index Upcall.illopcd = 7
upcall_index Upcall.dvcntavl = 8
upcall_index Upcall.dbfault = 9
upcall_index Upcall.ivldtss = 10
upcall_index Upcall.segntprst = 11
upcall_index Upcall.stkexception = 12
upcall_index Upcall.gpfault = 13
upcall_index Upcall.fperror = 14
upcall_index Upcall.algchk = 15
upcall_index Upcall.mchchk = 16
upcall_index Upcall.simdfperror = 17

pub record Env : Type 0 where
  pub env_tf : Trapframe
  pub env_link : Option ℕ
  pub env_id : ℕ
  pub env_parent_id : ℕ
  pub env_type : ℕ
  pub env_status : ℕ
  pub env_runs : ℕ
  pub env_cpunum : ℕ
  pub env_pgdir : Option ℕ
  pub env_upcall : Upcall → ℕ
  pub env_ipc_recving : Bool
  pub env_ipc_dstva : ℕ
  pub env_ipc_value : ℕ
  pub env_ipc_from : ℕ
  pub env_ipc_perm : ℕ
  pub env_ipc_waiting_head : ℕ
  pub env_ipc_waiting_tail : ℕ
  pub env_ipc_waiting : ℕ → ℕ

pub record CpuInfo : Type 0 where
  pub cpu_status : ℕ
  pub cpu_env : Option ℕ

abbrev pub cpu_started : ℕ
cpu_started = 1

abbrev pub cpu_halted : ℕ
cpu_halted = 2

-- The state that kernel code on one CPU, `cpunum`, works on. `cr3` is the page directory in force;
-- `serial_in` and `kbd_in` are the input that the devices hold for the next poll.
pub record Kernel : Type 0 where
  pub pm : Pmap
  pub envs : ℕ → Env
  pub env_free_list : Option ℕ
  pub cpunum : ℕ
  pub cpus : ℕ → CpuInfo
  pub kernel_lock : Spinlock
  pub cr3 : ℕ
  pub cons : Cons
  pub serial_in : List ℕ
  pub kbd_in : List ℕ

-- `#define curenv (thiscpu->cpu_env)` of kern/env.h
abbrev pub curenv : Kernel → Option ℕ
curenv k = (k.cpus k.cpunum).cpu_env

abbrev pub set_curenv : Option ℕ → Kernel → Kernel
set_curenv e k = record k {
  cpus = update k.cpus k.cpunum (record (k.cpus k.cpunum) { cpu_env = e });
}

abbrev pub set_env : ℕ → Env → Kernel → Kernel
set_env i e k = record k { envs = update k.envs i e }

-- A call of a function of pmap.c, which works on its part of the state.
module _ {A : Type 0} where
  abbrev pub in_pmap : Run Pmap A → Kernel → Run Kernel A
  in_pmap (ok a pm) k = ok a (record k { pm = pm })
  in_pmap (exit e pm) k = exit e (record k { pm = pm })

  abbrev pub lift : Cmd Pmap A → Cmd Kernel A
  lift m k = in_pmap (m k.pm) k

abbrev pub on_lock : Run Spinlock (Unit {0}) → Kernel → Run Kernel (Unit {0})
on_lock (ok a lk) k = ok a (record k { kernel_lock = lk })
on_lock (exit e lk) k = exit e (record k { kernel_lock = lk })

unfoldable pub lock_kernel : Cmd Kernel (Unit {0})
unfolding spin_lock
lock_kernel k = on_lock (spin_lock k.cpunum k.kernel_lock) k

unfoldable pub unlock_kernel : Cmd Kernel (Unit {0})
unfolding spin_unlock
unlock_kernel k = on_lock (spin_unlock k.cpunum k.kernel_lock) k

-- What a use of `*p` does at NULL.
module _ {A : Type 0} where
  abbrev pub deref : Option A → Cmd Kernel A
  deref none = exit Exit.kernel_fault
  deref (some a) = ok a

abbrev pub current : Kernel → Current
current k = elim (curenv k) [ none ↦ none | some i ↦ some (k.envs i).env_pgdir ]

-- The value of a function that returns 0 or a negative error code, and stores a result.
pub data Result {ℓ} (A : Type ℓ) : Type ℓ where
  done : A → Result A
  fail : Errno → Result A

abbrev pub eq_opt : Option ℕ → ℕ → Bool
eq_opt none i = false
eq_opt (some j) i = j == i

-- `e != curenv && e->env_parent_id != curenv->env_id`, which reads `curenv` where it is NULL only if
-- the first test passes, as it then does.
check_parent : ℕ → Option ℕ → Cmd Kernel (Result (Option ℕ))
check_parent e none k = exit Exit.kernel_fault k
check_parent e (some c) k =
    if not (e == c) && not ((k.envs e).env_parent_id == (k.envs c).env_id)
    then ok (fail Errno.bad_env) k
    else ok (done (some e)) k

-- `*env_store` may be NULL only where `envid` is 0 and there is no `curenv`.
unfoldable pub envid2env : ℕ → Bool → Cmd Kernel (Result (Option ℕ))
unfolding check_parent
envid2env envid checkperm k =
    if envid == 0
    then ok (done (curenv k)) k
    else if (k.envs (envx envid)).env_status == env_free_status
        || not ((k.envs (envx envid)).env_id == envid)
    then ok (fail Errno.bad_env) k
    else if checkperm
    then check_parent (envx envid) (curenv k) k
    else ok (done (some (envx envid))) k
