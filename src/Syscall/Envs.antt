-- ===== src/Syscall/Envs.antt =====
-- kern/syscall.c: the system calls on environments. A call returns the bit pattern of its int32_t.
use challenge.Base.{ℕ, ◌-◌, ◌^◌, Bool, true, not, ◌||◌, Option, [], ◌==◌, if◌then◌else◌}
use challenge.Base.Run.{ok, Cmd, pure, ◌>>=◌, ◌>>◌}
use challenge.Pmap.Tables.{Errno}
use challenge.Env.State.{
  Kernel, Result, done, fail, envid2env, env_runnable, env_not_runnable, curenv, set_env, deref,
}
use challenge.Env.Alloc.{env_alloc}
use challenge.Env.Free.{env_destroy, user_mem_assert}
use challenge.Sched.{sched_yield}
use challenge.Console.{cons_getc}

-- inc/error.h
abbrev pub errno_code : Errno → ℕ
errno_code Errno.bad_env = 2
errno_code Errno.inval = 3
errno_code Errno.no_mem = 4
errno_code Errno.no_free_env = 5
errno_code Errno.fault = 6
errno_code Errno.no_sys = 7
errno_code Errno.ipc_not_recv = 8

-- `-E_...`
abbrev pub neg : Errno → ℕ
neg e = 2 ^ 32 - errno_code e

-- `if ((r = envid2env(envid, &e, checkperm)) < 0) return r;` before the rest of a call. Where there is
-- no `curenv` and `envid` is 0, `e` is NULL, and the rest faults on it.
unfoldable pub on_env : (ℕ → Cmd Kernel ℕ) → Result (Option ℕ) → Cmd Kernel ℕ
on_env rest (fail r) k = ok (neg r) k
on_env rest (done e) k = (do i ← deref e; rest i) k

unfoldable pub with_env : ℕ → Bool → (ℕ → Cmd Kernel ℕ) → Cmd Kernel ℕ
unfolding envid2env on_env
with_env envid checkperm rest = do r ← envid2env envid checkperm; on_env rest r

-- The text printed is left out.
unfoldable pub sys_cputs : ℕ → ℕ → Cmd Kernel (Unit {0})
unfolding user_mem_assert
sys_cputs s len k = (do c ← deref (curenv k); user_mem_assert c s len 0) k

unfoldable pub sys_cgetc : Cmd Kernel ℕ
unfolding cons_getc
sys_cgetc k =
    let (c, s) = cons_getc k.serial_in k.kbd_in k.cons in
    ok c (record k { cons = s; serial_in = []; kbd_in = [] })

unfoldable pub sys_getenvid : Cmd Kernel ℕ
sys_getenvid k = (do c ← deref (curenv k); pure (k.envs c).env_id) k

unfoldable pub sys_env_destroy : ℕ → Cmd Kernel ℕ
unfolding with_env env_destroy
sys_env_destroy envid = with_env envid true (λ e. env_destroy e >> pure 0)

unfoldable pub sys_yield : Cmd Kernel (Unit {0})
unfolding sched_yield
sys_yield = sched_yield

forked : ℕ → Result ℕ → Cmd Kernel ℕ
forked c (fail r) k = ok (neg r) k
forked c (done e) k =
    let tf = (k.envs c).env_tf in
    let regs = tf.tf_regs in
    ok (k.envs e).env_id (
      set_env e
        (record (k.envs e) {
          env_status = env_not_runnable;
          env_tf = record tf { tf_regs = record regs { reg_eax = 0 } };
        })
        k)

unfoldable pub sys_exofork : Cmd Kernel ℕ
unfolding env_alloc forked
sys_exofork k = (do c ← deref (curenv k); r ← env_alloc (k.envs c).env_id; forked c r) k

unfoldable pub sys_env_set_status : ℕ → ℕ → Cmd Kernel ℕ
unfolding with_env
sys_env_set_status envid status =
    if not (status == env_runnable || status == env_not_runnable)
    then pure (neg Errno.inval)
    else with_env envid true
        (λ e (k : Kernel). ok 0 (set_env e (record (k.envs e) { env_status = status }) k))
