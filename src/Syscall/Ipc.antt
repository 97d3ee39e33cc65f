-- ===== src/Syscall/Ipc.antt =====
-- kern/syscall.c: the system calls for messages between environments. The printing of the queue is
-- left out.
pub mod Queue
pub mod Send
pub mod Receive
use challenge.Base.{
  ℕ, ◌+◌, ◌-◌, ◌*◌, ◌/◌, ◌%◌, ◌^◌, bit_and, Bool, true, false, not, ◌&&◌, ◌||◌, Option, none, some,
  [], ◌==◌, leb, ltb, if◌then◌else◌, update,
}
use challenge.Base.Run.{Run, ok, exit, Exit, Cmd, pure, modify, ◌>>=◌, ◌>>◌}
use challenge.Mmu.{pgsize, roundup, utop, pte_p, pte_u, pte_w}
use challenge.Pmap.Pages.{Pmap, PtePtr, page_alloc, page_free, incref, read_pte}
use challenge.Pmap.Tables.{Errno, page_insert, page_lookup, page_remove}
use challenge.Env.State.{
  Upcall, upcall_index, Env, Kernel, Result, done, fail, envid2env, env_runnable, env_not_runnable,
  maxipcwaiting, curenv, set_env, deref, lift, current,
}
use challenge.Sched.{sched_yield}
use challenge.Syscall.Envs.{neg, with_env}
use challenge.Syscall.Memory.{adds_write}

-- The queue of senders that wait for the environment `e`, and the sender `c` put at its end.
abbrev pub queue_full : Env → Bool
queue_full e = (e.env_ipc_waiting_tail + 1) % maxipcwaiting == e.env_ipc_waiting_head

abbrev pub enqueue : ℕ → Env → Env
enqueue envid e = record e {
  env_ipc_waiting = update e.env_ipc_waiting e.env_ipc_waiting_tail envid;
  env_ipc_waiting_tail = (e.env_ipc_waiting_tail + 1) % maxipcwaiting;
}

-- The target is not receiving: the sender is blocked and queued if the queue has room.
unfoldable pub wait_for : ℕ → ℕ → Cmd Kernel ℕ
wait_for e c k =
    if queue_full (k.envs e)
    then ok (neg Errno.ipc_not_recv) k
    else (do
      modify (λ (s : Kernel). set_env c (record (s.envs c) { env_status = env_not_runnable }) s)
      modify (λ (s : Kernel). set_env e (enqueue (s.envs c).env_id (s.envs e)) s)
      pure (neg Errno.ipc_not_recv))
        k

-- The end of a successful send.
unfoldable pub deliver : ℕ → ℕ → ℕ → Cmd Kernel ℕ
deliver e c value k =
    let tf = (k.envs e).env_tf in
    let regs = tf.tf_regs in
    ok 0 (
      set_env e
        (record (k.envs e) {
          env_ipc_recving = false;
          env_ipc_from = (k.envs c).env_id;
          env_ipc_value = value;
          env_status = env_runnable;
          env_tf = record tf { tf_regs = record regs { reg_eax = 0 } };
        })
        k)

abbrev set_ipc_perm : ℕ → ℕ → Kernel → Kernel
set_ipc_perm e perm k = set_env e (record (k.envs e) { env_ipc_perm = perm }) k

send_mapped : ℕ → ℕ → ℕ → ℕ → Option Errno → Cmd Kernel ℕ
unfolding deliver
send_mapped e c value perm (some r) k = ok (neg r) k
send_mapped e c value perm none k = (modify (set_ipc_perm e perm) >> deliver e c value) k

-- `srcva < UTOP`: the page there goes to the receiver, if that asks for one.
send_page : ℕ → ℕ → ℕ → ℕ → Option ℕ × Option PtePtr → Cmd Kernel ℕ
unfolding send_mapped page_insert
send_page e c value perm (none, p) k = ok (neg Errno.inval) k
send_page e c value perm (some p, none) k = exit Exit.kernel_fault k
send_page e c value perm (some p, some pte) k =
    if not (bit_and perm (read_pte k.pm pte) == perm)
    then ok (neg Errno.inval) k
    else if adds_write perm (read_pte k.pm pte)
    then ok (neg Errno.inval) k
    else if ltb (k.envs e).env_ipc_dstva utop
    then (do
      pgdir ← deref (k.envs e).env_pgdir
      r ← lift (page_insert (current k) pgdir p (k.envs e).env_ipc_dstva perm)
      send_mapped e c value perm r)
        k
    else deliver e c value k

send_to : ℕ → ℕ → ℕ → ℕ → ℕ → Cmd Kernel ℕ
unfolding send_page page_lookup wait_for roundup
send_to value srcva perm e c k =
    if not (k.envs e).env_ipc_recving
    then wait_for e c k
    else if ltb srcva utop
    then if not (roundup srcva pgsize == srcva)
      then ok (neg Errno.inval) k
      else (do
        pgdir ← deref (k.envs c).env_pgdir
        found ← lift (page_lookup pgdir srcva)
        send_page e c value perm found)
          k
    else (modify (set_ipc_perm e 0) >> deliver e c value) k

unfoldable pub sys_ipc_try_send : ℕ → ℕ → ℕ → ℕ → Cmd Kernel ℕ
unfolding with_env send_to
sys_ipc_try_send envid value srcva perm =
    with_env envid false
      (λ e (k : Kernel). (do c ← deref (curenv k); send_to value srcva perm e c) k)

-- The first waiting sender is taken off the queue and made runnable.
unfoldable pub wake_first : ℕ → Cmd Kernel ℕ
unfolding with_env
wake_first c k =
    let me = k.envs c in
    with_env (me.env_ipc_waiting me.env_ipc_waiting_head) false
      (λ e (s : Kernel). ok 0 (set_env e (record (s.envs e) { env_status = env_runnable }) s))
      (set_env c
        (record me { env_ipc_waiting_head = (me.env_ipc_waiting_head + 1) % maxipcwaiting }) k)

-- `sys_yield(); return 0;` after the sender is woken, or the error of `envid2env`
after_wake : ℕ → Cmd Kernel ℕ
unfolding sched_yield
after_wake r k = if r == 0 then (sched_yield >> pure 0) k else ok r k

start_recv : ℕ → ℕ → Kernel → Kernel
start_recv c dstva k =
    set_env c
      (record (k.envs c) {
        env_ipc_recving = true;
        env_ipc_dstva = dstva;
        env_status = env_not_runnable;
      })
      k

recv_on : ℕ → Cmd Kernel ℕ
unfolding wake_first after_wake
recv_on c k =
    if (k.envs c).env_ipc_waiting_head == (k.envs c).env_ipc_waiting_tail
    then (sched_yield >> pure 0) k
    else (do r ← wake_first c; after_wake r) k

unfoldable pub sys_ipc_recv : ℕ → Cmd Kernel ℕ
unfolding recv_on start_recv roundup
sys_ipc_recv dstva k =
    if ltb dstva utop && not (roundup dstva pgsize == dstva)
    then ok (neg Errno.inval) k
    else (do c ← deref (curenv k); modify (start_recv c dstva); recv_on c) k
