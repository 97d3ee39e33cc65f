-- ===== src/Syscall/Ipc/Receive.antt =====
-- What `sys_ipc_recv` of kern/syscall.c does to the receiver and the senders that wait for it.
use challenge.Base.{
  ℕ, ◌≡◌, refl, ◌≢◌, sym, ◌∙◌, ap, true, false, not, ◌&&◌, Option, some, ◌∷◌, ◌==◌, ltb, if_true,
  if_false, inr, update, update_self, ==_refl, ==_ne, ==_iff,
}
use challenge.Base.Run.{Run, ok, Cmd, pure, and_then, modify, ◌>>=◌, ◌>>◌}
use challenge.Mmu.{utop, pgsize, roundup}
use challenge.Env.State.{
  Env, Kernel, curenv, set_env, deref, envx, env_free_status, env_runnable, env_not_runnable,
}
use challenge.Sched.{sched_yield}
use challenge.Syscall.Envs.{with_env}
use challenge.Syscall.Target.{Target, with_env-Target}
use challenge.Syscall.Ipc.{wake_first, after_wake, start_recv, recv_on, sys_ipc_recv}
use challenge.Syscall.Ipc.Queue.{IsQueue, waiting, dequeue, dequeue_lem}

-- The state with the caller `c` waiting for a message, before another environment is chosen.
abbrev pub receiving : ℕ → Env → Env
receiving dstva e = record e {
  env_ipc_recving = true;
  env_ipc_dstva = dstva;
  env_status = env_not_runnable;
}

-- The address for a page is above UTOP, which asks for none, or page-aligned.
abbrev pub ValidDstva : ℕ → Type 0
ValidDstva dstva = (ltb dstva utop && not (roundup dstva pgsize == dstva)) ≡ false

recv_start :
    (k : Kernel) (c dstva : ℕ)
    → curenv k ≡ some c
    → ValidDstva dstva
    → sys_ipc_recv dstva k ≡ recv_on c (start_recv c dstva k)
unfolding sys_ipc_recv start_recv
recv_start k c dstva cur valid =
    if_false _ _ valid
    ∙ ap (λ (o : Option ℕ). (do x ← deref o; modify (start_recv x dstva); recv_on x) k) cur

empty_test :
    (envs : ℕ → Env) (c : ℕ) (v : Env)
    → ((update envs c v c).env_ipc_waiting_head == (update envs c v c).env_ipc_waiting_tail)
      ≡ (v.env_ipc_waiting_head == v.env_ipc_waiting_tail)
empty_test envs c v = rw (==_refl c) refl

-- With no sender waiting, the caller is stopped as a receiver and another environment is chosen.
pub sys_ipc_recv-idle :
    (k : Kernel) (c dstva : ℕ)
    → curenv k ≡ some c
    → ValidDstva dstva
    → (k.envs c).env_ipc_waiting_head ≡ (k.envs c).env_ipc_waiting_tail
    → sys_ipc_recv dstva k ≡ (sched_yield >> pure 0) (set_env c (receiving dstva (k.envs c)) k)
unfolding recv_on start_recv
sys_ipc_recv-idle k c dstva cur valid empty =
    recv_start k c dstva cur valid
    ∙ if_true _ _ (empty_test k.envs c (receiving dstva (k.envs c)) ∙ (==_iff _ _).1 empty)

-- The state in which the first waiting sender `s` is off the queue and runnable, and the caller waits.
pub record Woken (k k' : Kernel) (c s dstva : ℕ) : Type 0 where
  pub receiver : k'.envs c ≡ dequeue (receiving dstva (k.envs c))
  pub queue : waiting (k.envs c) ≡ (k.envs s).env_id ∷ waiting (k'.envs c)
  pub sender : k'.envs s ≡ record (k.envs s) { env_status = env_runnable }
  pub other_envs : (i : ℕ) → i ≢ c → i ≢ s → k'.envs i ≡ k.envs i

abbrev make_runnable : ℕ → Cmd Kernel ℕ
make_runnable e s = ok 0 (set_env e (record (s.envs e) { env_status = env_runnable }) s)

wake_as :
    (s : Kernel) (c : ℕ) (me : Env)
    → s.envs c ≡ me
    → wake_first c s
      ≡ with_env
          (me.env_ipc_waiting me.env_ipc_waiting_head)
          false
          make_runnable
          (set_env c (dequeue me) s)
unfolding wake_first
wake_as s c me e =
    ap
      (λ (m : Env).
        with_env (m.env_ipc_waiting m.env_ipc_waiting_head) false make_runnable
          (set_env c (dequeue m) s))
      e

-- The first id in the queue of `c` is that of the environment `s`, which is in use.
pub record FirstSender (k : Kernel) (c s : ℕ) : Type 0 where
  pub queue : IsQueue (k.envs c)
  pub more : (k.envs c).env_ipc_waiting_head ≢ (k.envs c).env_ipc_waiting_tail
  pub id : (k.envs s).env_id ≡ (k.envs c).env_ipc_waiting (k.envs c).env_ipc_waiting_head
  pub nonzero : (k.envs s).env_id ≢ 0
  pub place : envx (k.envs s).env_id ≡ s
  pub in_use : (k.envs s).env_status ≢ env_free_status
  pub apart : s ≢ c

module _ (k : Kernel) (c s dstva : ℕ) (first : FirstSender k c s) where
  abbrev me : Env
  me = receiving dstva (k.envs c)

  abbrev popped : Kernel
  popped = set_env c (dequeue me) (start_recv c dstva k)

  abbrev name : ℕ
  name = (k.envs c).env_ipc_waiting (k.envs c).env_ipc_waiting_head

  unchanged : popped.envs s ≡ k.envs s
  unfolding start_recv
  unchanged = rw (==_ne s c first.apart) refl

  name_place : envx name ≡ s
  name_place = ap envx (sym first.id) ∙ first.place

  sender_there : popped.envs (envx name) ≡ k.envs s
  sender_there = ap popped.envs name_place ∙ unchanged

  target : Target popped c name false s
  target = inr (
    (λ z. first.nonzero (first.id ∙ z)),
    record {
      in_use = λ z. first.in_use (sym (ap (λ (x : Env). x.env_status) sender_there) ∙ z);
      current_id = ap (λ (x : Env). x.env_id) sender_there ∙ first.id;
      permitted = λ on. absurd (cc);
    },
    sym name_place,
  )

  abbrev woken : Kernel
  woken = set_env s (record (popped.envs s) { env_status = env_runnable }) popped

  receiver_state : woken.envs c ≡ dequeue me
  unfolding start_recv
  receiver_state = rw (==_ne c s (λ z. first.apart (sym z)), ==_refl c) refl

  -- A receive with a valid address, where the caller's queue has its indices in range and its
  -- first id is that of another environment in use: that environment is taken off the queue and
  -- made runnable, the caller is stopped as a receiver, no third environment changes, and
  -- `sched_yield` chooses the next environment.
  pub sys_ipc_recv-Woken :
      curenv k ≡ some c
      → ValidDstva dstva
      → (k' : Kernel) × (sys_ipc_recv dstva k ≡ (sched_yield >> pure 0) k') × Woken k k' c s dstva
  unfolding recv_on start_recv after_wake
  sys_ipc_recv-Woken cur valid = (
    woken,
    recv_start k c dstva cur valid
        ∙ if_false _ _ (empty_test k.envs c me ∙ ==_ne _ _ first.more)
        ∙ ap (λ (r : Run Kernel ℕ). and_then r after_wake)
            (wake_as (start_recv c dstva k) c me (update_self k.envs c me)
              ∙ with_env-Target popped c name false s make_runnable cur target),
    record {
      receiver = receiver_state;
      queue =
          ((dequeue_lem (k.envs c) first.queue).1 first.more).0
          ∙ ap (λ (x : ℕ). x ∷ waiting (dequeue (k.envs c))) (sym first.id)
          ∙ ap (λ (x : Env). (k.envs s).env_id ∷ waiting x) (sym receiver_state);
      sender = rw (==_refl s) (ap (λ (x : Env). record x { env_status = env_runnable }) unchanged);
      other_envs = λ i nc ns. rw (==_ne i s ns, ==_ne i c nc) refl;
    },
  )
