-- ===== src/Syscall/Ipc/Send.antt =====
-- What `sys_ipc_try_send` of kern/syscall.c does to the sender and the receiver.
use challenge.Base.{
  ℕ, ◌≤◌, ◌<◌, ◌≡◌, refl, ◌≢◌, sym, ◌∙◌, ap, bit_and, true, false, not, Option, none, some, [], ◌∷◌,
  ◌++◌, ◌==◌, if_true, if_false, le→not_ltb, lt→ltb, ◌⊎◌, inl, inr, update, ==_refl, ==_ne,
  Bool-cases,
}
use challenge.Base.Run.{ok, ◌>>=◌}
use challenge.Mmu.{utop, pgsize, roundup}
use challenge.Pmap.Pages.{Pmap, PtePtr, read_pte}
use challenge.Pmap.Tables.{Errno, page_lookup, page_insert}
use challenge.Env.State.{Env, Kernel, curenv, deref, current, env_runnable, env_not_runnable}
use challenge.Env.Space.{in_space}
use challenge.Syscall.Envs.{neg}
use challenge.Syscall.Memory.{adds_write}
use challenge.Syscall.Target.{Target, with_env-Target}
use challenge.Syscall.Ipc.{
  queue_full, enqueue, wait_for, deliver, set_ipc_perm, send_mapped, send_page, send_to,
  sys_ipc_try_send,
}
use challenge.Syscall.Ipc.Queue.{IsQueue, waiting, enqueue_lem}

try_send_to :
    (k : Kernel) (c e envid value srcva perm : ℕ)
    → curenv k ≡ some c
    → Target k c envid false e
    → sys_ipc_try_send envid value srcva perm k ≡ send_to value srcva perm e c k
unfolding sys_ipc_try_send
try_send_to k c e envid value srcva perm cur target =
    with_env-Target k c envid false e
      (λ i (s : Kernel). (do x ← deref (curenv s); send_to value srcva perm i x) s) cur target
    ∙ ap (λ (o : Option ℕ). (do x ← deref o; send_to value srcva perm e x) k) cur

-- The receiver `e` has the message and is runnable; its `sys_ipc_recv` returns 0.
pub record Delivered (k k' : Kernel) (c e value perm : ℕ) : Type 0 where
  pub not_recving : (k'.envs e).env_ipc_recving ≡ false
  pub sender : (k'.envs e).env_ipc_from ≡ (k.envs c).env_id
  pub message : (k'.envs e).env_ipc_value ≡ value
  pub permission : (k'.envs e).env_ipc_perm ≡ perm
  pub status : (k'.envs e).env_status ≡ env_runnable
  pub returns : (k'.envs e).env_tf.tf_regs.reg_eax ≡ 0
  pub resumes_at : (k'.envs e).env_tf.tf_eip ≡ (k.envs e).env_tf.tf_eip
  pub other_envs : (i : ℕ) → i ≢ e → k'.envs i ≡ k.envs i

deliver-Delivered :
    (k : Kernel) (c e value perm : ℕ) (pm : Pmap)
    → c ≢ e
    → (k' : Kernel) × (deliver e c value (set_ipc_perm e perm (record k { pm = pm })) ≡ ok 0 k')
      × Delivered k k' c e value perm
      × (k'.pm ≡ pm)
unfolding deliver
deliver-Delivered k c e value perm pm apart = (
  _,
  refl,
  record {
    not_recving = rw (==_refl e) refl;
    sender = rw (==_refl e, ==_ne c e apart) refl;
    message = rw (==_refl e) refl;
    permission = rw (==_refl e) refl;
    status = rw (==_refl e) refl;
    returns = rw (==_refl e) refl;
    resumes_at = rw (==_refl e) refl;
    other_envs = λ i ne. rw (==_ne i e ne) refl;
  },
  refl,
)

-- A send without a page to another environment that is receiving returns 0: the receiver has the
-- value and the sender's id, with no permission, and is runnable to return 0; no other environment
-- and no page changes.
pub sys_ipc_try_send-Delivered :
    (k : Kernel) (c e envid value srcva perm : ℕ)
    → curenv k ≡ some c
    → Target k c envid false e
    → c ≢ e
    → (k.envs e).env_ipc_recving ≡ true
    → utop ≤ srcva
    → (k' : Kernel) × (sys_ipc_try_send envid value srcva perm k ≡ ok 0 k')
      × Delivered k k' c e value 0
      × (k'.pm ≡ k.pm)
unfolding send_to
sys_ipc_try_send-Delivered k c e envid value srcva perm cur target apart recving no_page =
    let (k', run, d, same) = deliver-Delivered k c e value 0 k.pm apart in
    (
      k',
      try_send_to k c e envid value srcva perm cur target
          ∙ if_false _ _ (ap not recving)
          ∙ if_false _ _ (le→not_ltb srcva utop no_page)
          ∙ run,
      d,
      same,
    )

queued_env :
    (envs : ℕ → Env) (c e : ℕ) (v : Env)
    → c ≢ e
    → update (update envs c v) e (enqueue (update envs c v c).env_id (update envs c v e)) e
      ≡ enqueue v.env_id (envs e)
queued_env envs c e v apart = rw (==_refl e, ==_refl c, ==_ne e c (λ z. apart (sym z))) refl

-- A send to another environment that is not receiving, and whose queue has its indices in range,
-- fails with -E_IPC_NOT_RECV: either the queue is full and nothing changes, or the sender is
-- stopped and its id is put at the end of the queue, and no third environment changes.
pub sys_ipc_try_send-waiting :
    (k : Kernel) (c e envid value srcva perm : ℕ)
    → curenv k ≡ some c
    → Target k c envid false e
    → c ≢ e
    → (k.envs e).env_ipc_recving ≡ false
    → IsQueue (k.envs e)
    → ((queue_full (k.envs e) ≡ true)
        × (sys_ipc_try_send envid value srcva perm k ≡ ok (neg Errno.ipc_not_recv) k))
      ⊎ ((k' : Kernel) × (sys_ipc_try_send envid value srcva perm k
            ≡ ok (neg Errno.ipc_not_recv) k')
          × (waiting (k'.envs e) ≡ waiting (k.envs e) ++ (k.envs c).env_id ∷ [])
          × ((k'.envs c).env_status ≡ env_not_runnable)
          × ((i : ℕ) → i ≢ c → i ≢ e → k'.envs i ≡ k.envs i))
unfolding send_to wait_for
sys_ipc_try_send-waiting k c e envid value srcva perm cur target apart idle q =
    let start = try_send_to k c e envid value srcva perm cur target ∙ if_true _ _ (ap not idle) in
    elim (Bool-cases (queue_full (k.envs e))) [
      | inl full ↦ inl (full, start ∙ if_true _ _ full)
      | inr room ↦ inr (
        _,
        start ∙ if_false _ _ room,
        ap waiting (queued_env k.envs c e _ apart) ∙ ((enqueue_lem _ (k.envs e) q).1 room).0,
        rw (==_ne c e apart, ==_refl c) refl,
        λ i nc ne. rw (==_ne i e ne, ==_ne i c nc) refl,
      )
    ]

page_refused :
    (k : Kernel) (c e value perm : ℕ) (p : Option ℕ) (pte : PtePtr)
    → (p ≡ none) ⊎ (adds_write perm (read_pte k.pm pte) ≡ true)
    → send_page e c value perm (p, some pte) k ≡ ok (neg Errno.inval) k
unfolding send_page
page_refused k c e value perm none pte bad = refl
page_refused k c e value perm (some q) pte (inl h) = absurd (cc)
page_refused k c e value perm (some q) pte (inr writes) =
    elim (Bool-cases (bit_and perm (read_pte k.pm pte) == perm)) [
      | inl within ↦ if_false _ _ (ap not within) ∙ if_true _ _ writes
      | inr beyond ↦ if_true _ _ (ap not beyond)
    ]

-- A send of a page to an environment that is receiving, where the sender's address has a page
-- table, is refused with -E_INVAL and nothing changes, if the address is not page-aligned, no page
-- is mapped there, or `perm` asks for write permission for a page that the sender can only read.
pub sys_ipc_try_send-refuses :
    (k : Kernel) (c e d envid value srcva perm : ℕ) (p : Option ℕ) (pte : PtePtr)
    → curenv k ≡ some c
    → Target k c envid false e
    → (k.envs e).env_ipc_recving ≡ true
    → srcva < utop
    → (k.envs c).env_pgdir ≡ some d
    → page_lookup d srcva k.pm ≡ ok (p, some pte) k.pm
    → (((roundup srcva pgsize == srcva) ≡ false)
        ⊎ (((roundup srcva pgsize == srcva) ≡ true)
            × ((p ≡ none) ⊎ (adds_write perm (read_pte k.pm pte) ≡ true))))
    → sys_ipc_try_send envid value srcva perm k ≡ ok (neg Errno.inval) k
unfolding send_to send_page
sys_ipc_try_send-refuses k c e d envid value srcva perm p pte cur target recving low space found
      bad =
    let start =
      try_send_to k c e envid value srcva perm cur target
      ∙ if_false _ _ (ap not recving)
      ∙ if_true _ _ (lt→ltb srcva utop low) in
    elim bad [
      | inl crooked ↦ start ∙ if_true _ _ (ap not crooked)
      | inr (straight, rest) ↦
          start
          ∙ if_false _ _ (ap not straight)
          ∙ in_space (k.envs c).env_pgdir d k (λ x. page_lookup x srcva) (send_page e c value perm)
              (p, some pte) k.pm space found
          ∙ page_refused k c e value perm p pte rest
    ]

send_page_lem :
    (k : Kernel) (c e d d' envid value srcva perm q : ℕ) (pte : PtePtr)
    → curenv k ≡ some c
    → Target k c envid false e
    → c ≢ e
    → (k.envs e).env_ipc_recving ≡ true
    → srcva < utop
    → (roundup srcva pgsize == srcva) ≡ true
    → (k.envs c).env_pgdir ≡ some d
    → page_lookup d srcva k.pm ≡ ok (some q, some pte) k.pm
    → (bit_and perm (read_pte k.pm pte) == perm) ≡ true
    → adds_write perm (read_pte k.pm pte) ≡ false
    → (k.envs e).env_ipc_dstva < utop
    → (k.envs e).env_pgdir ≡ some d'
    → ((pm : Pmap)
        → page_insert (current k) d' q (k.envs e).env_ipc_dstva perm k.pm ≡ ok none pm
        → (k' : Kernel) × (sys_ipc_try_send envid value srcva perm k ≡ ok 0 k')
          × Delivered k k' c e value perm
          × (k'.pm ≡ pm))
      × ((pm : Pmap) (r : Errno)
          → page_insert (current k) d' q (k.envs e).env_ipc_dstva perm k.pm ≡ ok (some r) pm
          → sys_ipc_try_send envid value srcva perm k ≡ ok (neg r) (record k { pm = pm }))
unfolding send_to send_page send_mapped
send_page_lem k c e d d' envid value srcva perm q pte cur target apart recving low straight space
      found within reads wanted space' =
    let dstva = (k.envs e).env_ipc_dstva in
    let start =
      try_send_to k c e envid value srcva perm cur target
      ∙ if_false _ _ (ap not recving)
      ∙ if_true _ _ (lt→ltb srcva utop low)
      ∙ if_false _ _ (ap not straight)
      ∙ in_space (k.envs c).env_pgdir d k (λ x. page_lookup x srcva) (send_page e c value perm)
          (some q, some pte) k.pm space found
      ∙ if_false _ _ (ap not within)
      ∙ if_false _ _ reads
      ∙ if_true _ _ (lt→ltb dstva utop wanted) in
    (
      (λ pm inserted.
          let (k', run, done, same) = deliver-Delivered k c e value perm pm apart in
          (
            k',
            start
                ∙ in_space (k.envs e).env_pgdir d' k (λ x. page_insert (current k) x q dstva perm)
                    (send_mapped e c value perm) none pm space' inserted
                ∙ run,
            done,
            same,
          )),
      (λ pm r failed.
          start
          ∙ in_space (k.envs e).env_pgdir d' k (λ x. page_insert (current k) x q dstva perm)
              (send_mapped e c value perm) (some r) pm space' failed),
    )

-- A send of a page whose entry at the sender has all the bits of `perm`, at an aligned address, to
-- another environment that is receiving and asks for a page: where `page_insert` at the receiver's
-- address succeeds, the call returns 0, the receiver has the message with `perm` and is runnable, and
-- the pages are as `page_insert` left them. This holds for each such `perm`: one without PTE_U or
-- PTE_P, or with bits outside PTE_SYSCALL, is accepted too, though the comment of the function says
-- that it is refused.
pub sys_ipc_try_send-page :
    (k : Kernel) (c e d d' envid value srcva perm q : ℕ) (pte : PtePtr) (pm : Pmap)
    → curenv k ≡ some c
    → Target k c envid false e
    → c ≢ e
    → (k.envs e).env_ipc_recving ≡ true
    → srcva < utop
    → (roundup srcva pgsize == srcva) ≡ true
    → (k.envs c).env_pgdir ≡ some d
    → page_lookup d srcva k.pm ≡ ok (some q, some pte) k.pm
    → (bit_and perm (read_pte k.pm pte) == perm) ≡ true
    → adds_write perm (read_pte k.pm pte) ≡ false
    → (k.envs e).env_ipc_dstva < utop
    → (k.envs e).env_pgdir ≡ some d'
    → page_insert (current k) d' q (k.envs e).env_ipc_dstva perm k.pm ≡ ok none pm
    → (k' : Kernel) × (sys_ipc_try_send envid value srcva perm k ≡ ok 0 k')
      × Delivered k k' c e value perm
      × (k'.pm ≡ pm)
sys_ipc_try_send-page k c e d d' envid value srcva perm q pte pm cur target apart recving low
      straight space found within reads wanted space' inserted =
    (send_page_lem k c e d d' envid value srcva perm q pte cur target apart recving low straight
        space found within reads wanted space').0
      pm inserted
