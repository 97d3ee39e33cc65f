-- ===== src/Trap/Dispatch/UserTrap.antt =====
-- An exception of user code on its whole way through `trap` of kern/trap.c.
use challenge.Base.{
  ℕ, ◌+◌, ◌-◌, ◌%◌, ◌≤◌, ◌<◌, ◌≡◌, refl, ◌≢◌, sym, ◌∙◌, ap, subst, ◌/◌, ◌^◌, get_elem?, bit_and,
  true, false, Option, some, arith, ◌==◌, if◌then◌else◌, if_true, if_false, ◌⊎◌, update,
  update_self, ==_refl, ==_ne,
}
use challenge.Base.Run.{Run, ok, exit, Exit, Cmd, pure, and_then, modify, ◌>>=◌, ◌>>◌}
use challenge.Mmu.{pgsize, uxstacktop}
use challenge.Spinlock.{holding}
use challenge.Env.State.{
  Upcall, Trapframe, Env, CpuInfo, Kernel, curenv, set_env, lock_kernel, env_dying, cpu_started,
  cpu_halted,
}
use challenge.Env.Switch.Resume.{HasLock}
use challenge.Env.Free.{env_destroy}
use challenge.Trap.Handlers.{user_handler, utf_address, utf_words}
use challenge.Trap.Handlers.Upcalls.{ExceptionStack, user_handler-Upcalled, user_handler-no_upcall}
use challenge.Trap.Dispatch.{
  assert_curenv, reap, from_user, restart, return_from_trap, trap_dispatch, trap,
}
use challenge.Trap.Dispatch.Vectors.{vector, trap_dispatch-vector}

-- The state in which the handler runs: this CPU is marked as started and holds the lock, and the
-- environment `c` has the frame `tf` of the trap.
abbrev awake : Kernel → Kernel
awake k = record k {
  cpus = update k.cpus k.cpunum (record (k.cpus k.cpunum) { cpu_status = cpu_started });
}

abbrev pub holds : Kernel → Kernel
holds k = record k { kernel_lock = record { locked = 1; cpu = some k.cpunum } }

abbrev pub in_handler : ℕ → Trapframe → Kernel → Kernel
in_handler c tf k = set_env c (record (k.envs c) { env_tf = tf }) (holds (awake k))

-- A trap from user mode of the environment `c`, on a CPU that is not halted, with interrupts off and
-- the lock free.
pub record FromUser (k : Kernel) (c : ℕ) (tf : Trapframe) : Type 0 where
  pub running : curenv k ≡ some c
  pub not_halted : (k.cpus k.cpunum).cpu_status ≢ cpu_halted
  pub lock_free : k.kernel_lock.locked ≡ 0
  pub not_dying : (k.envs c).env_status ≢ env_dying
  pub user_mode : (bit_and tf.tf_cs 3 == 3) ≡ true

lock_runs : (k : Kernel) → k.kernel_lock.locked ≡ 0 → lock_kernel k ≡ ok tt (holds k)
unfolding lock_kernel
lock_runs k h = rw h refl

from_user_runs :
    (k : Kernel) (c : ℕ) (tf : Trapframe)
    → FromUser k c tf
    → from_user tf (awake k) ≡ ok tt (in_handler c tf k)
unfolding from_user assert_curenv reap
from_user_runs k c tf u =
    ap
      (λ (o : Option ℕ).
        (do
          e ← assert_curenv o
          lock_kernel
          reap e
          modify (λ (s : Kernel). set_env e (record (s.envs e) { env_tf = tf }) s))
          (awake k))
      (ap (λ (x : CpuInfo). x.cpu_env) (update_self k.cpus k.cpunum _) ∙ u.running)
    ∙ ap
        (λ (r : Run Kernel (Unit {0})). and_then r (λ _. do
          reap c
          modify (λ (s : Kernel). set_env c (record (s.envs c) { env_tf = tf }) s)))
        (lock_runs (awake k) u.lock_free)
    ∙ ap
        (λ (r : Run Kernel (Unit {0})).
          and_then r
            (λ _. modify (λ (s : Kernel). set_env c (record (s.envs c) { env_tf = tf }) s)))
        (if_false _ _ (==_ne _ env_dying u.not_dying))

-- A trap from user mode runs `trap_dispatch` in that state, and then what is left of `trap`.
pub trap-FromUser :
    (k : Kernel) (c fault_va : ℕ) (tf : Trapframe)
    → FromUser k c tf
    → trap false fault_va tf k
      ≡ (trap_dispatch fault_va tf >> (λ (s : Kernel). return_from_trap (curenv s) s))
          (in_handler c tf k)
unfolding trap restart
trap-FromUser k c fault_va tf u =
    ap
      (λ (r : Run Kernel (Unit {0})). and_then r (λ _. do
        (if bit_and tf.tf_cs 3 == 3 then from_user tf else pure tt)
        trap_dispatch fault_va tf
        λ (s : Kernel). return_from_trap (curenv s) s))
      (if_false _ _ (==_ne _ cpu_halted u.not_halted))
    ∙ ap
        (λ (m : Cmd Kernel (Unit {0})).
          (do m; trap_dispatch fault_va tf; λ (s : Kernel). return_from_trap (curenv s) s)
            (awake k))
        (if_true _ _ u.user_mode)
    ∙ ap
        (λ (r : Run Kernel (Unit {0})).
          and_then r
            (λ _. do trap_dispatch fault_va tf; λ (s : Kernel). return_from_trap (curenv s) s))
        (from_user_runs k c tf u)

-- The environment `c` is at its upcall, on a frame of the trapped registers `tf` in the page `q` of its
-- exception stack; nothing else of it has changed but the CPU noted, and no other environment.
pub record UserHandles (k k' : Kernel) (c upcall fault_va q : ℕ) (tf : Trapframe) : Type 0 where
  pub env : k'.envs c ≡ record (k.envs c) {
    env_tf = record tf { tf_eip = upcall; tf_esp = utf_address tf.tf_esp };
    env_cpunum = k.cpunum;
  }
  pub frame :
      (j w : ℕ)
      → get_elem? (utf_words fault_va tf) j ≡ some w
      → k'.pm.mem q (utf_address tf.tf_esp / 4 % 2 ^ 10 + j) ≡ w
  pub other_pages : (g j : ℕ) → g ≢ q → k'.pm.mem g j ≡ k.pm.mem g j
  pub other_envs : (i : ℕ) → i ≢ c → k'.envs i ≡ k.envs i
  pub released : k'.kernel_lock.locked ≡ 0

user_cs : (x : ℕ) → (x == 3) ≡ true → (x == 0) ≡ false
user_cs x h = ground arith

pub has_lock : (me : ℕ) → holding me (record { locked = 1; cpu = some me }) ≡ true
unfolding holding
has_lock me = ==_refl me

module _ (k : Kernel) (c fault_va : ℕ) (tf : Trapframe) (u : Upcall) (from : FromUser k c tf)
    (kind : tf.tf_trapno ≡ vector u) where
  trapped_tf : ((in_handler c tf k).envs c).env_tf ≡ tf
  trapped_tf = ap (λ (x : Env). x.env_tf) (update_self k.envs c _)

  pub now_current : curenv (in_handler c tf k) ≡ some c
  now_current = ap (λ (x : CpuInfo). x.cpu_env) (update_self k.cpus k.cpunum _) ∙ from.running

  handler_runs :
      trap false fault_va tf k
      ≡ (user_handler u fault_va tf >> (λ (s : Kernel). return_from_trap (curenv s) s))
          (in_handler c tf k)
  handler_runs =
      trap-FromUser k c fault_va tf from
      ∙ ap
          (λ (m : Cmd Kernel (Unit {0})).
            (m >> (λ (s : Kernel). return_from_trap (curenv s) s)) (in_handler c tf k))
          (trap_dispatch-vector u fault_va tf kind)

  -- An exception of any of the 18 kinds from user mode, on a CPU that is not halted and with the
  -- lock free, of an environment that is not dying and has an upcall registered for it, page tables in
  -- memory, a mapped writable exception stack on a page that is none of its tables, a stack pointer
  -- outside that stack or 56 bytes or more above its bottom, and the place of the frame a multiple of 4:
  -- `trap` returns to the same environment, at the upcall and on a frame of the trapped registers, and
  -- releases the lock; the other environments and all other pages of memory are as before.
  pub trap-UserHandles :
      (d t q upcall : ℕ)
      → (k.envs c).env_pgdir ≡ some d
      → ExceptionStack k d t q
      → (tf.tf_esp < uxstacktop - pgsize) ⊎ (uxstacktop - pgsize + 56 ≤ tf.tf_esp)
      → utf_address tf.tf_esp % 4 ≡ 0
      → (k.envs c).env_upcall u ≡ upcall
      → upcall ≢ 0
      → (k' : Kernel) × (trap false fault_va tf k ≡ exit (Exit.resumed c) k')
        × UserHandles k k' c upcall fault_va q tf
  trap-UserHandles d t q upcall space stack room aligned set nonzero =
      let me = update_self k.envs c (record (k.envs c) { env_tf = tf }) in
      let held : HasLock (in_handler c tf k) = has_lock k.cpunum in
      let (k', run, h) =
        user_handler-Upcalled (in_handler c tf k) c d t q fault_va upcall now_current held
          (ap (λ (x : Env). x.env_pgdir) me ∙ space)
          (record { tables = stack.tables; granted = stack.granted; writable = stack.writable })
          (subst
            (λ (x : Trapframe).
              (x.tf_esp < uxstacktop - pgsize) ⊎ (uxstacktop - pgsize + 56 ≤ x.tf_esp))
            (sym trapped_tf) room)
          (ap (λ (x : Trapframe). utf_address x.tf_esp % 4) trapped_tf ∙ aligned) u tf
          (ap (λ (x : Env). x.env_upcall u) me ∙ set) nonzero (user_cs _ from.user_mode) in
      (
        k',
        handler_runs
            ∙ ap (λ (r : Run Kernel (Unit {0})). and_then r (λ _ s. return_from_trap (curenv s) s))
                run,
        record {
          env = h.env ∙ rw (==_refl c) refl;
          frame = λ j w g.
              ap (λ (x : Trapframe). k'.pm.mem q (utf_address x.tf_esp / 4 % 2 ^ 10 + j))
                (sym trapped_tf)
              ∙ h.frame j w
                  (ap (λ (x : Trapframe). get_elem? (utf_words fault_va x) j) trapped_tf ∙ g);
          other_pages = h.other_pages;
          other_envs = λ i n. h.other_envs i n ∙ rw (==_ne i c n) refl;
          released = h.released;
        },
      )

  -- With no upcall the handler is `env_destroy`.
  pub no_upcall_runs :
      (k.envs c).env_upcall u ≡ 0
      → trap false fault_va tf k
        ≡ (env_destroy c >> (λ (s : Kernel). return_from_trap (curenv s) s)) (in_handler c tf k)
  no_upcall_runs unset =
      handler_runs
      ∙ ap (λ (r : Run Kernel (Unit {0})). and_then r (λ _ s. return_from_trap (curenv s) s))
          ((user_handler-no_upcall u fault_va tf (in_handler c tf k) c).0 now_current
            (ap (λ (x : Env). x.env_upcall u) (update_self k.envs c _) ∙ unset)
            (user_cs _ from.user_mode))
