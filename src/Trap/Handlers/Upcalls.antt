-- ===== src/Trap/Handlers/Upcalls.antt =====
-- What the handlers of kern/trap.c do with an exception of user code.
use challenge.Base.{
  ℕ, ◌+◌, ◌-◌, ◌*◌, ◌/◌, ◌%◌, ◌^◌, ◌≤◌, ◌<◌, ◌≡◌, refl, ◌≢◌, sym, subst, ◌∙◌, ap, bit_and, bit_or,
  true, false, Option, none, some, arith, ◌==◌, if_true, if_false, ◌⊎◌, inl, inr, get_elem?,
  ==_refl, ==_ne,
}
use challenge.Base.Run.{Run, ok, exit, Exit, Panic, and_then, modify, ◌>>=◌, ◌>>◌}
use challenge.Mmu.{pgsize, pte_w, pte_u, uxstacktop}
use challenge.Pmap.Pages.{Pmap}
use challenge.Pmap.Access.{user_mem_check}
use challenge.Pmap.Access.Check.{Granted, TablesInMemory, user_mem_check_lem, page_at}
use challenge.Env.State.{Upcall, Trapframe, Kernel, curenv, set_env, deref, lift}
use challenge.Env.Switch.{env_run}
use challenge.Env.Switch.Resume.{HasLock, unlocked, on_cpu, env_run-current}
use challenge.Env.Space.{in_space}
use challenge.Env.Free.{env_destroy, user_mem_assert, assert_result}
use challenge.Trap.Handlers.{
  utf_size, utf_address, utf_words, store_user, enter_upcall, call_upcall, handle_on, user_handler,
}
use challenge.Trap.Handlers.Frame.{
  written, written_other, written_at, Writable, store_user-written, utf_address-bounds,
}

only_page :
    (va j : ℕ)
    → page_at (va / pgsize * pgsize) j < (va + 1 + 4095) / pgsize * pgsize
    → va / pgsize * pgsize ≡ page_at (va / pgsize * pgsize) j
only_page va j h = omega arith

-- A check of one byte passes where its page is granted.
check_byte :
    (pm : Pmap) (pgdir va perm : ℕ)
    → TablesInMemory pm pgdir
    → va + 4096 < 2 ^ 32
    → Granted pm pgdir perm (va / pgsize * pgsize)
    → user_mem_check pgdir va 1 perm pm ≡ ok none pm
check_byte pm pgdir va perm wf h g = elim (user_mem_check_lem pm pgdir va 1 perm wf (omega arith)) [
  | inl (all, r) ↦ r
  | inr (j, first, r) ↦
      elim (first.bad (subst (Granted pm pgdir perm) (only_page va j first.inside) g)) [ ]
]

assert_passes :
    (k : Kernel) (c d va len perm : ℕ)
    → (k.envs c).env_pgdir ≡ some d
    → user_mem_check d va len (bit_or perm pte_u) k.pm ≡ ok none k.pm
    → user_mem_assert c va len perm k ≡ ok tt k
unfolding user_mem_assert assert_result
assert_passes k c d va len perm space passes =
    in_space (k.envs c).env_pgdir d k (λ x. user_mem_check x va len (bit_or perm pte_u))
      (assert_result c) none k.pm space passes

-- The exception stack of the environment with the page directory `d`: its page is mapped with write and
-- user permission to the page `q`, by the page table `t`.
pub record ExceptionStack (k : Kernel) (d t q : ℕ) : Type 0 where
  pub tables : TablesInMemory k.pm d
  pub granted : Granted k.pm d (bit_or pte_w pte_u) (uxstacktop - pgsize)
  pub writable : Writable k.pm.mem d (uxstacktop / pgsize - 1) t q

-- The state in which user code handles the exception: `curenv` `c` is at its upcall, with the stack
-- pointer at the frame, which holds the fault address, the error code and the registers of the
-- trap; nothing else has changed but the lock, which is free, and the CPU noted.
pub record Upcalled (k k' : Kernel) (c upcall fault_va q : ℕ) : Type 0 where
  pub env :
      k'.envs c
      ≡ on_cpu k.cpunum (((enter_upcall c upcall (utf_address (k.envs c).env_tf.tf_esp) k)).envs c)
  pub frame :
      (j w : ℕ)
      → get_elem? (utf_words fault_va (k.envs c).env_tf) j ≡ some w
      → k'.pm.mem q (utf_address (k.envs c).env_tf.tf_esp / 4 % 2 ^ 10 + j) ≡ w
  pub other_pages : (g j : ℕ) → g ≢ q → k'.pm.mem g j ≡ k.pm.mem g j
  pub other_words :
      (j : ℕ)
      → (j < utf_address (k.envs c).env_tf.tf_esp / 4 % 2 ^ 10)
        ⊎ (utf_address (k.envs c).env_tf.tf_esp / 4 % 2 ^ 10 + 13 ≤ j)
      → k'.pm.mem q j ≡ k.pm.mem q j
  pub other_envs : (i : ℕ) → i ≢ c → k'.envs i ≡ k.envs i
  pub released : k'.kernel_lock.locked ≡ 0

module _ (k : Kernel) (c d t q fault_va upcall : ℕ) (cur : curenv k ≡ some c) (lock : HasLock k)
    (space : (k.envs c).env_pgdir ≡ some d) (stack : ExceptionStack k d t q)
    (room : ((k.envs c).env_tf.tf_esp < uxstacktop - pgsize)
      ⊎ (uxstacktop - pgsize + 56 ≤ (k.envs c).env_tf.tf_esp))
    (aligned : utf_address (k.envs c).env_tf.tf_esp % 4 ≡ 0) where
  abbrev esp : ℕ
  esp = (k.envs c).env_tf.tf_esp

  abbrev utf : ℕ
  utf = utf_address esp

  abbrev bounds :
      (uxstacktop - pgsize ≤ utf_address esp) × (utf_address esp + utf_size ≤ uxstacktop)
  bounds = utf_address-bounds esp room

  stack_page : uxstacktop - pgsize ≡ utf / pgsize * pgsize
  stack_page = omega (arith, bounds)

  assert_runs : user_mem_assert c utf 1 pte_w k ≡ ok tt k
  assert_runs = assert_passes k c d utf 1 pte_w space (
      check_byte k.pm d utf (bit_or pte_w pte_u) stack.tables (omega (arith, bounds))
        (subst (Granted k.pm d (bit_or pte_w pte_u)) stack_page stack.granted))

  abbrev stored : Pmap
  stored = record k.pm {
    mem = written q (utf / 4 % 2 ^ 10) (utf_words fault_va (k.envs c).env_tf) k.pm.mem;
  }

  store_runs : store_user d utf (utf_words fault_va (k.envs c).env_tf) k.pm ≡ ok tt stored
  store_runs =
      store_user-written (utf_words fault_va (k.envs c).env_tf) d (uxstacktop / pgsize - 1) t q utf
        k.pm stack.writable (omega (arith, bounds)) (omega (arith, bounds)) aligned

  abbrev entered : Kernel
  entered = enter_upcall c upcall utf (record k { pm = stored })

  upcall_runs :
      call_upcall c upcall fault_va k
      ≡ exit (Exit.resumed c) (set_env c (on_cpu k.cpunum (entered.envs c)) (unlocked entered))
  unfolding call_upcall
  upcall_runs =
      ap
        (λ (r : Run Kernel (Unit {0})). and_then r (λ _. do
          pgdir ← deref (k.envs c).env_pgdir
          lift (store_user pgdir utf (utf_words fault_va (k.envs c).env_tf))
          modify (enter_upcall c upcall utf)
          env_run c))
        assert_runs
      ∙ in_space (k.envs c).env_pgdir d k
          (λ x. store_user x utf (utf_words fault_va (k.envs c).env_tf))
          (λ _ s. env_run c (enter_upcall c upcall utf s)) tt stored space store_runs
      ∙ env_run-current entered c cur lock

  abbrev final : Kernel
  final = set_env c (on_cpu k.cpunum (entered.envs c)) (unlocked entered)

  handled :
      (u : Upcall) (tf : Trapframe)
      → (k.envs c).env_upcall u ≡ upcall
      → upcall ≢ 0
      → (bit_and tf.tf_cs 3 == 0) ≡ false
      → user_handler u fault_va tf k ≡ exit (Exit.resumed c) final
  unfolding user_handler handle_on
  handled u tf set nonzero user =
      if_false _ _ user
      ∙ ap (λ (o : Option ℕ). (do e ← deref o; handle_on u fault_va e) k) cur
      ∙ if_false _ _ (==_ne _ 0 (λ z. nonzero (sym set ∙ z)))
      ∙ ap (λ x. (call_upcall c x fault_va >> env_destroy c) k) set
      ∙ ap (λ (r : Run Kernel (Unit {0})). and_then r (λ _ s. env_destroy c s)) upcall_runs

  -- An exception of user code whose environment has an upcall for it: the handler resumes that
  -- environment at the upcall, on a frame of the trap's registers on its exception stack.
  pub user_handler-Upcalled :
      (u : Upcall) (tf : Trapframe)
      → (k.envs c).env_upcall u ≡ upcall
      → upcall ≢ 0
      → (bit_and tf.tf_cs 3 == 0) ≡ false
      → (k' : Kernel) × (user_handler u fault_va tf k ≡ exit (Exit.resumed c) k')
        × Upcalled k k' c upcall fault_va q
  user_handler-Upcalled u tf set nonzero user = (
    final,
    handled u tf set nonzero user,
    record {
      env = rw (==_refl c) refl;
      frame = λ j w h.
          written_at q (utf / 4 % 2 ^ 10) (utf_words fault_va (k.envs c).env_tf) k.pm.mem j w h;
      other_pages = λ g j ne.
          written_other q (utf / 4 % 2 ^ 10) (utf_words fault_va (k.envs c).env_tf) k.pm.mem g j
            (inl ne);
      other_words = λ j out.
          written_other q (utf / 4 % 2 ^ 10) (utf_words fault_va (k.envs c).env_tf) k.pm.mem q j
            (inr out);
      other_envs = λ i ne. rw (==_ne i c ne) refl;
      released = refl;
    },
  )

-- An exception of user code with no upcall for it destroys the environment, and one of kernel code is a
-- panic that changes nothing.
pub user_handler-no_upcall :
    (u : Upcall) (fault_va : ℕ) (tf : Trapframe) (k : Kernel) (c : ℕ)
    → (curenv k ≡ some c
        → (k.envs c).env_upcall u ≡ 0
        → (bit_and tf.tf_cs 3 == 0) ≡ false
        → user_handler u fault_va tf k ≡ env_destroy c k)
      × ((bit_and tf.tf_cs 3 == 0) ≡ true
          → user_handler u fault_va tf k ≡ exit (Exit.panicked Panic.fault_in_kernel) k)
unfolding user_handler handle_on
user_handler-no_upcall u fault_va tf k c = (
  (λ cur none_set user.
      if_false _ _ user
      ∙ ap (λ (o : Option ℕ). (do e ← deref o; handle_on u fault_va e) k) cur
      ∙ if_true _ _ (ap (λ x. x == 0) none_set)),
  (λ kernel. if_true _ _ kernel),
)
