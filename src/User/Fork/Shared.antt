-- ===== src/User/Fork/Shared.antt =====
-- lib/fork.c: the system calls that `fork` makes.
use challenge.Base.{
  ℕ, zero, suc, ◌+◌, ◌*◌, ◌/◌, ◌%◌, ◌≡◌, refl, sym, subst, ◌-◌, Bool, true, false, not, ◌&&◌, ◌||◌,
  List, [], ◌∷◌, All, ◌==◌, if◌then◌else◌, bit_or,
}
use challenge.Base.Run.{Run, ok, exit, Exit, Cmd, pure, leave, modify, and_then, ◌>>=◌, ◌>>◌}
use challenge.Mmu.{pgsize, word, ustacktop, uxstacktop, pte_p, pte_w, pte_u}
use challenge.Env.State.{envx, env_runnable, Upcall}
use challenge.User.Calls.{
  Process, Answers, answer, positive, negative, lib_syscall, lib_sys_exofork, lib_sys_getenvid,
  lib_sys_page_alloc, lib_sys_page_map, lib_sys_env_set_pgfault_upcall, lib_sys_env_set_status,
}
use challenge.User.Upcalls.{
  panic_if_negative, set_variable, first_time, set_handler, set_pgfault_handler,
}
use challenge.User.Fork.{
  pte_cow, has, return_if_negative, duppage, is_user_page, dup_pages, fork_child, fork_parent, fork,
}

-- A system call with its number and arguments
pub record Call : Type 0 where
  pub num : ℕ
  pub a1 : ℕ
  pub a2 : ℕ
  pub a3 : ℕ
  pub a4 : ℕ
  pub a5 : ℕ

-- A call of sys_page_map asks for no PTE_W.
abbrev pub not_writable : Call → Bool
not_writable c = not (c.num == 5) || c.a5 / 2 % 2 == 0

abbrev pub NotWritable : List Call → Type 0
NotWritable = All (λ c. not_writable c ≡ true)

-- A kernel that keeps the calls, the latest first, and answers in any way that depends on them
abbrev pub recorded : (List Call → ℕ) → Answers (List Call)
recorded reply num a1 a2 a3 a4 a5 log =
    let calls = record { num = num; a1 = a1; a2 = a2; a3 = a3; a4 = a4; a5 = a5 } ∷ log in
    ok (reply calls) calls

-- The calls that a run has made
abbrev pub calls_of : {A : Type 0} → Run (Process (List Call)) A → List Call
calls_of (ok a p) = p.kernel
calls_of (exit e p) = p.kernel

either-NotWritable :
    {A : Type 0} (b : Bool) (x y : Run (Process (List Call)) A)
    → NotWritable (calls_of x)
    → NotWritable (calls_of y)
    → NotWritable (calls_of (if b then x else y))
either-NotWritable true x y p q = p
either-NotWritable false x y p q = q

module _ (reply : List Call → ℕ) (uvpd uvpt : List Call → ℕ → ℕ) where
  abbrev Program : Type 0 → Type 0
  Program A = Cmd (Process (List Call)) A

  Keeps : {A : Type 0} → Program A → Type 0
  Keeps m = (p : Process (List Call)) → NotWritable p.kernel → NotWritable (calls_of (m p))

  pure-Keeps : {A : Type 0} (a : A) → Keeps (pure a)
  unfolding Keeps
  pure-Keeps a p h = h

  leave-Keeps : (A : Type 0) (e : Exit) → Keeps {A = A} (leave e)
  unfolding Keeps
  leave-Keeps A e p h = h

  run-Keeps :
      {A B : Type 0} (r : Run (Process (List Call)) A) (k : A → Program B)
      → NotWritable (calls_of r)
      → ((a : A) → Keeps (k a))
      → NotWritable (calls_of (and_then r k))
  unfolding Keeps
  run-Keeps (ok a p) k h each = each a p h
  run-Keeps (exit e p) k h each = h

  bind-Keeps :
      {A B : Type 0} (m : Program A) (k : A → Program B)
      → Keeps m
      → ((a : A) → Keeps (k a))
      → Keeps (m >>= k)
  unfolding Keeps
  bind-Keeps m k h each p safe = run-Keeps (m p) k (h p safe) each

  then-Keeps : {A B : Type 0} (m : Program A) (n : Program B) → Keeps m → Keeps n → Keeps (m >> n)
  then-Keeps m n h g = bind-Keeps m (λ _. n) h (λ _. g)

  if-Keeps :
      {A : Type 0} (b : Bool) (m n : Program A) → Keeps m → Keeps n → Keeps (if b then m else n)
  if-Keeps true m n h g = h
  if-Keeps false m n h g = g

  -- A change of the program's variables
  modify-Keeps :
      (f : Process (List Call) → Process (List Call))
      → ((p : Process (List Call)) → (f p).kernel ≡ p.kernel)
      → Keeps (modify f)
  unfolding Keeps
  modify-Keeps f same p h = subst NotWritable (sym (same p)) h

  -- A test of the state before the rest
  test-Keeps :
      {A : Type 0} (b : Process (List Call) → Bool) (m n : Program A)
      → Keeps m
      → Keeps n
      → Keeps (λ p. if b p then m p else n p)
  unfolding Keeps
  test-Keeps b m n h g p safe = either-NotWritable (b p) (m p) (n p) (h p safe) (g p safe)

  answer-NotWritable :
      (check : Bool) (p : Process (List Call)) (ret : ℕ) (log : List Call)
      → NotWritable log
      → NotWritable (calls_of (answer check p (ok ret log)))
  answer-NotWritable check p ret log h =
      either-NotWritable (check && positive ret) (exit Exit.user_panic (record p { kernel = log }))
        (ok ret (record p { kernel = log })) h h

  call-Keeps :
      (num : ℕ) (check : Bool) (a1 a2 a3 a4 a5 : ℕ)
      → not_writable (record { num = num; a1 = a1; a2 = a2; a3 = a3; a4 = a4; a5 = a5 }) ≡ true
      → Keeps (lib_syscall (recorded reply) num check a1 a2 a3 a4 a5)
  unfolding Keeps lib_syscall
  call-Keeps num check a1 a2 a3 a4 a5 fine p h =
      let calls : List Call =
        record { num = num; a1 = a1; a2 = a2; a3 = a3; a4 = a4; a5 = a5 } ∷ p.kernel in
      answer-NotWritable check p (reply calls) calls (fine, h)

  panic-Keeps : (r : ℕ) → Keeps (panic_if_negative (recorded reply) r)
  panic-Keeps r =
      if-Keeps (negative r) (leave Exit.user_panic) (pure tt) (leave-Keeps _ Exit.user_panic)
        (pure-Keeps tt)

  set_pgfault_handler-Keeps :
      (entry handler : ℕ) → Keeps (set_pgfault_handler (recorded reply) entry handler)
  unfolding set_pgfault_handler set_handler first_time lib_sys_page_alloc
      lib_sys_env_set_pgfault_upcall
  set_pgfault_handler-Keeps entry handler =
      then-Keeps (first_time (recorded reply) Upcall.pgfault) _
        (test-Keeps (λ p. p.handlers Upcall.pgfault == 0) _ _
          (bind-Keeps _ _ (call-Keeps 4 true 0 (uxstacktop - pgsize) 7 0 0 refl) panic-Keeps)
          (pure-Keeps tt))
        (then-Keeps (modify (set_variable (recorded reply) Upcall.pgfault handler)) _
          (modify-Keeps (set_variable (recorded reply) Upcall.pgfault handler) (λ p. refl))
          (bind-Keeps _ _ (call-Keeps 9 true 0 entry 0 0 0 refl) panic-Keeps))

  negative-Keeps :
      (rest : Program ℕ) (r : ℕ)
      → Keeps rest
      → Keeps (return_if_negative (recorded reply) uvpd uvpt rest r)
  negative-Keeps rest r h = if-Keeps (negative r) (pure r) rest (pure-Keeps r) h

  duppage-Keeps : (envid pn : ℕ) → Keeps (duppage (recorded reply) uvpd uvpt envid pn)
  unfolding duppage lib_sys_page_map
  duppage-Keeps envid pn =
      let va = word (pn * pgsize) in
      test-Keeps (λ p. has (uvpt p.kernel pn) pte_w || has (uvpt p.kernel pn) pte_cow) _ _
        (bind-Keeps _ _ (call-Keeps 5 true 0 va envid va (bit_or (bit_or pte_cow pte_u) pte_p) refl)
          (λ r. negative-Keeps _ r (
            bind-Keeps _ _ (call-Keeps 5 true 0 va 0 va (bit_or (bit_or pte_cow pte_u) pte_p) refl)
              (λ q. negative-Keeps (pure 0) q (pure-Keeps 0)))))
        (bind-Keeps _ _ (call-Keeps 5 true 0 va envid va (bit_or pte_u pte_p) refl)
          (λ r. negative-Keeps (pure 0) r (pure-Keeps 0)))

  dup_pages-Keeps : (n pn envid : ℕ) → Keeps (dup_pages (recorded reply) uvpd uvpt n pn envid)
  unfolding dup_pages
  dup_pages-Keeps zero pn envid = pure-Keeps tt
  dup_pages-Keeps (suc n) pn envid =
      then-Keeps _ (dup_pages (recorded reply) uvpd uvpt n (pn + 1) envid)
        (test-Keeps (is_user_page (recorded reply) uvpd uvpt pn) _ _
          (then-Keeps _ (pure tt) (duppage-Keeps envid pn) (pure-Keeps tt)) (pure-Keeps tt))
        (dup_pages-Keeps n (pn + 1) envid)

  child-Keeps : Keeps (fork_child (recorded reply) uvpd uvpt)
  unfolding fork_child lib_sys_getenvid
  child-Keeps = bind-Keeps _ _ (call-Keeps 2 false 0 0 0 0 0 refl) (λ id.
      then-Keeps _ (pure 0) (modify-Keeps (λ p. record p { thisenv = envx id }) (λ p. refl))
        (pure-Keeps 0))

  parent-Keeps : (entry envid : ℕ) → Keeps (fork_parent (recorded reply) uvpd uvpt entry envid)
  unfolding fork_parent lib_sys_page_alloc lib_sys_env_set_pgfault_upcall lib_sys_env_set_status
  parent-Keeps entry envid = then-Keeps _ _ (dup_pages-Keeps (ustacktop / pgsize) 0 envid) (
      bind-Keeps _ _ (call-Keeps 4 true envid (uxstacktop - pgsize) 7 0 0 refl) (λ r.
        negative-Keeps _ r (
          then-Keeps _ _ (call-Keeps 9 true envid entry 0 0 0 refl) (
            bind-Keeps _ _ (call-Keeps 8 true envid env_runnable 0 0 0 refl)
              (λ q. negative-Keeps (pure envid) q (pure-Keeps envid))))))

  fork-Keeps : (entry handler : ℕ) → Keeps (fork (recorded reply) uvpd uvpt entry handler)
  unfolding fork lib_sys_exofork
  fork-Keeps entry handler = then-Keeps _ _ (set_pgfault_handler-Keeps entry handler) (
      bind-Keeps _ _ (call-Keeps 7 false 0 0 0 0 0 refl) (λ envid.
        if-Keeps (negative envid) _ _ (leave-Keeps _ Exit.user_panic)
          (if-Keeps (envid == 0) _ _ child-Keeps (parent-Keeps entry envid))))

-- However the kernel answers the system calls and whatever the page tables hold, no call of
-- sys_page_map that `fork` makes asks for PTE_W, for the child or for the parent, also when `fork` panics
-- or returns an error.
pub fork-NotWritable :
    (reply : List Call → ℕ) (uvpd uvpt : List Call → ℕ → ℕ) (entry handler : ℕ)
    (p : Process (List Call))
    → p.kernel ≡ []
    → NotWritable (calls_of (fork (recorded reply) uvpd uvpt entry handler p))
unfolding Keeps
fork-NotWritable reply uvpd uvpt entry handler p none_yet =
    fork-Keeps reply uvpd uvpt entry handler p (subst NotWritable (sym none_yet) tt)
