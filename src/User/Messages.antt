-- ===== src/User/Messages.antt =====
-- lib/ipc.c: `ipc_send`, `ipc_recv` and `ipc_find_env`.
use challenge.Base.{
  ℕ, zero, suc, ◌+◌, ◌-◌, ◌^◌, ◌<◌, ◌≤◌, ◌≡◌, ◌≢◌, refl, ◌∙◌, ap, arith, ◌==◌, if◌then◌else◌, ==_ne,
  ==_refl,
}
use native.Mathlib.Decide.{ℕ_discrete}
use challenge.Base.Run.{ok, exit, Exit, Cmd, pure, leave, ◌>>=◌, ◌>>◌}
use challenge.Pmap.Tables.{Errno}
use challenge.Env.State.{Env, Kernel, nenv}
use challenge.Syscall.Envs.{neg}
use challenge.User.Calls.{
  Process, Answers, negative, lib_syscall, lib_sys_ipc_try_send, lib_sys_ipc_recv, lib_sys_yield,
}

-- `if (!pg) pg = (void *)-1;`
abbrev pub no_page_or : ℕ → ℕ
no_page_or pg = if pg == 0 then 2 ^ 32 - 1 else pg

module _ {K : Type 0} (int : Answers K) where
  -- The test of a try's result, where `again` follows a refusal because the receiver does not wait.
  abbrev pub after_try : Cmd (Process K) (Unit {0}) → ℕ → Cmd (Process K) (Unit {0})
  after_try again r =
      if negative r
      then if r == neg Errno.ipc_not_recv then again else leave Exit.user_panic
      else pure tt

  -- The loop, where `left` more refusals are followed by another try, and one more by "Retry times out!".
  unfoldable pub send_loop : ℕ → ℕ → ℕ → ℕ → ℕ → Cmd (Process K) (Unit {0})
  send_loop zero to_env val pg perm =
      lib_sys_ipc_try_send int to_env val pg perm >>= after_try (leave Exit.user_panic)
  send_loop (suc left) to_env val pg perm =
      lib_sys_ipc_try_send int to_env val pg perm
      >>= after_try (lib_sys_yield int >> send_loop left to_env val pg perm)

  unfoldable pub ipc_send : ℕ → ℕ → ℕ → ℕ → Cmd (Process K) (Unit {0})
  unfolding send_loop
  ipc_send to_env val pg perm = send_loop 2 to_env val (no_page_or pg) perm

-- The value returned, and the values stored in `*from_env_store` and `*perm_store` where they are not
-- null.
unfoldable pub ipc_recv : Answers Kernel → ℕ → Cmd (Process Kernel) (ℕ × ℕ × ℕ)
ipc_recv int pg = lib_sys_ipc_recv int (no_page_or pg) >>= λ r (p : Process Kernel).
    let e = p.kernel.envs p.thisenv in
    if negative r then ok (r, 0, 0) p else ok (e.env_ipc_value, e.env_ipc_from, e.env_ipc_perm) p

-- `n` rounds of the loop of `ipc_find_env` from the environment `i`
find_from : ℕ → ℕ → (ℕ → Env) → ℕ → ℕ
find_from zero i envs type = 0
find_from (suc n) i envs type =
    let rest = find_from n (i + 1) envs type in
    if (envs i).env_type == type then (envs i).env_id else rest

unfoldable pub ipc_find_env : (ℕ → Env) → ℕ → ℕ
unfolding find_from
ipc_find_env = find_from nenv 0

module _ {K : Type 0} (int : Answers K) (to_env val pg perm : ℕ) where
  abbrev pub try_send : Cmd K ℕ
  try_send = int 11 to_env val (no_page_or pg) perm 0

  -- `m` tries from the state `k` that the kernel refuses because the receiver does not wait, each one
  -- followed by `sys_yield`, lead to the state `k'`.
  abbrev pub Refusals : ℕ → K → K → Type 0
  Refusals zero k k' = k ≡ k'
  Refusals (suc m) k k' =
      (k1 : K) × (k2 : K) × (y : ℕ) × (try_send k ≡ ok (neg Errno.ipc_not_recv) k1)
      × (int 10 0 0 0 0 0 k1 ≡ ok y k2)
      × Refusals m k2 k'

  refused_once :
      (again : Cmd (Process K) (Unit {0})) (p : Process K) (k : K)
      → try_send p.kernel ≡ ok (neg Errno.ipc_not_recv) k
      → (lib_sys_ipc_try_send int to_env val (no_page_or pg) perm >>= after_try int again) p
        ≡ again (record p { kernel = k })
  unfolding lib_sys_ipc_try_send lib_syscall
  refused_once again p k e = rw e refl

  sent_once :
      (again : Cmd (Process K) (Unit {0})) (p : Process K) (k : K)
      → try_send p.kernel ≡ ok 0 k
      → (lib_sys_ipc_try_send int to_env val (no_page_or pg) perm >>= after_try int again) p
        ≡ ok tt (record p { kernel = k })
  unfolding lib_sys_ipc_try_send lib_syscall
  sent_once again p k e = rw e refl

  yielded_once :
      (next : Cmd (Process K) (Unit {0})) (p : Process K) (k : K) (y : ℕ)
      → int 10 0 0 0 0 0 p.kernel ≡ ok y k
      → (lib_sys_yield int >> next) p ≡ next (record p { kernel = k })
  unfolding lib_sys_yield lib_syscall
  yielded_once next p k y e = rw e refl

  loop-sent :
      (left : ℕ) (p : Process K) (k : K)
      → try_send p.kernel ≡ ok 0 k
      → send_loop int left to_env val (no_page_or pg) perm p ≡ ok tt (record p { kernel = k })
  unfolding send_loop
  loop-sent zero p k e = sent_once (leave Exit.user_panic) p k e
  loop-sent (suc left) p k e =
      sent_once (lib_sys_yield int >> send_loop int left to_env val (no_page_or pg) perm) p k e

  abbrev sends : ℕ → Cmd (Process K) (Unit {0})
  sends left = send_loop int left to_env val (no_page_or pg) perm

  loop-refused_once :
      (left : ℕ) (p : Process K) (k1 k2 : K) (y : ℕ)
      → try_send p.kernel ≡ ok (neg Errno.ipc_not_recv) k1
      → int 10 0 0 0 0 0 k1 ≡ ok y k2
      → sends (suc left) p ≡ sends left (record p { kernel = k2 })
  unfolding send_loop
  loop-refused_once left p k1 k2 y refused yielded =
      refused_once (lib_sys_yield int >> sends left) p k1 refused
      ∙ yielded_once (sends left) (record p { kernel = k1 }) k2 y yielded

  -- After `m` refusals the loop has `m` tries less.
  loop-refused :
      (left m : ℕ) (p : Process K) (k : K)
      → Refusals m p.kernel k
      → sends (m + left) p ≡ sends left (record p { kernel = k })
  loop-refused left zero p k h =
      ap (λ (n : ℕ). sends n p) {x = 0 + left} {y = left} (omega arith)
      ∙ ap (λ (t : K). sends left (record p { kernel = t })) h
  loop-refused left (suc m) p k (k1, k2, y, refused, yielded, h) =
      ap (λ (n : ℕ). sends n p) {x = suc m + left} {y = suc (m + left)} (omega arith)
      ∙ loop-refused_once (m + left) p k1 k2 y refused yielded
      ∙ loop-refused left m (record p { kernel = k2 }) k h

  -- A message that is refused at most twice because the receiver does not wait, and then accepted, is
  -- sent, and `ipc_send` returns.
  pub ipc_send-sent :
      (m : ℕ) (p : Process K) (k k' : K)
      → m ≤ 2
      → Refusals m p.kernel k
      → try_send k ≡ ok 0 k'
      → ipc_send int to_env val pg perm p ≡ ok tt (record p { kernel = k' })
  unfolding ipc_send
  ipc_send-sent m p k k' le refused sent =
      ap (λ (n : ℕ). sends n p) {x = 2} {y = m + (2 - m)} (omega arith)
      ∙ loop-refused (2 - m) m p k refused
      ∙ loop-sent (2 - m) (record p { kernel = k }) k' sent

  -- When the receiver does not wait at the first three tries, `ipc_send` panics and does not try again.
  pub ipc_send-gives_up :
      (p : Process K) (k k' : K)
      → Refusals 2 p.kernel k
      → try_send k ≡ ok (neg Errno.ipc_not_recv) k'
      → ipc_send int to_env val pg perm p ≡ exit Exit.user_panic (record p { kernel = k' })
  unfolding ipc_send send_loop
  ipc_send-gives_up p k k' refused again =
      loop-refused 0 2 p k refused
      ∙ refused_once (leave Exit.user_panic) (record p { kernel = k }) k' again

find_from-first :
    (n i j : ℕ) (envs : ℕ → Env) (type : ℕ)
    → i ≤ j
    → j < i + n
    → (envs j).env_type ≡ type
    → ((l : ℕ) → i ≤ l → l < j → (envs l).env_type ≢ type)
    → find_from n i envs type ≡ (envs j).env_id
unfolding find_from
find_from-first zero i j envs type le lt same others = absurd (omega arith)
find_from-first (suc n) i j envs type le lt same others = elim (ℕ_discrete i j) [
  | yes e ↦ rw (e, same, ==_refl type) refl
  | no ne ↦ rw (==_ne (envs i).env_type type (others i (omega arith) (omega (arith, ne)))) (
      find_from-first n (i + 1) j envs type (omega (arith, ne)) (omega arith) same
        (λ l p q. others l (omega arith) q))
]

-- `ipc_find_env` returns the id of the first environment of the type, when there is one.
pub ipc_find_env-first :
    (j : ℕ) (envs : ℕ → Env) (type : ℕ)
    → j < nenv
    → (envs j).env_type ≡ type
    → ((l : ℕ) → l < j → (envs l).env_type ≢ type)
    → ipc_find_env envs type ≡ (envs j).env_id
unfolding ipc_find_env
ipc_find_env-first j envs type lt same others =
    find_from-first nenv 0 j envs type (omega arith) (omega arith) same (λ l p q. others l q)
