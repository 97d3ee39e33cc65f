-- ===== src/Syscall/Target.antt =====
-- What the check of an environment id decides for a system call of kern/syscall.c.
use challenge.Base.{ℕ, ◌≡◌, ◌≢◌, sym, ◌∙◌, ap, Bool, Option, some, ◌⊎◌, inl, inr}
use challenge.Base.Run.{Run, ok, Cmd, and_then}
use challenge.Pmap.Tables.{Errno}
use challenge.Env.State.{Kernel, envx, curenv, Result}
use challenge.Env.Ids.{Accepts, envid2env_lem}
use challenge.Syscall.Envs.{neg, with_env, on_env}

-- The call works on the environment `e`: the caller `c` for the id 0, or else the one named.
abbrev pub Target : Kernel → ℕ → ℕ → Bool → ℕ → Type 0
Target k c envid checkperm e =
    ((envid ≡ 0) × (e ≡ c)) ⊎ ((envid ≢ 0) × Accepts k c envid checkperm × (e ≡ envx envid))

-- The id names no environment that the caller may use.
abbrev pub Refused : Kernel → ℕ → ℕ → Bool → Type 0
Refused k c envid checkperm = (envid ≢ 0) × (¬ (Accepts k c envid checkperm))

pub with_env-Target :
    (k : Kernel) (c envid : ℕ) (checkperm : Bool) (e : ℕ) (rest : ℕ → Cmd Kernel ℕ)
    → curenv k ≡ some c
    → Target k c envid checkperm e
    → with_env envid checkperm rest k ≡ rest e k
unfolding with_env on_env
with_env-Target k c envid checkperm e rest cur (inl (zero, at)) =
    ap (λ (r : Run Kernel (Result (Option ℕ))). and_then r (λ o. on_env rest o))
      ((envid2env_lem k c envid checkperm cur).0 zero)
    ∙ ap (λ i. rest i k) (sym at)
with_env-Target k c envid checkperm e rest cur (inr (nonzero, a, at)) =
    ap (λ (r : Run Kernel (Result (Option ℕ))). and_then r (λ o. on_env rest o))
      ((envid2env_lem k c envid checkperm cur).1 nonzero a)
    ∙ ap (λ i. rest i k) (sym at)

pub with_env-Refused :
    (k : Kernel) (c envid : ℕ) (checkperm : Bool) (rest : ℕ → Cmd Kernel ℕ)
    → curenv k ≡ some c
    → Refused k c envid checkperm
    → with_env envid checkperm rest k ≡ ok (neg Errno.bad_env) k
unfolding with_env on_env
with_env-Refused k c envid checkperm rest cur (nonzero, n) =
    ap (λ (r : Run Kernel (Result (Option ℕ))). and_then r (λ o. on_env rest o))
      ((envid2env_lem k c envid checkperm cur).2 nonzero n)
