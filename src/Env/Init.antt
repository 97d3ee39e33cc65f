-- ===== src/Env/Init.antt =====
-- The free list that `env_init` of kern/env.c leaves.
use challenge.Base.{
  ℕ, zero, suc, ◌+◌, ◌≤◌, ◌<◌, ◌≡◌, refl, sym, subst, ◌∙◌, ap, Option, none, some, arith, ==_refl,
  ==_ne, ◌⊎◌, inl, inr,
}
use native.Mathlib.Decide.{ℕ_discrete}
use challenge.Env.State.{Env, Kernel, nenv}
use challenge.Env.Alloc.{link_next, env_init_loop, env_init}

-- What the loop makes of the entry `j`.
abbrev pub linked : ℕ → Env → Env
linked j e = record e { env_id = 0; env_link = some (j + 1) }

loop_outside :
    (n i j : ℕ) (envs : ℕ → Env) → (j < i) ⊎ (i + n ≤ j) → env_init_loop n i envs j ≡ envs j
unfolding env_init_loop
loop_outside zero i j envs o = refl
loop_outside (suc n) i j envs o =
    loop_outside n (i + 1) j _ (elim o [ inl h ↦ inl (omega arith) | inr h ↦ inr (omega arith) ])
    ∙ rw (==_ne j i (elim o [ inl h ↦ (λ e. omega arith) | inr h ↦ (λ e. omega arith) ])) refl

loop_inside :
    (n i j : ℕ) (envs : ℕ → Env) → i ≤ j → j < i + n → env_init_loop n i envs j ≡ linked j (envs j)
unfolding env_init_loop
loop_inside zero i j envs lo hi = absurd (omega arith)
loop_inside (suc n) i j envs lo hi = elim (ℕ_discrete i j) [
  | yes e ↦
      loop_outside n (i + 1) j _ (inl (omega arith))
      ∙ subst (λ (x : ℕ). link_next x envs j ≡ linked j (envs j)) (sym e) (rw (==_refl j) refl)
  | no d ↦
      loop_inside n (i + 1) j _ (omega arith) (omega arith) ∙ rw (==_ne j i (λ e. d (sym e))) refl
]

-- The environment that `n` allocations leave at the head of the free list, if none is freed.
pub nth_free : ℕ → (ℕ → Env) → Option ℕ → Option ℕ
nth_free n envs none = none
nth_free zero envs (some e) = some e
nth_free (suc n) envs (some e) = nth_free n envs (envs e).env_link

-- `env_init` gives every environment the id 0 and its neighbour as the link, and changes nothing else
-- of it, in particular not its status; what lies behind the array is not written.
pub env_init-linked :
    (k : Kernel) (j : ℕ)
    → (j < nenv → (env_init k).envs j ≡ linked j (k.envs j))
      × (nenv ≤ j → (env_init k).envs j ≡ k.envs j)
unfolding env_init
env_init-linked k j =
    (loop_inside nenv 0 j k.envs (omega arith), λ h. loop_outside nenv 0 j k.envs (inr h))

walk_list :
    (k : Kernel) (n e : ℕ) → e + n ≤ nenv → nth_free n (env_init k).envs (some e) ≡ some (e + n)
unfolding nth_free
walk_list k zero e h = ap some (omega arith)
walk_list k (suc n) e h =
    ap (λ (x : Env). nth_free n (env_init k).envs x.env_link)
      ((env_init-linked k e).0 (omega arith))
    ∙ walk_list k n (e + 1) (omega arith)
    ∙ ap some (omega arith)

init_head :
    (k : Kernel) (n : ℕ)
    → nth_free n (env_init k).envs (some 0) ≡ some n
    → nth_free n (env_init k).envs (env_init k).env_free_list ≡ some n
unfolding env_init
init_head k n h = h

-- After `env_init` the free list gives the environments in the order of the array, from `envs[0]`
-- on: after `n` steps along it, up to NENV, the next is `envs[n]`, so it does not end with the
-- array.
pub env_init-nth_free :
    (k : Kernel) (n : ℕ)
    → n ≤ nenv
    → nth_free n (env_init k).envs (env_init k).env_free_list ≡ some n
env_init-nth_free k n h = init_head k n (walk_list k n 0 (omega arith) ∙ ap some (omega arith))
