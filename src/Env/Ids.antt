-- ===== src/Env/Ids.antt =====
-- The environment ids that `env_alloc` of kern/env.c makes, and `envid2env`.
use challenge.Base.{
  ℕ, ◌+◌, ◌*◌, ◌/◌, ◌^◌, ◌<◌, ◌≡◌, refl, ◌≢◌, ◌∙◌, ap, bit_or, Bool, true, false, not, ◌||◌, ◌&&◌,
  some, arith, ◌==◌, Bool-cases, ◌⊎◌, inl, inr, ==_ne, ==_iff,
}
use challenge.Base.Bits.{bit_or-disjoint}
use challenge.Base.Run.{ok}
use challenge.Pmap.Tables.{Errno}
use challenge.Env.State.{Kernel, nenv, envx, env_free_status, curenv, done, fail, envid2env}
use challenge.Env.Alloc.{generation}

generation_facts :
    (id : ℕ)
    → id < 2 ^ 32
    → (q : ℕ) × (generation id ≡ q * 2 ^ 10) × (0 < q) × (q < 2 ^ 21) × (q ≢ id / 2 ^ 10)
unfolding generation
generation_facts id h =
    (generation id / 2 ^ 10, ground arith, ground arith, ground arith, ground arith)

-- The id made for the environment of index `e`, from any 32-bit id that it had before, is a
-- positive int32_t, has the index `e` in its low ten bits, and is not the id from before.
pub new_id :
    (id e : ℕ)
    → id < 2 ^ 32
    → e < nenv
    → (0 < bit_or (generation id) e)
      × (bit_or (generation id) e < 2 ^ 31)
      × (envx (bit_or (generation id) e) ≡ e)
      × (bit_or (generation id) e ≢ id)
new_id id e h small =
    let (q, g, pos, top, differs) = generation_facts id h in
    let sum : bit_or (generation id) e ≡ q * 2 ^ 10 + e =
      ap (λ t. bit_or t e) g ∙ bit_or-disjoint 10 q e small in
    rw sum (omega arith, omega arith, omega arith, λ c. differs (omega arith))

-- What `envid2env` asks of an environment that is named by a nonzero id: the slot is in use, by an
-- environment with this very id, and with `checkperm` it is the caller `c` or a child of it.
pub record Accepts (k : Kernel) (c envid : ℕ) (checkperm : Bool) : Type 0 where
  pub in_use : (k.envs (envx envid)).env_status ≢ env_free_status
  pub current_id : (k.envs (envx envid)).env_id ≡ envid
  pub permitted :
      checkperm ≡ true
      → (envx envid ≡ c) ⊎ ((k.envs (envx envid)).env_parent_id ≡ (k.envs c).env_id)

module _ (k : Kernel) (c : ℕ) (envid : ℕ) (checkperm : Bool) (running : curenv k ≡ some c) where
  pub envid2env-zero : envid ≡ 0 → envid2env envid checkperm k ≡ ok (done (some c)) k
  unfolding envid2env
  envid2env-zero z = rw ((==_iff envid 0).1 z, running) refl

  -- The three tests of the code decide `Accepts`.
  abbrev in_use_test : Bool
  in_use_test =
      (k.envs (envx envid)).env_status == env_free_status
      || not ((k.envs (envx envid)).env_id == envid)

  abbrev stranger_test : Bool
  stranger_test =
      not (envx envid == c) && not ((k.envs (envx envid)).env_parent_id == (k.envs c).env_id)

  Decided : Type 0
  Decided =
      (Accepts k c envid checkperm
        × (envid2env envid checkperm k ≡ ok (done (some (envx envid))) k))
      ⊎ ((¬ Accepts k c envid checkperm)
          × (envid2env envid checkperm k ≡ ok (fail Errno.bad_env) k))

  decide_absent : envid ≢ 0 → in_use_test ≡ true → Decided
  unfolding envid2env Decided
  decide_absent nz t =
      inr ((λ a. ground (arith, a.in_use, a.current_id)), rw (==_ne envid 0 nz, t) refl)

  decide_unchecked : envid ≢ 0 → in_use_test ≡ false → checkperm ≡ false → Decided
  unfolding envid2env Decided
  decide_unchecked nz t off = inl (
    record { in_use = ground arith; current_id = ground arith; permitted = λ on. absurd (cc) },
    rw (==_ne envid 0 nz, t, off) refl,
  )

  decide_stranger :
      envid ≢ 0 → in_use_test ≡ false → checkperm ≡ true → stranger_test ≡ true → Decided
  unfolding envid2env Decided
  decide_stranger nz t on s = inr (
    (λ a. elim (a.permitted on) [ inl e ↦ ground arith | inr e ↦ ground arith ]),
    rw (==_ne envid 0 nz, t, on, running, s) refl,
  )

  decide_family :
      envid ≢ 0 → in_use_test ≡ false → checkperm ≡ true → stranger_test ≡ false → Decided
  unfolding envid2env Decided
  decide_family nz t on s = inl (
    record { in_use = ground arith; current_id = ground arith; permitted = λ _. ground arith },
    rw (==_ne envid 0 nz, t, on, running, s) refl,
  )

  decide : envid ≢ 0 → Decided
  decide nz = elim (Bool-cases in_use_test) [
    | inl t ↦ decide_absent nz t
    | inr t ↦ elim (Bool-cases checkperm) [
      | inr off ↦ decide_unchecked nz t off
      | inl on ↦ elim (Bool-cases stranger_test) [
        | inl s ↦ decide_stranger nz t on s
        | inr s ↦ decide_family nz t on s
      ]
    ]
  ]

  -- `envid2env` of an id that is not 0 gives the environment in the slot of the id, and changes
  -- nothing, where the slot is in use by an environment with this very id and, with `checkperm`,
  -- that is the caller or a child of it.
  pub envid2env-Accepts :
      envid ≢ 0
      → Accepts k c envid checkperm
      → envid2env envid checkperm k ≡ ok (done (some (envx envid))) k
  unfolding Decided
  envid2env-Accepts nz a = elim (decide nz) [ inl (_, r) ↦ r | inr (n, _) ↦ absurd (n a) ]

  -- `envid2env` of an id that is not 0 returns -E_BAD_ENV, and changes nothing, where the slot of
  -- the id is free or used under another id, or, with `checkperm`, is neither the caller's nor a
  -- child's.
  pub envid2env-refuses :
      envid ≢ 0
      → ¬ (Accepts k c envid checkperm)
      → envid2env envid checkperm k ≡ ok (fail Errno.bad_env) k
  unfolding Decided
  envid2env-refuses nz n = elim (decide nz) [ inl (a, _) ↦ absurd (n a) | inr (_, r) ↦ r ]

  -- `envid2env` with a current environment `c`: the id 0 is the caller, and any other id is accepted
  -- exactly as `Accepts` says and refused with -E_BAD_ENV otherwise; nothing changes.
  pub envid2env_lem :
      (envid ≡ 0 → envid2env envid checkperm k ≡ ok (done (some c)) k)
      × (envid ≢ 0
          → Accepts k c envid checkperm
          → envid2env envid checkperm k ≡ ok (done (some (envx envid))) k)
      × (envid ≢ 0
          → ¬ (Accepts k c envid checkperm)
          → envid2env envid checkperm k ≡ ok (fail Errno.bad_env) k)
  envid2env_lem = (envid2env-zero, envid2env-Accepts, envid2env-refuses)
