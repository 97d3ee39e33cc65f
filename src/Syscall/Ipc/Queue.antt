-- ===== src/Syscall/Ipc/Queue.antt =====
-- The ring buffer of waiting senders in `struct Env` (inc/env.h), as the list that it stands for.
use challenge.Base.{
  ◌⊎◌, inl, inr, Bool-cases, ℕ, zero, suc, ◌+◌, ◌-◌, ◌%◌, ◌<◌, ◌≡◌, refl, ◌≢◌, ◌∙◌, ap, true, false,
  List, [], ◌∷◌, ◌++◌, arith, update, update_self, update_ne, length, ==_false→≢, ==_iff,
}
use native.Mathlib.Decide.{ℕ_discrete}
use challenge.Env.State.{Env, maxipcwaiting}
use challenge.Syscall.Ipc.{queue_full, enqueue}

-- `n` entries of the buffer from index `h` on.
pub ring : (ℕ → ℕ) → ℕ → ℕ → List ℕ
ring f h zero = []
ring f h (suc n) = f h ∷ ring f ((h + 1) % maxipcwaiting) n

abbrev pub count : Env → ℕ
count e = (e.env_ipc_waiting_tail + maxipcwaiting - e.env_ipc_waiting_head) % maxipcwaiting

-- The ids of the senders that wait for `e`, the first to be served first.
abbrev pub waiting : Env → List ℕ
waiting e = ring e.env_ipc_waiting e.env_ipc_waiting_head (count e)

pub record IsQueue (e : Env) : Type 0 where
  pub head_fits : e.env_ipc_waiting_head < maxipcwaiting
  pub tail_fits : e.env_ipc_waiting_tail < maxipcwaiting

length-ring : (f : ℕ → ℕ) (h n : ℕ) → length (ring f h n) ≡ n
unfolding ring
length-ring f h zero = refl
length-ring f h (suc n) = ap suc (length-ring f ((h + 1) % maxipcwaiting) n)

cons_eq : {x y : ℕ} {xs ys : List ℕ} → x ≡ y → xs ≡ ys → x ∷ xs ≡ y ∷ ys
cons_eq {y = y} {xs = xs} p q = ap (λ z. z ∷ xs) p ∙ ap (λ zs. y ∷ zs) q

ring-snoc :
    (f : ℕ → ℕ) (h n t x : ℕ)
    → h < maxipcwaiting
    → n + 1 < maxipcwaiting
    → t ≡ (h + n) % maxipcwaiting
    → ring (update f t x) h (suc n) ≡ ring f h n ++ x ∷ []
unfolding ring
ring-snoc f h zero t x hh hn at =
    cons_eq (ap (update f t x) {x = h} {y = t} (omega arith) ∙ update_self f t x) refl
ring-snoc f h (suc n) t x hh hn at =
    cons_eq (update_ne f t h x (omega arith))
      (ring-snoc f ((h + 1) % maxipcwaiting) n t x (omega arith) (omega arith) (omega arith))

pub enqueue_lem :
    (x : ℕ) (e : Env)
    → IsQueue e
    → (queue_full e ≡ true → length (waiting e) ≡ 9)
      × (queue_full e ≡ false
          → (waiting (enqueue x e) ≡ waiting e ++ x ∷ []) × IsQueue (enqueue x e))
enqueue_lem x e q =
    let head = e.env_ipc_waiting_head in
    let tail = e.env_ipc_waiting_tail in
    (
      (λ full.
          let at : (tail + 1) % maxipcwaiting ≡ head = (==_iff _ _).0 full in
          length-ring e.env_ipc_waiting head (count e) ∙ omega (arith, q.head_fits, q.tail_fits)),
      (λ room.
          let apart : (tail + 1) % maxipcwaiting ≢ head = ==_false→≢ _ _ room in
          (
            ap (ring (update e.env_ipc_waiting tail x) head) {x = count (enqueue x e)}
                  {y = suc (count e)} (omega (arith, q.head_fits, q.tail_fits))
                ∙ ring-snoc e.env_ipc_waiting head (count e) tail x q.head_fits
                    (omega (arith, q.head_fits, q.tail_fits))
                    (omega (arith, q.head_fits, q.tail_fits)),
            record { head_fits = q.head_fits; tail_fits = omega arith },
          )),
    )

-- The ring buffer of waiting senders, with its indices in range, holds nine where it is full;
-- otherwise a new sender is put at the end of the list that the buffer stands for, and the indices
-- stay in range.
pub enqueue-waiting :
    (x : ℕ) (e : Env)
    → IsQueue e
    → ((queue_full e ≡ true) × (length (waiting e) ≡ 9))
      ⊎ ((queue_full e ≡ false)
          × (waiting (enqueue x e) ≡ waiting e ++ x ∷ [])
          × IsQueue (enqueue x e))
enqueue-waiting x e q = elim (Bool-cases (queue_full e)) [
  | inl full ↦ inl (full, (enqueue_lem x e q).0 full)
  | inr room ↦ (let (a, b) = (enqueue_lem x e q).1 room in inr (room, a, b))
]

-- `me->env_ipc_waiting_head = (me->env_ipc_waiting_head + 1) % MAXIPCWAITING`
abbrev pub dequeue : Env → Env
dequeue e = record e { env_ipc_waiting_head = (e.env_ipc_waiting_head + 1) % maxipcwaiting }

pub dequeue_lem :
    (e : Env)
    → IsQueue e
    → (e.env_ipc_waiting_head ≡ e.env_ipc_waiting_tail → waiting e ≡ [])
      × (e.env_ipc_waiting_head ≢ e.env_ipc_waiting_tail
          → (waiting e ≡ e.env_ipc_waiting e.env_ipc_waiting_head ∷ waiting (dequeue e))
            × IsQueue (dequeue e))
unfolding ring
dequeue_lem e q =
    let head = e.env_ipc_waiting_head in
    (
      (λ same.
          ap (ring e.env_ipc_waiting head) {x = count e} {y = 0}
            (omega (arith, q.head_fits, q.tail_fits))),
      (λ more. (
        ap (ring e.env_ipc_waiting head) {x = count e} {y = suc (count (dequeue e))}
            (omega (arith, q.head_fits, q.tail_fits)),
        record { head_fits = omega arith; tail_fits = q.tail_fits },
      )),
    )

-- The ring buffer of waiting senders, with its indices in range, stands for the empty list where
-- the two are equal; otherwise its entry at the head is the first sender of the list, moving the
-- head on takes that off, and the indices stay in range.
pub dequeue-waiting :
    (e : Env)
    → IsQueue e
    → ((e.env_ipc_waiting_head ≡ e.env_ipc_waiting_tail) × (waiting e ≡ []))
      ⊎ ((e.env_ipc_waiting_head ≢ e.env_ipc_waiting_tail)
          × (waiting e ≡ e.env_ipc_waiting e.env_ipc_waiting_head ∷ waiting (dequeue e))
          × IsQueue (dequeue e))
dequeue-waiting e q = elim (ℕ_discrete e.env_ipc_waiting_head e.env_ipc_waiting_tail) [
  | yes same ↦ inl (same, (dequeue_lem e q).0 same)
  | no more ↦ (let (a, b) = (dequeue_lem e q).1 more in inr (more, a, b))
]
