-- ===== src/Spinlock/Turns.antt =====
-- kern/spinlock.c: `spin_lock` and `spin_unlock` on several CPUs at a time, one access of the lock after
-- the other, in any order of the CPUs. The two reads of `holding` count as one access.
use challenge.Base.{ℕ, Bool, true, false, none, some, ◌==◌, if◌then◌else◌, update}
use challenge.Spinlock.{Spinlock, holding, spin_initlock}

-- Where a CPU is: it has not called `spin_lock`, it is in the loop on `xchg`, it has left the loop and
-- not stored `lk->cpu` yet, it holds the lock, it has cleared `lk->cpu` and not `lk->locked` yet, or it has
-- panicked in one of the tests of `holding`.
pub data Phase : Type 0 where
  outside trying taken inside releasing panicked : Phase

-- The next access of the CPU `me`.
unfoldable pub advance : ℕ → Spinlock → Phase → Spinlock × Phase
unfolding holding
advance me lk Phase.outside = (lk, if holding me lk then Phase.panicked else Phase.trying)
advance me lk Phase.trying =
    (record lk { locked = 1 }, if lk.locked == 0 then Phase.taken else Phase.trying)
advance me lk Phase.taken = (record lk { cpu = some me }, Phase.inside)
advance me lk Phase.inside =
    if holding me lk then (record lk { cpu = none }, Phase.releasing) else (lk, Phase.panicked)
advance me lk Phase.releasing = (record lk { locked = 0 }, Phase.outside)
advance me lk Phase.panicked = (lk, Phase.panicked)

pub record System : Type 0 where
  pub lock : Spinlock
  pub phase : ℕ → Phase

unfoldable pub turn : ℕ → System → System
turn me s =
    let r = advance me s.lock (s.phase me) in record { lock = r.0; phase = update s.phase me r.1 }

pub data Step (s : System) : System → Type 0 where
  next : (me : ℕ) → Step s (turn me s)

abbrev pub initial : System
initial = record { lock = spin_initlock; phase = λ _. Phase.outside }

-- The states after any number of turns of any CPUs.
pub data Reach : System → Type 0 where
  start : Reach initial
  later : {s t : System} → Reach s → Step s t → Reach t

-- Between the lock's `xchg` and its release
abbrev pub critical : Phase → Bool
critical Phase.taken = true
critical Phase.inside = true
critical Phase.releasing = true
critical _ = false
