-- ===== src/Spinlock.antt =====
-- kern/spinlock.c with DEBUG_SPINLOCK, as kern/spinlock.h sets it. A CPU is its index in `cpus`. The
-- call stack that the lock records for its messages (`pcs`, `get_caller_pcs`) is left out.
pub mod Turns
pub mod Exclusion
use challenge.Base.{ℕ, Bool, not, ◌&&◌, Option, none, some, ◌==◌, if◌then◌else◌}
use challenge.Base.Run.{Panic, ok, exit, Exit, Cmd, panic}

pub record Spinlock : Type 0 where
  pub locked : ℕ
  pub cpu : Option ℕ

abbrev is_cpu : ℕ → Option ℕ → Bool
is_cpu me none = Bool.false
is_cpu me (some c) = c == me

unfoldable pub holding : ℕ → Spinlock → Bool
holding me lk = not (lk.locked == 0) && is_cpu me lk.cpu

abbrev pub spin_initlock : Spinlock
spin_initlock = record { locked = 0; cpu = none }

-- The loop on `xchg` ends where the lock is free; where another CPU holds it, this CPU spins.
unfoldable pub spin_lock : ℕ → Cmd Spinlock (Unit {0})
unfolding holding
spin_lock me lk =
    if holding me lk
    then panic Panic.lock_held lk
    else if lk.locked == 0
    then ok tt (record { locked = 1; cpu = some me })
    else exit Exit.spinning lk

unfoldable pub spin_unlock : ℕ → Cmd Spinlock (Unit {0})
unfolding holding
spin_unlock me lk =
    if not (holding me lk)
    then panic Panic.lock_not_held lk
    else ok tt (record { locked = 0; cpu = none })
