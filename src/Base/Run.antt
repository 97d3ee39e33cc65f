-- ===== src/Base/Run.antt =====
-- A run of kernel code over a state: it returns a value and the new state, or it leaves the
-- kernel or stops and never returns to its caller.
use Prim.Native.Nat.{ℕ}

-- Why a call does not return: `_panic` with the code's message, the return to user mode by
-- `env_pop_tf` of an environment (its index in `envs`), the `hlt` loop of `sched_halt`, the
-- endless monitor loop, a wait for a spin lock that another CPU holds, a fault of the kernel
-- itself on a null pointer, or `_panic` of a user environment.
pub data Panic : Type 0 where
  pa2page_invalid page_free_ref page_free_link kaddr_invalid paddr_invalid : Panic
  region_alloc_failed load_icode_magic load_icode_filesz boot_map_no_page mmio_too_big : Panic
  fault_in_kernel unhandled_trap iret_failed assertion : Panic
  lock_held lock_not_held : Panic
  xtoi_invalid showmappings_no_page : Panic

pub data Exit : Type 0 where
  panicked : Panic → Exit
  resumed : ℕ → Exit
  halted : Exit
  in_monitor : Exit
  spinning : Exit
  kernel_fault : Exit
  user_panic : Exit

pub data Run (S A : Type 0) : Type 0 where
  ok : A → S → Run S A
  exit : Exit → S → Run S A

abbrev pub Cmd : Type 0 → Type 0 → Type 0
Cmd S A = S → Run S A

module _ {S : Type 0} where
  abbrev pub pure : {A : Type 0} → A → Cmd S A
  pure = ok

  abbrev pub leave : {A : Type 0} → Exit → Cmd S A
  leave = exit

  abbrev pub panic : {A : Type 0} → Panic → Cmd S A
  panic p = exit (panicked p)

  abbrev pub get_state : Cmd S S
  get_state s = ok s s

  abbrev pub put_state : S → Cmd S (Unit {0})
  put_state s _ = ok tt s

  abbrev pub modify : (S → S) → Cmd S (Unit {0})
  modify f s = ok tt (f s)

  module _ {A B : Type 0} where
    abbrev pub and_then : Run S A → (A → Cmd S B) → Run S B
    and_then (ok a s) k = k a s
    and_then (exit e s) k = exit e s

    infixl 5 ◌>>=◌ ◌>>◌
    abbrev pub ◌>>=◌ : Cmd S A → (A → Cmd S B) → Cmd S B
    m >>= k = λ s. and_then (m s) k

    abbrev pub ◌>>◌ : Cmd S A → Cmd S B → Cmd S B
    m >> n = m >>= λ _. n
