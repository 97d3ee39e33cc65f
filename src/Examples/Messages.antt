-- ===== src/Examples/Messages.antt =====
-- Messages between environments 0 and 1 on the small machine.
use challenge.Base.{ℕ, ◌≡◌, refl, ◌≢◌, Bool, true, false, some, [], ◌∷◌, ◌++◌, arith, ◌⊎◌, inr}
use challenge.Base.Run.{ok, pure, ◌>>◌}
use challenge.Mmu.{utop, roundup}
use challenge.Pmap.Tables.{Errno}
use challenge.Pmap.Mapping.Walk.{HasTable}
use challenge.Pmap.Mapping.Edit.{Mapped, page_lookup-Mapped}
use challenge.Pmap.Mapping.Insert.{page_insert-unmapped, inserted_at}
use challenge.Env.State.{Kernel, current, env_not_runnable}
use challenge.Sched.{sched_yield}
use challenge.Syscall.Envs.{neg}
use challenge.Syscall.Target.{Target}
use challenge.Syscall.Ipc.{queue_full, sys_ipc_try_send, sys_ipc_recv}
use challenge.Syscall.Ipc.Queue.{IsQueue, waiting}
use challenge.Syscall.Ipc.Send.{Delivered, sys_ipc_try_send-waiting, sys_ipc_try_send-page}
use challenge.Syscall.Ipc.Receive.{FirstSender, Woken, sys_ipc_recv-Woken}
use challenge.Examples.{machine, env_of, two_envs, kernel}

-- Environment 1 waits for a message, or does not.
abbrev sender : Bool → Kernel
sender recving = kernel (two_envs 3 4 recving) 1 (some 0)

receiver : (recving : Bool) → Target (sender recving) 0 0x1001 false 1
receiver recving = inr (
  omega arith,
  record { in_use = omega arith; current_id = refl; permitted = λ _. inr refl },
  refl,
)

any-IsQueue : (i : ℕ) (s : ℕ) (r : Bool) → IsQueue (env_of 1 s r)
any-IsQueue i s r = record { head_fits = omega arith; tail_fits = omega arith }

sys_ipc_try_send-waiting_example :
    ((queue_full (env_of 1 4 false) ≡ true)
      × (sys_ipc_try_send 0x1001 42 utop 0 (sender false)
          ≡ ok (neg Errno.ipc_not_recv) (sender false)))
    ⊎ ((k' : Kernel) × (sys_ipc_try_send 0x1001 42 utop 0 (sender false)
          ≡ ok (neg Errno.ipc_not_recv) k')
        × (waiting (k'.envs 1) ≡ waiting (env_of 1 4 false) ++ 0x1000 ∷ [])
        × ((k'.envs 0).env_status ≡ env_not_runnable)
        × ((i : ℕ) → i ≢ 0 → i ≢ 1 → k'.envs i ≡ two_envs 3 4 false i))
sys_ipc_try_send-waiting_example =
    sys_ipc_try_send-waiting (sender false) 0 1 0x1001 42 utop 0 refl (receiver false) (omega arith)
      refl (any-IsQueue 1 4 false)

stack-Mapped : Mapped machine 2 0xeebf_f000 3 5
stack-Mapped = record {
  table = record { present = refl; entry = refl; below = omega arith; apart = omega arith };
  present = refl;
  page = refl;
  below = omega arith;
}

receiver_table : HasTable machine 4 0x80_0000 6
receiver_table = record { present = refl; entry = refl; below = omega arith; apart = omega arith }

sys_ipc_try_send-page_example :
    (k' : Kernel) × (sys_ipc_try_send 0x1001 42 0xeebf_f000 7 (sender true) ≡ ok 0 k')
    × Delivered (sender true) k' 0 1 42 7
    × (k'.pm ≡ inserted_at 6 0x80_0000 5 7 machine)
unfolding roundup
sys_ipc_try_send-page_example =
    sys_ipc_try_send-page (sender true) 0 1 2 4 0x1001 42 0xeebf_f000 7 5
      (record { table = 3; index = 1023 }) (inserted_at 6 0x80_0000 5 7 machine) refl
      (receiver true) (omega arith) refl (omega arith) refl refl (page_lookup-Mapped stack-Mapped)
      refl refl (omega arith) refl
      (page_insert-unmapped (current (sender true)) 5 7 receiver_table (omega arith) (omega arith)
        (omega arith) refl).runs

-- Environment 0 has 1 in its queue.
first : FirstSender (sender false) 0 1
first = record {
  queue = record { head_fits = omega arith; tail_fits = omega arith };
  more = omega arith;
  id = refl;
  nonzero = omega arith;
  place = refl;
  in_use = omega arith;
  apart = omega arith;
}

sys_ipc_recv-Woken_example :
    (k' : Kernel) × (sys_ipc_recv utop (sender false) ≡ (sched_yield >> pure 0) k')
    × Woken (sender false) k' 0 1 utop
sys_ipc_recv-Woken_example = sys_ipc_recv-Woken (sender false) 0 1 utop first refl refl
