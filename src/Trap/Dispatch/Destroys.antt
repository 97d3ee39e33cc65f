-- ===== src/Trap/Dispatch/Destroys.antt =====
-- An exception without an upcall on its whole way through `trap` of kern/trap.c and `env_destroy` of kern/env.c.
use challenge.Base.{
  ℕ, ◌≡◌, ◌≢◌, sym, ◌∙◌, ap, false, none, some, Option, update, update_self, update_ne,
}
use native.Mathlib.Decide.{ℕ_discrete}
use challenge.Base.Run.{Run, ok, exit, Exit, and_then}
use challenge.Pmap.Pages.{Pmap}
use challenge.Pmap.Tables.{Current}
use challenge.Env.State.{Upcall, Trapframe, Env, Kernel, curenv, current}
use challenge.Env.Switch.Resume.{HasLock, started}
use challenge.Env.Free.{free_vm}
use challenge.Env.Free.Destroyed.{Destroyed, env_destroy-Destroyed}
use challenge.Sched.Choice.{FirstRunnable, looked_at}
use challenge.Trap.Dispatch.{trap, return_from_trap}
use challenge.Trap.Dispatch.Vectors.{vector}
use challenge.Trap.Dispatch.UserTrap.{FromUser, in_handler, no_upcall_runs, now_current, has_lock}

same_status :
    (envs : ℕ → Env) (c : ℕ) (tf : Trapframe) (i : ℕ)
    → (update envs c (record (envs c) { env_tf = tf }) i).env_status ≡ (envs i).env_status
same_status envs c tf i = elim (ℕ_discrete i c) [
  | yes e ↦
      ap (λ x. (update envs c (record (envs c) { env_tf = tf }) x).env_status) e
      ∙ ap (λ (x : Env). x.env_status) (update_self envs c _)
      ∙ ap (λ x. (envs x).env_status) (sym e)
  | no ne ↦ ap (λ (x : Env). x.env_status) (update_ne envs c i _ ne)
]

FirstRunnable-frame :
    (envs : ℕ → Env) (c : ℕ) (tf : Trapframe) (i e : ℕ)
    → FirstRunnable envs 0 i e
    → FirstRunnable (update envs c (record (envs c) { env_tf = tf })) 0 i e
FirstRunnable-frame envs c tf i e h = record {
  inside = h.inside;
  place = h.place;
  runnable = same_status envs c tf e ∙ h.runnable;
  skipped = λ j lt q. h.skipped j lt (sym (same_status envs c tf (looked_at 0 j)) ∙ q);
}

-- The frame of the trap is not seen in what `env_destroy` leaves.
Destroyed-frame :
    (k : Kernel) (c e d : ℕ) (tf : Trapframe) (pm' : Pmap) (k' : Kernel)
    → e ≢ c
    → Destroyed c e d (in_handler c tf k) pm' k'
    → Destroyed c e d k pm' k'
Destroyed-frame k c e d tf pm' k' ne h =
    let frame = record (k.envs c) { env_tf = tf } in
    record {
      status = h.status;
      no_space = h.no_space;
      link = h.link;
      first_free = h.first_free;
      memory = h.memory;
      current_env = h.current_env;
      running = h.running ∙ ap (started k.cpunum) (update_ne k.envs c e frame ne);
      address_space = h.address_space;
      others = λ i nc nx. h.others i nc nx ∙ update_ne k.envs c i frame nc;
      released = h.released;
    }

-- An exception of any of the 18 kinds from user mode, on a CPU that is not halted and with the lock free, of an
-- environment that is not dying and has no upcall for it, where giving up its address space succeeds and another
-- environment, with an address space, is the first RUNNABLE one from slot 0 on: `trap` frees the environment,
-- puts it first on the free list, runs the other one and releases the lock; no third environment changes.
pub trap-no_upcall :
    (k : Kernel) (c fault_va : ℕ) (tf : Trapframe) (u : Upcall) (d : ℕ) (pm' : Pmap) (i e d' : ℕ)
    → FromUser k c tf
    → tf.tf_trapno ≡ vector u
    → (k.envs c).env_upcall u ≡ 0
    → (k.envs c).env_pgdir ≡ some d
    → free_vm (some (some d)) d k.pm ≡ ok tt pm'
    → FirstRunnable k.envs 0 i e
    → e ≢ c
    → (k.envs e).env_pgdir ≡ some d'
    → (k' : Kernel) × (trap false fault_va tf k ≡ exit (Exit.resumed e) k')
      × Destroyed c e d' k pm' k'
trap-no_upcall k c fault_va tf u d pm' i e d' from kind unset space gives_up first ne space' =
    let k1 = in_handler c tf k in
    let frame : Env = record (k.envs c) { env_tf = tf } in
    let at_c : k1.envs c ≡ frame = update_self k.envs c frame in
    let space1 : (k1.envs c).env_pgdir ≡ some d = ap (λ (x : Env). x.env_pgdir) at_c ∙ space in
    let cur = now_current k c fault_va tf u from kind in
    let here : current k1 ≡ some (some d) =
      ap (λ (o : Option ℕ). elim o [ none ↦ none | some x ↦ some (k1.envs x).env_pgdir ]) cur
      ∙ ap some space1 in
    let held : HasLock k1 = has_lock k.cpunum in
    let (k', run, h) =
      env_destroy-Destroyed k1 c d pm' cur space1
        (ap (λ (o : Current). free_vm o d k.pm) here ∙ gives_up) i e d'
        (FirstRunnable-frame k.envs c tf i e first) ne
        (ap (λ (x : Env). x.env_pgdir) (update_ne k.envs c e frame ne) ∙ space') held in
    (
      k',
      no_upcall_runs k c fault_va tf u from kind unset
          ∙ ap (λ (r : Run Kernel (Unit {0})). and_then r (λ _ s. return_from_trap (curenv s) s))
              run,
      Destroyed-frame k c e d' tf pm' k' ne h,
    )
