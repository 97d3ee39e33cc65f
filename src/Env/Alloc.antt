-- ===== src/Env/Alloc.antt =====
-- kern/env.c: `env_init`, `env_setup_vm` and `env_alloc`. Console output is left out, and so are the
-- segment registers that `env_init_percpu` loads.
use challenge.Base.{
  ℕ, zero, suc, ◌+◌, ◌*◌, ◌/◌, ◌%◌, ◌^◌, bit_or, false, ◌||◌, Option, none, some, ◌==◌, leb,
  if◌then◌else◌, update,
}
use challenge.Base.Run.{ok, Cmd, ◌>>=◌}
use challenge.Mmu.{pdx, uvpt, pte_p, pte_u, ustacktop, gd_ud, gd_ut, fl_if}
use challenge.Pmap.Pages.{Pmap, page_alloc, page2kva, incref, write_word}
use challenge.Pmap.Tables.{Errno}
use challenge.Env.State.{
  nenv, env_runnable, PushRegs, Trapframe, Env, Kernel, set_env, lift, Result, done, fail,
}

-- The body of the loop of `env_init` at index `i`; `&envs[i+1]` is taken at the last index as well.
abbrev pub link_next : ℕ → (ℕ → Env) → ℕ → Env
link_next i envs = update envs i (record (envs i) { env_id = 0; env_link = some (i + 1) })

-- `n` rounds of the loop, from index `i`
unfoldable pub env_init_loop : ℕ → ℕ → (ℕ → Env) → ℕ → Env
env_init_loop zero i envs = envs
env_init_loop (suc n) i envs = env_init_loop n (i + 1) (link_next i envs)

unfoldable pub env_init : Kernel → Kernel
unfolding env_init_loop
env_init k = record k { envs = env_init_loop nenv 0 k.envs; env_free_list = some 0 }

-- The page directory: a copy of `kern_pgdir` with the directory itself at UVPT.
abbrev pub fill_pgdir : ℕ → Pmap → Pmap
fill_pgdir f pm =
    write_word f (pdx uvpt) (bit_or (bit_or (f * 2 ^ 12) pte_p) pte_u)
      (record pm { mem = update pm.mem f (pm.mem pm.kern_pgdir) })

setup_vm : ℕ → Option ℕ → Cmd Kernel (Result (Unit {0}))
unfolding page2kva
setup_vm e none k = ok (fail Errno.no_mem) k
setup_vm e (some p) k =
    (do
      f ← lift (page2kva p)
      λ (s : Kernel).
          ok (done tt) (record (set_env e (record (s.envs e) { env_pgdir = some f }) s) {
            pm = fill_pgdir f (incref p s.pm);
          }))
      k

unfoldable pub env_setup_vm : ℕ → Cmd Kernel (Result (Unit {0}))
unfolding setup_vm page_alloc
env_setup_vm e = do p ← lift (page_alloc 1); setup_vm e p

-- `(e->env_id + (1 << ENVGENSHIFT)) & ~(NENV - 1)` as an int32_t, and the test `generation <= 0`
abbrev raw_generation : ℕ → ℕ
raw_generation id = (id + 2 ^ 12) % 2 ^ 32 / 2 ^ 10 * 2 ^ 10

unfoldable pub generation : ℕ → ℕ
generation id =
    if raw_generation id == 0 || leb (2 ^ 31) (raw_generation id) then 2 ^ 12 else raw_generation id

abbrev pub zero_regs : PushRegs
zero_regs = record {
  reg_edi = 0;
  reg_esi = 0;
  reg_ebp = 0;
  reg_oesp = 0;
  reg_ebx = 0;
  reg_edx = 0;
  reg_ecx = 0;
  reg_eax = 0;
}

abbrev pub initial_tf : Trapframe
initial_tf = record {
  tf_regs = zero_regs;
  tf_es = bit_or gd_ud 3;
  tf_ds = bit_or gd_ud 3;
  tf_trapno = 0;
  tf_err = 0;
  tf_eip = 0;
  tf_cs = bit_or gd_ut 3;
  tf_eflags = bit_or 0 fl_if;
  tf_esp = ustacktop;
  tf_ss = bit_or gd_ud 3;
}

abbrev pub new_env : ℕ → ℕ → Env → Env
new_env e parent_id old = record old {
  env_id = bit_or (generation old.env_id) e;
  env_parent_id = parent_id;
  env_type = 0;
  env_status = env_runnable;
  env_runs = 0;
  env_tf = initial_tf;
  env_upcall = λ _. 0;
  env_ipc_recving = false;
}

finish_alloc : ℕ → ℕ → Result (Unit {0}) → Cmd Kernel (Result ℕ)
unfolding generation
finish_alloc e parent_id (fail r) k = ok (fail r) k
finish_alloc e parent_id (done _) k =
    ok (done e) (record (set_env e (new_env e parent_id (k.envs e)) k) {
      env_free_list = (k.envs e).env_link;
    })

alloc_env : ℕ → Option ℕ → Cmd Kernel (Result ℕ)
unfolding env_setup_vm finish_alloc
alloc_env parent_id none k = ok (fail Errno.no_free_env) k
alloc_env parent_id (some e) k = (do r ← env_setup_vm e; finish_alloc e parent_id r) k

unfoldable pub env_alloc : ℕ → Cmd Kernel (Result ℕ)
unfolding alloc_env
env_alloc parent_id k = alloc_env parent_id k.env_free_list k
