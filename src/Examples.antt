-- ===== src/Examples.antt =====
-- A small machine on which the theorems are applied: 64 pages of memory, of which 10, 11 and 12 are free;
-- environment 0, which runs and has the page directory in page 2, and environment 1, with the page
-- directory in page 4.
pub mod Traps
pub mod Messages
pub mod Calls
pub mod Scheduling
pub mod Memory
pub mod Printing
pub mod Startup
pub mod Library
pub mod Terminal
pub mod Debugging
pub mod Loading
use challenge.Base.{
  ℕ, suc, ◌+◌, ◌*◌, ◌/◌, ◌%◌, ◌^◌, ◌≤◌, ◌<◌, ◌≡◌, refl, ◌≢◌, Bool, true, false, Option, none, some,
  List, [], ◌∷◌, arith, ◌==◌, if◌then◌else◌, Bool-cases, inl, inr, ap, ==_iff,
}
use challenge.Mmu.{pdx, pgnum, uxstacktop, pgsize}
use challenge.Pmap.Pages.{PageInfo, Pmap}
use challenge.Pmap.Tables.{is_present}
use challenge.Pmap.FreeList.Alloc.{IsFreeList}
use challenge.Pmap.Access.Check.{TablesInMemory}
use challenge.Env.State.{PushRegs, Trapframe, Upcall, upcall_index, Env, CpuInfo, Kernel}
use challenge.Console.{Cons}

-- Page 5 is mapped at the exception stack of environment 0, by the page table in page 3; the page table
-- in page 6 belongs to environment 1.
abbrev pub memory : ℕ → ℕ → ℕ
memory f i =
    if f == 2
    then (if i == 954 then 3 * 4096 + 7 else 0)
    else if f == 3
    then (if i == 1023 then 5 * 4096 + 7 else 0)
    else if f == 4
    then (if i == 2 then 6 * 4096 + 7 else 0)
    else 0

abbrev pub page_infos : ℕ → PageInfo
page_infos p = record {
  pp_ref = if p == 5 then 1 else 0;
  pp_link = if p == 10 then some 11 else if p == 11 then some 12 else none;
}

abbrev pub machine : Pmap
machine = record {
  npages = 64;
  pages = page_infos;
  page_free_list = some 10;
  kern_pgdir = 1;
  mmio_base = 0xef80_0000;
  user_mem_check_addr = 0;
  mem = memory;
  flushed = [];
}

-- The same with one free page, and with none.
abbrev pub with_free : Option ℕ → Pmap
with_free p = record machine { page_free_list = p }

abbrev pub frame_of : ℕ → ℕ → ℕ → Trapframe
frame_of trapno cs esp = record {
  tf_regs = record {
    reg_edi = 1;
    reg_esi = 2;
    reg_ebp = 3;
    reg_oesp = 4;
    reg_ebx = 5;
    reg_edx = 6;
    reg_ecx = 7;
    reg_eax = 8;
  };
  tf_es = 0x23;
  tf_ds = 0x23;
  tf_trapno = trapno;
  tf_err = 0;
  tf_eip = 0x80_0040;
  tf_cs = cs;
  tf_eflags = 0x202;
  tf_esp = esp;
  tf_ss = 0x23;
}

-- Environment `i` has an upcall for the division by zero.
abbrev pub env_of : ℕ → ℕ → Bool → Env
env_of i status recving = record {
  env_tf = frame_of 0 0x1b 0xeebf_dfd0;
  env_link = none;
  env_id = if i == 0 then 0x1000 else if i == 1 then 0x1001 else 0;
  env_parent_id = if i == 1 then 0x1000 else 0;
  env_type = 0;
  env_status = status;
  env_runs = 0;
  env_cpunum = 0;
  env_pgdir = if i == 0 then some 2 else if i == 1 then some 4 else none;
  env_upcall = λ u. if upcall_index u == 1 then 0x80_0020 else 0;
  env_ipc_recving = recving;
  env_ipc_dstva = 0x80_0000;
  env_ipc_value = 0;
  env_ipc_from = 0;
  env_ipc_perm = 0;
  env_ipc_waiting_head = 3;
  env_ipc_waiting_tail = if i == 0 then 4 else 3;
  env_ipc_waiting = λ _. 0x1001;
}

-- Environments 0 and 1 with the given statuses, and the second with the given `env_ipc_recving`.
abbrev pub two_envs : ℕ → ℕ → Bool → ℕ → Env
two_envs s0 s1 recving i =
    env_of i (if i == 0 then s0 else if i == 1 then s1 else 0) (if i == 1 then recving else false)

-- CPU 0, on which environment 0 is current; `lock` says whether it holds the lock.
abbrev pub kernel : (ℕ → Env) → ℕ → Option ℕ → Kernel
kernel envs lock cur = record {
  pm = machine;
  envs = envs;
  env_free_list = some 2;
  cpunum = 0;
  cpus = λ _. record { cpu_status = 1; cpu_env = cur };
  kernel_lock = record { locked = lock; cpu = some 0 };
  cr3 = 2;
  cons = record { buf = λ _. 0; rpos = 0; wpos = 0 };
  serial_in = [];
  kbd_in = [];
}

pub machine-IsFreeList : IsFreeList machine (10 ∷ 11 ∷ 12 ∷ [])
machine-IsFreeList = record {
  fits = omega arith;
  chain = (refl, (refl, (refl, tt)));
  distinct = ((omega arith, (omega arith, tt)), ((omega arith, tt), (tt, tt)));
  idle = ((omega arith, refl), ((omega arith, refl), ((omega arith, refl), tt)));
}

pub machine-TablesInMemory : TablesInMemory machine 2
machine-TablesInMemory a p = elim (Bool-cases (pdx a == 954)) [
  | inl e ↦ rw e (omega arith)
  | inr e ↦ rw e (omega arith)
]
