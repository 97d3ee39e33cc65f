-- ===== src/Trap/Handlers.antt =====
-- kern/trap.c: the handlers that pass an exception on to user code. The console output is left out.
--
-- The handlers write the user trap frame through the user's virtual address. Here that is a list of
-- words at an address; `store_user` writes them through the page table of the environment, and the
-- kernel faults where an address is not mapped.
pub mod Frame
pub mod Upcalls
use challenge.Base.{
  ℕ, ◌+◌, ◌-◌, ◌*◌, ◌/◌, ◌%◌, ◌^◌, bit_and, Bool, true, false, not, ◌&&◌, Option, none, some, List,
  [], ◌∷◌, ◌==◌, leb, ltb, if◌then◌else◌, update,
}
use challenge.Base.Run.{Panic, Run, ok, exit, Exit, Cmd, pure, panic, modify, ◌>>=◌, ◌>>◌}
use challenge.Mmu.{word, pgsize, pgnum, pdx, ptx, pte_w, uxstacktop}
use challenge.Pmap.Pages.{Pmap, PtePtr, read_pte, write_word}
use challenge.Pmap.Tables.{is_present, pgdir_walk}
use challenge.Env.State.{Upcall, PushRegs, Trapframe, Env, Kernel, curenv, set_env, deref, lift}
use challenge.Env.Switch.{env_run}
use challenge.Env.Free.{env_destroy, user_mem_assert}
use challenge.Env.Load.{store_bytes}

-- `sizeof(struct UTrapframe)` of inc/trap.h: 13 words
abbrev pub utf_size : ℕ
utf_size = 52

-- The address of the frame: below the trap-time stack pointer, with a word to spare, where that is on
-- the exception stack; otherwise at the top of the exception stack.
unfoldable pub utf_address : ℕ → ℕ
utf_address esp =
    if leb (uxstacktop - pgsize) esp && ltb esp uxstacktop
    then esp - utf_size - 4
    else uxstacktop - utf_size

-- The words of `struct UTrapframe` in the order of its fields.
abbrev pub utf_words : ℕ → Trapframe → List ℕ
utf_words fault_va tf =
    let r = tf.tf_regs in
    fault_va ∷ tf.tf_err ∷ r.reg_edi ∷ r.reg_esi ∷ r.reg_ebp ∷ r.reg_oesp ∷ r.reg_ebx ∷ r.reg_edx
    ∷ r.reg_ecx ∷ r.reg_eax ∷ tf.tf_eip ∷ tf.tf_eflags ∷ tf.tf_esp ∷ []

-- A store of a word to a user address by the processor, through the page table `pgdir`: to a word of memory, or, where
-- `va` is not a multiple of 4, byte by byte. `mem_init` sets CR0_WP, so the kernel cannot write to a page
-- without PTE_W.
unfoldable pub store_word : ℕ → ℕ → ℕ → Cmd Pmap (Unit {0})
unfolding store_bytes
store_word pgdir va w pm =
    let pde = pm.mem pgdir (pdx va) in
    let pte = pm.mem (pgnum pde) (ptx va) in
    if not (va % 4 == 0)
    then store_bytes pgdir va (λ i. w / 2 ^ (8 * i) % 2 ^ 8) 0 4 pm
    else if is_present pde && (is_present pte && not (bit_and pte pte_w == 0))
    then ok tt (write_word (pgnum pte) (va / 4 % 2 ^ 10) w pm)
    else exit Exit.kernel_fault pm

unfoldable pub store_user : ℕ → ℕ → List ℕ → Cmd Pmap (Unit {0})
unfolding store_word
store_user pgdir va [] = pure tt
store_user pgdir va (w ∷ ws) = store_word pgdir va w >> store_user pgdir (va + 4) ws

-- `curenv->env_tf.tf_eip = upcall; curenv->env_tf.tf_esp = utf;`
abbrev pub enter_upcall : ℕ → ℕ → ℕ → Kernel → Kernel
enter_upcall c upcall utf k =
    let tf = (k.envs c).env_tf in
    set_env c (record (k.envs c) { env_tf = record tf { tf_eip = upcall; tf_esp = utf } }) k

-- The part under `if (curenv->env_..._upcall)`. `tf` points at `curenv->env_tf`.
unfoldable pub call_upcall : ℕ → ℕ → ℕ → Cmd Kernel (Unit {0})
unfolding user_mem_assert utf_address store_user env_run
call_upcall c upcall fault_va k =
    let tf = (k.envs c).env_tf in
    let utf = utf_address tf.tf_esp in
    (do
      user_mem_assert c utf 1 pte_w
      pgdir ← deref (k.envs c).env_pgdir
      lift (store_user pgdir utf (utf_words fault_va tf))
      modify (enter_upcall c upcall utf)
      env_run c)
      k

-- What all handlers do, for the upcall `u`. `tf` is `curenv->env_tf`, as `trap` has set it, or the
-- frame on the kernel stack where the trap is from kernel mode; `fault_va` is the value of CR2.
handle_on : Upcall → ℕ → ℕ → Cmd Kernel (Unit {0})
unfolding call_upcall env_destroy
handle_on u fault_va c k =
    if (k.envs c).env_upcall u == 0
    then env_destroy c k
    else (call_upcall c ((k.envs c).env_upcall u) fault_va >> env_destroy c) k

unfoldable pub user_handler : Upcall → ℕ → Trapframe → Cmd Kernel (Unit {0})
unfolding handle_on
user_handler u fault_va tf k =
    if bit_and tf.tf_cs 3 == 0
    then panic Panic.fault_in_kernel k
    else (do c ← deref (curenv k); handle_on u fault_va c) k

unfoldable pub page_fault_handler : ℕ → Trapframe → Cmd Kernel (Unit {0})
unfolding user_handler
page_fault_handler = user_handler Upcall.pgfault

unfoldable pub divide_zero_handler : ℕ → Trapframe → Cmd Kernel (Unit {0})
unfolding user_handler
divide_zero_handler = user_handler Upcall.divzero

unfoldable pub debug_exception_handler : ℕ → Trapframe → Cmd Kernel (Unit {0})
unfolding user_handler
debug_exception_handler = user_handler Upcall.debug

unfoldable pub non_maskable_interrupt_handler : ℕ → Trapframe → Cmd Kernel (Unit {0})
unfolding user_handler
non_maskable_interrupt_handler = user_handler Upcall.nmskint

unfoldable pub breakpoint_handler : ℕ → Trapframe → Cmd Kernel (Unit {0})
unfolding user_handler
breakpoint_handler = user_handler Upcall.bpoint

unfoldable pub overflow_handler : ℕ → Trapframe → Cmd Kernel (Unit {0})
unfolding user_handler
overflow_handler = user_handler Upcall.oflow

unfoldable pub bounds_check_handler : ℕ → Trapframe → Cmd Kernel (Unit {0})
unfolding user_handler
bounds_check_handler = user_handler Upcall.bdschk

unfoldable pub illegal_opcode_handler : ℕ → Trapframe → Cmd Kernel (Unit {0})
unfolding user_handler
illegal_opcode_handler = user_handler Upcall.illopcd

unfoldable pub device_not_available_handler : ℕ → Trapframe → Cmd Kernel (Unit {0})
unfolding user_handler
device_not_available_handler = user_handler Upcall.dvcntavl

unfoldable pub double_fault_handler : ℕ → Trapframe → Cmd Kernel (Unit {0})
unfolding user_handler
double_fault_handler = user_handler Upcall.dbfault

unfoldable pub invalid_task_switch_segment_handler : ℕ → Trapframe → Cmd Kernel (Unit {0})
unfolding user_handler
invalid_task_switch_segment_handler = user_handler Upcall.ivldtss

unfoldable pub segment_not_present_handler : ℕ → Trapframe → Cmd Kernel (Unit {0})
unfolding user_handler
segment_not_present_handler = user_handler Upcall.segntprst

unfoldable pub stack_exception_handler : ℕ → Trapframe → Cmd Kernel (Unit {0})
unfolding user_handler
stack_exception_handler = user_handler Upcall.stkexception

unfoldable pub general_protection_fault_handler : ℕ → Trapframe → Cmd Kernel (Unit {0})
unfolding user_handler
general_protection_fault_handler = user_handler Upcall.gpfault

unfoldable pub floating_point_error_handler : ℕ → Trapframe → Cmd Kernel (Unit {0})
unfolding user_handler
floating_point_error_handler = user_handler Upcall.fperror

unfoldable pub aligment_check_handler : ℕ → Trapframe → Cmd Kernel (Unit {0})
unfolding user_handler
aligment_check_handler = user_handler Upcall.algchk

unfoldable pub machine_check_handler : ℕ → Trapframe → Cmd Kernel (Unit {0})
unfolding user_handler
machine_check_handler = user_handler Upcall.mchchk

unfoldable pub simd_floating_point_error_handler : ℕ → Trapframe → Cmd Kernel (Unit {0})
unfolding user_handler
simd_floating_point_error_handler = user_handler Upcall.simdfperror
