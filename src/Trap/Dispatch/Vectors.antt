-- ===== src/Trap/Dispatch/Vectors.antt =====
-- The processor's exceptions and the handlers that `trap_dispatch` of kern/trap.c gives them to.
use challenge.Base.{ℕ, ◌≡◌, refl}
use challenge.Env.State.{Upcall, Trapframe}
use challenge.Trap.Handlers.{
  user_handler, page_fault_handler, divide_zero_handler, debug_exception_handler,
  non_maskable_interrupt_handler, breakpoint_handler, overflow_handler, bounds_check_handler,
  illegal_opcode_handler, device_not_available_handler, double_fault_handler,
  invalid_task_switch_segment_handler, segment_not_present_handler, stack_exception_handler,
  general_protection_fault_handler, floating_point_error_handler, aligment_check_handler,
  machine_check_handler, simd_floating_point_error_handler,
}
use challenge.Trap.Dispatch.{trap_dispatch}

-- The vector of each exception, as inc/trap.h numbers them.
abbrev pub vector : Upcall → ℕ
vector Upcall.divzero = 0
vector Upcall.debug = 1
vector Upcall.nmskint = 2
vector Upcall.bpoint = 3
vector Upcall.oflow = 4
vector Upcall.bdschk = 5
vector Upcall.illopcd = 6
vector Upcall.dvcntavl = 7
vector Upcall.dbfault = 8
vector Upcall.ivldtss = 10
vector Upcall.segntprst = 11
vector Upcall.stkexception = 12
vector Upcall.gpfault = 13
vector Upcall.pgfault = 14
vector Upcall.fperror = 16
vector Upcall.algchk = 17
vector Upcall.mchchk = 18
vector Upcall.simdfperror = 19

-- `trap_dispatch` gives each of the 18 exceptions, by its number in inc/trap.h, to a handler that
-- works with the upcall of the same name.
pub trap_dispatch-vector :
    (u : Upcall) (fault_va : ℕ) (tf : Trapframe)
    → tf.tf_trapno ≡ vector u
    → trap_dispatch fault_va tf ≡ user_handler u fault_va tf
unfolding trap_dispatch page_fault_handler divide_zero_handler debug_exception_handler
    non_maskable_interrupt_handler breakpoint_handler overflow_handler bounds_check_handler
    illegal_opcode_handler device_not_available_handler double_fault_handler
    invalid_task_switch_segment_handler segment_not_present_handler stack_exception_handler
    general_protection_fault_handler floating_point_error_handler aligment_check_handler
    machine_check_handler simd_floating_point_error_handler
trap_dispatch-vector Upcall.pgfault fault_va tf h = rw h refl
trap_dispatch-vector Upcall.divzero fault_va tf h = rw h refl
trap_dispatch-vector Upcall.debug fault_va tf h = rw h refl
trap_dispatch-vector Upcall.nmskint fault_va tf h = rw h refl
trap_dispatch-vector Upcall.bpoint fault_va tf h = rw h refl
trap_dispatch-vector Upcall.oflow fault_va tf h = rw h refl
trap_dispatch-vector Upcall.bdschk fault_va tf h = rw h refl
trap_dispatch-vector Upcall.illopcd fault_va tf h = rw h refl
trap_dispatch-vector Upcall.dvcntavl fault_va tf h = rw h refl
trap_dispatch-vector Upcall.dbfault fault_va tf h = rw h refl
trap_dispatch-vector Upcall.ivldtss fault_va tf h = rw h refl
trap_dispatch-vector Upcall.segntprst fault_va tf h = rw h refl
trap_dispatch-vector Upcall.stkexception fault_va tf h = rw h refl
trap_dispatch-vector Upcall.gpfault fault_va tf h = rw h refl
trap_dispatch-vector Upcall.fperror fault_va tf h = rw h refl
trap_dispatch-vector Upcall.algchk fault_va tf h = rw h refl
trap_dispatch-vector Upcall.mchchk fault_va tf h = rw h refl
trap_dispatch-vector Upcall.simdfperror fault_va tf h = rw h refl
