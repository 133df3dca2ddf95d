-- ===== src/Vm/Exec.antt =====
-- run_vm of move/vm.c: the `switch`, the quota, and the time slice.
pub mod Flow
pub mod Numbers
pub mod Resume
pub mod Division
pub mod Negation
pub mod Quota
use move.Base.{
  ℕ, zero, suc, ◌-◌, Bool, true, false, none, some, not, ◌&&◌, if◌then◌else◌, pos, eq_ℤ, ltb_ℤ,
  ◌-ℤ◌,
}
use move.Value.{Value, null, same, yield_thread}
use move.Heap.{Cmd, terminate, pure, ◌>>=◌, ◌>>◌}
use move.Vm.Bytecode.{
  Op, op_at, op_atput, mov_a_locl, mov_a_glob, mov_a_slot, mov_a_litl, mov_a_self, mov_a_fram,
  mov_locl_a, mov_glob_a, mov_slot_a, mov_fram_a, op_push, op_pop, op_swap, op_vector, enter_scope,
  leave_scope, make_vector, op_closure, method_closure, op_ret, op_call, op_call_as, op_apply,
  op_jump, jump_true, jump_false, op_not, op_eq, op_ne, op_gt, op_lt, op_ge, op_le, op_neg, op_bnot,
  op_bor, op_band, op_plus, op_minus, op_star, op_slash, op_percent, decode,
}
use move.Vm.Registers.{Vms, dying, vm_default_cpu_quota, code_at, advance}
use move.Vm.Primitives.{Primtab}
use move.Vm.Apply.{throw}
use move.Vm.Arith
use move.Vm.Arith.{binary, gt, lt, ge, le, bor, band, minus, star}
use move.Vm.Access
use move.Vm.Call

abbrev go_on : Cmd Vms → Cmd (Bool × Vms)
go_on m = do v ← m; pure (false, v)

-- The condition of the `while` besides the ticks.
abbrev pub may_run : Vms → Bool
may_run vms = not (eq_ℤ vms.state dying) && not (same vms.acc yield_thread)

abbrev pub vm_timeslice_ticks : ℕ
vm_timeslice_ticks = 2000

module _ (depth : ℕ) (tab : Primtab) where
  -- One `case` of the `switch`; only OP_RET may end the thread.
  unfoldable pub exec : Op → Vms → Cmd (Bool × Vms)
  exec op_at vms = go_on (Access.op_at depth tab vms)
  exec op_atput vms = go_on (Access.op_atput depth tab vms)
  exec mov_a_locl vms = go_on (Access.mov_a_locl vms)
  exec mov_a_glob vms = go_on (Access.mov_a_glob vms)
  exec mov_a_slot vms = go_on (Access.mov_a_slot depth tab vms)
  exec mov_a_litl vms = go_on (Access.mov_a_litl vms)
  exec mov_a_self vms = pure (false, advance 1 (record vms { acc = vms.self }))
  exec mov_a_fram vms = pure (false, advance 1 (record vms { acc = vms.frame }))
  exec mov_locl_a vms = go_on (Access.mov_locl_a vms)
  exec mov_glob_a vms = go_on (Access.mov_glob_a depth tab vms)
  exec mov_slot_a vms = go_on (Access.mov_slot_a depth tab vms)
  exec mov_fram_a vms = go_on (Access.mov_fram_a depth tab vms)
  exec op_push vms = go_on (Access.op_push vms)
  exec op_pop vms = go_on (Access.op_pop vms)
  exec op_swap vms = go_on (Access.op_swap vms)
  exec op_vector vms = go_on (Access.op_vector vms)
  exec enter_scope vms = go_on (Access.enter_scope vms)
  exec leave_scope vms = go_on (Access.leave_scope vms)
  exec make_vector vms = go_on (Access.make_vector vms)
  exec op_closure vms = go_on (Call.op_closure vms)
  exec method_closure vms = go_on (Call.method_closure depth tab vms)
  exec op_ret vms = Call.op_ret vms
  exec op_call vms = go_on (Call.op_call depth tab vms)
  exec op_call_as vms = go_on (Call.op_call_as depth tab vms)
  exec op_apply vms = go_on (Call.op_apply depth tab vms)
  exec op_jump vms = go_on (Call.op_jump vms)
  exec jump_true vms = go_on (Call.jump_true vms)
  exec jump_false vms = go_on (Call.jump_false vms)
  exec op_not vms = go_on (Arith.op_not vms)
  exec op_eq vms = go_on (Arith.op_eq vms)
  exec op_ne vms = go_on (Arith.op_ne vms)
  exec op_gt vms = go_on (binary depth tab gt vms)
  exec op_lt vms = go_on (binary depth tab lt vms)
  exec op_ge vms = go_on (binary depth tab ge vms)
  exec op_le vms = go_on (binary depth tab le vms)
  exec op_neg vms = go_on (Arith.op_neg depth tab vms)
  exec op_bnot vms = go_on (Arith.op_bnot depth tab vms)
  exec op_bor vms = go_on (binary depth tab bor vms)
  exec op_band vms = go_on (binary depth tab band vms)
  exec op_plus vms = go_on (Arith.op_plus depth tab vms)
  exec op_minus vms = go_on (binary depth tab minus vms)
  exec op_star vms = go_on (binary depth tab star vms)
  exec op_slash vms = go_on (Arith.op_slash depth tab vms)
  exec op_percent vms = go_on (Arith.op_percent depth tab vms)

  -- The quota: a positive `state` loses a cycle; when none is left the thread gets a new quota and
  -- an exception, and loses its trap.
  unfoldable pub charge : Vms → Cmd Vms
  charge vms =
      if ltb_ℤ (pos 0) vms.state
      then (if eq_ℤ vms.state (pos 1)
          then (do
            v ← throw depth tab "quota-expired" null (record vms { state = vm_default_cpu_quota })
            pure (record v { trap_closure = null }))
          else pure (record vms { state = vms.state -ℤ pos 1 }))
      else pure vms

  -- One round of the `while`: gc_reach_safepoint is the argument `safepoint`.
  unfoldable pub step : (Vms → Cmd (Unit {0})) → Vms → Cmd (Bool × Vms)
  step safepoint vms = do
    v ← charge vms
    safepoint v
    b ← code_at v v.ip
    elim (decode b) [ none ↦ terminate 64 | some op ↦ exec op v ]

  -- run_vm with `ticks` left; the Boolean says that the thread has ended.
  unfoldable pub run_ticks : (Vms → Cmd (Unit {0})) → ℕ → Vms → Cmd (Bool × Vms)
  run_ticks safepoint zero vms = pure (eq_ℤ vms.state dying, vms)
  run_ticks safepoint (suc ticks) vms =
      if may_run vms
      then (do
        (finished, v) ← step safepoint vms
        if finished then pure (true, v) else run_ticks safepoint ticks v)
      else pure (eq_ℤ vms.state dying, vms)

  unfoldable pub run_vm : (Vms → Cmd (Unit {0})) → Vms → Cmd (Bool × Vms)
  run_vm safepoint vms = run_ticks safepoint vm_timeslice_ticks vms
