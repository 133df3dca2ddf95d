-- ===== src/Vm/Call.antt =====
-- The instructions 0x31 to 0x42 of run_vm: closures, calls, returns and jumps.
use move.Base.{ℕ, Bool, true, false, ◌||◌, if◌then◌else◌, pos, ◌+ℤ◌, eq_ℤ, sub_ℕ}
use move.Value.{
  Value, same, move_false, t_method, t_closure, cl_method, cl_self, me_env, me_owner, me_argc,
  o_all_r, o_all_x,
}
use move.Heap.{
  Cmd, pure, ◌>>=◌, ◌>>◌, at, atput, length_of, num_of, is_null, is_object, tagged, test,
}
use move.Alloc.{newovector}
use move.Perms.{ms_can}
use move.Slots.{findmethod}
use move.Vm.Registers.{Vms, dying, pop, push_frame, restoreframe, offset_at, advance, copy_cells}
use move.Vm.Primitives.{Primtab}
use move.Vm.Apply.{throw, apply_depth, enter_method}
use move.Vm.Access.{literal}

-- make_closure_from
unfoldable pub make_closure_from : (method self env effuid : Value) → Cmd Value
make_closure_from method self env effuid = do
  nmeth ← newovector 8 t_method
  nclos ← newovector 2 t_closure
  copy_cells method nmeth 8 0
  atput nmeth me_env env
  atput nmeth me_owner effuid
  atput nclos cl_method nmeth
  atput nclos cl_self self
  pure nclos

unfoldable pub op_closure : Vms → Cmd Vms
op_closure vms = do
  c ← make_closure_from vms.acc vms.self vms.env vms.effuid
  pure (advance 1 (record vms { acc = c }))

-- OP_RET; the Boolean is the result of run_vm where it returns at once.
unfoldable pub op_ret : Vms → Cmd (Bool × Vms)
op_ret vms = if is_null vms.frame then pure (true, record vms { state = dying }) else do
  v ← restoreframe vms.frame vms
  pure (if is_null v.code then (true, record v { state = dying }) else (false, v))

unfoldable pub op_jump : Vms → Cmd Vms
op_jump vms = do
  off ← offset_at vms (vms.ip +ℤ pos 1)
  pure (record vms { ip = vms.ip +ℤ (pos 3 +ℤ off) })

unfoldable pub jump_true : Vms → Cmd Vms
jump_true vms = if same vms.acc move_false then pure (advance 3 vms) else op_jump vms

unfoldable pub jump_false : Vms → Cmd Vms
jump_false vms = if same vms.acc move_false then op_jump vms else pure (advance 3 vms)

module _ (depth : ℕ) (tab : Primtab) where
  unfoldable pub method_closure : Vms → Cmd Vms
  method_closure vms = do
    methname ← literal vms
    isobj ← test (is_object vms.acc)
    if isobj
        then (do
          method ← findmethod vms.acc methname
          if is_null method then throw depth tab "method-not-found" methname vms else do
            allowed ← ms_can o_all_r method vms.effuid
            if allowed
                then (do
                  hold ← newovector 2 t_closure
                  atput hold cl_method method
                  atput hold cl_self vms.acc
                  pure (advance 2 (record vms { acc = hold })))
                else throw depth tab "no-permission" methname vms)
        else throw depth tab "vm-runtime-type-error" vms.acc vms

  -- OP_CALL and OP_CALL_AS behind the test for NULL; `self` is the new self object.
  unfoldable pub call_method : Value → Value → Vms → Cmd Vms
  call_method methname self vms = do
    isobj ← test (is_object vms.acc)
    if isobj
        then (do
          method ← findmethod vms.acc methname
          if is_null method then throw depth tab "method-not-found" methname vms else do
            allowed ← ms_can o_all_x method vms.effuid
            if allowed
                then (do
                  (hold, v) ← pop vms
                  len ← length_of hold
                  argc ← num_of (← at method me_argc)
                  if eq_ℤ (sub_ℕ len 1) argc
                      then (do w ← push_frame (advance 2 v); enter_method method self hold w)
                      else throw depth tab "wrong-argc" methname v)
                else throw depth tab "no-permission" methname vms)
        else throw depth tab "vm-runtime-type-error" vms.acc vms

  unfoldable pub op_call : Vms → Cmd Vms
  op_call vms = do
    methname ← literal vms
    if is_null vms.acc || tagged vms.acc
        then throw depth tab "null-call-error" methname vms
        else call_method methname vms.acc vms

  unfoldable pub op_call_as : Vms → Cmd Vms
  op_call_as vms = do
    methname ← literal vms
    if is_null vms.self || (is_null vms.acc || tagged vms.acc)
        then throw depth tab "null-call-error" methname vms
        else call_method methname vms.self vms

  -- OP_APPLY; the argument vector is popped first.
  unfoldable pub op_apply : Vms → Cmd Vms
  op_apply vms = do (argvec, v) ← pop (advance 1 vms); apply_depth depth tab v.acc argvec v
