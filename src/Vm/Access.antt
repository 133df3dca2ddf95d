-- ===== src/Vm/Access.antt =====
-- The instructions 0x00 to 0x23 of run_vm: vectors, variables, slots, the stack and scopes.
use move.Base.{ℕ, zero, suc, ◌+◌, ltb, ◌==◌, if◌then◌else◌, pos, ◌+ℤ◌}
use move.Value.{
  Value, same, sy_value, sl_value, sl_owner, sl_flags, t_frame, o_all_r, o_all_w, o_all_x,
}
use move.Heap.{
  Cmd, pure, ◌>>=◌, ◌>>◌, at, atput, length_of, is_null, is_object, is_vector, is_ovector, test,
}
use move.Alloc.{newvector, newvector_noinit}
use move.Text.{codes}
use move.Symbols.{newsym}
use move.Perms.{privileged, o_can, ms_can}
use move.Slots.{findslot, addslot}
use move.Vm.Registers.{Vms, push, pop, peek, code_at, advance}
use move.Vm.Primitives.{Primtab}
use move.Vm.Apply.{throw, ovector_type}

-- The operand byte `n` places behind the instruction.
abbrev pub operand : ℕ → Vms → Cmd ℕ
operand n vms = code_at vms (vms.ip +ℤ pos n)

-- `AT(vm_lits, CODEAT(vm_ip + 1))`
unfoldable pub literal : Vms → Cmd Value
literal vms = do i ← operand 1 vms; at vms.lits i

-- `while (i-- > 0) vm_hold = AT(vm_hold, 0)`: the scope `i` levels out.
unfoldable pub outer_scope : ℕ → Value → Cmd Value
outer_scope zero scope = pure scope
outer_scope (suc i) scope = do next ← at scope 0; outer_scope i next

unfoldable pub mov_a_locl : Vms → Cmd Vms
mov_a_locl vms = do
  depth ← operand 1 vms
  scope ← outer_scope depth vms.env
  i ← operand 2 vms
  v ← at scope (i + 1)
  pure (advance 3 (record vms { acc = v }))

unfoldable pub mov_locl_a : Vms → Cmd Vms
mov_locl_a vms = do
  depth ← operand 1 vms
  scope ← outer_scope depth vms.env
  i ← operand 2 vms
  atput scope (i + 1) vms.acc
  pure (advance 3 vms)

unfoldable pub mov_a_glob : Vms → Cmd Vms
mov_a_glob vms = do
  sym ← literal vms
  v ← at sym sy_value
  pure (advance 2 (record vms { acc = v }))

unfoldable pub mov_a_litl : Vms → Cmd Vms
mov_a_litl vms = do v ← literal vms; pure (advance 2 (record vms { acc = v }))

unfoldable pub op_push : Vms → Cmd Vms
op_push vms = do v ← push vms.acc vms; pure (advance 1 v)

unfoldable pub op_pop : Vms → Cmd Vms
op_pop vms = do (x, v) ← pop vms; pure (advance 1 (record v { acc = x }))

unfoldable pub op_swap : Vms → Cmd Vms
op_swap vms = do (x, v) ← pop vms; w ← push v.acc v; pure (advance 1 (record w { acc = x }))

unfoldable pub op_vector : Vms → Cmd Vms
op_vector vms = do n ← operand 1 vms; x ← newvector n; pure (advance 2 (record vms { acc = x }))

unfoldable pub enter_scope : Vms → Cmd Vms
enter_scope vms = do
  n ← operand 1 vms
  scope ← newvector (n + 1)
  atput scope 0 vms.env
  pure (advance 2 (record vms { env = scope }))

unfoldable pub leave_scope : Vms → Cmd Vms
leave_scope vms = do scope ← at vms.env 0; pure (advance 1 (record vms { env = scope }))

-- `for (i = len - 1; i >= 0; i--) ATPUT(vec, i, POP())`
unfoldable pub pop_into : Value → ℕ → Vms → Cmd Vms
pop_into vec zero vms = pure vms
pop_into vec (suc i) vms = do (x, v) ← pop vms; atput vec i x; pop_into vec i v

unfoldable pub make_vector : Vms → Cmd Vms
make_vector vms = do
  len ← operand 1 vms
  vec ← newvector_noinit len
  v ← pop_into vec len vms
  pure (advance 2 (record v { acc = vec }))

-- The write of OP_MOV_SLOT_A: a slot found in an ancestor is copied into the object first.
unfoldable pub write_slot : (target slotname slot foundin v : Value) → Cmd (Unit {0})
write_slot target slotname slot foundin v =
    if same foundin target then atput slot sl_value v else do
      owner ← at slot sl_owner
      newslot ← addslot target slotname owner
      flags ← at slot sl_flags
      atput newslot sl_flags flags
      atput newslot sl_value v

module _ (depth : ℕ) (tab : Primtab) where
  -- The checks of OP_AT and OP_ATPUT: the length first, then the kind.
  unfoldable pub checked_index : Value → (ℕ → Vms → Cmd Vms) → Vms → Cmd Vms
  checked_index x access vms = do
    i ← operand 1 vms
    len ← length_of x
    isvec ← test (is_vector x)
    if ltb i len
        then (if isvec then access i vms else throw depth tab "vm-runtime-type-error" x vms)
        else throw depth tab "range-check-error" x vms

  unfoldable pub op_at : Vms → Cmd Vms
  op_at vms =
      checked_index vms.acc (λ i v. do x ← at v.acc i; pure (advance 2 (record v { acc = x }))) vms

  unfoldable pub op_atput : Vms → Cmd Vms
  op_atput vms = do
    hold ← peek vms
    checked_index hold (λ i v. do atput hold i v.acc; pure (advance 2 v)) vms

  unfoldable pub mov_a_slot : Vms → Cmd Vms
  mov_a_slot vms = do
    isobj ← test (is_object vms.acc)
    if isobj
        then (do
          slotname ← literal vms
          open_object ← o_can o_all_x vms.acc vms.effuid
          if open_object
              then (do
                (slot, foundin) ← findslot vms.acc slotname
                if is_null slot then throw depth tab "slot-not-found" slotname vms else do
                  readable ← ms_can o_all_r slot vms.effuid
                  if readable
                      then (do v ← at slot sl_value; pure (advance 2 (record vms { acc = v })))
                      else throw depth tab "no-permission" slotname vms)
              else throw depth tab "no-permission" slotname vms)
        else throw depth tab "vm-runtime-type-error" vms.acc vms

  unfoldable pub mov_glob_a : Vms → Cmd Vms
  mov_glob_a vms = do
    allowed ← privileged vms.effuid
    if allowed then (do sym ← literal vms; atput sym sy_value vms.acc; pure (advance 2 vms)) else do
      name ← newsym (codes "setting-global-value")
      throw depth tab "no-permission" name vms

  unfoldable pub mov_fram_a : Vms → Cmd Vms
  mov_fram_a vms = do
    allowed ← privileged vms.effuid
    if allowed
        then (do
          opaque_vector ← test (is_ovector vms.acc)
          if opaque_vector
              then (do
                type ← ovector_type vms.acc
                if type == t_frame
                    then pure (advance 1 (record vms { frame = vms.acc }))
                    else throw depth tab "vm-runtime-type-error" vms.acc vms)
              else throw depth tab "vm-runtime-type-error" vms.acc vms)
        else do
          name ← newsym (codes "restoring-vm-frame-pointer")
          throw depth tab "no-permission" name vms

  unfoldable pub mov_slot_a : Vms → Cmd Vms
  mov_slot_a vms₀ = do
    (target, vms) ← pop vms₀
    isobj ← test (is_object target)
    if isobj
        then (do
          slotname ← literal vms
          open_object ← o_can o_all_x target vms.effuid
          if open_object
              then (do
                (slot, foundin) ← findslot target slotname
                if is_null slot then throw depth tab "slot-not-found" slotname vms else do
                  writable ← ms_can o_all_w slot vms.effuid
                  if writable
                      then (do
                        write_slot target slotname slot foundin vms.acc
                        pure (advance 2 vms))
                      else throw depth tab "no-permission" slotname vms)
              else throw depth tab "no-permission" slotname vms)
        else throw depth tab "vm-runtime-type-error" target vms
