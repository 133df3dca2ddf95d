-- ===== src/Vm/Object/Attributes.antt =====
-- The primitives of move/PRIM.object.c on slots.
use Prim.Native.Nat.{bit_and}
use move.Base.{ℕ, true, not, ◌||◌, if◌then◌else◌, pos}
use move.Value.{
  Value, undefined, same, mknum, move_true, move_false, to_bits, o_all_r, o_all_w, o_all_x,
  sl_flags, sl_value, sl_owner,
}
use move.Heap.{
  Cmd, pure, ◌>>=◌, ◌>>◌, at, atput, object_of, num_of, is_null, is_num, is_object, test,
}
use move.Hashtable.{enumerate_keys}
use move.Slots.{addslot, delslot, findslot}
use move.Perms.{privileged, o_can, ms_can}
use move.Vm.Registers.{Vms}
use move.Vm.Primitives.{Primtab, PrimFn}
use move.Vm.Compound.{arg, typeerrif, raise_undefined}
use move.Vm.Object.{settable, object_and_symbol, ms_can_c, permitted}

module _ (depth : ℕ) (tab : Primtab) where
  -- The TYPEERRIF on an object and a symbol, and the O_CAN test with `f` behind it.
  unfoldable pub on_object : ℕ → Value → Value → Value → Vms → Cmd (Value × Vms) → Cmd (Value × Vms)
  on_object f x n argvec vms body = do
    ok ← object_and_symbol x n
    typeerrif depth tab (not ok) argvec vms
        (do can ← o_can f x vms.effuid; permitted depth tab can argvec vms body)

  -- `if (slot == NULL) { vm_raise(...); return undefined; }`
  unfoldable pub found_slot : Value → Value → Vms → Cmd (Value × Vms) → Cmd (Value × Vms)
  found_slot slot name vms body =
      if is_null slot then raise_undefined depth tab "slot-not-found" name vms else body

  unfoldable pub slot_ref_fun : PrimFn
  slot_ref_fun vms argvec = do
    x ← arg argvec 0
    n ← arg argvec 1
    on_object o_all_x x n argvec vms (do
      (slot, foundin) ← findslot x n
      if is_null slot then pure (undefined, vms) else do
        can ← ms_can o_all_r slot vms.effuid
        permitted depth tab can argvec vms (do v ← at slot sl_value; pure (v, vms)))

  unfoldable pub slot_set_fun : PrimFn
  slot_set_fun vms argvec = do
    x ← arg argvec 0
    n ← arg argvec 1
    val ← arg argvec 2
    on_object o_all_x x n argvec vms (do
      (slot, foundin) ← findslot x n
      found_slot slot n vms (do
        can ← ms_can o_all_w slot vms.effuid
        permitted depth tab can argvec vms (
            if same foundin x then (do atput slot sl_value val; pure (val, vms)) else (do
              owner ← at slot sl_owner
              newslot ← addslot x n owner
              flags ← at slot sl_flags
              atput newslot sl_flags flags
              atput newslot sl_value val
              pure (val, vms)))))

  unfoldable pub add_slot_fun : PrimFn
  add_slot_fun vms argvec = do
    x ← arg argvec 0
    n ← arg argvec 1
    val ← arg argvec 2
    on_object o_all_w x n argvec vms (do
      (slot, foundin) ← findslot x n
      can ← if is_null slot then pure true else ms_can_c slot vms.effuid
      permitted depth tab can argvec vms (
          if is_null slot || not (same foundin x)
          then (do newslot ← addslot x n vms.effuid; atput newslot sl_value val; pure (val, vms))
          else (do atput slot sl_owner vms.effuid; atput slot sl_value val; pure (val, vms))))

  unfoldable pub slot_owner_fun : PrimFn
  slot_owner_fun vms argvec = do
    x ← arg argvec 0
    n ← arg argvec 1
    on_object o_all_x x n argvec vms (do
      (slot, foundin) ← findslot x n
      found_slot slot n vms (do v ← at slot sl_owner; pure (v, vms)))

  unfoldable pub set_slot_owner_fun : PrimFn
  set_slot_owner_fun vms argvec = do
    x ← arg argvec 0
    n ← arg argvec 1
    newown ← arg argvec 2
    ok ← object_and_symbol x n
    isobj ← test (is_object newown)
    typeerrif depth tab (not ok || not isobj) argvec vms (do
      can ← o_can o_all_x x vms.effuid
      permitted depth tab can argvec vms (do
        (slot, foundin) ← findslot x n
        found_slot slot n vms (do
          allowed ← privileged vms.effuid
          permitted depth tab allowed argvec vms (
              if same foundin x then (do atput slot sl_owner newown; pure (move_true, vms)) else (do
                newslot ← addslot x n newown
                flags ← at slot sl_flags
                atput newslot sl_flags flags
                v ← at slot sl_value
                atput newslot sl_value v
                pure (move_true, vms))))))

  unfoldable pub slot_flags_fun : PrimFn
  slot_flags_fun vms argvec = do
    x ← arg argvec 0
    n ← arg argvec 1
    on_object o_all_x x n argvec vms (do
      (slot, foundin) ← findslot x n
      found_slot slot n vms (do v ← at slot sl_flags; pure (v, vms)))

  unfoldable pub set_slot_flags_fun : PrimFn
  set_slot_flags_fun vms argvec = do
    x ← arg argvec 0
    n ← arg argvec 1
    flags ← arg argvec 2
    ok ← object_and_symbol x n
    typeerrif depth tab (not ok || not (is_num flags)) argvec vms (do
      can ← o_can o_all_x x vms.effuid
      permitted depth tab can argvec vms (do
        (slot, foundin) ← findslot x n
        found_slot slot n vms (do
          owner ← at slot sl_owner
          allowed ← if same vms.effuid owner then pure true else privileged vms.effuid
          permitted depth tab allowed argvec vms (do
            f ← num_of flags
            let newflags = mknum (pos (bit_and (to_bits f) settable))
            if same foundin x then (do atput slot sl_flags newflags; pure (move_true, vms)) else (do
              newslot ← addslot x n owner
              atput newslot sl_flags newflags
              v ← at slot sl_value
              atput newslot sl_value v
              pure (move_true, vms))))))

  unfoldable pub get_slots_fun : PrimFn
  get_slots_fun vms argvec = do
    x ← arg argvec 0
    isobj ← test (is_object x)
    typeerrif depth tab (not isobj) argvec vms (do
      can ← o_can o_all_r x vms.effuid
      permitted depth tab can argvec vms
          (do o ← object_of x; result ← enumerate_keys o.attributes; pure (result, vms)))

  unfoldable pub has_slot_fun : PrimFn
  has_slot_fun vms argvec = do
    x ← arg argvec 0
    n ← arg argvec 1
    on_object o_all_r x n argvec vms (do
      (slot, foundin) ← findslot x n
      pure (if is_null slot then move_false else move_true, vms))

  unfoldable pub slot_clear_p_fun : PrimFn
  slot_clear_p_fun vms argvec = do
    x ← arg argvec 0
    n ← arg argvec 1
    on_object o_all_r x n argvec vms (do
      (slot, foundin) ← findslot x n
      pure (if is_null slot || not (same foundin x) then move_true else move_false, vms))

  unfoldable pub clear_slot_fun : PrimFn
  clear_slot_fun vms argvec = do
    x ← arg argvec 0
    n ← arg argvec 1
    on_object o_all_w x n argvec vms (do delslot x n; pure (undefined, vms))
