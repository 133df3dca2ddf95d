-- ===== src/Vm/Object/Methods.antt =====
-- The primitives of move/PRIM.object.c on methods.
use move.Base.{ℕ, true, not, ◌||◌, if◌then◌else◌, pos}
use move.Value.{
  Value, undefined, same, mknum, move_true, move_false, to_bits, o_all_r, o_all_w, t_closure,
  cl_method, cl_self, me_name, me_flags, me_owner,
}
use move.Heap.{
  Cmd, pure, ◌>>=◌, ◌>>◌, at, atput, object_of, num_of, is_null, is_num, is_object, test,
}
use move.Alloc.{newovector}
use move.Hashtable.{enumerate_keys}
use move.Slots.{addmethod, findmethod}
use move.Perms.{privileged, o_can, ms_can}
use move.Vm.Registers.{Vms}
use move.Vm.Primitives.{Primtab, PrimFn}
use move.Vm.Compound.{arg, typeerrif, has_type}
use move.Vm.Object.{set_flags, object_and_symbol, ms_can_c, permitted}
use move.Vm.Object.Attributes.{on_object}

module _ (depth : ℕ) (tab : Primtab) where
  unfoldable pub add_meth_fun : PrimFn
  add_meth_fun vms argvec = do
    x ← arg argvec 0
    n ← arg argvec 1
    val ← arg argvec 2
    ok ← object_and_symbol x n
    isclos ← has_type t_closure val
    typeerrif depth tab (not ok || not isclos) argvec vms (do
      can ← o_can o_all_w x vms.effuid
      permitted depth tab can argvec vms (do
        meth ← findmethod x n
        fine ← if is_null meth then pure true else (do
          owner ← at meth me_owner
          if same vms.effuid owner then pure true else ms_can_c meth vms.effuid)
        permitted depth tab fine argvec vms
            (do template ← at val cl_method; addmethod x n vms.effuid template; pure (val, vms))))

  -- The TYPEERRIF on a closure, with its method behind it.
  unfoldable pub on_closure : Value → Value → Vms → (Value → Cmd (Value × Vms)) → Cmd (Value × Vms)
  on_closure c argvec vms body = do
    isclos ← has_type t_closure c
    typeerrif depth tab (not isclos) argvec vms (do meth ← at c cl_method; body meth)

  unfoldable pub meth_owner_fun : PrimFn
  meth_owner_fun vms argvec = do
    c ← arg argvec 0
    on_closure c argvec vms (λ meth. do v ← at meth me_owner; pure (v, vms))

  unfoldable pub set_meth_owner_fun : PrimFn
  set_meth_owner_fun vms argvec = do
    c ← arg argvec 0
    newowner ← arg argvec 1
    isobj ← test (is_object newowner)
    isclos ← has_type t_closure c
    typeerrif depth tab (not isobj || not isclos) argvec vms (do
      meth ← at c cl_method
      allowed ← privileged vms.effuid
      permitted depth tab allowed argvec vms
          (do atput meth me_owner newowner; pure (move_true, vms)))

  unfoldable pub meth_flags_fun : PrimFn
  meth_flags_fun vms argvec = do
    c ← arg argvec 0
    on_closure c argvec vms (λ meth. do v ← at meth me_flags; pure (v, vms))

  unfoldable pub set_meth_flags_fun : PrimFn
  set_meth_flags_fun vms argvec = do
    c ← arg argvec 0
    newflags ← arg argvec 1
    isclos ← has_type t_closure c
    typeerrif depth tab (not (is_num newflags) || not isclos) argvec vms (do
      meth ← at c cl_method
      owner ← at meth me_owner
      allowed ← if same vms.effuid owner then pure true else privileged vms.effuid
      permitted depth tab allowed argvec vms (do
        flags ← at meth me_flags
        old ← num_of flags
        new ← num_of newflags
        atput meth me_flags (mknum (pos (set_flags (to_bits old) (to_bits new))))
        pure (move_true, vms)))

  unfoldable pub meth_name_fun : PrimFn
  meth_name_fun vms argvec = do
    c ← arg argvec 0
    on_closure c argvec vms (λ meth. do v ← at meth me_name; pure (v, vms))

  unfoldable pub get_methods_fun : PrimFn
  get_methods_fun vms argvec = do
    x ← arg argvec 0
    isobj ← test (is_object x)
    typeerrif depth tab (not isobj) argvec vms (do
      can ← o_can o_all_r x vms.effuid
      permitted depth tab can argvec vms
          (do o ← object_of x; result ← enumerate_keys o.methods; pure (result, vms)))

  unfoldable pub has_meth_fun : PrimFn
  has_meth_fun vms argvec = do
    x ← arg argvec 0
    n ← arg argvec 1
    on_object depth tab o_all_r x n argvec vms
        (do meth ← findmethod x n; pure (if is_null meth then move_false else move_true, vms))

  unfoldable pub meth_ref_fun : PrimFn
  meth_ref_fun vms argvec = do
    x ← arg argvec 0
    n ← arg argvec 1
    ok ← object_and_symbol x n
    typeerrif depth tab (not ok) argvec vms (do
      meth ← findmethod x n
      if is_null meth then pure (undefined, vms) else do
        can ← ms_can o_all_r meth vms.effuid
        permitted depth tab can argvec vms (do
          result ← newovector 2 t_closure
          atput result cl_method meth
          atput result cl_self x
          pure (result, vms)))
