-- ===== src/Vm/Object/Owners.antt =====
-- The primitives of move/PRIM.object.c on objects as a whole, from cloneFun to setParentsFun.
use Prim.Native.Nat.{bit_or}
use move.Base.{ℕ, zero, suc, ◌+◌, Bool, true, not, ◌||◌, if◌then◌else◌, pos}
use move.Value.{Value, same, mknum, move_true, move_false, to_bits, o_privileged}
use move.Heap.{
  Cmd, pure, ◌>>=◌, ◌>>◌, at, atput, length_of, object_of, num_of, is_null, is_num, is_object,
  is_vector, test,
}
use move.Alloc.{newvector_noinit}
use move.Objects.{newobject, vector_clone}
use move.Perms.{privileged}
use move.Vm.Registers.{Vms}
use move.Vm.Primitives.{Primtab, PrimFn}
use move.Vm.Compound.{arg, typeerrif}
use move.Vm.Object.{without_bits, set_flags, edit_object, owns, check_clonable}

-- What the loop over a vector of parents finds.
pub data Checked : Type 0 where
  not_an_object not_clonable clonable : Checked

-- The loop of cloneFun and setParentsFun over a vector of parents, from index `i` on.
unfoldable pub check_parents : Value → Value → ℕ → ℕ → Cmd Checked
check_parents effuid p zero i = pure clonable
check_parents effuid p (suc k) i = do
  x ← at p i
  isobj ← test (is_object x)
  if isobj
      then (do
        fine ← check_clonable effuid x
        if fine then check_parents effuid p k (i + 1) else pure not_clonable)
      else pure not_an_object

-- `(OBJ) true` or `(OBJ) false`
abbrev pub truth : Bool → Value
truth b = if b then move_true else move_false

-- `if (VECTORP(p)) ... else ...` of cloneFun and setParentsFun.
unfoldable pub check_parent : Value → Value → Cmd Checked
check_parent effuid p = do
  isvec ← test (is_vector p)
  if isvec
      then (do len ← length_of p; check_parents effuid p len 0)
      else (do fine ← check_clonable effuid p; pure (if fine then clonable else not_clonable))

module _ (depth : ℕ) (tab : Primtab) where
  -- TYPEERRIF, `return false`, or the rest of the function.
  unfoldable pub on_checked : Checked → Value → Vms → Cmd (Value × Vms) → Cmd (Value × Vms)
  on_checked not_an_object argvec vms body = typeerrif depth tab true argvec vms body
  on_checked not_clonable argvec vms body = pure (move_false, vms)
  on_checked clonable argvec vms body = body

  -- `self` is the number of the current thread, 0 without one.
  unfoldable pub clone_fun : ℕ → PrimFn
  clone_fun self vms argvec = do
    p ← arg argvec 0
    isobj ← test (is_object p)
    isvec ← test (is_vector p)
    typeerrif depth tab (not (isobj || isvec)) argvec vms (do
      checked ← check_parent vms.effuid p
      on_checked checked argvec vms (do result ← newobject self p vms.effuid; pure (result, vms)))

  unfoldable pub priv_fun : PrimFn
  priv_fun vms argvec = do
    x ← arg argvec 0
    isobj ← test (is_object x)
    typeerrif depth tab (not isobj) argvec vms
        (if is_null x then pure (move_false, vms) else do b ← privileged x; pure (truth b, vms))

  unfoldable pub set_priv_fun : PrimFn
  set_priv_fun vms argvec = do
    x ← arg argvec 0
    v ← arg argvec 1
    isobj ← test (is_object x)
    typeerrif depth tab (not isobj) argvec vms (do
      allowed ← privileged vms.effuid
      if allowed
          then (do
            edit_object x (λ o. record o {
              flags =
                  if same v move_false
                  then without_bits o.flags o_privileged
                  else bit_or o.flags o_privileged;
            })
            pure (move_true, vms))
          else pure (move_false, vms))

  unfoldable pub get_o_flags_fun : PrimFn
  get_o_flags_fun vms argvec = do
    x ← arg argvec 0
    isobj ← test (is_object x)
    typeerrif depth tab (not isobj) argvec vms (do o ← object_of x; pure (mknum (pos o.flags), vms))

  unfoldable pub set_o_flags_fun : PrimFn
  set_o_flags_fun vms argvec = do
    x ← arg argvec 0
    f ← arg argvec 1
    isobj ← test (is_object x)
    typeerrif depth tab (not isobj || not (is_num f)) argvec vms (do
      allowed ← owns vms.effuid x
      if allowed
          then (do
            n ← num_of f
            edit_object x (λ o. record o { flags = set_flags o.flags (to_bits n) })
            pure (move_true, vms))
          else pure (move_false, vms))

  unfoldable pub owner_fun : PrimFn
  owner_fun vms argvec = do
    x ← arg argvec 0
    isobj ← test (is_object x)
    typeerrif depth tab (not isobj) argvec vms (do o ← object_of x; pure (o.owner, vms))

  unfoldable pub set_owner_fun : PrimFn
  set_owner_fun vms argvec = do
    x ← arg argvec 0
    w ← arg argvec 1
    isobj ← test (is_object x)
    isobj' ← test (is_object w)
    typeerrif depth tab (not isobj || not isobj') argvec vms (do
      allowed ← privileged vms.effuid
      if allowed
          then (do edit_object x (λ o. record o { owner = w }); pure (move_true, vms))
          else pure (move_false, vms))

  unfoldable pub group_fun : PrimFn
  group_fun vms argvec = do
    x ← arg argvec 0
    isobj ← test (is_object x)
    typeerrif depth tab (not isobj) argvec vms (do
      allowed ← privileged vms.effuid
      if allowed then (do o ← object_of x; pure (o.group, vms)) else pure (move_false, vms))

  unfoldable pub set_group_fun : PrimFn
  set_group_fun vms argvec = do
    x ← arg argvec 0
    g ← arg argvec 1
    isobj ← test (is_object x)
    isvec ← test (is_vector g)
    typeerrif depth tab (not isobj || not isvec) argvec vms (do
      allowed ← privileged vms.effuid
      if allowed
          then (do edit_object x (λ o. record o { group = g }); pure (move_true, vms))
          else pure (move_false, vms))

  unfoldable pub parents_fun : PrimFn
  parents_fun vms argvec = do
    x ← arg argvec 0
    isobj ← test (is_object x)
    typeerrif depth tab (not isobj) argvec vms (do
      o ← object_of x
      isvec ← test (is_vector o.parents)
      if isvec
          then (do v ← vector_clone o.parents; pure (v, vms))
          else (do result ← newvector_noinit 1; atput result 0 o.parents; pure (result, vms)))

  unfoldable pub set_parents_fun : PrimFn
  set_parents_fun vms argvec = do
    x ← arg argvec 0
    p ← arg argvec 1
    isobj ← test (is_object x)
    isobj' ← test (is_object p)
    isvec ← test (is_vector p)
    typeerrif depth tab (not isobj || not (isobj' || isvec)) argvec vms (do
      allowed ← privileged vms.effuid
      if allowed
          then (do
            checked ← check_parent vms.effuid p
            on_checked checked argvec vms
                (do edit_object x (λ o. record o { parents = p }); pure (move_true, vms)))
          else pure (move_false, vms))
