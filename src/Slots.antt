-- ===== src/Slots.antt =====
-- Slots and methods of objects, and their inheritance: move/slot.c and move/method.c.
pub mod Find
pub mod Search
use move.Base.{ℕ, zero, suc, ◌+◌, Bool, true, false, List, [], ◌∷◌, if◌then◌else◌, pos}
use move.Value.{
  Value, null, num, undefined, t_slot, t_method, sl_flags, sl_value, sl_owner, me_name, me_flags,
  me_code, me_owner, me_lits, me_env, me_argc, hashlink_name, hashlink_next, mknum, bvector,
  o_owner_mask, o_perms_mask, o_setuid,
}
use move.Heap.{
  Cmd, pure, no_fuel, get_heap, ◌>>=◌, ◌>>◌, at, atput, length_of, object_of, is_null, is_object,
  test, getmem,
}
use move.Alloc.{newovector}
use move.Symbols.{newsym}
use move.Text.{codes}
use move.Hashtable.{hashtable_get, hashtable_put, hashtable_remove}

unfoldable pub addslot : Value → Value → Value → Cmd Value
unfolding newovector atput object_of mknum
addslot obj namesym owner = do
  s ← newovector 5 t_slot
  atput s hashlink_name namesym
  atput s hashlink_next null
  atput s sl_flags (mknum (pos o_owner_mask))
  atput s sl_value undefined
  atput s sl_owner owner
  o ← object_of obj
  hashtable_put o.attributes namesym s
  pure s

-- The `for` over a vector of parents: the first lookup that does not give NULL.
pub first_parent : (Value → Cmd (Value × Value)) → Value → ℕ → ℕ → Cmd (Value × Value)
first_parent find parents zero i = pure (null, null)
first_parent find parents (suc n) i = do
  x ← at parents i
  (s, foundin) ← find x
  if is_null s then first_parent find parents n (i + 1) else pure (s, foundin)

-- findslot, with the object that the slot was found in.
pub findslot_fuel : ℕ → Value → Value → Cmd (Value × Value)
findslot_fuel zero namesym obj = no_fuel
findslot_fuel (suc n) namesym obj = do
  o ← object_of obj
  s ← hashtable_get o.attributes namesym
  if is_null s
      then (if is_null o.parents then pure (null, null) else do
        single ← test (is_object o.parents)
        if single then findslot_fuel n namesym o.parents else do
          len ← length_of o.parents
          first_parent (findslot_fuel n namesym) o.parents len 0)
      else pure (s, obj)

unfoldable pub findslot : Value → Value → Cmd (Value × Value)
unfolding findslot_fuel first_parent object_of at length_of
findslot obj namesym = do heap ← get_heap; findslot_fuel (suc heap.fresh) namesym obj

unfoldable pub delslot : Value → Value → Cmd (Unit {0})
unfolding object_of
delslot obj namesym = do o ← object_of obj; hashtable_remove o.attributes namesym

-- newcompilertemplate(argc, code, codelen, littab)
unfoldable pub newcompilertemplate : ℕ → List ℕ → Value → Cmd Value
unfolding newovector getmem atput mknum
newcompilertemplate argc code littab = do
  s ← newovector 8 t_method
  b ← getmem (bvector code)
  name ← newsym (codes "anonymous-method")
  atput s me_name name
  atput s hashlink_next null
  atput s me_flags (mknum (pos o_perms_mask))
  atput s me_code b
  atput s me_owner null
  atput s me_lits littab
  atput s me_env null
  atput s me_argc (mknum (pos argc))
  pure s

unfoldable pub addmethod : Value → Value → Value → Value → Cmd (Unit {0})
unfolding newovector atput at object_of mknum
addmethod obj namesym owner template = do
  s ← newovector 8 t_method
  atput s me_name namesym
  atput s hashlink_next null
  atput s me_flags (mknum (pos (o_perms_mask + o_setuid)))
  atput s me_code (← at template me_code)
  atput s me_owner owner
  atput s me_lits (← at template me_lits)
  atput s me_env (← at template me_env)
  atput s me_argc (← at template me_argc)
  o ← object_of obj
  hashtable_put o.methods namesym s

-- The `for` of findmethod.
pub first_method : (Value → Cmd Value) → Value → ℕ → ℕ → Cmd Value
first_method find parents zero i = pure null
first_method find parents (suc n) i = do
  x ← at parents i
  s ← find x
  if is_null s then first_method find parents n (i + 1) else pure s

-- findmethod. There is no `break` behind the `for`: when it ends, the `while (1)` starts over with
-- the same object.
pub findmethod_fuel : ℕ → Value → Value → Cmd Value
findmethod_fuel zero namesym obj = no_fuel
findmethod_fuel (suc n) namesym obj = do
  o ← object_of obj
  s ← hashtable_get o.methods namesym
  if is_null s
      then (if is_null o.parents then pure null else do
        single ← test (is_object o.parents)
        if single then findmethod_fuel n namesym o.parents else do
          len ← length_of o.parents
          found ← first_method (findmethod_fuel n namesym) o.parents len 0
          if is_null found then findmethod_fuel n namesym obj else pure found)
      else pure s

unfoldable pub findmethod : Value → Value → Cmd Value
unfolding findmethod_fuel first_method object_of at length_of
findmethod obj namesym = do heap ← get_heap; findmethod_fuel (suc heap.fresh) namesym obj
