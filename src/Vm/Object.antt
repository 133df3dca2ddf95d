-- ===== src/Vm/Object.antt =====
-- What the primitives of move/PRIM.object.c share: their guards, and the search that `isa` does.
pub mod Owners
pub mod Attributes
pub mod Methods
pub mod Places
pub mod Locks
pub mod Ancestry
pub mod Refusals
pub mod Install
use Prim.Native.Nat.{bit_and, bit_or}
use move.Base.{
  ℕ, zero, suc, ◌+◌, ◌-◌, Bool, true, false, not, ◌∷◌, [], ◌&&◌, ◌||◌, if◌then◌else◌, ◌==◌,
}
use move.Value.{
  Value, null, undefined, same, ObjectRec, t_symbol, o_c_flag, o_perms_mask, me_owner, sy_value,
}
use move.Heap.{
  Cmd, pure, no_fuel, get_heap, ◌>>=◌, ◌>>◌, at, atput, length_of, object_of, put_object, is_null,
  is_object, is_vector, test,
}
use move.Text.{codes}
use move.Symbols.{newsym}
use move.Objects.{newobject}
use move.Perms.{any_bit, privileged, flag_set}
use move.Vm.Registers.{Vms}
use move.Vm.Primitives.{Primtab}
use move.Vm.Compound.{has_type, raise_undefined}

-- `x & ~mask`
abbrev pub without_bits : ℕ → ℕ → ℕ
without_bits x mask = x - bit_and x mask

-- O_PERMS_MASK | O_C_FLAG
abbrev pub settable : ℕ
settable = o_perms_mask + o_c_flag

-- `x &= ~(O_PERMS_MASK | O_C_FLAG)` and `x |= f & (O_PERMS_MASK | O_C_FLAG)`
abbrev pub set_flags : ℕ → ℕ → ℕ
set_flags x f = bit_or (without_bits x settable) (bit_and f settable)

-- A write of a field of the object behind a pointer.
unfoldable pub edit_object : Value → (ObjectRec → ObjectRec) → Cmd (Unit {0})
edit_object x f = do o ← object_of x; put_object x (f o)

-- MS_CAN_C
unfoldable pub ms_can_c : Value → Value → Cmd Bool
ms_can_c x w = do
  owner ← at x me_owner
  if same w owner
      then pure true
      else do clonable ← flag_set x o_c_flag; if clonable then pure true else privileged w

-- `effuid == x->owner || PRIVILEGEDP(effuid)`
unfoldable pub owns : Value → Value → Cmd Bool
owns effuid x = do o ← object_of x; if same effuid o.owner then pure true else privileged effuid

unfoldable pub setup_ancestor : ℕ → Cmd (Unit {0})
setup_ancestor self = do
  ansym ← newsym (codes "Root")
  v ← at ansym sy_value
  if same v undefined
      then (do ancestor ← newobject self null null; atput ansym sy_value ancestor)
      else pure tt

unfoldable pub check_clonable : Value → Value → Cmd Bool
check_clonable effuid x = do
  o ← object_of x
  if any_bit o.flags o_c_flag then pure true else owns effuid x

-- `OBJECTP(x) && OVECTORP(n) && name->type == T_SYMBOL`
unfoldable pub object_and_symbol : Value → Value → Cmd Bool
object_and_symbol x n = do
  isobj ← test (is_object x)
  issym ← has_type t_symbol n
  pure (isobj && issym)

-- The loop of real_isa over a vector of parents, from index `i` on.
unfoldable pub any_isa : (Value → Cmd Bool) → Value → ℕ → ℕ → Cmd Bool
any_isa isa vxp zero i = pure false
any_isa isa vxp (suc k) i = do
  x ← at vxp i
  found ← isa x
  if found then pure true else any_isa isa vxp k (i + 1)

-- What real_isa does with the parents of an object; `isa` is the next round, or the call on an element.
unfoldable pub isa_above : (Value → Cmd Bool) → Value → Cmd Bool
isa_above isa parents = if is_null parents then pure false else do
  single ← test (is_object parents)
  if single then isa parents else do
    several ← test (is_vector parents)
    if several then (do len ← length_of parents; any_isa isa parents len 0) else pure false

unfoldable pub real_isa_fuel : ℕ → Value → Value → Cmd Bool
real_isa_fuel zero y x = no_fuel
real_isa_fuel (suc n) y x =
    if is_null x
    then pure false
    else if same x y
    then pure true
    else do o ← object_of x; isa_above (real_isa_fuel n y) o.parents

unfoldable pub real_isa : Value → Value → Cmd Bool
real_isa x y = do heap ← get_heap; real_isa_fuel (suc heap.fresh) y x

module _ (depth : ℕ) (tab : Primtab) where
  -- NOPERMISSION
  unfoldable pub nopermission : Value → Vms → Cmd (Value × Vms)
  nopermission argvec vms = raise_undefined depth tab "no-permission" argvec vms

  -- `if (!c) { NOPERMISSION(); }`
  unfoldable pub permitted : Bool → Value → Vms → Cmd (Value × Vms) → Cmd (Value × Vms)
  permitted c argvec vms body = if c then body else nopermission argvec vms
