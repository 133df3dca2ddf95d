-- ===== src/Perms.antt =====
-- Permissions: move/perms.h and move/perms.c.
pub mod Groups
pub mod Allowed
use Prim.Native.Nat.{bit_and}
use move.Base.{
  ℕ, zero, suc, Bool, true, false, not, List, [], ◌∷◌, ◌==◌, ◌&&◌, if◌then◌else◌, ℤ, pos, negsuc,
}
use move.Value.{
  Value, null, same, ObjectRec, vector, to_bits, me_flags, me_owner, o_privileged, o_perms_mask,
  o_world_mask, o_owner_mask, o_group_mask,
}
use move.Heap.{
  Cmd, pure, stop, no_fuel, get_heap, ◌>>=◌, at, body_of, num_of, object_of, is_null, is_vector,
  test,
}

-- `flags & mask`, read as a test.
abbrev pub any_bit : ℕ → ℕ → Bool
any_bit flags mask = not (bit_and flags mask == 0)

abbrev pub vector_items : Value → Cmd (List Value)
vector_items x = do b ← body_of x; elim b [ vector xs ↦ pure xs | _ ↦ stop ]

-- The loop of in_group over the elements; `deeper` is the call on an inner vector.
pub in_items : (Value → Cmd Bool) → Value → List Value → Cmd Bool
in_items deeper what [] = pure false
in_items deeper what (x ∷ xs) = if same x what then pure true else do
  inner ← test (is_vector x)
  found ← if inner then deeper x else pure false
  if found then pure true else in_items deeper what xs

pub in_group_fuel : ℕ → Value → Value → Cmd Bool
in_group_fuel zero what group = no_fuel
in_group_fuel (suc n) what group =
    if is_null group
    then pure false
    else do xs ← vector_items group; in_items (in_group_fuel n what) what xs

unfoldable pub in_group : Value → Value → Cmd Bool
unfolding in_group_fuel in_items same body_of
in_group what group = do heap ← get_heap; in_group_fuel (suc heap.fresh) what group

-- PRIVILEGEDP
unfoldable pub privileged : Value → Cmd Bool
unfolding object_of
privileged x =
    if is_null x then pure true else do o ← object_of x; pure (any_bit o.flags o_privileged)

-- PERMS_CAN
abbrev pub perms_can : ℕ → ℕ → Bool
perms_can flags mask = bit_and (bit_and flags o_perms_mask) mask == mask

-- O_CAN_SOMETHING, with its short circuits.
unfoldable pub o_can : ℕ → Value → Value → Cmd Bool
unfolding object_of in_group privileged same
o_can f x w = do
  o ← object_of x
  if perms_can o.flags (bit_and f o_world_mask)
      then pure true
      else if same w o.owner && perms_can o.flags (bit_and f o_owner_mask)
      then pure true
      else do
        member ← in_group w o.group
        if member && perms_can o.flags (bit_and f o_group_mask) then pure true else privileged w

-- `NUM(AT(x, ME_FLAGS)) & mask`, read as a test.
unfoldable pub flag_set : Value → ℕ → Cmd Bool
unfolding at num_of
flag_set x mask = do flags ← at x me_flags; n ← num_of flags; pure (any_bit (to_bits n) mask)

-- MS_CAN_SOMETHING, of a slot or a method.
unfoldable pub ms_can : ℕ → Value → Value → Cmd Bool
unfolding flag_set privileged same
ms_can f x w = do
  world ← flag_set x (bit_and f o_world_mask)
  if world then pure true else do
    owner ← at x me_owner
    own ← flag_set x (bit_and f o_owner_mask)
    if same w owner && own then pure true else privileged w
