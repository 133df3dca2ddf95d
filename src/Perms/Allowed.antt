-- ===== src/Perms/Allowed.antt =====
-- Whom O_CAN_SOMETHING and MS_CAN_SOMETHING let through.
use Prim.Native.Nat.{bit_and}
use move.Base.{ℕ, suc, ◌≤◌, ◌≡◌, ◌⊎◌, inl, inr, refl, true, false, ◌&&◌, arith, Bool-cases}
use mathlib.Core.Path.{subst}
use move.Value.{
  Value, null, num, singleton, ref, indeterminate, ObjectRec, same, o_privileged, o_world_mask,
  o_owner_mask, o_group_mask,
}
use move.Heap.{Heap, ok, object_of, is_null, body_of}
use move.Base.{ℤ}
use move.Heap.{at, num_of}
use move.Value.{to_bits, me_flags, me_owner}
use move.Perms.{ms_can, flag_set}
use move.Perms.{any_bit, in_group, privileged, perms_can, o_can}
use move.Perms.Groups.{Within, Nested, Decides, in_group-Decides}

-- NULL, or an object with the privileged flag.
abbrev pub IsPrivileged : Heap → Value → Type 0
IsPrivileged h w =
    (w ≡ null)
    ⊎ ((u : ObjectRec) × (object_of w h ≡ ok u h) × (any_bit u.flags o_privileged ≡ true))

-- `w` has the permissions `f` on the object `o`: the world has them; or `w` owns the object and the
-- owner has them; or `w` is within its group and the group has them; or `w` is privileged.
abbrev pub Allowed : Heap → ℕ → ObjectRec → Value → Type 0
Allowed h f o w =
    (perms_can o.flags (bit_and f o_world_mask) ≡ true)
    ⊎ (((same w o.owner ≡ true) × (perms_can o.flags (bit_and f o_owner_mask) ≡ true))
        ⊎ ((Within h w o.group × (perms_can o.flags (bit_and f o_group_mask) ≡ true))
            ⊎ IsPrivileged h w))

object_of-is_null :
    (w : Value) {h : Heap} {u : ObjectRec} → object_of w h ≡ ok u h → is_null w ≡ false
unfolding object_of body_of
object_of-is_null null e = absurd (cc)
object_of-is_null (num a) e = refl
object_of-is_null (singleton n) e = refl
object_of-is_null (ref p) e = refl
object_of-is_null indeterminate e = refl

object_of_unique :
    (w : Value) (h : Heap) {u v : ObjectRec}
    → object_of w h ≡ ok u h
    → object_of w h ≡ ok v h
    → u ≡ v
object_of_unique w h e e' = cc

module _ (h : Heap) (w : Value)
    (known : (w ≡ null) ⊎ ((u : ObjectRec) × (object_of w h ≡ ok u h))) where
  privileged-Decides : Decides h (IsPrivileged h w) (privileged w h)
  unfolding privileged
  privileged-Decides = elim known [
    | inl e ↦ (true, rw e refl, (λ _. refl, λ _. inl e))
    | inr (u, is_u) ↦ (
      any_bit u.flags o_privileged,
      rw (object_of-is_null w is_u, is_u) refl,
      (
        elim [
          | inl e ↦
              absurd
                (let z = object_of-is_null w is_u in let z' : is_null w ≡ true = rw e refl in cc)
          | inr (v, is_v, set) ↦
              subst (λ (x : ObjectRec). any_bit x.flags o_privileged ≡ true)
                (object_of_unique w h is_v is_u) set
        ],
        λ e. inr (u, is_u, e),
      ),
    )
  ]

  -- For an object whose group nests at most as deep as there are addresses, O_CAN_SOMETHING
  -- terminates, leaves the heap as it is, and says exactly whether `w` has the permissions.
  pub o_can-Decides :
      (f n : ℕ) (x : Value) (o : ObjectRec)
      → object_of x h ≡ ok o h
      → Nested h n o.group
      → n ≤ h.fresh
      → Decides h (Allowed h f o w) (o_can f x w h)
  unfolding o_can in_group
  o_can-Decides f n x o is_o nested depth =
      let (m, member_run, (to_m, from_m)) =
        in_group-Decides h w n (suc h.fresh) o.group nested (omega arith) in
      let (p, run_p, (to_p, from_p)) = privileged-Decides in
      elim (Bool-cases (perms_can o.flags (bit_and f o_world_mask))) [
        | inl world ↦ (true, rw (is_o, world) refl, (λ _. refl, λ _. inl world))
        | inr no_world ↦
            elim (Bool-cases (same w o.owner && perms_can o.flags (bit_and f o_owner_mask))) [
              | inl owner ↦ (
                true,
                rw (is_o, no_world, owner) refl,
                (λ _. refl, λ _. inr (inl (ground (arith, owner)))),
              )
              | inr no_owner ↦ elim (Bool-cases (m && perms_can o.flags (bit_and f o_group_mask))) [
                | inl group ↦ (
                  true,
                  rw (is_o, no_world, no_owner, member_run, group) refl,
                  (
                    λ _. refl,
                    λ _. inr (inr (inl (from_m (ground (arith, group)), ground (arith, group)))),
                  ),
                )
                | inr no_group ↦ (
                  p,
                  rw (is_o, no_world, no_owner, member_run, no_group) run_p,
                  (
                    elim [
                      | inl a ↦ absurd (cc)
                      | inr (inl (a, b)) ↦ absurd (ground arith)
                      | inr (inr (inl (a, b))) ↦ absurd (let z = to_m a in ground arith)
                      | inr (inr (inr a)) ↦ to_p a
                    ],
                    λ e. inr (inr (inr (from_p e))),
                  ),
                )
              ]
            ]
      ]

-- `w` has one of the permissions `f` on a slot or a method with these flags and this owner: the world
-- has it; or `w` is the owner and the owner has it; or `w` is privileged.
abbrev pub AllowedMember : Heap → ℕ → ℤ → Value → Value → Type 0
AllowedMember h f flags owner w =
    (any_bit (to_bits flags) (bit_and f o_world_mask) ≡ true)
    ⊎ (((same w owner ≡ true) × (any_bit (to_bits flags) (bit_and f o_owner_mask) ≡ true))
        ⊎ IsPrivileged h w)

module _ (h : Heap) (w : Value)
    (known : (w ≡ null) ⊎ ((u : ObjectRec) × (object_of w h ≡ ok u h))) where
  -- On a slot or a method whose flags are a number, and for a user that is NULL or an object,
  -- MS_CAN_SOMETHING terminates, leaves the heap as it is, and says exactly whether the user has one
  -- of the permissions.
  pub ms_can-Decides :
      (f : ℕ) (x : Value) (flags : ℤ) (owner : Value)
      → at x me_flags h ≡ ok (num flags) h
      → at x me_owner h ≡ ok owner h
      → Decides h (AllowedMember h f flags owner w) (ms_can f x w h)
  unfolding ms_can flag_set num_of
  ms_can-Decides f x flags owner is_flags is_owner =
      let (p, run_p, (to_p, from_p)) = privileged-Decides h w known in
      elim (Bool-cases (any_bit (to_bits flags) (bit_and f o_world_mask))) [
        | inl world ↦ (true, rw (is_flags, world) refl, (λ _. refl, λ _. inl world))
        | inr no_world ↦
            elim (Bool-cases (same w owner && any_bit (to_bits flags) (bit_and f o_owner_mask))) [
              | inl own ↦ (
                true,
                rw (is_flags, no_world, is_owner, is_flags, own) refl,
                (λ _. refl, λ _. inr (inl (ground (arith, own)))),
              )
              | inr no_own ↦ (
                p,
                rw (is_flags, no_world, is_owner, is_flags, no_own) run_p,
                (
                  elim [
                    | inl a ↦ absurd (cc)
                    | inr (inl (a, b)) ↦ absurd (ground arith)
                    | inr (inr a) ↦ to_p a
                  ],
                  λ e. inr (inr (from_p e)),
                ),
              )
            ]
      ]
