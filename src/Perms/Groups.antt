-- ===== src/Perms/Groups.antt =====
-- What in_group decides.
use move.Base.{
  ℕ, zero, suc, ◌+◌, ◌<◌, ◌≡◌, ◌↔◌, ◌⊎◌, inl, inr, refl, ap, Bool, true, false, some, List, [], ◌∷◌,
  get_elem?, All, arith, Bool-cases, ◌∙◌,
}
use mathlib.Core.Path.{subst}
use move.Value.{Value, null, ref, vector, same}
use move.Heap.{Heap, Run, ok, is_vector, body_of}
use move.Perms.{in_items, in_group_fuel}

-- `what` is an element of the group, or of a vector that is an element, and so on.
pub data Within (h : Heap) (what : Value) : Value → Type 0 where
  member :
      {p : ℕ} (i : ℕ) {xs : List Value} {x : Value}
      → h.cell p ≡ some (vector xs)
      → get_elem? xs i ≡ some x
      → same x what ≡ true
      → Within h what (ref p)
  inside :
      {p : ℕ} (i : ℕ) {xs : List Value} {x : Value}
      → h.cell p ≡ some (vector xs)
      → get_elem? xs i ≡ some x
      → Within h what x
      → Within h what (ref p)

-- NULL, or vectors in vectors, at most `n` deep.
pub data Nested (h : Heap) : ℕ → Value → Type 0 where
  nobody : {n : ℕ} → Nested h n null
  members :
      {n p : ℕ} {xs : List Value}
      → h.cell p ≡ some (vector xs)
      → ((i : ℕ) (x : Value) → get_elem? xs i ≡ some x → is_vector x h ≡ true → Nested h n x)
      → Nested h (suc n) (ref p)

abbrev pub Matches : Heap → Value → Value → Type 0
Matches h what x = (same x what ≡ true) ⊎ Within h what x

abbrev pub AnyOf : Heap → Value → List Value → Type 0
AnyOf h what [] = ⊥
AnyOf h what (x ∷ xs) = Matches h what x ⊎ AnyOf h what xs

-- The call returns without a change of the heap, and says whether `P` holds.
abbrev pub Decides : Heap → Type 0 → Run Bool → Type 0
Decides h P run = (b : Bool) × (run ≡ ok b h) × (P ↔ (b ≡ true))

module _ (h : Heap) (what : Value) where
  Within-is_vector : (x : Value) → Within h what x → is_vector x h ≡ true
  Within-is_vector _ (member i holds at_i e) = rw (is_vector, holds) refl
  Within-is_vector _ (inside i holds at_i w) = rw (is_vector, holds) refl

  AnyOf-Within :
      (p i : ℕ) (all xs : List Value)
      → h.cell p ≡ some (vector all)
      → ((j : ℕ) (x : Value) → get_elem? xs j ≡ some x → get_elem? all (i + j) ≡ some x)
      → AnyOf h what xs
      → Within h what (ref p)
  AnyOf-Within p i all [] holds part m = absurd m
  AnyOf-Within p i all (x ∷ xs) holds part (inl (inl e)) = member (i + 0) holds (part 0 x refl) e
  AnyOf-Within p i all (x ∷ xs) holds part (inl (inr w)) = inside (i + 0) holds (part 0 x refl) w
  AnyOf-Within p i all (x ∷ xs) holds part (inr m) =
      AnyOf-Within p (suc i) all xs holds
        (λ j y e. ap (get_elem? all) (omega arith) ∙ part (suc j) y e) m

  AnyOf-index :
      (xs : List Value) (i : ℕ) (x : Value)
      → get_elem? xs i ≡ some x
      → Matches h what x
      → AnyOf h what xs
  AnyOf-index [] i x e m = absurd (cc)
  AnyOf-index (y ∷ xs) zero x e m = inl (subst (Matches h what) (ground (arith, e)) m)
  AnyOf-index (y ∷ xs) (suc i) x e m = inr (AnyOf-index xs i x e m)

  Within-AnyOf :
      (p : ℕ) (xs : List Value)
      → h.cell p ≡ some (vector xs)
      → Within h what (ref p)
      → AnyOf h what xs
  Within-AnyOf p xs holds (member i {xs = ys} {x} holds' at_i e) =
      AnyOf-index xs i x (ground (arith, holds, holds', at_i)) (inl e)
  Within-AnyOf p xs holds (inside i {xs = ys} {x} holds' at_i w) =
      AnyOf-index xs i x (ground (arith, holds, holds', at_i)) (inr w)

  in_items-Decides :
      (deeper : Value → Heap → Run Bool) (xs : List Value)
      → All (λ x. is_vector x h ≡ true → Decides h (Within h what x) (deeper x h)) xs
      → Decides h (AnyOf h what xs) (in_items deeper what xs h)
  unfolding in_items
  in_items-Decides deeper [] all = (false, refl, (λ m. absurd m, λ e. absurd (cc)))
  in_items-Decides deeper (x ∷ xs) (first, others) =
      let (c, run, (to, from)) = in_items-Decides deeper xs others in
      elim (Bool-cases (same x what)) [
        | inl e ↦ (true, rw e refl, (λ _. refl, λ _. inl (inl e)))
        | inr ne ↦ elim (Bool-cases (is_vector x h)) [
          | inl vec ↦
              let (b, found, (out, w)) = first vec in
              elim (Bool-cases b) [
                | inl hit ↦
                    (true, rw (ne, vec, found, hit) refl, (λ _. refl, λ _. inl (inr (w hit))))
                | inr miss ↦ (
                  c,
                  rw (ne, vec, found, miss) run,
                  (
                    elim [
                      | inl (inl e) ↦ absurd (cc)
                      | inl (inr v) ↦ absurd (let z = out v in cc)
                      | inr m ↦ to m
                    ],
                    λ e. inr (from e),
                  ),
                )
              ]
          | inr plain ↦ (
            c,
            rw (ne, plain) run,
            (
              elim [
                | inl (inl e) ↦ absurd (cc)
                | inl (inr w) ↦ absurd (let z = Within-is_vector x w in cc)
                | inr m ↦ to m
              ],
              λ e. inr (from e),
            ),
          )
        ]
      ]

  All-of_index :
      {P : Value → Type 0} (xs : List Value)
      → ((i : ℕ) (x : Value) → get_elem? xs i ≡ some x → P x)
      → All P xs
  All-of_index [] f = tt
  All-of_index (x ∷ xs) f = (f 0 x refl, All-of_index xs (λ i y e. f (suc i) y e))

  -- On NULL, and on vectors of objects and vectors that nest at most `n` deep, in_group terminates
  -- within `n` nested calls and one more, leaves the heap as it is, and says exactly whether the
  -- object is an element of the group or of a group inside it.
  pub in_group-Decides :
      (n fuel : ℕ) (group : Value)
      → Nested h n group
      → n < fuel
      → Decides h (Within h what group) (in_group_fuel fuel what group h)
  unfolding in_group_fuel body_of
  in_group-Decides n zero group nested less = absurd (omega arith)
  in_group-Decides n (suc fuel) _ nobody less =
      (false, refl, (λ w. absurd (let z = Within-is_vector null w in cc), λ e. absurd (cc)))
  in_group-Decides (suc n) (suc fuel) _ (members {p} {xs} holds each) less =
      let (b, run, (to, from)) =
        in_items-Decides (in_group_fuel fuel what) xs
          (All-of_index xs λ i x e vec. in_group-Decides n fuel x (each i x e vec) (omega arith)) in
      (
        b,
        rw holds run,
        (
          λ w. to (Within-AnyOf p xs holds w),
          λ e. AnyOf-Within p 0 xs xs holds (λ j x q. ap (get_elem? xs) (omega arith) ∙ q) (from e),
        ),
      )
