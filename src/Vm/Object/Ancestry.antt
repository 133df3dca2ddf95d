-- ===== src/Vm/Object/Ancestry.antt =====
-- What real_isa of move/PRIM.object.c decides.
use move.Base.{
  ℕ, zero, suc, ◌+◌, ◌≤◌, ◌<◌, ◌≡◌, ◌⊎◌, inl, inr, refl, ap, ◌∙◌, sym, Bool, true, false, Option,
  some, none, List, [], ◌∷◌, length, get_elem?, arith, Bool-cases,
}
use mathlib.Core.Path.{subst}
use move.Value.{
  Value, null, num, singleton, ref, indeterminate, ObjectRec, Body, object, bvector, ovector,
  vector, same,
}
use move.Heap.{Heap, Run, ok, is_null, is_object, is_vector, object_of, body_of}
use move.Heap.Laws.{at-vector, length_of-vector}
use move.Perms.Groups.{Decides}
use move.Vm.Object.{any_isa, isa_above, real_isa_fuel, real_isa}

-- The parents in the `parents` field of an object: one object, or those of a vector.
abbrev parents_in : Body → Value → List Value
parents_in (object up) v = v ∷ []
parents_in (vector xs) v = xs
parents_in _ v = []

abbrev pub parent_list : Heap → Value → List Value
parent_list h (ref p) = elim (h.cell p) [ some b ↦ parents_in b (ref p) | none ↦ [] ]
parent_list h _ = []

-- `x` is `y`, or a parent of it is, and so on.
pub data Descends (h : Heap) (y : Value) : Value → Type 0 where
  itself : {x : Value} → is_null x ≡ false → same x y ≡ true → Descends h y x
  through :
      {x z : Value} {o : ObjectRec} (i : ℕ)
      → object_of x h ≡ ok o h
      → get_elem? (parent_list h o.parents) i ≡ some z
      → Descends h y z
      → Descends h y x

-- NULL, or an object whose ancestry is at most `n` objects high.
pub data Lineage (h : Heap) : ℕ → Value → Type 0 where
  nobody : {n : ℕ} → Lineage h n null
  child :
      {n : ℕ} {x : Value} {o : ObjectRec}
      → object_of x h ≡ ok o h
      → ((i : ℕ) (z : Value) → get_elem? (parent_list h o.parents) i ≡ some z → Lineage h n z)
      → Lineage h (suc n) x

abbrev Among : (Value → Type 0) → List Value → Type 0
Among P [] = ⊥
Among P (x ∷ xs) = P x ⊎ Among P xs

module _ (P : Value → Type 0) where
  Among-index :
      (xs : List Value) → Among P xs → (i : ℕ) × (z : Value) × (get_elem? xs i ≡ some z) × P z
  Among-index [] none_in = absurd none_in
  Among-index (x ∷ xs) (inl here) = (0, x, refl, here)
  Among-index (x ∷ xs) (inr there) = let (i, z, e, m) = Among-index xs there in (suc i, z, e, m)

  index-Among : (xs : List Value) (i : ℕ) {z : Value} → get_elem? xs i ≡ some z → P z → Among P xs
  index-Among [] i e m = absurd (cc)
  index-Among (x ∷ xs) zero e m = inl (subst P (ground (arith, e)) m)
  index-Among (x ∷ xs) (suc i) e m = inr (index-Among xs i e m)

module _ (h : Heap) (P : Value → Type 0) (isa : Value → Heap → Run Bool) where
  any_isa-Decides :
      (p i : ℕ) (all xs : List Value)
      → h.cell p ≡ some (vector all)
      → ((j : ℕ) (x : Value) → get_elem? xs j ≡ some x → get_elem? all (i + j) ≡ some x)
      → ((j : ℕ) (x : Value) → get_elem? xs j ≡ some x → Decides h (P x) (isa x h))
      → Decides h (Among P xs) (any_isa isa (ref p) (length xs) i h)
  unfolding any_isa
  any_isa-Decides p i all [] holds part each = (false, refl, (λ m. absurd m, λ e. absurd (cc)))
  any_isa-Decides p i all (x ∷ xs) holds part each =
      let here = at-vector h p i all holds (ap (get_elem? all) (omega arith) ∙ part 0 x refl) in
      let (b, run, (to, from)) = each 0 x refl in
      elim (Bool-cases b) [
        | inl hit ↦ (true, rw (here, run, hit) refl, (λ _. refl, λ _. inl (from hit)))
        | inr miss ↦
            let (c, others, (to', from')) =
              any_isa-Decides p (i + 1) all xs holds
                (λ j y e. ap (get_elem? all) (omega arith) ∙ part (suc j) y e)
                (λ j y e. each (suc j) y e) in
            (
              c,
              rw (here, run, miss) others,
              (elim [ inl m ↦ absurd (let z = to m in cc) | inr m ↦ to' m ], λ e. inr (from' e)),
            )
      ]

  abbrev Each : List Value → Type 0
  Each xs = (i : ℕ) (z : Value) → get_elem? xs i ≡ some z → Decides h (P z) (isa z h)

  abbrev Settles : Value → List Value → Type 0
  Settles v xs = Each xs → Decides h (Among P xs) (isa_above isa v h)

  none-Settles : (v : Value) → isa_above isa v h ≡ ok false h → Settles v []
  none-Settles v run each = (false, run, (λ m. absurd m, λ e. absurd (cc)))

  of_list :
      (v : Value) (xs : List Value)
      → parent_list h v ≡ xs
      → Settles v xs
      → Settles v (parent_list h v)
  of_list v xs e above = subst (Settles v) (sym e) above

  isa_above-object_Settles :
      (p : ℕ) (up : ObjectRec) → h.cell p ≡ some (object up) → Settles (ref p) (ref p ∷ [])
  unfolding isa_above
  isa_above-object_Settles p up holds each =
      let (b, run, (to, from)) = each 0 (ref p) refl in
      (b, rw (is_object, holds) run, (elim [ inl m ↦ to m | inr m ↦ absurd m ], λ e. inl (from e)))

  isa_above-vector_Settles :
      (p : ℕ) (xs : List Value) → h.cell p ≡ some (vector xs) → Settles (ref p) xs
  unfolding isa_above
  isa_above-vector_Settles p xs holds each =
      let (b, run, decides) =
        any_isa-Decides p 0 xs xs holds (λ j x e. ap (get_elem? xs) (omega arith) ∙ e) each in
      (b, rw (is_object, holds, is_vector, holds, length_of-vector {h = h} p xs holds) run, decides)

  isa_above-other_Settles :
      (p : ℕ)
      → is_object (ref p) h ≡ false
      → is_vector (ref p) h ≡ false
      → parent_list h (ref p) ≡ []
      → Settles (ref p) (parent_list h (ref p))
  unfolding isa_above
  isa_above-other_Settles p no_object no_vector nobody_in =
      of_list (ref p) [] nobody_in (none-Settles (ref p) (rw (no_object, no_vector) refl))

  isa_above-cell_Settles :
      (p : ℕ) (cell : Option Body) → h.cell p ≡ cell → Settles (ref p) (parent_list h (ref p))
  isa_above-cell_Settles p (some (object up)) holds =
      of_list (ref p) (ref p ∷ []) (rw (parent_list, holds) refl)
        (isa_above-object_Settles p up holds)
  isa_above-cell_Settles p (some (vector xs)) holds =
      of_list (ref p) xs (rw (parent_list, holds) refl) (isa_above-vector_Settles p xs holds)
  isa_above-cell_Settles p none holds =
      isa_above-other_Settles p (rw (is_object, holds) refl) (rw (is_vector, holds) refl)
        (rw (parent_list, holds) refl)
  isa_above-cell_Settles p (some (bvector bs)) holds =
      isa_above-other_Settles p (rw (is_object, holds) refl) (rw (is_vector, holds) refl)
        (rw (parent_list, holds) refl)
  isa_above-cell_Settles p (some (ovector f t xs)) holds =
      isa_above-other_Settles p (rw (is_object, holds) refl) (rw (is_vector, holds) refl)
        (rw (parent_list, holds) refl)

  isa_above-Decides : (v : Value) → Settles v (parent_list h v)
  unfolding isa_above
  isa_above-Decides (ref p) = isa_above-cell_Settles p (h.cell p) refl
  isa_above-Decides null = none-Settles null refl
  isa_above-Decides (num a) = none-Settles (num a) refl
  isa_above-Decides (singleton n) = none-Settles (singleton n) refl
  isa_above-Decides indeterminate = none-Settles indeterminate refl

module _ (h : Heap) (y : Value) where
  Descends-exists : (x : Value) → Descends h y x → is_null x ≡ false
  unfolding object_of body_of
  Descends-exists _ (itself exists e) = exists
  Descends-exists null (through i holds at_i d) = absurd (cc)
  Descends-exists (num a) (through i holds at_i d) = refl
  Descends-exists (singleton n) (through i holds at_i d) = refl
  Descends-exists (ref p) (through i holds at_i d) = refl
  Descends-exists indeterminate (through i holds at_i d) = refl

  object-exists : (x : Value) (o : ObjectRec) → object_of x h ≡ ok o h → is_null x ≡ false
  unfolding object_of body_of
  object-exists null o holds = absurd (cc)
  object-exists (num a) o holds = refl
  object-exists (singleton n) o holds = refl
  object-exists (ref p) o holds = refl
  object-exists indeterminate o holds = refl

  above-Descends :
      (x : Value) (o : ObjectRec)
      → object_of x h ≡ ok o h
      → same x y ≡ false
      → Descends h y x
      → Among (Descends h y) (parent_list h o.parents)
  above-Descends _ o holds other (itself exists e) = absurd (cc)
  above-Descends _ o holds other (through {o = o'} i holds' at_i d) =
      index-Among (Descends h y) _ i (ground (arith, holds, holds', at_i)) d

  real_isa_fuel-Decides :
      (n fuel : ℕ) (x : Value)
      → Lineage h n x
      → n < fuel
      → Decides h (Descends h y x) (real_isa_fuel fuel y x h)
  unfolding real_isa_fuel
  real_isa_fuel-Decides n zero x lineage less = absurd (omega arith)
  real_isa_fuel-Decides n (suc fuel) _ nobody less =
      (false, refl, (λ d. absurd (let z = Descends-exists null d in cc), λ e. absurd (cc)))
  real_isa_fuel-Decides (suc n) (suc fuel) x (child {o = o} holds each) less =
      let exists = object-exists x o holds in
      let (b, run, (to, from)) =
        isa_above-Decides h (Descends h y) (real_isa_fuel fuel y) o.parents
          (λ i z at_i. real_isa_fuel-Decides n fuel z (each i z at_i) (omega arith)) in
      elim (Bool-cases (same x y)) [
        | inl e ↦ (true, rw (exists, e) refl, (λ _. refl, λ _. itself exists e))
        | inr other ↦ (
          b,
          rw (exists, other, holds) run,
          (
            λ d. to (above-Descends x o holds other d),
            λ e.
                let (i, z, at_i, d) = Among-index (Descends h y) _ (from e) in
                through i holds at_i d,
          ),
        )
      ]

  -- On NULL, and on an object whose ancestry is at most as many objects high as there are addresses,
  -- real_isa terminates, leaves the heap as it is, and says exactly whether the object is `y` or
  -- descends from it.
  pub real_isa-Decides :
      (n : ℕ) (x : Value)
      → Lineage h n x
      → n ≤ h.fresh
      → Decides h (Descends h y x) (real_isa x y h)
  unfolding real_isa
  real_isa-Decides n x lineage less = real_isa_fuel-Decides n (suc h.fresh) x lineage (omega arith)
