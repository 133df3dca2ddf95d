-- ===== src/Slots/Search.antt =====
-- Inheritance as a search: the object's own table, then its parents, first to last, depth first.
use move.Base.{
  ℕ, zero, suc, ◌+◌, ◌≤◌, ◌≡◌, ◌⊎◌, inl, inr, refl, true, false, some, List, [], ◌∷◌, length,
  get_elem?, arith, ap, ◌∙◌, sym,
}
use move.Value.{Value, null, ref, ObjectRec, object, vector}
use move.Heap.{Heap, Run, ok, is_null, is_object, object_of}
use move.Heap.Laws.{at-vector, length_of-vector}
use move.Hashtable.{hashtable_get}
use move.Slots.{findslot, findslot_fuel, first_parent}

-- What is found and the object that it is found in, or NULL twice.
abbrev pub Found : Type 0
Found = Value × Value

-- The first element for which `F` finds something; every element before it has nothing.
abbrev pub First : (Value → Found → Type 0) → List Value → Found → Type 0
First F [] r = r ≡ (null, null)
First F (x ∷ xs) r = (F x r × (is_null r.0 ≡ false)) ⊎ (F x (null, null) × First F xs r)

-- In the ancestry of `obj`, at most `n` objects high, the search in the tables that `pick` selects
-- ends with `r`.
abbrev pub Search : Heap → (ObjectRec → Value) → Value → ℕ → Value → Found → Type 0
Search h pick namesym zero obj r = ⊥
Search h pick namesym (suc n) obj r =
    (o : ObjectRec) × (s : Value) × (object_of obj h ≡ ok o h)
    × (hashtable_get (pick o) namesym h ≡ ok s h)
    × (((is_null s ≡ false) × (r ≡ (s, obj)))
        ⊎ ((s ≡ null)
            × (((o.parents ≡ null) × (r ≡ (null, null)))
                ⊎ ((((p : ℕ) × (up : ObjectRec) × (o.parents ≡ ref p)
                        × (h.cell p ≡ some (object up)))
                      × Search h pick namesym n o.parents r)
                    ⊎ ((p : ℕ) × (xs : List Value) × (o.parents ≡ ref p)
                        × (h.cell p ≡ some (vector xs))
                        × First (Search h pick namesym n) xs r)))))

abbrev pub attributes_of : ObjectRec → Value
attributes_of o = o.attributes

object-is_object :
    (h : Heap) {v : Value} (p : ℕ) (up : ObjectRec)
    → v ≡ ref p
    → h.cell p ≡ some (object up)
    → is_object v h ≡ true
object-is_object h p up e holds = rw (e, is_object, holds) refl

vector-is_object :
    (h : Heap) (p : ℕ) (xs : List Value) → h.cell p ≡ some (vector xs) → is_object (ref p) h ≡ false
vector-is_object h p xs holds = rw (is_object, holds) refl

module _ {h : Heap} (namesym : Value) where
  first_parent-First :
      (find : Value → Heap → Run Found) (F : Value → Found → Type 0) (p i : ℕ) (all xs : List Value)
      (r : Found)
      → ((x : Value) (r' : Found) → F x r' → find x h ≡ ok r' h)
      → h.cell p ≡ some (vector all)
      → ((j : ℕ) (x : Value) → get_elem? xs j ≡ some x → get_elem? all (i + j) ≡ some x)
      → First F xs r
      → first_parent find (ref p) (length xs) i h ≡ ok r h
  unfolding first_parent
  first_parent-First find F p i all [] r finds holds part e = ap (λ x. ok x h) (sym e)
  first_parent-First find F p i all (x ∷ xs) r finds holds part (inl (f, some_found)) =
      let here = at-vector h p i all holds (ap (get_elem? all) (omega arith) ∙ part 0 x refl) in
      rw (here, finds x r f, some_found) refl
  first_parent-First find F p i all (x ∷ xs) r finds holds part (inr (f, rest)) =
      let here = at-vector h p i all holds (ap (get_elem? all) (omega arith) ∙ part 0 x refl) in
      rw (here, finds x (null, null) f)
        (first_parent-First find F p (i + 1) all xs r finds holds
          (λ j y e. ap (get_elem? all) (omega arith) ∙ part (suc j) y e) rest)

  findslot_fuel-Search :
      (n fuel : ℕ) (obj : Value) (r : Found)
      → Search h attributes_of namesym n obj r
      → n ≤ fuel
      → findslot_fuel fuel namesym obj h ≡ ok r h
  unfolding findslot_fuel
  findslot_fuel-Search zero fuel obj r above less = absurd above
  findslot_fuel-Search (suc n) zero obj r above less = absurd (omega arith)
  findslot_fuel-Search (suc n) (suc fuel) obj r (o, s, is_o, own, found) less = elim found [
    | inl (some_own, e) ↦ rw (is_o, own, some_own) (ap (λ x. ok x h) (sym e))
    | inr (none_own, inl (orphan, e)) ↦ rw (is_o, own, none_own, orphan) (ap (λ x. ok x h) (sym e))
    | inr (none_own, inr (inl ((p, up, single, holds), above))) ↦
        rw (is_o, own, none_own, ap is_null single, object-is_object h p up single holds)
          (findslot_fuel-Search n fuel o.parents r above (omega arith))
    | inr (none_own, inr (inr (p, xs, many, holds, first))) ↦
        rw
          (
            is_o,
            own,
            none_own,
            many,
            vector-is_object h p xs holds,
            length_of-vector {h = h} p xs holds,
          )
          (first_parent-First (findslot_fuel fuel namesym) (Search h attributes_of namesym n) p 0 xs
            xs r (λ x r' above. findslot_fuel-Search n fuel x r' above (omega arith)) holds
            (λ j x e. ap (get_elem? xs) (omega arith) ∙ e) first)
  ]

module _ {h : Heap} (namesym : Value) where
  -- findslot does this search in the attributes of the objects: on an ancestry that is at most as many
  -- objects high as there are addresses it terminates with the result of the search, and leaves the
  -- heap as it is.
  pub findslot-Search :
      (n : ℕ) (obj : Value) (r : Found)
      → Search h attributes_of namesym n obj r
      → n ≤ h.fresh
      → findslot obj namesym h ≡ ok r h
  unfolding findslot
  findslot-Search n obj r above less =
      findslot_fuel-Search namesym n (suc h.fresh) obj r above (omega arith)
