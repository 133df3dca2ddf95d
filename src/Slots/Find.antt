-- ===== src/Slots/Find.antt =====
-- Inheritance: what findslot and findmethod find.
use move.Base.{
  ℕ, zero, suc, ◌+◌, ◌≡◌, ◌≢◌, false, some, List, if◌then◌else◌, length, get_elem?, arith,
}
use mathlib.Core.Path.{subst, subst₂}
use move.Heap.Laws.{and_then-eq-ok, at-vector_inv, length_of-vector}
use move.Value.{Value, null, ref, ObjectRec, vector}
use move.Heap.{Heap, ok, is_null, is_object, object_of, at, pure}
use move.Hashtable.{hashtable_get}
use move.Slots.{findmethod_fuel, first_method}

-- `o` is the object behind `obj`, it has no method of the name, and its parents are the vector `xs`.
pub record LacksMethod (h : Heap) (namesym obj : Value) (xs : List Value) : Type 0 where
  pub o : ObjectRec
  pub is_obj : object_of obj h ≡ ok o h
  pub no_own : hashtable_get o.methods namesym h ≡ ok null h
  pub vec : ℕ
  pub parents : o.parents ≡ ref vec
  pub holds : h.cell vec ≡ some (vector xs)

-- Every lookup in `x` that returns gives NULL and leaves the heap as it is.
abbrev pub NeverFinds : Heap → Value → Value → Type 0
NeverFinds h namesym x =
    (n : ℕ) (v : Value) (g : Heap) → findmethod_fuel n namesym x h ≡ ok v g → (v ≡ null) × (g ≡ h)

module _ {h : Heap} (namesym : Value) where
  first_method-null :
      (n len i vec : ℕ) (xs : List Value)
      → h.cell vec ≡ some (vector xs)
      → ((j : ℕ) (x : Value) → get_elem? xs j ≡ some x → NeverFinds h namesym x)
      → (v : Value) (g : Heap) → first_method (findmethod_fuel n namesym) (ref vec) len i h ≡ ok v g
      → (v ≡ null) × (g ≡ h)
  unfolding first_method
  first_method-null n zero i vec xs holds never v g e = (ground arith, ground arith)
  first_method-null n (suc len) i vec xs holds never v g e =
      let (x, f, at_x, next) = and_then-eq-ok (at (ref vec) i h) _ e in
      let (found, same) = at-vector_inv vec i xs holds at_x in
      let (s, f', find, rest) = and_then-eq-ok (findmethod_fuel n namesym x f) _ next in
      let (s_null, back) =
        never i x found n s f' (subst (λ z. findmethod_fuel n namesym x z ≡ ok s f') same find) in
      first_method-null n len (i + 1) vec xs holds never v g (
        subst₂
          (λ a b.
            (if is_null a
                then first_method (findmethod_fuel n namesym) (ref vec) len (i + 1)
                else pure a)
              b
            ≡ ok v g)
          s_null back rest)

  -- On an object that has no method of the name and whose parents are a vector in which no lookup
  -- finds one, findmethod never returns, however long it runs.
  pub findmethod-diverges :
      {obj : Value} {xs : List Value}
      → LacksMethod h namesym obj xs
      → ((j : ℕ) (x : Value) → get_elem? xs j ≡ some x → NeverFinds h namesym x)
      → (n : ℕ) (v : Value) (g : Heap) → findmethod_fuel n namesym obj h ≢ ok v g
  unfolding findmethod_fuel
  findmethod-diverges l never zero v g e = cc
  findmethod-diverges {obj} {xs} l never (suc n) v g e =
      let plain : is_object (ref l.vec) h ≡ false = ground (arith, l.holds) in
      let start =
        rw (l.is_obj, l.no_own, l.parents, plain, length_of-vector {h = h} l.vec xs l.holds) at e in
      let (found, f, search_run, rest) =
        and_then-eq-ok (first_method (findmethod_fuel n namesym) (ref l.vec) (length xs) 0 h) _
          start in
      let (none_found, same) =
        first_method-null n (length xs) 0 l.vec xs l.holds never found f search_run in
      findmethod-diverges l never n v g (
        subst₂ (λ a b. (if is_null a then findmethod_fuel n namesym obj else pure a) b ≡ ok v g)
          none_found same rest)
