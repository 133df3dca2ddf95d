-- ===== src/Objects/Clone.antt =====
-- vector_clone makes a vector with the same cells.
use move.Base.{
  ℕ, suc, ◌<◌, ◌≡◌, ◌⊎◌, inl, inr, refl, some, List, [], ◌∷◌, length, get_elem?, arith, ◌∙◌, ap,
  sym,
}
use move.Value.{Value, ref, vector}
use move.Heap.{Heap, ok}
use move.Heap.Laws.{Yields, yields, follow, length_of-vector}
use move.Alloc.{newvector_noinit}
use move.Vm.Registers.{copy_cells}
use move.Vm.Registers.Copies.{copy_cells-Copied}
use move.Vm.Registers.Continuations.{IsNew, newvector_noinit-IsNew}
use move.Objects.{vector_clone}

-- Two lists of one length with the same elements.
eq_of_cells :
    {A : Type 0} (xs ys : List A)
    → length xs ≡ length ys
    → ((j : ℕ) → j < length ys → get_elem? xs j ≡ get_elem? ys j)
    → xs ≡ ys
eq_of_cells [] [] w e = refl
eq_of_cells [] (y ∷ ys) w e = absurd (omega arith)
eq_of_cells (x ∷ xs) [] w e = absurd (omega arith)
eq_of_cells (x ∷ xs) (y ∷ ys) w e =
    let head : x ≡ y = (let q = e 0 (omega arith) in cc) in
    rw (head, eq_of_cells xs ys (omega arith) (λ j l. e (suc j) (omega arith))) refl

new_place :
    (h g : Heap) {n : ℕ} {v : Value}
    → 0 < h.fresh
    → h.cell 0 ≡ some (vector [])
    → (new : IsNew h (suc n) v g) → new.address ≡ h.fresh
new_place h g used zero_vector new = elim new.place [
  | inl z ↦
      let still = new.others 0 used in
      let there : g.cell 0 ≡ some (vector new.cells) = ap g.cell (sym z) ∙ new.holds in
      absurd (ground (arith, still, there, zero_vector, new.width))
  | inr z ↦ z
]

clone-empty :
    (h : Heap) (p : ℕ) → h.cell p ≡ some (vector []) → vector_clone (ref p) h ≡ ok (ref 0) h
unfolding vector_clone copy_cells newvector_noinit
clone-empty h p holds = rw (length_of-vector {h = h} p [] holds) refl

-- Cloning a vector gives a vector with the same cells, and every address that was handed out holds
-- what it held. A vector that is not empty gets a clone at a new address; the clone of an empty one is
-- the static empty vector.
pub vector_clone-vector :
    (h : Heap) (p : ℕ) (xs : List Value)
    → h.cell 0 ≡ some (vector [])
    → 0 < h.fresh
    → p < h.fresh
    → h.cell p ≡ some (vector xs)
    → Yields
        (λ v g.
          (q : ℕ) × (v ≡ ref q)
          × ((q ≡ h.fresh) ⊎ ((q ≡ 0) × (xs ≡ [])))
          × (g.cell q ≡ some (vector xs))
          × ((a : ℕ) → a < h.fresh → g.cell a ≡ h.cell a))
        (vector_clone (ref p) h)
unfolding vector_clone
vector_clone-vector h p [] zero_vector used p_used holds =
    rw (clone-empty h p holds) (yields (0, refl, inr (refl, refl), zero_vector, λ a l. refl))
vector_clone-vector h p (x ∷ xs) zero_vector used p_used holds =
    rw (length_of-vector {h = h} p (x ∷ xs) holds) (
      follow (newvector_noinit-IsNew (length (x ∷ xs)) h zero_vector) λ v g new.
        let place = new_place h g used zero_vector new in
        let kept : g.cell p ≡ some (vector (x ∷ xs)) = new.others p p_used ∙ holds in
        rw new.is_ref (
          follow
            (copy_cells-Copied g p new.address 0 (length (x ∷ xs)) (vector (x ∷ xs))
              (vector new.cells) (x ∷ xs) new.cells (λ e. omega (arith, place)) kept refl new.holds
              refl (omega arith) (omega (arith, new.width)))
            λ _ f (zs, copied, w).
              let same =
                eq_of_cells zs (x ∷ xs) (copied.width ∙ new.width)
                  (λ j l. ground (arith, copied.cells j)) in
              yields (
                new.address,
                refl,
                inl place,
                w.at_p ∙ ap (λ c. some (vector c)) same,
                λ a l. w.others a (λ e. omega (arith, place)) ∙ new.others a l,
              )))
