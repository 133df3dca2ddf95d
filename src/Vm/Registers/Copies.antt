-- ===== src/Vm/Registers/Copies.antt =====
-- The loops that fill a frame and copy a stack.
use move.Base.{
  ℕ, zero, suc, ◌+◌, ◌<◌, ◌≤◌, ◌≡◌, ◌≢◌, refl, some, List, [], ◌∷◌, ◌==◌, ltb, leb, ◌&&◌,
  if◌then◌else◌, length, get_elem?, set, arith, ◌∙◌, length-set, get_elem?-set_self,
  get_elem?-set_ne, get_elem?_lt, inl, inr, Bool-cases, ap,
}
use mathlib.Core.Path.{subst}
use move.Value.{Value, ref, Body}
use move.Heap.{Heap, elements, with_elements}
use move.Heap.Laws.{Yields, yields, follow, weaken}
use move.Heap.Writes.{
  Writes, Writes-trans, atput-Writes, at-body, elements-with, with-with, with-elements,
}
use move.Vm.Registers.{fill_slots, copy_cells}

-- The cells of `xs` from index `i` on give way to `vs`.
abbrev pub overwrite : List Value → ℕ → List Value → List Value
overwrite xs i [] = xs
overwrite xs i (v ∷ vs) = overwrite (set xs i v) (i + 1) vs

pub fill_slots-Writes :
    (h : Heap) (p i : ℕ) (b : Body) (xs vs : List Value)
    → h.cell p ≡ some b
    → elements b ≡ some xs
    → i + length vs ≤ length xs
    → Yields (λ _ g. Writes h p (with_elements b (overwrite xs i vs)) g) (fill_slots (ref p) i vs h)
unfolding fill_slots
fill_slots-Writes h p i b xs [] holds el fits = yields (record {
  at_p = holds ∙ ap some (with-elements b xs el);
  others = λ a ne. refl;
  still_fresh = refl;
  still_symtab = refl;
})
fill_slots-Writes h p i b xs (v ∷ vs) holds el fits =
    follow (atput-Writes h p i b xs v holds el (omega arith)) λ _ g w.
      weaken
        (fill_slots-Writes g p (i + 1) (with_elements b (set xs i v)) (set xs i v) vs w.at_p
          (elements-with b xs (set xs i v) el) (omega (arith, length-set xs i v)))
        λ _ f w'. Writes-trans w (
          subst (λ c. Writes g p c f) (with-with b (set xs i v) (overwrite (set xs i v) (i + 1) vs))
            w')

-- `zs` holds the cells of `xs` at the `n` indices from `i` on, and those of `ys` elsewhere.
pub record Copied (xs ys : List Value) (n i : ℕ) (zs : List Value) : Type 0 where
  pub width : length zs ≡ length ys
  pub cells :
      (j : ℕ)
      → get_elem? zs j ≡ (if leb i j && ltb j (i + n) then get_elem? xs j else get_elem? ys j)

abbrev pub CopiedBody : Body → List Value → List Value → ℕ → ℕ → Heap → ℕ → Heap → Type 0
CopiedBody b xs ys n i h q g =
    (zs : List Value) × Copied xs ys n i zs × Writes h q (with_elements b zs) g

Copied-step :
    (xs ys zs : List Value) (n i : ℕ) {v : Value}
    → get_elem? xs i ≡ some v
    → i < length ys
    → Copied xs (set ys i v) n (i + 1) zs
    → Copied xs ys (suc n) i zs
Copied-step xs ys zs n i {v} at_i less c = record {
  width = c.width ∙ length-set ys i v;
  cells = λ j. elim (Bool-cases (i == j)) [
    | inl e ↦
        let same : j ≡ i = ground arith in
        ground (arith, c.cells j, get_elem?-set_self ys i v less, at_i)
    | inr e ↦ ground (arith, c.cells j, get_elem?-set_ne ys i j v)
  ];
}

pub copy_cells-Copied :
    (h : Heap) (p q i n : ℕ) (b c : Body) (xs ys : List Value)
    → p ≢ q
    → h.cell p ≡ some b
    → elements b ≡ some xs
    → h.cell q ≡ some c
    → elements c ≡ some ys
    → i + n ≤ length xs
    → i + n ≤ length ys
    → Yields (λ _ g. CopiedBody c xs ys n i h q g) (copy_cells (ref p) (ref q) n i h)
unfolding copy_cells
copy_cells-Copied h p q i zero b c xs ys ne hb eb hc ec fx fy = yields (
  ys,
  record { width = refl; cells = λ j. ground arith },
  record {
    at_p = hc ∙ ap some (with-elements c ys ec);
    others = λ a na. refl;
    still_fresh = refl;
    still_symtab = refl;
  },
)
copy_cells-Copied h p q i (suc n) b c xs ys ne hb eb hc ec fx fy =
    let (v, at_i) = get_elem?_lt xs i (omega arith) in
    rw (at-body h p i b xs hb eb at_i) (
      follow (atput-Writes h q i c ys v hc ec (omega arith)) λ _ g w.
        weaken
          (copy_cells-Copied g p q (i + 1) n b (with_elements c (set ys i v)) xs (set ys i v) ne
            (w.others p ne ∙ hb) eb w.at_p (elements-with c ys (set ys i v) ec) (omega arith)
            (omega (arith, length-set ys i v)))
          λ _ f (zs, copied, w'). (
            zs,
            Copied-step xs ys zs n i at_i (omega arith) copied,
            Writes-trans w (subst (λ d. Writes g q d f) (with-with c (set ys i v) zs) w'),
          ))
