-- ===== src/Heap/Writes.antt =====
-- Runs that write one vector of the heap.
use move.Base.{ℕ, ◌<◌, ◌≡◌, ◌≢◌, refl, some, List, length, get_elem?, set, arith, ◌∙◌, lt→ltb}
use move.Value.{Value, ref, Body}
use move.Heap.{Heap, ok, elements, with_elements, at, atput}
use move.Heap.Laws.{Yields, yields}

-- From `h` to `g` only cell `p` changed, whose body is now `b`.
pub record Writes (h : Heap) (p : ℕ) (b : Body) (g : Heap) : Type 0 where
  pub at_p : g.cell p ≡ some b
  pub others : (a : ℕ) → a ≢ p → g.cell a ≡ h.cell a
  pub still_fresh : g.fresh ≡ h.fresh
  pub still_symtab : g.symtab ≡ h.symtab

pub Writes-trans :
    {h g f : Heap} {p : ℕ} {b c : Body} → Writes h p b g → Writes g p c f → Writes h p c f
Writes-trans v w = record {
  at_p = w.at_p;
  others = λ a ne. w.others a ne ∙ v.others a ne;
  still_fresh = w.still_fresh ∙ v.still_fresh;
  still_symtab = w.still_symtab ∙ v.still_symtab;
}

pub atput-Writes :
    (h : Heap) (p i : ℕ) (b : Body) (xs : List Value) (v : Value)
    → h.cell p ≡ some b
    → elements b ≡ some xs
    → i < length xs
    → Yields (λ _ g. Writes h p (with_elements b (set xs i v)) g) (atput (ref p) i v h)
unfolding atput
atput-Writes h p i b xs v holds el less =
    rw (holds, el, lt→ltb i (length xs) less)
      (yields (record {
        at_p = ground arith;
        others = ground arith;
        still_fresh = refl;
        still_symtab = refl;
      }))

pub at-body :
    (h : Heap) (p i : ℕ) (b : Body) (xs : List Value) {v : Value}
    → h.cell p ≡ some b
    → elements b ≡ some xs
    → get_elem? xs i ≡ some v
    → at (ref p) i h ≡ ok v h
unfolding at
at-body h p i b xs holds el e = rw (holds, el, e)

pub elements-with :
    (b : Body) (xs ys : List Value) → elements b ≡ some xs → elements (with_elements b ys) ≡ some ys
elements-with (Body.object o) xs ys e = cc
elements-with (Body.bvector bs) xs ys e = cc
elements-with (Body.ovector f t zs) xs ys e = refl
elements-with (Body.vector zs) xs ys e = refl

pub with-with :
    (b : Body) (xs ys : List Value) → with_elements (with_elements b xs) ys ≡ with_elements b ys
with-with (Body.object o) xs ys = refl
with-with (Body.bvector bs) xs ys = refl
with-with (Body.ovector f t zs) xs ys = refl
with-with (Body.vector zs) xs ys = refl

pub with-elements : (b : Body) (xs : List Value) → elements b ≡ some xs → b ≡ with_elements b xs
with-elements (Body.object o) xs e = refl
with-elements (Body.bvector bs) xs e = refl
with-elements (Body.ovector f t zs) xs e = cc
with-elements (Body.vector zs) xs e = cc
