-- ===== src/Heap/Laws.antt =====
-- Total correctness of a run, and what the reads and writes of the heap do.
use move.Base.{ℕ, ◌<◌, ◌≡◌, refl, some, List, length, get_elem?, set, arith, lt→ltb}
use move.Value.{Value, ref, ovector, vector}
use move.Heap.{Heap, Run, ok, fault, exit, out_of_fuel, Cmd, and_then, update, at, atput, length_of}

-- The program does not fault, exit or lack fuel, and its result and the heap after it satisfy `P`.
pub data Yields {A : Type 0} (P : A → Heap → Type 0) : Run A → Type 0 where
  yields : {result : A} {after : Heap} → P result after → Yields P (ok result after)

-- From what a finished run satisfies.
pub of_ok :
    {A : Type 0} {P : A → Heap → Type 0} {result : A} {after : Heap}
    → Yields P (ok result after)
    → P result after
of_ok (yields holds) = holds

pub weaken :
    {A : Type 0} {P Q : A → Heap → Type 0} {run : Run A}
    → Yields P run
    → ((result : A) (after : Heap) → P result after → Q result after)
    → Yields Q run
weaken (yields {result} {after} holds) imp = yields (imp result after holds)

-- The rest of a program, from what its first part leaves.
pub follow :
    {A B : Type 0} {P : A → Heap → Type 0} {Q : B → Heap → Type 0} {first : Run A}
    {rest : A → Cmd B}
    → Yields P first
    → ((result : A) (after : Heap) → P result after → Yields Q (rest result after))
    → Yields Q (and_then first rest)
follow (yields {result} {after} holds) next = next result after holds

module _ (h : Heap) (p i : ℕ) where
  pub at-ovector :
      {f : _} {t : ℕ} (xs : List Value) {v : Value}
      → h.cell p ≡ some (ovector f t xs)
      → get_elem? xs i ≡ some v
      → at (ref p) i h ≡ ok v h
  unfolding at
  at-ovector xs e g = rw (e, g)

  pub at-vector :
      (xs : List Value) {v : Value}
      → h.cell p ≡ some (vector xs)
      → get_elem? xs i ≡ some v
      → at (ref p) i h ≡ ok v h
  unfolding at
  at-vector xs e g = rw (e, g)

  pub atput-ovector :
      {f : _} {t : ℕ} (xs : List Value) (v : Value)
      → h.cell p ≡ some (ovector f t xs)
      → i < length xs
      → atput (ref p) i v h
        ≡ ok tt (record h { cell = update h.cell p (some (ovector f t (set xs i v))) })
  unfolding atput
  atput-ovector xs v e l = rw (e, lt→ltb i (length xs) l)

  pub atput-vector :
      (xs : List Value) (v : Value)
      → h.cell p ≡ some (vector xs)
      → i < length xs
      → atput (ref p) i v h
        ≡ ok tt (record h { cell = update h.cell p (some (vector (set xs i v))) })
  unfolding atput
  atput-vector xs v e l = rw (e, lt→ltb i (length xs) l)

-- A run that ends went through each of its parts.
pub and_then-eq-ok :
    {A B : Type 0} (r : Run A) (k : A → Cmd B) {b : B} {g : Heap}
    → and_then r k ≡ ok b g
    → (a : A) × (f : Heap) × (r ≡ ok a f) × (k a f ≡ ok b g)
and_then-eq-ok (ok a f) k e = (a, f, refl, e)
and_then-eq-ok fault k e = absurd (cc)
and_then-eq-ok (exit n) k e = absurd (cc)
and_then-eq-ok out_of_fuel k e = absurd (cc)

pub at-vector_inv :
    {h : Heap} (p i : ℕ) (xs : List Value) {x : Value} {g : Heap}
    → h.cell p ≡ some (vector xs)
    → at (ref p) i h ≡ ok x g
    → (get_elem? xs i ≡ some x) × (g ≡ h)
unfolding at
at-vector_inv p i xs holds e = ground (arith, holds, e)

pub length_of-vector :
    {h : Heap} (p : ℕ) (xs : List Value)
    → h.cell p ≡ some (vector xs)
    → length_of (ref p) h ≡ ok (length xs) h
unfolding length_of
length_of-vector p xs holds = rw holds
