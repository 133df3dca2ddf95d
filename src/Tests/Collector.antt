-- ===== src/Tests/Collector.antt =====
-- The theorems on the collector at concrete inputs.
use move.Base.{
  ℕ, zero, suc, ◌≡◌, ◌↔◌, refl, Bool, true, false, Option, none, some, List, [], ◌∷◌, All, Distinct,
  arith, pos,
}
use mathlib.Core.Path.{subst}
use move.Value.{Value, null, num, ref, Body, bvector, ovector, vector, t_connection, t_symbol}
use move.Heap.{Heap}
use move.Heap.Laws.{Yields}
use move.Gc.{Gc, children, mark, mark_each, sweep}
use move.Gc.Mark.{IsSound, IsClosed}
use move.Gc.Roots.{ReachFrom, mark-reachable}
use move.Gc.Relink.{Table, Ready}
use move.Gc.Sweep.{SweptAll, sweep-outcome}

-- Two vectors that refer to each other, and one that nothing refers to.
abbrev ring_cell : ℕ → Option Body
ring_cell zero = some (vector (ref 1 ∷ null ∷ []))
ring_cell (suc zero) = some (vector (ref 0 ∷ []))
ring_cell (suc (suc zero)) = some (vector (ref 0 ∷ []))
ring_cell (suc (suc (suc n))) = none

abbrev ring : Heap
ring = record {
  cell = ring_cell;
  fresh = 3;
  all_objects = 2 ∷ 1 ∷ 0 ∷ [];
  curr_heapsize = 0;
  symtab = null;
}

same_body : {a b : Body} → some a ≡ some b → a ≡ b
same_body e = ground (arith, e)

first-IsSound : IsSound ring (ref 0)
first-IsSound = (vector (ref 1 ∷ null ∷ []), refl, omega arith)

ring-IsClosed : IsClosed ring
ring-IsClosed zero b e =
    subst (λ c. All (IsSound ring) (children c)) (same_body e)
      ((vector (ref 0 ∷ []), refl, omega arith), (tt, tt))
ring-IsClosed (suc zero) b e =
    subst (λ c. All (IsSound ring) (children c)) (same_body e) (first-IsSound, tt)
ring-IsClosed (suc (suc zero)) b e =
    subst (λ c. All (IsSound ring) (children c)) (same_body e) (first-IsSound, tt)
ring-IsClosed (suc (suc (suc n))) b e = absurd (cc)

mark-reachable_example :
    Yields
      (λ m g. (g ≡ ring) × ((p : ℕ) → (m p ≡ true) ↔ ReachFrom ring (ref 0 ∷ []) p))
      (mark_each (mark 4) (ref 0 ∷ []) (λ p. false) ring)
mark-reachable_example = mark-reachable ring (ref 0 ∷ []) ring-IsClosed (first-IsSound, tt)

-- The symbol table at 0, a symbol at 1, a connection that is not marked at 2, a byte vector that is
-- not marked at 3.
abbrev symbol_cells : List Value
symbol_cells = null ∷ null ∷ num (pos 5) ∷ num (pos 7) ∷ []

abbrev heap_cell : ℕ → Option Body
heap_cell zero = some (vector (null ∷ null ∷ []))
heap_cell (suc zero) = some (ovector false t_symbol symbol_cells)
heap_cell (suc (suc zero)) = some (ovector true t_connection (null ∷ []))
heap_cell (suc (suc (suc zero))) = some (bvector (65 ∷ []))
heap_cell (suc (suc (suc (suc n)))) = none

abbrev heap : Heap
heap = record { cell = heap_cell; fresh = 4; all_objects = []; curr_heapsize = 0; symtab = ref 0 }

abbrev marks : ℕ → Bool
marks zero = true
marks (suc zero) = true
marks (suc (suc n)) = false

abbrev gc : Gc
gc = record {
  marked = marks;
  num_roots = 0;
  roots = [];
  finalizable_chain = [];
  max_heapsize = 100;
  double_threshold = 50;
}

abbrev flags : ℕ → Bool
flags zero = false
flags (suc zero) = false
flags (suc (suc zero)) = true
flags (suc (suc (suc n))) = false

abbrev sizes : ℕ → ℕ
sizes zero = 32
sizes (suc zero) = 56
sizes (suc (suc zero)) = 32
sizes (suc (suc (suc n))) = 17

abbrev table : Table heap 0 2
table = record {
  is_symtab = refl;
  chains = null ∷ null ∷ [];
  holds = refl;
  count = refl;
  some_chain = omega arith;
}

abbrev objects : List ℕ
objects = 3 ∷ 2 ∷ 1 ∷ 0 ∷ []

distinct : Distinct objects
distinct = (
  (λ e. ground (arith, e), (λ e. ground (arith, e), (λ e. ground (arith, e), tt))),
  (
    (λ e. ground (arith, e), (λ e. ground (arith, e), tt)),
    ((λ e. ground (arith, e), tt), (tt, tt)),
  ),
)

All-Ready : All (Ready flags sizes heap) objects
All-Ready = (
  record { body = bvector (65 ∷ []); holds = refl; flag = refl; bytes = refl; hash = tt },
  (
    record {
      body = ovector true t_connection (null ∷ []);
      holds = refl;
      flag = refl;
      bytes = refl;
      hash = λ e. absurd (ground (arith, e));
    },
    (
      record {
        body = ovector false t_symbol symbol_cells;
        holds = refl;
        flag = refl;
        bytes = refl;
        hash = λ e. (pos 7, refl, omega arith);
      },
      (
        record {
          body = vector (null ∷ null ∷ []);
          holds = refl;
          flag = refl;
          bytes = refl;
          hash = tt;
        },
        tt,
      ),
    ),
  ),
)

sweep-outcome_example :
    Yields
      (λ gc' h'. SweptAll flags sizes 0 2 marks objects gc heap gc' h')
      (sweep (ref 0) objects gc heap)
sweep-outcome_example =
    sweep-outcome flags sizes 0 2 marks refl objects gc heap table distinct
      (refl, (refl, (refl, (refl, tt)))) All-Ready
