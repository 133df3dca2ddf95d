-- ===== src/Gc/Roots.antt =====
-- The mark phase from a list of roots: it marks what a path of references leads to, and nothing else.
use move.Base.{ℕ, zero, suc, ◌≤◌, ◌≡◌, refl, ◌↔◌, true, false, some, List, get_elem?, All, arith}
use move.Value.{Value}
use move.Heap.{Heap}
use move.Heap.Laws.{Yields, weaken}
use move.Gc.{Marks, mark, mark_each}
use move.Gc.Mark.{
  Child, Reach, here, there, IsSound, IsClosed, unmarked, Done, mark-Marking, mark_each-Marking,
}

unmarked-bound : (n : ℕ) (m : Marks) → unmarked n m ≤ n
unmarked-bound zero m = omega arith
unmarked-bound (suc n) m = ground (arith, unmarked-bound n m)

-- A root of the list leads to the address.
abbrev pub ReachFrom : Heap → List Value → ℕ → Type 0
ReachFrom h xs p = (i : ℕ) × (v : Value) × (get_elem? xs i ≡ some v) × Reach h v p

-- A set of marks that holds the value and is closed under references holds all that it leads to.
Reach-Done :
    {h : Heap} {m : Marks} {v : Value} {p : ℕ}
    → ((q : ℕ) → m q ≡ true → (w : Value) → Child h q w → Done m w)
    → Reach h v p
    → Done m v
    → m p ≡ true
Reach-Done closed (here {p}) done = done p refl
Reach-Done closed (there {p} w c r) done = Reach-Done closed r (closed p (done p refl) w c)

-- On a heap without dangling pointers, with no mark set, the calls of mark on the roots end within as
-- many nested calls as there are addresses, and one more; they leave the heap as it is, and the
-- marked addresses are those that some root leads to, a symbol's next link not followed.
pub mark-reachable :
    (h : Heap) (xs : List Value)
    → IsClosed h
    → All (IsSound h) xs
    → Yields
        (λ m g. (g ≡ h) × ((p : ℕ) → (m p ≡ true) ↔ ReachFrom h xs p))
        (mark_each (mark (suc h.fresh)) xs (λ p. false) h)
mark-reachable h xs closed sound =
    let bound = unmarked-bound h.fresh (λ p. false) in
    weaken
      (mark_each-Marking (mark (suc h.fresh)) (suc h.fresh) (mark-Marking closed (suc h.fresh)) xs
        (λ p. false) sound (omega arith))
      λ m g (e, marking). (
        e,
        λ p. (
          λ new. marking.sound p new refl,
          λ (i, v, at_i, r). Reach-Done (λ q f. marking.closed q f refl) r (marking.done i v at_i),
        ),
      )
