-- ===== src/Gc/Mark.antt =====
-- mark marks exactly what it reaches.
use move.Base.{
  ℕ, zero, suc, ◌+◌, ◌<◌, ◌≤◌, ◌≡◌, inl, inr, refl, sym, ap, true, false, some, List, [], ◌∷◌, ◌==◌,
  if◌then◌else◌, get_elem?, All, arith, Bool-cases, ==_iff,
}
use mathlib.Core.Path.{subst}
use move.Value.{Value, null, num, singleton, ref, indeterminate, Body}
use move.Heap.{Heap, Run, body_of, Cmd}
use move.Heap.Laws.{Yields, yields, follow, weaken}
use move.Gc.{Marks, set_mark, children, mark, mark_each}

-- `v` is one of the values that mark follows from the body at `p`.
pub record Child (h : Heap) (p : ℕ) (v : Value) : Type 0 where
  pub body : Body
  pub holds : h.cell p ≡ some body
  pub index : ℕ
  pub at_index : get_elem? (children body) index ≡ some v

-- From the value a path of such references leads to the address.
pub data Reach (h : Heap) : Value → ℕ → Type 0 where
  here : {p : ℕ} → Reach h (ref p) p
  there : {p q : ℕ} (v : Value) → Child h p v → Reach h v q → Reach h (ref p) q

-- NULL, a tagged value, or a pointer to a body that was handed out.
abbrev pub IsSound : Heap → Value → Type 0
IsSound h (ref p) = (b : Body) × (h.cell p ≡ some b) × (p < h.fresh)
IsSound h indeterminate = ⊥
IsSound h _ = Unit

-- No body that is followed leads to a dangling pointer.
abbrev pub IsClosed : Heap → Type 0
IsClosed h = (p : ℕ) (b : Body) → h.cell p ≡ some b → All (IsSound h) (children b)

-- How many of the addresses below `n` have the mark 0.
abbrev pub unmarked : ℕ → Marks → ℕ
unmarked zero m = 0
unmarked (suc n) m = (if m n then 0 else 1) + unmarked n m

pub unmarked-le :
    (n : ℕ) (m m' : Marks) → ((p : ℕ) → m p ≡ true → m' p ≡ true) → unmarked n m' ≤ unmarked n m
unmarked-le zero m m' grows = omega arith
unmarked-le (suc n) m m' grows = ground (arith, grows n, unmarked-le n m m' grows)

unmarked-set_above : (n p : ℕ) (m : Marks) → n ≤ p → unmarked n (set_mark m p true) ≡ unmarked n m
unmarked-set_above zero p m above = refl
unmarked-set_above (suc n) p m above = ground (arith, unmarked-set_above n p m)

pub unmarked-set :
    (n p : ℕ) (m : Marks)
    → p < n
    → m p ≡ false
    → suc (unmarked n (set_mark m p true)) ≡ unmarked n m
unmarked-set zero p m less new = absurd (omega arith)
unmarked-set (suc n) p m less new = elim (Bool-cases (p == n)) [
  | inl e ↦ ground (arith, unmarked-set_above n p m)
  | inr ne ↦ ground (arith, unmarked-set n p m)
]

abbrev pub Done : Marks → Value → Type 0
Done m v = (q : ℕ) → v ≡ ref q → m q ≡ true

-- From the marks `m` to `m'` the addresses that the values `xs` reach were added: no mark is taken
-- away, every new mark is reached, what a newly marked body refers to is marked, and so are `xs`.
pub record Marking (h : Heap) (m : Marks) (xs : List Value) (m' : Marks) : Type 0 where
  pub grows : (p : ℕ) → m p ≡ true → m' p ≡ true
  pub sound :
      (p : ℕ)
      → m' p ≡ true
      → m p ≡ false
      → (i : ℕ) × (v : Value) × (get_elem? xs i ≡ some v) × Reach h v p
  pub closed : (p : ℕ) → m' p ≡ true → m p ≡ false → (v : Value) → Child h p v → Done m' v
  pub done : (i : ℕ) (v : Value) → get_elem? xs i ≡ some v → Done m' v

-- A list of one value.
only_one : {x v : Value} (i : ℕ) → get_elem? (x ∷ []) i ≡ some v → v ≡ x
only_one zero e = ground (arith, e)
only_one (suc i) e = absurd (cc)

module _ {h : Heap} where
  pub Marking-nil : (m : Marks) → Marking h m [] m
  Marking-nil m = record {
    grows = λ p e. e;
    sound = λ p e e'. absurd (cc);
    closed = λ p e e'. absurd (cc);
    done = λ i v e. absurd (cc);
  }

  -- A value that leads nowhere.
  Marking-leaf : (m : Marks) (x : Value) → Done m x → Marking h m (x ∷ []) m
  Marking-leaf m x leaf = record {
    grows = λ p e. e;
    sound = λ p e e'. absurd (cc);
    closed = λ p e e'. absurd (cc);
    done = only;
  }
    where
      only : (i : ℕ) (v : Value) → get_elem? (x ∷ []) i ≡ some v → Done m v
      only zero v e q f = leaf q (ground (arith, e, f))
      only (suc i) v e q f = absurd (cc)

module _ {h : Heap} {m m₁ m₂ : Marks} {x : Value} {xs : List Value}
    (first : Marking h m (x ∷ []) m₁) (rest : Marking h m₁ xs m₂) where
  cons_sound :
      (p : ℕ)
      → m₂ p ≡ true
      → m p ≡ false
      → (i : ℕ) × (v : Value) × (get_elem? (x ∷ xs) i ≡ some v) × Reach h v p
  cons_sound p new old = elim (Bool-cases (m₁ p)) [
    | inl e ↦ let (i, v, g, r) = first.sound p e old in (0, v, ap some (sym (only_one i g)), r)
    | inr e ↦ let (i, v, g, r) = rest.sound p new e in (suc i, v, g, r)
  ]

  cons_closed : (p : ℕ) → m₂ p ≡ true → m p ≡ false → (v : Value) → Child h p v → Done m₂ v
  cons_closed p new old v c q f = elim (Bool-cases (m₁ p)) [
    | inl e ↦ rest.grows q (first.closed p e old v c q f)
    | inr e ↦ rest.closed p new e v c q f
  ]

  cons-Done : (i : ℕ) (v : Value) → get_elem? (x ∷ xs) i ≡ some v → Done m₂ v
  cons-Done zero v g q f = rest.grows q (first.done 0 v g q f)
  cons-Done (suc i) v g q f = rest.done i v g q f

  pub Marking-cons : Marking h m (x ∷ xs) m₂
  Marking-cons = record {
    grows = λ p e. rest.grows p (first.grows p e);
    sound = cons_sound;
    closed = cons_closed;
    done = cons-Done;
  }

-- The run leaves the heap, and marks from `xs`.
abbrev pub MarksFrom : Heap → Marks → List Value → Run Marks → Type 0
MarksFrom h m xs run = Yields (λ m' g. (g ≡ h) × Marking h m xs m') run

module _ {h : Heap} (f : Value → Marks → Cmd Marks) (n : ℕ)
    (one : (x : Value) (m : Marks)
      → IsSound h x
      → unmarked h.fresh m < n
      → MarksFrom h m (x ∷ []) (f x m h)) where
  pub mark_each-Marking :
      (xs : List Value) (m : Marks)
      → All (IsSound h) xs
      → unmarked h.fresh m < n
      → MarksFrom h m xs (mark_each f xs m h)
  unfolding mark_each
  mark_each-Marking [] m sound less = yields (refl, Marking-nil m)
  mark_each-Marking (x ∷ xs) m (s, sound) less = follow (one x m s less) λ m₁ g (e, first).
      subst (λ g'. MarksFrom h m (x ∷ xs) (mark_each f xs m₁ g')) (sym e)
        (weaken
          (mark_each-Marking xs m₁ sound
            (let shrinks = unmarked-le h.fresh m m₁ first.grows in omega arith))
          λ m₂ g₂ (e₂, rest). (e₂, Marking-cons first rest))

-- What is marked from the children of a newly marked body, is marked from a pointer to it.
module _ {h : Heap} (m : Marks) {m' : Marks} (p : ℕ) (b : Body) (holds : h.cell p ≡ some b)
    (old : m p ≡ false) (inner : Marking h (set_mark m p true) (children b) m') where
  marks_itself : m' p ≡ true
  marks_itself = inner.grows p (ground arith)

  same_body : {q : ℕ} {d : Body} → h.cell q ≡ some d → p ≡ q → d ≡ b
  same_body e f = ground (arith, e, f, holds)

  enter_sound :
      (q : ℕ)
      → m' q ≡ true
      → m q ≡ false
      → (i : ℕ) × (v : Value) × (get_elem? (ref p ∷ []) i ≡ some v) × Reach h v q
  enter_sound q new old' = elim (Bool-cases (p == q)) [
    | inl e ↦ (0, ref p, refl, subst (λ r. Reach h (ref p) r) ((==_iff p q).0 e) here)
    | inr ne ↦
        let (i, v, g, r) = inner.sound q new (ground (arith, ne, old')) in
        (0, ref p, refl, there v (record { body = b; holds = holds; index = i; at_index = g }) r)
  ]

  enter_closed : (q : ℕ) → m' q ≡ true → m q ≡ false → (v : Value) → Child h q v → Done m' v
  enter_closed q new old' v c = elim (Bool-cases (p == q)) [
    | inl e ↦ inner.done c.index v (
        subst (λ d. get_elem? (children d) c.index ≡ some v) (same_body c.holds ((==_iff p q).0 e))
          c.at_index)
    | inr ne ↦ inner.closed q new (ground (arith, ne, old')) v c
  ]

  enter-Done : (i : ℕ) (v : Value) → get_elem? (ref p ∷ []) i ≡ some v → Done m' v
  enter-Done i v g q e = subst (λ q. m' q ≡ true) (ground (arith, only_one i g, e)) marks_itself

  pub Marking-enter : Marking h m (ref p ∷ []) m'
  Marking-enter = record {
    grows = λ q e. inner.grows q (ground (arith, e));
    sound = enter_sound;
    closed = enter_closed;
    done = enter-Done;
  }

module _ {h : Heap} (closed : IsClosed h) where
  pub mark-Marking :
      (n : ℕ) (x : Value) (m : Marks)
      → IsSound h x
      → unmarked h.fresh m < n
      → MarksFrom h m (x ∷ []) (mark n x m h)
  unfolding mark body_of
  mark-Marking zero x m s less = absurd (omega arith)
  mark-Marking (suc n) null m s less = yields (refl, Marking-leaf m null λ q e. absurd (cc))
  mark-Marking (suc n) (num a) m s less = yields (refl, Marking-leaf m (num a) λ q e. absurd (cc))
  mark-Marking (suc n) (singleton a) m s less =
      yields (refl, Marking-leaf m (singleton a) λ q e. absurd (cc))
  mark-Marking (suc n) indeterminate m s less = absurd s
  mark-Marking (suc n) (ref p) m (b, holds, below) less = elim (Bool-cases (m p)) [
    | inl e ↦ rw e (yields (refl, Marking-leaf m (ref p) λ q f. ground (arith, e, f)))
    | inr ne ↦
        let fewer = unmarked-set h.fresh p m below ne in
        rw (ne, holds)
          (weaken
            (mark_each-Marking (mark n) n (mark-Marking n) (children b) (set_mark m p true)
              (closed p b holds) (omega arith))
            λ m' g (e, inner). (e, Marking-enter m p b holds ne inner))
  ]
