-- ===== src/Gc/Sweep.antt =====
-- The sweep over the chain of all objects.
use move.Base.{
  ℕ, ◌+◌, ◌≡◌, ◌≢◌, inl, inr, refl, sym, ap, ◌∙◌, Bool, true, false, not, Option, some, List, [],
  ◌∷◌, ◌==◌, ==_iff, ◌&&◌, if◌then◌else◌, All, All-zip, Distinct, arith, Bool-cases,
}
use mathlib.Core.Path.{subst}
use move.Value.{ref, Body, vector}
use move.Heap.{Heap, object_length_bytes}
use move.Heap.Laws.{Yields, yields, follow, weaken}
use move.Gc.{Gc, wants_finalizer, sweep}
use move.Gc.Relink.{Table, Ready}
use move.Gc.Round.{Outcome, Swept, sweep_one-Swept}

-- The addresses that pass the test, one after the other put in front.
abbrev pub pushed : (ℕ → Bool) → List ℕ → List ℕ → List ℕ
pushed f [] front = front
pushed f (p ∷ ps) front = pushed f ps (if f p then p ∷ front else front)

-- The sizes of the addresses that pass the test, added up.
abbrev pub total : (ℕ → Bool) → (ℕ → ℕ) → List ℕ → ℕ → ℕ
total f size [] sum = sum
total f size (p ∷ ps) sum = total f size ps (if f p then sum + size p else sum)

some-inj : {a b : Body} {o : Option Body} → o ≡ some a → o ≡ some b → a ≡ b
some-inj e f = ground (arith, e, f)

-- The table keeps its length, so it stays ready, and so does any object that was not written.
module _ (fin : ℕ → Bool) (size : ℕ → ℕ) {t n : ℕ} {h h' : Heap} (before : Table h t n)
    (after : Table h' t n) where
  table-Ready : Ready fin size h t → Ready fin size h' t
  table-Ready ready =
      let is : ready.body ≡ vector before.chains = some-inj ready.holds before.holds in
      record {
        body = vector after.chains;
        holds = after.holds;
        flag = ready.flag ∙ ap wants_finalizer is;
        bytes = ready.bytes ∙ ap object_length_bytes is ∙ rw (before.count, after.count) refl;
        hash = tt;
      }

  frame-Ready : {q : ℕ} → (q ≢ t → h'.cell q ≡ h.cell q) → Ready fin size h q → Ready fin size h' q
  frame-Ready {q} same ready = elim (Bool-cases (q == t)) [
    | inl e ↦
        let is = (==_iff q t).0 e in
        subst (Ready fin size h') (sym is) (table-Ready (subst (Ready fin size h) is ready))
    | inr ne ↦ record {
      body = ready.body;
      holds = same (λ e. absurd (ground (arith, ne, e))) ∙ ready.holds;
      flag = ready.flag;
      bytes = ready.bytes;
      hash = ready.hash;
    }
  ]

  -- What became of an object stays so.
  frame-Outcome :
      (first : Heap) (marked flag : Bool) (q : ℕ)
      → (marked ≡ false → q ≢ t)
      → (q ≢ t → h'.cell q ≡ h.cell q)
      → Outcome fin size first marked flag q h
      → Outcome fin size first marked flag q h'
  frame-Outcome first true flag q apart same outcome = frame-Ready same outcome
  frame-Outcome first false true q apart same (b, was, is) = (b, was, same (apart refl) ∙ is)
  frame-Outcome first false false q apart same outcome = same (apart refl) ∙ outcome

-- A later start of the sweep.
from_start :
    (fin : ℕ → Bool) (size : ℕ → ℕ) (h₀ h₁ h' : Heap) (marked flag : Bool) (q : ℕ)
    → (marked ≡ false → h₁.cell q ≡ h₀.cell q)
    → Outcome fin size h₁ marked flag q h'
    → Outcome fin size h₀ marked flag q h'
from_start fin size h₀ h₁ h' true flag q same outcome = outcome
from_start fin size h₀ h₁ h' false true q same (b, was, is) = (b, sym (same refl) ∙ was, is)
from_start fin size h₀ h₁ h' false false q same outcome = outcome

-- The sweep over `ps`, with the marks `m`.
pub record SweptAll (fin : ℕ → Bool) (size : ℕ → ℕ) (t n : ℕ) (m : ℕ → Bool) (ps : List ℕ) (gc : Gc)
    (h : Heap) (gc' : Gc) (h' : Heap) : Type 0 where
  pub table : Table h' t n
  pub others : (q : ℕ) → q ≢ t → All (λ p. p ≢ q) ps → h'.cell q ≡ h.cell q
  pub marks : (q : ℕ) → All (λ p. p ≢ q) ps → gc'.marked q ≡ gc.marked q
  pub objects : h'.all_objects ≡ pushed m ps h.all_objects
  pub bytes : h'.curr_heapsize ≡ total m size ps h.curr_heapsize
  pub waiting : gc'.finalizable_chain ≡ pushed (λ p. not (m p) && fin p) ps gc.finalizable_chain
  pub outcomes : All (λ p. (gc'.marked p ≡ false) × Outcome fin size h (m p) (fin p) p h') ps

module _ (m : ℕ → Bool) {t : ℕ} (table_kept : m t ≡ true) where
  unmarked_other : {p : ℕ} → m p ≡ false → p ≢ t
  unmarked_other e f = absurd (cc (e, f, table_kept))

module _ (fin : ℕ → Bool) (size : ℕ → ℕ) (m : ℕ → Bool) where
  abbrev Prepared : List ℕ → Gc → Heap → Type 0
  Prepared ps gc h = All (λ p. gc.marked p ≡ m p) ps × All (Ready fin size h) ps

  -- One round leaves the rest prepared.
  rest-Prepared :
      {t n : ℕ} (p : ℕ) (ps : List ℕ) {gc gc' : Gc} {h h' : Heap}
      → Table h t n
      → All (λ q. q ≢ p) ps
      → Swept fin size t n gc h p gc' h'
      → Prepared ps gc h
      → Prepared ps gc' h'
  rest-Prepared p ps table new round (marks, ready) = (
    All-zip ps new marks λ q ne e. round.marks q ne ∙ e,
    All-zip ps new ready
        λ q ne r. frame-Ready fin size table round.table (λ f. round.others q f ne) r,
  )

module _ (fin : ℕ → Bool) (size : ℕ → ℕ) (t n : ℕ) (m : ℕ → Bool) (table_kept : m t ≡ true) where
  -- One round, then the others.
  SweptAll-cons :
      (p : ℕ) (ps : List ℕ) {gc gc₁ gc' : Gc} {h h₁ h' : Heap}
      → gc.marked p ≡ m p
      → All (λ q. q ≢ p) ps
      → Swept fin size t n gc h p gc₁ h₁
      → SweptAll fin size t n m ps gc₁ h₁ gc' h'
      → SweptAll fin size t n m (p ∷ ps) gc h gc' h'
  SweptAll-cons p ps {gc} {gc₁} {gc'} {h} {h₁} {h'} mark new round rest = record {
    table = rest.table;
    others = λ q apart (ne, nes). rest.others q apart nes ∙ round.others q apart (λ e. ne (sym e));
    marks = λ q (ne, nes). rest.marks q nes ∙ round.marks q (λ e. ne (sym e));
    objects = rest.objects ∙ ap (pushed m ps) (rw⁻¹ mark round.objects);
    bytes = rest.bytes ∙ ap (total m size ps) (rw⁻¹ mark round.bytes);
    waiting = rest.waiting ∙ ap (pushed (λ p. not (m p) && fin p) ps) (rw⁻¹ mark round.waiting);
    outcomes = (
      (
        rest.marks p new ∙ round.cleared,
        frame-Outcome fin size round.table rest.table h (m p) (fin p) p
            (unmarked_other m table_kept) (λ f. rest.others p f new) (rw⁻¹ mark round.outcome),
      ),
      All-zip ps new rest.outcomes λ q ne (cleared, outcome). (
        cleared,
        from_start fin size h h₁ h' (m q) (fin q) q
            (λ e. round.others q (unmarked_other m table_kept e) ne) outcome,
      ),
    );
  }

  -- On a chain of different objects, marked by `m`, of which `fin` gives the `finalize` flags and `size`
  -- the sizes, with a symbol table that is marked, the sweep ends without a fault. Each marked object
  -- keeps its flag and size (a symbol its hash), each unmarked one without the flag is freed, each unmarked
  -- one with the flag loses it and no more; every mark is cleared. The marked ones are what is in
  -- front of the new chain, their sizes what is added to the heap's size, and the unmarked ones with
  -- the flag what is in front of the chain of objects to finalize.
  pub sweep-outcome :
      (ps : List ℕ) (gc : Gc) (h : Heap)
      → Table h t n
      → Distinct ps
      → All (λ p. gc.marked p ≡ m p) ps
      → All (Ready fin size h) ps
      → Yields (λ gc' h'. SweptAll fin size t n m ps gc h gc' h') (sweep (ref t) ps gc h)
  unfolding sweep
  sweep-outcome [] gc h table distinct marks ready = yields (record {
    table = table;
    others = λ q e f. refl;
    marks = λ q e. refl;
    objects = refl;
    bytes = refl;
    waiting = refl;
    outcomes = tt;
  })
  sweep-outcome (p ∷ ps) gc h table (new, distinct) (mark, marks) (r, ready) =
      follow (sweep_one-Swept fin size t n p gc h table r λ e. mark ∙ ap m e ∙ table_kept)
        λ gc₁ h₁ round.
          let (marks₁, ready₁) = rest-Prepared fin size m p ps table new round (marks, ready) in
          weaken (sweep-outcome ps gc₁ h₁ round.table distinct marks₁ ready₁)
            λ gc' h' rest. SweptAll-cons p ps mark new round rest
