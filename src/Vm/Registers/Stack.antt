-- ===== src/Vm/Registers/Stack.antt =====
-- The operand stack: push and pop.
use move.Base.{
  ℕ, suc, ◌+◌, ◌-◌, ◌<◌, ◌≤◌, ◌≡◌, refl, true, false, some, List, ◌==◌, if◌then◌else◌, length,
  get_elem?, set, leb, arith, inl, inr, Bool-cases, ◌∙◌, length-set, get_elem?-set_self,
  get_elem?_lt,
}
use move.Value.{Value, ref, vector}
use move.Heap.{Heap, ok, ◌>>=◌}
use move.Heap.Laws.{at-vector, Yields, yields, follow, weaken}
use move.Heap.Writes.{Writes, atput-Writes}
use move.Vm.Registers.{Vms, push, pop, vm_stack_length, dying}

-- The stack vector is at `s`, holds the cells `xs` and has the full length.
pub record IsStack (vms : Vms) (h : Heap) (s : ℕ) (xs : List Value) : Type 0 where
  pub is_ref : vms.stack ≡ ref s
  pub holds : h.cell s ≡ some (vector xs)
  pub width : length xs ≡ vm_stack_length
  pub bounded : vms.top ≤ vm_stack_length

module _ {vms : Vms} {h : Heap} {s : ℕ} {xs : List Value} (is : IsStack vms h s xs) where
  push-room :
      (o : Value)
      → vms.top < vm_stack_length
      → Yields
          (λ v g. (v ≡ record vms { top = vms.top + 1 }) × Writes h s (vector (set xs vms.top o)) g)
          (push o vms h)
  unfolding push
  push-room o less =
      let guard : leb vm_stack_length vms.top ≡ false = ground arith in
      let width = is.width in
      rw (guard, is.is_ref)
        (follow (atput-Writes h s vms.top (vector xs) xs o is.holds refl (omega arith))
          λ _ g w. yields (refl, w))

  push-full :
      (o : Value)
      → vms.top ≡ vm_stack_length
      → Yields
          (λ v g. (v ≡ record vms { top = 1; state = dying }) × Writes h s (vector (set xs 0 o)) g)
          (push o vms h)
  unfolding push
  push-full o full =
      let guard : leb vm_stack_length vms.top ≡ true = ground arith in
      let width = is.width in
      rw (guard, is.is_ref)
        (follow (atput-Writes h s 0 (vector xs) xs o is.holds refl (omega arith))
          λ _ g w. yields (refl, w))

  pop-cell :
      (x : Value) (k : ℕ)
      → vms.top ≡ suc k
      → get_elem? xs k ≡ some x
      → pop vms h ≡ ok (x, record vms { top = k }) h
  unfolding pop
  pop-cell x k top e =
      let guard : (vms.top == 0) ≡ false = ground arith in
      let index : vms.top - 1 ≡ k = omega arith in
      rw (guard, index, is.is_ref, at-vector h s k xs is.holds e) refl

  pop-empty :
      (x : Value)
      → vms.top ≡ 0
      → get_elem? xs 0 ≡ some x
      → pop vms h ≡ ok (x, record vms { top = 0; state = dying }) h
  unfolding pop
  pop-empty x top e =
      let guard : (vms.top == 0) ≡ true = ground arith in
      rw (guard, is.is_ref, at-vector h s 0 xs is.holds e) refl

module _ {vms : Vms} {h : Heap} {s : ℕ} {xs : List Value} (is : IsStack vms h s xs) where
  -- On a stack with room, a push and then a pop give the pushed value and the registers as they were;
  -- of the heap only the cell at the stack pointer changed.
  pub pop-push :
      (o : Value)
      → vms.top < vm_stack_length
      → Yields
          (λ (x, v) g. (x ≡ o) × (v ≡ vms) × Writes h s (vector (set xs vms.top o)) g)
          ((push o vms >>= pop) h)
  pop-push o less =
      let width = is.width in
      follow (push-room is o less) λ v g (e, w).
        let next : IsStack (record vms { top = vms.top + 1 }) g s (set xs vms.top o) = record {
          is_ref = is.is_ref;
          holds = w.at_p;
          width = length-set xs vms.top o ∙ is.width;
          bounded = omega arith;
        } in
        rw
          (e, pop-cell next o vms.top (omega arith) (get_elem?-set_self xs vms.top o (omega arith)))
          (yields (refl, refl, w))

  -- A push ends with a well-formed stack; a full stack kills the thread.
  push-IsStack :
      (o : Value)
      → Yields
          (λ v g.
            ((ys : List Value) × IsStack v g s ys)
            × (v.state ≡ (if leb vm_stack_length vms.top then dying else vms.state)))
          (push o vms h)
  push-IsStack o = elim (Bool-cases (leb vm_stack_length vms.top)) [
    | inl full ↦ weaken (push-full is o (ground (arith, is.bounded))) λ v g (e, w).
        rw (full, e)
          (
            (
              set xs 0 o,
              record {
                is_ref = is.is_ref;
                holds = w.at_p;
                width = length-set xs 0 o ∙ is.width;
                bounded = omega arith;
              },
            ),
            refl,
          )
    | inr room ↦ weaken (push-room is o (ground arith)) λ v g (e, w).
        rw (room, e)
          (
            (
              set xs vms.top o,
              record {
                is_ref = is.is_ref;
                holds = w.at_p;
                width = length-set xs vms.top o ∙ is.width;
                bounded = ground arith;
              },
            ),
            refl,
          )
  ]

  pop-IsStack :
      Yields
        (λ (x, v) g. IsStack v g s xs × (v.state ≡ (if vms.top == 0 then dying else vms.state)))
        (pop vms h)
  pop-IsStack = elim (Bool-cases (vms.top == 0)) [
    | inl empty ↦
        let (x, e) = get_elem?_lt xs 0 (omega (arith, is.width)) in
        rw (pop-empty is x (ground arith) e, empty)
          (yields (
            record {
              is_ref = is.is_ref;
              holds = is.holds;
              width = is.width;
              bounded = omega arith;
            },
            refl,
          ))
    | inr more ↦
        let top : vms.top ≡ suc (vms.top - 1) = ground arith in
        let (x, e) = get_elem?_lt xs (vms.top - 1) (omega (arith, is.width, is.bounded)) in
        rw (pop-cell is x (vms.top - 1) top e, more)
          (yields (
            record {
              is_ref = is.is_ref;
              holds = is.holds;
              width = is.width;
              bounded = omega (arith, is.bounded);
            },
            refl,
          ))
  ]

  -- Push and pop never fault: each ends with a well-formed stack, also on a full and on an empty
  -- stack, and exactly then sets the thread's state to dying, else keeps it.
  pub push-pop-IsStack :
      (o : Value)
      → Yields
          (λ v g.
            ((ys : List Value) × IsStack v g s ys)
            × (v.state ≡ (if leb vm_stack_length vms.top then dying else vms.state)))
          (push o vms h)
        × Yields
            (λ (x, v) g. IsStack v g s xs × (v.state ≡ (if vms.top == 0 then dying else vms.state)))
            (pop vms h)
  push-pop-IsStack o = (push-IsStack o, pop-IsStack)
