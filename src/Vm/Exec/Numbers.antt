-- ===== src/Vm/Exec/Numbers.antt =====
-- The number operators of run_vm.
use move.Base.{
  ℕ, suc, ◌-◌, ◌<◌, ◌≤◌, ◌≡◌, ◌↔◌, refl, Bool, true, false, not, ◌==◌, if◌then◌else◌, arith, ℤ,
  pos_part, neg_part, ◌≤ℤ◌, ltb_ℤ, ◌-ℤ◌, ◌*ℤ◌, ap, ◌∙◌,
}
use move.Value.{Value, num, mknum, move_true, move_false, num_half}
use move.Value.Laws.{mknum_fits}
use move.Heap.{Heap, Run, ok, at, is_num, num_of, and_then}
use move.Vm.Bytecode.{Op, op_gt, op_lt, op_ge, op_le, op_minus, op_star}
use move.Vm.Registers.{Vms, peek, pop, advance}
use move.Vm.Primitives.{Primtab}
use move.Vm.Arith.{NumOp, gt, lt, ge, le, minus, star, num_result, numop, binary}
use move.Vm.Exec.{exec}

-- The accumulator holds `a`, and the top of a stack of `suc k` cells holds `p`.
pub record Operands (vms : Vms) (h : Heap) (k : ℕ) (p a : ℤ) : Type 0 where
  pub acc : vms.acc ≡ num a
  pub top : vms.top ≡ suc k
  pub cell : at vms.stack k h ≡ ok (num p) h

-- One operand fewer on the stack, the result in the accumulator, behind the instruction.
abbrev pub finished : Vms → ℕ → Value → Vms
finished vms k r = advance 1 (record vms { acc = r; top = k })

suc-sub-one : (k : ℕ) → suc k - 1 ≡ k
suc-sub-one k = omega arith

suc-ne-zero : (k : ℕ) → (suc k == 0) ≡ false
suc-ne-zero k = ground arith

module _ {vms : Vms} {h : Heap} {k : ℕ} {p a : ℤ} (o : Operands vms h k p a) where
  pub peek-operand : peek vms h ≡ ok (num p) h
  unfolding peek
  peek-operand = rw (o.top, suc-ne-zero k, suc-sub-one k) o.cell

  pub pop-operand : pop vms h ≡ ok (num p, record vms { top = k }) h
  unfolding pop
  pop-operand = rw (o.top, suc-ne-zero k, suc-sub-one k, o.cell) refl

module _ (depth : ℕ) (tab : Primtab) {vms : Vms} {h : Heap} {k : ℕ} {p a : ℤ}
    (o : Operands vms h k p a) where
  -- On two numbers the guard lets the operator through.
  pub numop-passes :
      (exp : Vms → Heap → Run Vms)
      → numop depth tab exp vms h ≡ and_then (exp vms h) (λ v. ok (advance 1 v))
  unfolding numop
  numop-passes exp = rw (ap is_num o.acc, peek-operand o) refl

  binary-result : (f : NumOp) → binary depth tab f vms h ≡ ok (finished vms k (num_result f p a)) h
  unfolding binary num_of
  binary-result f = numop-passes _ ∙ rw (ap (num_of) o.acc, pop-operand o) refl

-- The comparison instructions, and what bytecode.h says of each.
pub data Comparison : Type 0 where
  above below at_least at_most : Comparison

abbrev pub comparison_op : Comparison → Op
comparison_op above = op_gt
comparison_op below = op_lt
comparison_op at_least = op_ge
comparison_op at_most = op_le

abbrev pub Holds : Comparison → (p a : ℤ) → Type 0
Holds above p a = ¬ (p ≤ℤ a)
Holds below p a = ¬ (a ≤ℤ p)
Holds at_least p a = a ≤ℤ p
Holds at_most p a = p ≤ℤ a

compare_value : (c : Comparison) (p a : ℤ) → (r : Bool) × (Holds c p a ↔ (r ≡ true))
compare_value above p a = (ltb_ℤ a p, ground arith)
compare_value below p a = (ltb_ℤ p a, ground arith)
compare_value at_least p a = (not (ltb_ℤ p a), ground arith)
compare_value at_most p a = (not (ltb_ℤ a p), ground arith)

module _ (depth : ℕ) (tab : Primtab) {vms : Vms} {h : Heap} {k : ℕ} {p a : ℤ}
    (o : Operands vms h k p a) where
  -- A comparison of the popped number with the accumulator ends with `true` exactly if the relation
  -- holds, and with `false` otherwise; it pops one operand, goes to the next instruction and
  -- changes nothing else.
  pub exec-comparison :
      (c : Comparison)
      → (r : Bool) × (Holds c p a ↔ (r ≡ true))
        × (exec depth tab (comparison_op c) vms h
            ≡ ok (false, finished vms k (if r then move_true else move_false)) h)
  unfolding exec num_result compare_value
  exec-comparison above = (_, (compare_value above p a).1, rw (binary-result depth tab o gt) refl)
  exec-comparison below = (_, (compare_value below p a).1, rw (binary-result depth tab o lt) refl)
  exec-comparison at_least =
      (_, (compare_value at_least p a).1, rw (binary-result depth tab o ge) refl)
  exec-comparison at_most =
      (_, (compare_value at_most p a).1, rw (binary-result depth tab o le) refl)

-- The numbers that 62 bits hold.
abbrev pub FitsNum : ℤ → Type 0
FitsNum a = (pos_part a < num_half) × (neg_part a ≤ num_half)

pub mknum-FitsNum : (a : ℤ) → FitsNum a → mknum a ≡ num a
mknum-FitsNum a fits = mknum_fits a fits.0 fits.1

module _ (depth : ℕ) (tab : Primtab) {vms : Vms} {h : Heap} {k : ℕ} {p a : ℤ}
    (o : Operands vms h k p a) where
  -- OP_MINUS leaves the popped number less the accumulator, where 62 bits hold it; it pops one
  -- operand, goes to the next instruction and changes nothing else.
  pub exec-minus :
      FitsNum (p -ℤ a) → exec depth tab op_minus vms h ≡ ok (false, finished vms k (num (p -ℤ a))) h
  unfolding exec num_result
  exec-minus fits = rw (binary-result depth tab o minus, mknum-FitsNum (p -ℤ a) fits) refl

  -- OP_STAR leaves the product of the popped number and the accumulator, where 62 bits hold it; it
  -- pops one operand, goes to the next instruction and changes nothing else.
  pub exec-star :
      FitsNum (p *ℤ a) → exec depth tab op_star vms h ≡ ok (false, finished vms k (num (p *ℤ a))) h
  unfolding exec num_result
  exec-star fits = rw (binary-result depth tab o star, mknum-FitsNum (p *ℤ a) fits) refl
