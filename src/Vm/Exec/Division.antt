-- ===== src/Vm/Exec/Division.antt =====
-- OP_SLASH and OP_PERCENT.
use move.Base.{
  ℕ, zero, suc, ◌+◌, ◌*◌, ◌/◌, ◌%◌, ◌<◌, ◌≤◌, ◌≡◌, ◌≢◌, refl, false, ◌==◌, arith, ℤ, pos, negsuc,
  pos_part, neg_part, ◌+ℤ◌, ◌*ℤ◌, eq_ℤ, quot_ℤ, rem_ℤ, abs_ℕ, ap, ◌∙◌, Bool-cases, inl, inr,
}
use move.Value.{num, mknum, same}
use move.Heap.{Heap, ok, num_of}
use move.Vm.Bytecode.{op_slash, op_percent}
use move.Vm.Registers.{Vms}
use move.Vm.Primitives.{Primtab}
use move.Vm.Arith
use move.Vm.Arith.{divide}
use move.Vm.Exec.{exec}
use move.Vm.Exec.Numbers.{Operands, finished, numop-passes, pop-operand}

division : (a b : ℕ) → 0 < b → (a / b * b + a % b ≡ a) × (a % b < b)
division a b h = grind arith

-- The quotient and the remainder that the C standard defines.
pub quot-rem : (p a : ℤ) → a ≢ pos 0 → quot_ℤ p a *ℤ a +ℤ rem_ℤ p a ≡ p
unfolding quot_ℤ rem_ℤ ◌*ℤ◌ ◌+ℤ◌
quot-rem (pos p) (pos zero) h = absurd (h refl)
quot-rem (pos p) (pos (suc a)) h = ground (arith, division p (suc a))
quot-rem (pos p) (negsuc a) h = ground (arith, division p (suc a))
quot-rem (negsuc p) (pos zero) h = absurd (h refl)
quot-rem (negsuc p) (pos (suc a)) h = ground (arith, division (suc p) (suc a))
quot-rem (negsuc p) (negsuc a) h = ground (arith, division (suc p) (suc a))

-- The remainder is smaller than the divisor, and has the sign of the dividend or is 0.
rem_bounds :
    (p a : ℤ)
    → a ≢ pos 0
    → (abs_ℕ (rem_ℤ p a) < abs_ℕ a)
      × (pos_part (rem_ℤ p a) ≤ pos_part p)
      × (neg_part (rem_ℤ p a) ≤ neg_part p)
unfolding rem_ℤ
rem_bounds (pos p) (pos zero) h = absurd (h refl)
rem_bounds (pos p) (pos (suc a)) h = ground (arith, division p (suc a))
rem_bounds (pos p) (negsuc a) h = ground (arith, division p (suc a))
rem_bounds (negsuc p) (pos zero) h = absurd (h refl)
rem_bounds (negsuc p) (pos (suc a)) h = ground (arith, division (suc p) (suc a))
rem_bounds (negsuc p) (negsuc a) h = ground (arith, division (suc p) (suc a))

same-zero : (a : ℤ) → a ≢ pos 0 → same (num a) (num (pos 0)) ≡ false
unfolding same eq_ℤ
same-zero (pos n) h = elim (Bool-cases (n == 0)) [
  | inl e ↦ absurd (h (ap pos (ground arith)))
  | inr e ↦ e
]
same-zero (negsuc n) h = refl

module _ (depth : ℕ) (tab : Primtab) {vms : Vms} {h : Heap} {k : ℕ} {p a : ℤ}
    (o : Operands vms h k p a) where
  divide-result :
      (f : ℤ → ℤ → ℤ) → a ≢ pos 0 → divide depth tab f vms h ≡ ok (finished vms k (mknum (f p a))) h
  unfolding divide num_of
  divide-result f h =
      numop-passes depth tab o _
      ∙ rw (ap (λ x. same x (num (pos 0))) o.acc, same-zero a h, ap num_of o.acc, pop-operand o)
          refl

  -- For a divisor that is not 0 there are a quotient and a remainder as the C standard defines them, which
  -- OP_SLASH and OP_PERCENT leave in the accumulator, cut to 62 bits. Both pop one operand, go to
  -- the next instruction and change nothing else.
  pub exec-division :
      a ≢ pos 0
      → (q r : ℤ) × (q *ℤ a +ℤ r ≡ p)
        × (abs_ℕ r < abs_ℕ a)
        × (pos_part r ≤ pos_part p)
        × (neg_part r ≤ neg_part p)
        × (exec depth tab op_slash vms h ≡ ok (false, finished vms k (mknum q)) h)
        × (exec depth tab op_percent vms h ≡ ok (false, finished vms k (mknum r)) h)
  unfolding exec Arith.op_slash Arith.op_percent
  exec-division ne =
      let b = rem_bounds p a ne in
      (
        quot_ℤ p a,
        rem_ℤ p a,
        quot-rem p a ne,
        b.0,
        b.1,
        b.2,
        rw (divide-result quot_ℤ ne) refl,
        rw (divide-result rem_ℤ ne) refl,
      )
