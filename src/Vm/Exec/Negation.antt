-- ===== src/Vm/Exec/Negation.antt =====
-- OP_NEG and OP_BNOT share the guard of the binary operators.
use move.Base.{ℕ, ◌+◌, ◌-◌, ◌%◌, ◌<◌, ◌≡◌, refl, false, ℤ, pos, negsuc, neg_ℤ, arith, ap, ◌∙◌}
use move.Value.{num, mknum, of_bits, to_bits, num_mod}
use move.Heap.{Heap, ok, num_of}
use move.Vm.Bytecode.{op_neg, op_bnot}
use move.Vm.Registers.{Vms, advance}
use move.Vm.Primitives.{Primtab}
use move.Vm.Arith
use move.Vm.Arith.{bnot}
use move.Vm.Exec.{exec}
use move.Vm.Exec.Numbers.{Operands, numop-passes, FitsNum}

to_bits-lt : (a : ℤ) → to_bits a < num_mod
to_bits-lt (pos n) = omega arith
to_bits-lt (negsuc n) = omega arith

to_bits-of_bits : (b : ℕ) → b < num_mod → to_bits (of_bits b) ≡ b
to_bits-of_bits b less = ground arith

of_bits-FitsNum : (b : ℕ) → b < num_mod → FitsNum (of_bits b)
of_bits-FitsNum b less = ground arith

-- A word of 62 bits and the one of the negation make 0, with a carry out.
neg-bits : (a : ℤ) → (to_bits (neg_ℤ a) + to_bits a) % num_mod ≡ 0
neg-bits (pos n) = ground arith
neg-bits (negsuc n) = ground arith

-- Each bit of the complement is the other one.
bnot-bits : (a : ℤ) → to_bits (bnot a) + to_bits a ≡ num_mod - 1
bnot-bits (pos n) = omega arith
bnot-bits (negsuc n) = omega arith

-- The number that MKNUM keeps.
kept : ℤ → ℤ
kept a = of_bits (to_bits a)

kept-bits : (a : ℤ) → to_bits (kept a) ≡ to_bits a
unfolding kept
kept-bits a = to_bits-of_bits (to_bits a) (to_bits-lt a)

module _ (depth : ℕ) (tab : Primtab) (vms : Vms) (h : Heap) {a : ℤ} where
  -- With numbers in the accumulator and on top of the operand stack OP_NEG leaves the number of 62 bits
  -- whose bits make 0 with those of the accumulator, in arithmetic modulo 2^62, and OP_BNOT the one
  -- whose bits make 62 ones with them, so that each bit is the other one. They keep the stack, go to the
  -- next instruction and change nothing else.
  pub exec-neg-bnot :
      {k : ℕ} {p : ℤ}
      → Operands vms h k p a
      → (n c : ℤ) × FitsNum n
        × FitsNum c
        × ((to_bits n + to_bits a) % num_mod ≡ 0)
        × (to_bits c + to_bits a ≡ num_mod - 1)
        × (exec depth tab op_neg vms h ≡ ok (false, advance 1 (record vms { acc = num n })) h)
        × (exec depth tab op_bnot vms h ≡ ok (false, advance 1 (record vms { acc = num c })) h)
  unfolding exec Arith.op_neg Arith.op_bnot num_of mknum kept
  exec-neg-bnot o = (
    kept (neg_ℤ a),
    kept (bnot a),
    of_bits-FitsNum (to_bits (neg_ℤ a)) (to_bits-lt (neg_ℤ a)),
    of_bits-FitsNum (to_bits (bnot a)) (to_bits-lt (bnot a)),
    ap (λ b. (b + to_bits a) % num_mod) (kept-bits (neg_ℤ a)) ∙ neg-bits a,
    ap (λ b. b + to_bits a) (kept-bits (bnot a)) ∙ bnot-bits a,
    rw (numop-passes depth tab o _, ap num_of o.acc) refl,
    rw (numop-passes depth tab o _, ap num_of o.acc) refl,
  )
