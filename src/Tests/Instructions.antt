-- ===== src/Tests/Instructions.antt =====
-- The theorems on the instructions at a small machine.
use move.Base.{
  ◌+◌, ◌-◌, ◌%◌, ◌<◌, ◌≤◌, ◌≡◌, ◌↔◌, refl, Bool, true, false, if◌then◌else◌, arith, ℤ, pos, abs_ℕ,
  pos_part, neg_part, ◌*ℤ◌, ◌+ℤ◌,
}
use move.Value.{num, num_mod, to_bits, mknum, move_true, move_false}
use move.Heap.{ok}
use move.Heap.Laws.{at-vector}
use move.Vm.Registers.{advance}
use move.Vm.Primitives.{init_prim}
use move.Vm.Bytecode.{op_lt, op_slash, op_percent, op_neg, op_bnot}
use move.Vm.Exec.{exec}
use move.Vm.Exec.Numbers.{Operands, finished, below, Holds, FitsNum, exec-comparison}
use move.Vm.Exec.Division.{exec-division}
use move.Vm.Exec.Negation.{exec-neg-bnot}
use move.Tests.Machine.{stack, machine, h}

two-Operands : Operands (machine (pos 2)) h 0 (pos 7) (pos 2)
two-Operands = record { acc = refl; top = refl; cell = at-vector h 1 0 stack refl refl }

exec-comparison_example :
    (r : Bool) × (Holds below (pos 7) (pos 2) ↔ (r ≡ true))
    × (exec 9 init_prim op_lt (machine (pos 2)) h
        ≡ ok (false, finished (machine (pos 2)) 0 (if r then move_true else move_false)) h)
exec-comparison_example = exec-comparison 9 init_prim two-Operands below

exec-division_example :
    (q r : ℤ) × (q *ℤ pos 2 +ℤ r ≡ pos 7)
    × (abs_ℕ r < 2)
    × (pos_part r ≤ 7)
    × (neg_part r ≤ 0)
    × (exec 9 init_prim op_slash (machine (pos 2)) h
        ≡ ok (false, finished (machine (pos 2)) 0 (mknum q)) h)
    × (exec 9 init_prim op_percent (machine (pos 2)) h
        ≡ ok (false, finished (machine (pos 2)) 0 (mknum r)) h)
exec-division_example = exec-division 9 init_prim two-Operands (λ e. ground (arith, e))

exec-neg-bnot_example :
    (n c : ℤ) × FitsNum n
    × FitsNum c
    × ((to_bits n + 2) % num_mod ≡ 0)
    × (to_bits c + 2 ≡ num_mod - 1)
    × (exec 9 init_prim op_neg (machine (pos 2)) h
        ≡ ok (false, advance 1 (record (machine (pos 2)) { acc = num n })) h)
    × (exec 9 init_prim op_bnot (machine (pos 2)) h
        ≡ ok (false, advance 1 (record (machine (pos 2)) { acc = num c })) h)
exec-neg-bnot_example = exec-neg-bnot 9 init_prim (machine (pos 2)) h two-Operands
