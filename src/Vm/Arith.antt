-- ===== src/Vm/Arith.antt =====
-- The operators 0x50 to 0x68 of run_vm, and the concatenations.
use Prim.Native.Nat.{bit_and, bit_or}
use move.Base.{
  ℕ, zero, suc, ◌+◌, Bool, not, ◌++◌, ◌&&◌, ◌||◌, if◌then◌else◌, ℤ, pos, negsuc, neg_ℤ, ltb_ℤ, ◌+ℤ◌,
  ◌-ℤ◌, ◌*ℤ◌, quot_ℤ, rem_ℤ,
}
use move.Value.{Value, null, num, same, mknum, of_bits, to_bits, move_true, move_false, bvector}
use move.Heap.{
  Cmd, pure, ◌>>=◌, ◌>>◌, at, atput, length_of, num_of, is_null, is_num, tagged, is_bvector,
  is_vector, test, getmem,
}
use move.Alloc.{newvector}
use move.Symbols.{bytes_of}
use move.Vm.Registers.{Vms, pop, peek, advance, copy_cells}
use move.Vm.Primitives.{Primtab}
use move.Vm.Apply.{throw}

abbrev pub of_bool : Bool → Value
of_bool b = if b then move_true else move_false

abbrev pub bnot : ℤ → ℤ
bnot (pos n) = negsuc n
bnot (negsuc n) = pos n

-- What a NUMOP computes from the popped number and the accumulator.
pub data NumOp : Type 0 where
  gt lt ge le bor band minus star : NumOp

unfoldable pub num_result : NumOp → (popped acc : ℤ) → Value
num_result gt p a = of_bool (ltb_ℤ a p)
num_result lt p a = of_bool (ltb_ℤ p a)
num_result ge p a = of_bool (not (ltb_ℤ p a))
num_result le p a = of_bool (not (ltb_ℤ a p))
num_result bor p a = num (of_bits (bit_or (to_bits a) (to_bits p)))
num_result band p a = num (of_bits (bit_and (to_bits a) (to_bits p)))
num_result minus p a = mknum (p -ℤ a)
num_result star p a = mknum (p *ℤ a)

unfoldable pub bvector_concat : Value → Value → Cmd Value
unfolding getmem bytes_of
bvector_concat a b = do xs ← bytes_of a; ys ← bytes_of b; getmem (bvector (xs ++ ys))

-- The second loop of vector_concat, which writes behind the first `off` cells.
unfoldable pub copy_behind : Value → Value → ℕ → ℕ → ℕ → Cmd (Unit {0})
copy_behind b n zero i j = pure tt
copy_behind b n (suc k) i j = do v ← at b j; atput n i v; copy_behind b n k (i + 1) (j + 1)

unfoldable pub vector_concat : Value → Value → Cmd Value
vector_concat a b = do
  alen ← length_of a
  blen ← length_of b
  n ← newvector (alen + blen)
  copy_cells a n alen 0
  copy_behind b n blen alen 0
  pure n

-- OP_NOT, OP_EQ and OP_NE.
unfoldable pub op_not : Vms → Cmd Vms
unfolding same
op_not vms = pure (advance 1 (record vms { acc = of_bool (same vms.acc move_false) }))

unfoldable pub op_eq : Vms → Cmd Vms
op_eq vms = do (x, v) ← pop vms; pure (advance 1 (record v { acc = of_bool (same v.acc x) }))

unfoldable pub op_ne : Vms → Cmd Vms
op_ne vms = do (x, v) ← pop vms; pure (advance 1 (record v { acc = of_bool (not (same v.acc x)) }))

module _ (depth : ℕ) (tab : Primtab) where
  -- The guard of NUMOP: both the accumulator and the top of the stack are numbers. `exp` is what
  -- the macro is given; the instruction pointer moves behind it.
  unfoldable pub numop : (Vms → Cmd Vms) → Vms → Cmd Vms
  numop exp vms =
      if is_num vms.acc
      then (do
        top ← peek vms
        if is_num top
            then (do v ← exp vms; pure (advance 1 v))
            else throw depth tab "vm-runtime-type-error" vms.acc vms)
      else throw depth tab "vm-runtime-type-error" vms.acc vms

  unfoldable pub binary : NumOp → Vms → Cmd Vms
  binary o = numop λ vms. do
    a ← num_of vms.acc
    (x, v) ← pop vms
    p ← num_of x
    pure (record v { acc = num_result o p a })

  unfoldable pub op_neg : Vms → Cmd Vms
  op_neg = numop λ vms. do a ← num_of vms.acc; pure (record vms { acc = mknum (neg_ℤ a) })

  unfoldable pub op_bnot : Vms → Cmd Vms
  op_bnot = numop λ vms. do a ← num_of vms.acc; pure (record vms { acc = mknum (bnot a) })

  -- OP_SLASH and OP_PERCENT: without a raise they divide the popped number by the accumulator.
  unfoldable pub divide : (ℤ → ℤ → ℤ) → Vms → Cmd Vms
  divide f = numop λ vms.
      if same vms.acc (num (pos 0)) then throw depth tab "divide-by-zero" null vms else do
        a ← num_of vms.acc
        (x, v) ← pop vms
        p ← num_of x
        pure (record v { acc = mknum (f p a) })

  unfoldable pub op_slash : Vms → Cmd Vms
  op_slash = divide quot_ℤ

  unfoldable pub op_percent : Vms → Cmd Vms
  op_percent = divide rem_ℤ

  -- OP_PLUS adds numbers and concatenates strings and vectors.
  unfoldable pub op_plus : Vms → Cmd Vms
  op_plus vms = if is_null vms.acc then throw depth tab "vm-runtime-type-error" vms.acc vms else do
    top ← peek vms
    strings ← test λ h. is_bvector vms.acc h && is_bvector top h
    vectors ← test λ h. is_vector vms.acc h && is_vector top h
    if is_null top
        then throw depth tab "vm-runtime-type-error" vms.acc vms
        else if is_num vms.acc && is_num top
        then (do
          a ← num_of vms.acc
          (x, v) ← pop vms
          p ← num_of x
          pure (advance 1 (record v { acc = mknum (a +ℤ p) })))
        else if tagged vms.acc || tagged top
        then throw depth tab "vm-runtime-type-error" vms.acc vms
        else if strings
        then (do
          (x, v) ← pop vms
          n ← bvector_concat x v.acc
          pure (advance 1 (record v { acc = n })))
        else if vectors
        then (do
          (x, v) ← pop vms
          n ← vector_concat x v.acc
          pure (advance 1 (record v { acc = n })))
        else throw depth tab "vm-runtime-type-error" vms.acc vms
