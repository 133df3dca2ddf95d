-- ===== src/Compiler/Growth/Operators.antt =====
-- The levels of the binary operators keep what was generated before them.
use Prim.Native.String.{String}
use move.Base.{ℕ, zero, suc, Option, none, some, List, [], ◌∷◌}
use move.Vm.Bytecode.{Op}
use move.Compiler.Code.{Comp}
use move.Compiler.Tokens.{Limits}
use move.Compiler.Operators.{
  one_of, mul_ops, add_ops, band_ops, bor_ops, eq_ops, op_round, op_loop, op_level, mul_op_parse,
  add_op_parse, band_op_parse, bor_op_parse, eq_op_parse, short_circuit, and_op_parse, or_op_parse,
}
use move.Compiler.Growth.{Grows, grows-if, grows-pure, grows-no_rounds, grows-curpos}
use move.Compiler.Growth.Blocks.{◌>>=◌, ◌>>◌}
use move.Compiler.Growth.Codes.{here, there}
use move.Compiler.Growth.Steps.{grows-gen_op, grows-gen16, grows-jump_here_from}
use move.Compiler.Growth.Tokens.{grows-check, grows-drop, grows-chkop}
use move.Compiler.Growth.Primary.{grows-constant_parse}

module _ (w : Limits) where
  grows-one_of :
      {d : ℕ} {marks : List ℕ} (ops : List (String × Op)) → Grows d d marks (one_of w ops)
  unfolding one_of
  grows-one_of [] = grows-pure _
  grows-one_of ((opstr, op) ∷ ops) = do
    found ← grows-chkop w opstr
    grows-if found (grows-pure _) (grows-one_of ops)

  grows-add_ops : {d : ℕ} {marks : List ℕ} → Grows d d marks (add_ops w)
  unfolding add_ops
  grows-add_ops = do
    plus ← grows-chkop w _
    grows-if plus (grows-pure _)
        (do minus ← grows-check w _; grows-if minus (grows-pure _) (grows-pure _))

  -- A function that keeps what was there, whatever scopes are opened and positions are taken.
  abbrev Growing : {A : Type 0} → Comp A → Type 0
  Growing m = (d : ℕ) (marks : List ℕ) → Grows d d marks m

  module _ (ops : Comp (Option Op)) (sub : Comp (Unit {0})) (grows-ops : Growing ops)
      (grows-sub : Growing sub) where
    grows-op_round :
        {d : ℕ} {marks : List ℕ} {again : Comp (Unit {0})} (found : Option Op)
        → Grows d d marks again
        → Grows d d marks (op_round w sub again found)
    unfolding op_round
    grows-op_round none again = grows-pure _
    grows-op_round (some op) again = do
      grows-drop w
      grows-gen_op _
      grows-sub _ _
      grows-gen_op _
      again

    grows-op_loop : {d : ℕ} {marks : List ℕ} (n : ℕ) → Grows d d marks (op_loop w ops sub n)
    unfolding op_loop
    grows-op_loop zero = grows-no_rounds
    grows-op_loop (suc n) = do found ← grows-ops _ _; grows-op_round found (grows-op_loop n)

    grows-op_level : (n : ℕ) → Growing (op_level w ops sub n)
    unfolding op_level
    grows-op_level n d marks = do grows-sub _ _; grows-op_loop n

  module _ (self : Comp (Unit {0})) (grows-self : (d : ℕ) (marks : List ℕ) → Grows d d marks self)
      (n : ℕ) where
    grows-mul_op_parse : Growing (mul_op_parse w self n)
    unfolding mul_op_parse mul_ops
    grows-mul_op_parse =
        grows-op_level _ _ (λ d marks. grows-one_of _)
          (λ d marks. grows-constant_parse w self grows-self n) n

    grows-add_op_parse : Growing (add_op_parse w self n)
    unfolding add_op_parse
    grows-add_op_parse = grows-op_level _ _ (λ d marks. grows-add_ops) grows-mul_op_parse n

    grows-band_op_parse : Growing (band_op_parse w self n)
    unfolding band_op_parse band_ops
    grows-band_op_parse = grows-op_level _ _ (λ d marks. grows-one_of _) grows-add_op_parse n

    grows-bor_op_parse : Growing (bor_op_parse w self n)
    unfolding bor_op_parse bor_ops
    grows-bor_op_parse = grows-op_level _ _ (λ d marks. grows-one_of _) grows-band_op_parse n

    grows-eq_op_parse : Growing (eq_op_parse w self n)
    unfolding eq_op_parse eq_ops
    grows-eq_op_parse = grows-op_level _ _ (λ d marks. grows-one_of _) grows-bor_op_parse n

    grows-short_circuit :
        (opstr : String) (jump : Op) (sub : Comp (Unit {0}))
        → Growing sub
        → (k : ℕ) → Growing (short_circuit w self n opstr jump sub k)
    unfolding short_circuit
    grows-short_circuit opstr jump sub grows-sub zero d marks = grows-no_rounds
    grows-short_circuit opstr jump sub grows-sub (suc k) d marks = do
      grows-sub _ _
      found ← grows-chkop w _
      grows-if found
          (do
            grows-drop w
            grows-gen_op _
            grows-curpos λ next. do
              grows-gen16 _
              grows-gen_op _
              grows-curpos λ end. do
                grows-gen16 _
                grows-jump_here_from next (there here)
                grows-short_circuit opstr jump sub grows-sub k _ _
                grows-jump_here_from end here)
          (grows-pure _)

    pub grows-or_op_parse : Growing (or_op_parse w self n)
    unfolding or_op_parse and_op_parse
    grows-or_op_parse = grows-short_circuit _ _ _ (grows-short_circuit _ _ _ grows-eq_op_parse n) n
