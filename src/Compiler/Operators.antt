-- ===== src/Compiler/Operators.antt =====
-- The levels of the binary operators: infix_op_parse to or_op_parse of move/parser.c.
use Prim.Native.String.{String}
use move.Base.{ℕ, zero, suc, Option, none, some, List, [], ◌∷◌, if◌then◌else◌}
use move.Vm.Bytecode.{
  Op, op_push, op_star, op_slash, op_percent, op_plus, op_minus, op_band, op_bor, op_eq, op_ne,
  op_gt, op_lt, op_ge, op_le, op_jump, jump_true, jump_false,
}
use move.Compiler.Code.{Comp, pure, no_rounds, ◌>>=◌, ◌>>◌, gen_op, gen16, curpos, jump_here_from}
use move.Compiler.Tokens.{Limits, check, drop, chkop}
use move.Compiler.Primary.{constant_parse}

module _ (w : Limits) where
  -- A chain of `if (CHKOP(...)) op = ...`.
  unfoldable pub one_of : List (String × Op) → Comp (Option Op)
  one_of [] = pure none
  one_of ((opstr, op) ∷ ops) = do here ← chkop w opstr; if here then pure (some op) else one_of ops

  unfoldable pub mul_ops : Comp (Option Op)
  mul_ops = one_of (("*", op_star) ∷ ("/", op_slash) ∷ ("%", op_percent) ∷ [])

  unfoldable pub add_ops : Comp (Option Op)
  add_ops = do
    plus ← chkop w "+"
    if plus
        then pure (some op_plus)
        else (do minus ← check w b'-'; if minus then pure (some op_minus) else pure none)

  unfoldable pub band_ops : Comp (Option Op)
  band_ops = one_of (("&", op_band) ∷ [])

  unfoldable pub bor_ops : Comp (Option Op)
  bor_ops = one_of (("|", op_bor) ∷ [])

  unfoldable pub eq_ops : Comp (Option Op)
  eq_ops = one_of (
      ("==", op_eq)
      ∷ ("!=", op_ne)
      ∷ (">", op_gt)
      ∷ ("<", op_lt)
      ∷ (">=", op_ge)
      ∷ ("<=", op_le)
      ∷ [])

  -- A round of the `while (1)` of a level, with what follows it.
  unfoldable pub op_round : Comp (Unit {0}) → Comp (Unit {0}) → Option Op → Comp (Unit {0})
  op_round sub again none = pure tt
  op_round sub again (some op) = do drop w; gen_op op_push; sub; gen_op op; again

  -- The `while (1)` of a level: operators of `ops` between operands of `sub`.
  unfoldable pub op_loop : Comp (Option Op) → Comp (Unit {0}) → ℕ → Comp (Unit {0})
  op_loop ops sub zero = no_rounds
  op_loop ops sub (suc n) = do found ← ops; op_round sub (op_loop ops sub n) found

  unfoldable pub op_level : Comp (Option Op) → Comp (Unit {0}) → ℕ → Comp (Unit {0})
  op_level ops sub n = do sub; op_loop ops sub n

  module _ (self : Comp (Unit {0})) (n : ℕ) where
    abbrev pub infix_op_parse : Comp (Unit {0})
    infix_op_parse = constant_parse w self n

    unfoldable pub mul_op_parse : Comp (Unit {0})
    mul_op_parse = op_level mul_ops infix_op_parse n

    unfoldable pub add_op_parse : Comp (Unit {0})
    add_op_parse = op_level add_ops mul_op_parse n

    unfoldable pub band_op_parse : Comp (Unit {0})
    band_op_parse = op_level band_ops add_op_parse n

    unfoldable pub bor_op_parse : Comp (Unit {0})
    bor_op_parse = op_level bor_ops band_op_parse n

    unfoldable pub eq_op_parse : Comp (Unit {0})
    eq_op_parse = op_level eq_ops bor_op_parse n

    -- and_op_parse and or_op_parse: `jump` leads to the right operand.
    unfoldable pub short_circuit : String → Op → Comp (Unit {0}) → ℕ → Comp (Unit {0})
    short_circuit opstr jump sub zero = no_rounds
    short_circuit opstr jump sub (suc k) = do
      sub
      here ← chkop w opstr
      if here
          then (do
            drop w
            gen_op jump
            next ← curpos
            gen16 0
            gen_op op_jump
            end ← curpos
            gen16 0
            jump_here_from next
            short_circuit opstr jump sub k
            jump_here_from end)
          else pure tt

    unfoldable pub and_op_parse : Comp (Unit {0})
    and_op_parse = short_circuit "&&" jump_true eq_op_parse n

    unfoldable pub or_op_parse : Comp (Unit {0})
    or_op_parse = short_circuit "||" jump_false and_op_parse n
