-- ===== src/Compiler/Reads/Expr.antt =====
-- expr_parse on the tokens of operator expressions.
use Prim.Native.String.{String}
use mathlib.Core.Path.{subst}
use move.Base.{ℕ, zero, suc, ◌<◌, ◌≡◌, refl, sym, false, some, List, [], ◌∷◌, ◌++◌, ◌==◌, arith}
use move.Value.{Value}
use move.Heap.{Heap}
use move.Scanner.{literal, ident}
use move.Vm.Bytecode.{Op}
use move.Compiler.Code.{Code, Comp}
use move.Compiler.Tokens.{Limits}
use move.Compiler.Operators.{
  mul_op_parse, add_op_parse, band_op_parse, bor_op_parse, eq_op_parse, short_circuit, and_op_parse,
  or_op_parse,
}
use move.Compiler.Expr.{expr_body, expr_parse}
use move.Compiler.Reads.{Token, Look, peeked, Item, Reads, Reads-bind, Reads-then, Reads-pure}
use move.Compiler.Reads.Tokens.{now, Reads-accept_no, Reads-chkop_no}
use move.Compiler.Reads.Operators.{Follows}
use move.Compiler.Reads.Terms.{Starts, Starts-Next, looked, ends, Reads-term}
use move.Compiler.Grammar.{Names, Term, tokens, meaning, size}

-- An expression starts with a literal.
pub first-literal :
    {h : Heap} (names : Names h) (k : ℕ) (e : Term k) (ts : List Token)
    → (v : Value) × (rest : List Token) × (tokens names k e ts ≡ (literal, some v) ∷ rest)
first-literal names zero v ts = (v, ts, refl)
first-literal names (suc k) (e, rest) ts = first-literal names k e _

module _ (w : Limits) {h : Heap} (names : Names h) {t : Token} {ts : List Token}
    (no_ident : (ident == t.0) ≡ false) (no_dash : (b'-' == t.0) ≡ false) where
  module _ (self : Comp (Unit {0})) (n : ℕ) (e : Term 5) (small : size 5 e < n) where
    Reads-eq :
        (l : Look)
        → Starts (tokens names 5 e (t ∷ ts)) l
        → Reads w.rounds h l (peeked t ts) (eq_op_parse w self n) tt (meaning 5 e)
    unfolding eq_op_parse bor_op_parse band_op_parse add_op_parse mul_op_parse
    Reads-eq l starts =
        Reads-term w names self n 5 (omega arith) e (t ∷ ts) l small starts
          (ends (Follows.stop no_ident no_dash))

    -- No `&&` or `||` follows.
    Reads-short_circuit :
        (opstr : String) (jump : Op) (sub : Comp (Unit {0})) (xs : List Item) (l : Look) (k : ℕ)
        → 0 < k
        → Reads w.rounds h l (peeked t ts) sub tt xs
        → Reads w.rounds h l (peeked t ts) (short_circuit w self n opstr jump sub k) tt (xs ++ [])
    unfolding short_circuit
    Reads-short_circuit opstr jump sub xs l zero positive Reads-sub =
        absurd (omega (arith, positive))
    Reads-short_circuit opstr jump sub xs l (suc k) positive Reads-sub =
        Reads-then Reads-sub (Reads-bind _ (Reads-chkop_no w opstr t no_ident now) (Reads-pure tt))

    Reads-or :
        (l : Look)
        → Starts (tokens names 5 e (t ∷ ts)) l
        → Reads w.rounds h l (peeked t ts) (or_op_parse w self n) tt ((meaning 5 e ++ []) ++ [])
    unfolding or_op_parse and_op_parse
    Reads-or l starts =
        Reads-short_circuit _ _ _ _ l n (omega (arith, small))
          (Reads-short_circuit _ _ _ _ l n (omega (arith, small)) (Reads-eq l starts))

    Reads-expr_body :
        (l : Look)
        → Starts (tokens names 5 e (t ∷ ts)) l
        → Reads w.rounds h l (peeked t ts) (expr_body w self n) tt ((meaning 5 e ++ []) ++ [])
    unfolding expr_body
    Reads-expr_body l starts =
        let (v, rest, is) = first-literal names 5 e (t ∷ ts) in
        let start = Starts-Next (subst (λ us. Starts us l) is starts) in
        let looking = subst (λ us. Starts us (peeked (literal, some v) rest)) (sym is) looked in
        Reads-bind _ (Reads-accept_no w _ start refl) (
          Reads-bind _ (Reads-accept_no w _ now refl) (
            Reads-bind _ (Reads-accept_no w _ now refl) (
              Reads-bind _ (Reads-accept_no w _ now refl) (
                Reads-bind _ (Reads-accept_no w _ now refl) (
                  Reads-bind _ (Reads-accept_no w _ now refl)
                    (Reads-bind _ (Reads-accept_no w _ now refl) (Reads-or _ looking)))))))

  -- On tokens that were looked at or not.
  pub Reads-expr_parse :
      (n : ℕ) (e : Term 5) (l : Look)
      → size 5 e < n
      → Starts (tokens names 5 e (t ∷ ts)) l
      → Reads w.rounds h l (peeked t ts) (expr_parse w (suc n)) tt ((meaning 5 e ++ []) ++ [])
  unfolding expr_parse
  Reads-expr_parse n e l small starts = Reads-expr_body (expr_parse w n) n e small l starts
