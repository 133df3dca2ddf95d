-- ===== src/Compiler/Reads/Terms.antt =====
-- The levels of the binary operators on the tokens of operator expressions.
use move.Base.{ℕ, zero, suc, ◌≤◌, ◌<◌, ◌≡◌, refl, false, some, List, [], ◌∷◌, ◌==◌, arith}
use move.Value.{Value}
use move.Heap.{Heap}
use move.Scanner.{literal}
use move.Vm.Bytecode.{Op, opcode, op_push, mov_a_litl}
use move.Compiler.Code.{Comp, gen_op}
use move.Compiler.Tokens.{Limits}
use move.Compiler.Primary.{constant_parse}
use move.Compiler.Operators.{op_round, op_loop, op_level}
use move.Compiler.Reads.{
  Token, Look, ahead, peeked, byte, Reads, Reads-bind, Reads-then, Reads-pure, Reads-gen,
  Reads-gen_lit,
}
use move.Compiler.Reads.Tokens.{Next, later, now, Reads-check, Reads-drop, Reads-yylval}
use move.Compiler.Reads.Operators.{Follows, name, minus, ops_at, Reads-op, Reads-no_op}
use move.Compiler.Grammar.{
  Names, Operator, named, dash, operation, token, Term, tokens, tokens_rest, meaning, meaning_rest,
  size, size_rest,
}

-- The tokens are in front of the compiler, the first of them looked at or not.
pub data Starts : List Token → Look → Type 0 where
  fresh : {ts : List Token} → Starts ts (ahead ts)
  looked : {t : Token} {ts : List Token} → Starts (t ∷ ts) (peeked t ts)

pub Starts-Next : {t : Token} {ts : List Token} {l : Look} → Starts (t ∷ ts) l → Next t ts l
Starts-Next fresh = later
Starts-Next looked = now

-- What may stand behind an expression whose operators bind more tightly than `k`.
pub data Ends {h : Heap} (names : Names h) (k : ℕ) : List Token → Type 0 where
  ends : {t : Token} {ts : List Token} → Follows names k t → Ends names k (t ∷ ts)

-- The tokens behind an expression, which every level but the innermost has looked at.
abbrev pub behind : ℕ → List Token → Look
behind zero ts = ahead ts
behind (suc k) [] = ahead []
behind (suc k) (t ∷ ts) = peeked t ts

behind-Starts : (k : ℕ) (ts : List Token) → Starts ts (behind k ts)
behind-Starts zero ts = fresh
behind-Starts (suc k) [] = fresh
behind-Starts (suc k) (t ∷ ts) = looked

Reads-gen_op :
    {rounds : ℕ} {h : Heap} {l : Look} (op : Op)
    → Reads rounds h l l (gen_op op) tt (byte (opcode op) ∷ [])
unfolding gen_op
Reads-gen_op op = Reads-gen (opcode op)

module _ (w : Limits) {h : Heap} (names : Names h) where
  -- Operators and operands may follow an expression of their level.
  rest-Ends :
      {k : ℕ} (sub : Term k → List Token → List Token) (rest : List (Operator k × Term k))
      {ts : List Token}
      → Ends names (suc k) ts
      → Ends names k (tokens_rest names sub rest ts)
  rest-Ends sub [] (ends (name p le)) = ends (name p (omega (arith, le)))
  rest-Ends sub [] (ends (minus le)) = ends (minus (omega (arith, le)))
  rest-Ends sub [] (ends (Follows.stop a b)) = ends (Follows.stop a b)
  rest-Ends sub ((named o e, r) ∷ rest) end = ends (name o (omega (arith, e)))
  rest-Ends sub ((dash e, r) ∷ rest) end = ends (minus (omega (arith, e)))

  token-open : {k : ℕ} (op : Operator k) → ((token names op).0 == b'}') ≡ false
  token-open (named o e) = refl
  token-open (dash e) = refl

  module _ (k : ℕ) (lt : k < 5) (sub : Comp (Unit {0})) (n : ℕ)
      (Reads-sub : (e : Term k) (ts : List Token) (l : Look)
        → size k e < n
        → Starts (tokens names k e ts) l
        → Ends names k ts
        → Reads w.rounds h l (behind k ts) sub tt (meaning k e)) where
    Reads-loop :
        (m : ℕ) (rest : List (Operator k × Term k)) {ts : List Token} {l : Look}
        → size_rest (size k) rest < m
        → size_rest (size k) rest ≤ n
        → Starts (tokens_rest names (tokens names k) rest ts) l
        → Ends names (suc k) ts
        → Reads w.rounds h l
            (behind (suc k) ts)
            (op_loop w (ops_at w k) sub m)
            tt
            (meaning_rest (meaning k) rest)
    unfolding op_loop op_round
    Reads-loop zero rest small fits starts end = absurd (omega (arith, small))
    Reads-loop (suc m) [] small fits starts (ends follows) =
        Reads-bind _ (Reads-no_op w names k lt follows (Starts-Next starts)) (Reads-pure tt)
    Reads-loop (suc m) ((op, e) ∷ rest) {ts = ts} small fits starts end =
        Reads-bind _ (Reads-op w names k lt op (Starts-Next starts)) (
          Reads-then (Reads-drop w (token-open op)) (
            Reads-then (Reads-gen_op op_push) (
              Reads-then
                (Reads-sub e _ _ (omega (arith, fits)) fresh (rest-Ends (tokens names k) rest end))
                (Reads-then (Reads-gen_op (operation op)) (
                  Reads-loop m rest (omega (arith, small)) (omega (arith, fits))
                    (behind-Starts k (tokens_rest names (tokens names k) rest ts)) end)))))

  -- The function that reads the expressions whose operators bind more tightly than `k`.
  abbrev pub term_parse : Comp (Unit {0}) → ℕ → ℕ → Comp (Unit {0})
  term_parse self n zero = constant_parse w self n
  term_parse self n (suc k) = op_level w (ops_at w k) (term_parse self n k) n

  Reads-literal :
      (self : Comp (Unit {0})) (n : ℕ) (v : Value) (ts : List Token) (l : Look)
      → 0 < n
      → Next (literal, some v) ts l
      → Reads w.rounds h l (ahead ts) (constant_parse w self n) tt (meaning 0 v)
  unfolding constant_parse
  Reads-literal self zero v ts l positive next = absurd (omega (arith, positive))
  Reads-literal self (suc n) v ts l positive next = Reads-bind _ (Reads-check w literal next) (
      Reads-then (Reads-gen_op mov_a_litl)
        (Reads-bind _ Reads-yylval (Reads-then (Reads-gen_lit v) (Reads-drop w refl))))

  -- A level reads an expression up to a token that may follow it, and generates what it means.
  pub Reads-term :
      (self : Comp (Unit {0})) (n k : ℕ)
      → k ≤ 5
      → (e : Term k) (ts : List Token) (l : Look) → size k e < n
      → Starts (tokens names k e ts) l
      → Ends names k ts
      → Reads w.rounds h l (behind k ts) (term_parse self n k) tt (meaning k e)
  unfolding op_level
  Reads-term self n zero le v ts l small starts end =
      Reads-literal self n v ts l (omega (arith, small)) (Starts-Next starts)
  Reads-term self n (suc k) le (e, rest) ts l small starts end =
      Reads-then
        (Reads-term self n k (omega (arith, le)) e _ l (omega (arith, small)) starts
          (rest-Ends (tokens names k) rest end))
        (Reads-loop k (omega (arith, le)) (term_parse self n k) n
          (λ r us m. Reads-term self n k (omega (arith, le)) r us m) n rest (omega (arith, small))
          (omega (arith, small)) (behind-Starts k _) end)
