-- ===== src/Compiler/Grammar.antt =====
-- Expressions of literals and of the binary operators from * to <=, without parentheses, unary
-- operators, && and ||: the tokens that they are written with and the code that they mean.
use Prim.Native.String.{String}
use move.Base.{ℕ, zero, suc, ◌+◌, ◌≡◌, none, some, List, [], ◌∷◌, ◌++◌, ◌==◌}
use move.Value.{Value, same}
use move.Heap.{Heap, ok}
use move.Symbols.{newsym}
use move.Text.{codes}
use move.Scanner.{literal, ident}
use move.Vm.Bytecode.{
  Op, opcode, op_push, mov_a_litl, op_star, op_slash, op_percent, op_plus, op_minus, op_band,
  op_bor, op_eq, op_ne, op_gt, op_lt, op_ge, op_le,
}
use move.Compiler.Reads.{Token, Item, byte, lit}

-- The operators that are identifiers.
pub data Name : Type 0 where
  star slash percent plus ampersand bar equal unequal greater less at_least at_most : Name

abbrev pub text : Name → String
text star = "*"
text slash = "/"
text percent = "%"
text plus = "+"
text ampersand = "&"
text bar = "|"
text equal = "=="
text unequal = "!="
text greater = ">"
text less = "<"
text at_least = ">="
text at_most = "<="

-- How loosely an operator binds.
abbrev pub level : Name → ℕ
level star = 0
level slash = 0
level percent = 0
level plus = 1
level ampersand = 2
level bar = 3
level _ = 4

abbrev pub code : Name → Op
code star = op_star
code slash = op_slash
code percent = op_percent
code plus = op_plus
code ampersand = op_band
code bar = op_bor
code equal = op_eq
code unequal = op_ne
code greater = op_gt
code less = op_lt
code at_least = op_ge
code at_most = op_le

abbrev pub rank : Name → ℕ
rank star = 0
rank slash = 1
rank percent = 2
rank plus = 3
rank ampersand = 4
rank bar = 5
rank equal = 6
rank unequal = 7
rank greater = 8
rank less = 9
rank at_least = 10
rank at_most = 11

-- The symbols of the operators stand in the symbol table, and are different.
pub record Names (h : Heap) : Type 0 where
  pub symbol : Name → Value
  pub known : (o : Name) → newsym (codes (text o)) h ≡ ok (symbol o) h
  pub distinct : (o p : Name) → same (symbol o) (symbol p) ≡ (rank o == rank p)

-- An operator that binds as loosely as `k` says. The minus sign is a token of its own.
pub data Operator (k : ℕ) : Type 0 where
  named : (o : Name) → level o ≡ k → Operator k
  dash : k ≡ 1 → Operator k

abbrev pub operation : {k : ℕ} → Operator k → Op
operation (named o e) = code o
operation (dash e) = op_minus

-- An expression whose operators bind more tightly than `k`: operands with operators between them.
abbrev pub Term : ℕ → Type 0
Term zero = Value
Term (suc k) = Term k × List (Operator k × Term k)

module _ {h : Heap} (names : Names h) where
  abbrev pub token : {k : ℕ} → Operator k → Token
  token (named o e) = (ident, some (names.symbol o))
  token (dash e) = (b'-', none)

  -- The tokens of the operators and operands behind the first, in front of others; `sub` writes an
  -- operand.
  abbrev pub tokens_rest :
      {k : ℕ}
      → (Term k → List Token → List Token)
      → List (Operator k × Term k)
      → List Token
      → List Token
  tokens_rest sub [] ts = ts
  tokens_rest sub ((op, e) ∷ rest) ts = token op ∷ sub e (tokens_rest sub rest ts)

  abbrev pub tokens : (k : ℕ) → Term k → List Token → List Token
  tokens zero v ts = (literal, some v) ∷ ts
  tokens (suc k) (e, rest) ts = tokens k e (tokens_rest (tokens k) rest ts)

  -- Expressions with a semicolon behind each, and a closing brace.
  abbrev pub tokens_block : List (Term 5) → List Token → List Token
  tokens_block [] ts = (b'}', none) ∷ ts
  tokens_block (e ∷ es) ts = tokens 5 e ((b';', none) ∷ tokens_block es ts)

-- The code: the operands in order, each operator behind its right operand.
abbrev pub meaning_rest : {k : ℕ} → (Term k → List Item) → List (Operator k × Term k) → List Item
meaning_rest sub [] = []
meaning_rest sub ((op, e) ∷ rest) =
    byte (opcode op_push) ∷ (sub e ++ (byte (opcode (operation op)) ∷ meaning_rest sub rest))

abbrev pub meaning : (k : ℕ) → Term k → List Item
meaning zero v = byte (opcode mov_a_litl) ∷ lit v ∷ []
meaning (suc k) (e, rest) = meaning k e ++ meaning_rest (meaning k) rest

abbrev pub meaning_block : List (Term 5) → List Item
meaning_block [] = []
meaning_block (e ∷ es) = meaning 5 e ++ meaning_block es

-- The number of the operators.
abbrev pub size_rest : {k : ℕ} → (Term k → ℕ) → List (Operator k × Term k) → ℕ
size_rest sub [] = 0
size_rest sub ((op, e) ∷ rest) = suc (sub e + size_rest sub rest)

abbrev pub size : (k : ℕ) → Term k → ℕ
size zero v = 0
size (suc k) (e, rest) = size k e + size_rest (size k) rest
