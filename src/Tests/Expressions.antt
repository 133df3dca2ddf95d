-- ===== src/Tests/Expressions.antt =====
-- The theorem on operator expressions at a text, with the symbols of the operators in the table.
use move.Base.{
  ℕ, zero, suc, ◌+◌, ◌*◌, ◌≡◌, refl, true, false, Option, none, some, List, [], ◌∷◌, ◌==◌,
  if◌then◌else◌, arith, pos,
}
use move.Value.{
  Value, null, num, ref, undefined, same, Body, vector, bvector, ovector, t_symbol, mknum,
}
use move.Heap.{Heap, ok, at, body_of}
use move.Tests.Threading.{registers}
use move.Vm.Primitives.{init_prim}
use move.Compiler.Tokens.{Limits}
use move.Text.{codes}
use move.Symbols.{newsym, hash_str, bytes_of, symtab_size}
use move.Scanner.Stream.{ScanInst}
use move.Buffer.{newbuf}
use move.Compiler.Code.{Code}
use move.Compiler.Grammar.{
  Name, star, slash, percent, plus, ampersand, bar, equal, unequal, greater, less, at_least,
  at_most, text, rank, Names, Term, named, dash,
}

abbrev all_names : List Name
all_names =
    star ∷ slash ∷ percent ∷ plus ∷ ampersand ∷ bar ∷ equal ∷ unequal ∷ greater ∷ less ∷ at_least
    ∷ at_most ∷ []

-- The buckets of the names.
abbrev bucket : Name → ℕ
bucket star = 42
bucket slash = 47
bucket percent = 37
bucket plus = 43
bucket ampersand = 38
bucket bar = 124
bucket equal = 1037
bucket unequal = 589
bucket greater = 62
bucket less = 60
bucket at_least = 1053
bucket at_most = 1021

abbrev entry : ℕ → List Name → Value
entry i [] = null
entry i (o ∷ os) = if i == bucket o then ref (10 + 2 * rank o) else entry i os

abbrev table : ℕ → ℕ → List Value
table zero i = []
table (suc n) i = entry i all_names ∷ table n (i + 1)

abbrev symbol_cell : ℕ → List Name → Option Body
symbol_cell p [] = none
symbol_cell p (o ∷ os) =
    if p == 10 + 2 * rank o
    then some (
        ovector false t_symbol
          (ref (11 + 2 * rank o) ∷ null ∷ undefined ∷ num (pos (bucket o)) ∷ []))
    else if p == 11 + 2 * rank o
    then some (bvector (codes (text o)))
    else symbol_cell p os

abbrev heap : Heap
heap = record {
  cell = λ p. if p == 1 then some (vector (table symtab_size 0)) else symbol_cell p all_names;
  fresh = 40;
  all_objects = [];
  curr_heapsize = 0;
  symtab = ref 1;
}

names-known : (o : Name) → newsym (codes (text o)) heap ≡ ok (ref (10 + 2 * rank o)) heap
unfolding newsym hash_str bytes_of at body_of
names-known star = refl
names-known _ = refl

names-distinct :
    (o p : Name) → same (ref (10 + 2 * rank o)) (ref (10 + 2 * rank p)) ≡ (rank o == rank p)
unfolding same
names-distinct o p = ground arith

abbrev names : Names heap
names = record {
  symbol = λ o. ref (10 + 2 * rank o);
  known = names-known;
  distinct = names-distinct;
}

-- What is left of the text behind a token.
abbrev left : List ℕ → Option ℕ → Value → ScanInst
left s cache v = record { stream = s; cache = cache; linenum = 1; yylval = v }

abbrev product : Term 2
product =
    ((mknum (pos 1), []), (dash refl, (mknum (pos 2), (named star refl, mknum (pos 3)) ∷ [])) ∷ [])

abbrev expression : Term 5
expression = (((product, []), []), [])

abbrev limits : Limits
limits = record { rounds = 20; depth = 9; primtab = init_prim }

abbrev before : Code
before = record {
  buf = newbuf 0;
  scope = [];
  littab = [];
  parseinst = record {
    vms = registers;
    scaninst = left (codes "1 - 2 * 3;") none null;
    need_scan = true;
    scan_result = 0;
    other_scan_result = 0;
    was_close_brace = false;
  };
}

abbrev number : ℕ → Term 5
number n = (((((mknum (pos n), []), []), []), []), [])

abbrev in_front : Code
in_front = record before {
  parseinst = record before.parseinst { scaninst = left (codes "{1;2;}") none null };
}
