-- ===== src/Compiler/Reads/Blocks.antt =====
-- expr_parse on the tokens of blocks of operator expressions.
use move.Base.{ℕ, ◌%◌, ◌≤◌, ◌≡◌, ◌⊎◌, some, List, [], ◌∷◌, ◌++◌, set}
use move.Value.{Value}
use move.Heap.{Heap, ok}
use move.Buffer.{Buffer, buflength, buf_append}
use move.Vm.Bytecode.{opcode, enter_scope, leave_scope}
use move.Compiler.Code.{Code, done, Comp}
use move.Compiler.Reads.{Token, Look, closed, Sees, Item, byte, emit, Reads}

-- The code of a block whose expressions have the code `xs`, and no variables.
abbrev pub block_code : List Item → List Item
block_code xs = byte (opcode enter_scope) ∷ byte 0 ∷ (xs ++ (byte (opcode leave_scope) ∷ []))

-- The code `c'` is `c` with that of a block behind it, in front of the tokens `ts` behind a closing
-- brace. A position is a `uint16_t`: from 65536 bytes on the count of the variables is written to
-- another place.
pub record Closes (rounds : ℕ) (h : Heap) (ts : List Token) (xs : List Item) (c c' : Code)
    : Type 0 where
  pub scope : c'.scope ≡ c.scope
  pub littab : c'.littab ≡ (emit xs (c.buf, c.littab)).1
  pub code : (0x1_0000 ≤ c'.buf.pos) ⊎ (c'.buf ≡ (emit (block_code xs) (c.buf, c.littab)).0)
  pub sees : Sees rounds h (closed ts) c'.parseinst

record Runs (rounds : ℕ) (h : Heap) (l : Look) (ts : List Token) (m : Comp (Unit {0}))
    (xs : List Item) : Type 0 where
  running :
      (c : Code)
      → c.buf.pos ≤ buflength c.buf
      → Sees rounds h l c.parseinst
      → (c' : Code) × (m c h ≡ ok (done tt c') h) × Closes rounds h ts xs c c'

-- The code of a block, in front of its expressions.
opened : Code → Code
opened c = record c {
  scope = [] ∷ c.scope;
  buf = buf_append (buf_append c.buf (opcode enter_scope % 256)) 0;
}

-- The count of the variables at `o`, the end of the block, and the old scopes.
left_with : List (List Value) → ℕ → Code → Code
left_with outer o c = record c {
  scope = outer;
  buf = buf_append (record c.buf { buf = set c.buf.buf o (some 0) }) (opcode leave_scope % 256);
}
