-- ===== src/Compiler/Code.antt =====
-- The state of the compiler, and what is written into it: bytes, literals and local variables.
use move.Base.{
  ℕ, suc, ◌+◌, ◌-◌, ◌/◌, ◌%◌, Bool, Option, none, some, List, [], ◌∷◌, ◌++◌, ltb, if◌then◌else◌,
  length, set,
}
use move.Value.{Value, same}
use move.Heap.{ok, fault, out_of_fuel, Cmd, and_then}
use move.Buffer.{Buffer, newbuf, buf_append, buflength}
use move.Scanner.Stream.{ScanInst}
use move.Vm.Registers.{Vms}
use move.Vm.Bytecode.{Op, opcode}

-- `other_scan_result` is 0 where no token waits.
pub record ParseInst : Type 0 where
  pub vms : Vms
  pub scaninst : ScanInst
  pub need_scan : Bool
  pub scan_result : ℕ
  pub other_scan_result : ℕ
  pub was_close_brace : Bool

-- The list of the scopes, each a vector of names, and the list of the literals are the compiler's
-- own: nothing else points to them.
pub record Code : Type 0 where
  pub buf : Buffer
  pub scope : List (List Value)
  pub littab : List Value
  pub parseinst : ParseInst

unfoldable pub newcode : ParseInst → Code
newcode parseinst = record { buf = newbuf 0; scope = []; littab = []; parseinst = parseinst }

-- How a function of the compiler returns: with a result, or with 0 after an error.
pub data Outcome (A : Type 0) : Type 0 where
  done : A → Code → Outcome A
  rejected : Code → Outcome A

-- A function of the compiler.
abbrev pub Comp : Type 0 → Type 0
Comp A = Code → Cmd (Outcome A)

unfoldable pub pure : {A : Type 0} → A → Comp A
pure a c = ok (done a c)

unfoldable pub reject : {A : Type 0} → Comp A
reject c = ok (rejected c)

unfoldable pub no_rounds : {A : Type 0} → Comp A
no_rounds c h = out_of_fuel

module _ {A B : Type 0} where
  abbrev pub continue : (A → Comp B) → Outcome A → Cmd (Outcome B)
  continue f (done a c) = f a c
  continue f (rejected c) = ok (rejected c)

  infixl 5 ◌>>=◌ ◌>>◌
  unfoldable pub ◌>>=◌ : Comp A → (A → Comp B) → Comp B
  ◌>>=◌ m f c h = and_then (m c h) (continue f)

  unfoldable pub ◌>>◌ : Comp A → Comp B → Comp B
  ◌>>◌ m f = m >>= λ _. f

-- A command that does not see the compiler's state.
unfoldable pub lift : {A : Type 0} → Cmd A → Comp A
lift m c h = and_then (m h) λ a. ok (done a c)

unfoldable pub modify : (Code → Code) → Comp (Unit {0})
modify f c = ok (done tt (f c))

unfoldable pub add_scope : Comp (Unit {0})
add_scope = modify λ c. record c { scope = [] ∷ c.scope }

unfoldable pub del_scope : Comp (Unit {0})
del_scope c h = elim c.scope [
  | [] ↦ fault
  | f ∷ outer ↦ ok (done tt (record c { scope = outer })) h
]

abbrev pub vec_append : List Value → Value → List Value
vec_append vec item = vec ++ (item ∷ [])

unfoldable pub add_binding : Value → Comp ℕ
add_binding name c h = elim c.scope [
  | [] ↦ fault
  | f ∷ outer ↦ ok (done (length f % 0x10000) (record c { scope = vec_append f name ∷ outer })) h
]

-- The inner loop of lookup.
unfoldable pub index_of : Value → List Value → Option ℕ
index_of name [] = none
index_of name (x ∷ xs) =
    if same x name then some 0 else elim (index_of name xs) [ some i ↦ some (suc i) | none ↦ none ]

-- How lookup ends. `endless` is the inner loop on a scope that is longer than its index can count.
pub data Found : Type 0 where
  bound : (frame offset : ℕ) → Found
  free : Found
  endless : Found

unfoldable pub lookup_from : Value → ℕ → List (List Value) → Found
lookup_from name frameno [] = free
lookup_from name frameno (f ∷ outer) =
    let rest = lookup_from name ((frameno + 1) % 0x10000) outer in
    elim (index_of name f) [
      | some i ↦ if ltb i 0x10000 then bound frameno i else endless
      | none ↦ if ltb (length f) 0x10000 then rest else endless
    ]

-- What lookup returns.
unfoldable pub returned : Found → Comp (Option (ℕ × ℕ))
returned (bound frame offset) = pure (some (frame, offset))
returned free = pure none
returned endless = no_rounds

unfoldable pub lookup : Value → Comp (Option (ℕ × ℕ))
lookup name c = returned (lookup_from name 0 c.scope) c

-- The index of a literal and the table with it.
unfoldable pub literal_in : Value → List Value → ℕ × List Value
literal_in lit [] = (0, lit ∷ [])
literal_in lit (x ∷ xs) =
    let (i, ys) = literal_in lit xs in if same x lit then (0, x ∷ xs) else (suc i, x ∷ ys)

-- The index is a `char`.
unfoldable pub get_lit : Value → Comp ℕ
get_lit lit c h =
    let (i, tab) = literal_in lit c.littab in ok (done (i % 256) (record c { littab = tab })) h

unfoldable pub gen : ℕ → Comp (Unit {0})
gen ch = modify λ c. record c { buf = buf_append c.buf (ch % 256) }

unfoldable pub gen_op : Op → Comp (Unit {0})
gen_op op = gen (opcode op)

unfoldable pub gen_lit : Value → Comp (Unit {0})
gen_lit lit = do i ← get_lit lit; gen i

-- patch(c, o, ch)
unfoldable pub patch : ℕ → ℕ → Comp (Unit {0})
patch o ch c h =
    if ltb o (buflength c.buf)
    then ok (done tt (record c { buf = record c.buf { buf = set c.buf.buf o (some (ch % 256)) } }))
        h
    else fault

unfoldable pub gen16 : ℕ → Comp (Unit {0})
gen16 w = do gen (w / 256); gen (w % 256)

unfoldable pub patch16 : ℕ → ℕ → Comp (Unit {0})
patch16 o w = do patch o (w / 256); patch (o + 1) (w % 256)

-- CURPOS, as a `uint16_t`.
unfoldable pub curpos : Comp ℕ
curpos c = pure (c.buf.pos % 0x10000) c

-- The position after the bytes that were written, as it is in the buffer.
unfoldable pub bufpos : Comp ℕ
bufpos c = pure c.buf.pos c

unfoldable pub jump_here_from : ℕ → Comp (Unit {0})
jump_here_from ip = do here ← bufpos; patch16 ip ((here - ip - 2) % 0x10000)

-- GEN_JUMP_TO; the distance is backwards.
unfoldable pub gen_jump_to : Op → ℕ → Comp (Unit {0})
gen_jump_to op ip = do
  gen_op op
  from ← curpos
  gen16 0
  here ← bufpos
  patch16 from ((ip + 0x10000 - here % 0x10000) % 0x10000)

-- PREPARE_CALL
unfoldable pub prepare_call : ℕ → Comp (Unit {0})
prepare_call argc = do gen_op Op.op_vector; gen (argc + 1); gen_op Op.op_push
