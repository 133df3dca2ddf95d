-- ===== src/Compiler/Definitions.antt =====
-- Parameters, templates and definitions: parse_id_list, compile_template and the cases of expr_parse
-- of move/parser.c for `define` and `function`. `self` is expr_parse.
use move.Base.{
  ℕ, zero, suc, ◌+◌, ◌==◌, Bool, true, false, Option, none, some, List, [], ◌∷◌, if◌then◌else◌,
  length, take,
}
use move.Value.{Value, undefined}
use move.Heap.{Cmd, ok, and_then, atput, of_option}
use move.Alloc.{newvector_noinit}
use move.Text.{codes}
use move.Buffer.{newbuf}
use move.Slots.{newcompilertemplate}
use move.Scanner.{ident}
use move.Vm.Bytecode.{op_atput, mov_a_litl, mov_locl_a, op_closure, op_ret}
use move.Compiler.Code.{
  Code, Outcome, done, rejected, Comp, pure, no_rounds, lift, ◌>>=◌, ◌>>◌, add_scope, del_scope,
  add_binding, lookup, gen, gen_op, gen_lit, prepare_call,
}
use move.Compiler.Tokens.{
  Limits, yylval, check, drop, err, chkerr, parse_error, k_method, k_function,
}
use move.Compiler.Primary.{apply_global, expect, expect_ident, accept}

-- The second loop of list_to_vector.
unfoldable pub fill_vector : Value → ℕ → List Value → Cmd (Unit {0})
fill_vector n i [] h = ok tt h
fill_vector n i (x ∷ l) h = and_then (atput n i x h) λ _. fill_vector n (i + 1) l

unfoldable pub list_to_vector : List Value → Cmd Value
list_to_vector l h =
    and_then (newvector_noinit (length l) h) λ n g. and_then (fill_vector n 0 l g) λ _. ok n

-- The bytes of the buffer up to its position; a byte that was not written is none.
unfoldable pub bytes_in : List (Option ℕ) → Option (List ℕ)
bytes_in [] = some []
bytes_in (none ∷ bs) = none
bytes_in (some b ∷ bs) = elim (bytes_in bs) [ none ↦ none | some r ↦ some (b ∷ r) ]

-- The call of newcompilertemplate on what was generated.
unfoldable pub template_of : ℕ → Code → Cmd Value
template_of argc c h = and_then (list_to_vector c.littab h) λ lits g.
    and_then (of_option (bytes_in (take c.buf.pos c.buf.buf)) g)
      λ code. newcompilertemplate argc code lits

unfoldable pub new_template : ℕ → Comp Value
new_template argc c = lift (template_of argc c) c

-- The generated code and the literals of `outer` again.
abbrev pub restore : Code → Code → Code
restore outer c = record c { buf = outer.buf; littab = outer.littab }

abbrev pub finish_template : Code → Outcome Value → Cmd (Outcome Value)
finish_template outer (done t c) = ok (done t (restore outer c))
finish_template outer (rejected c) = ok (rejected (restore outer c))

-- `GEN_LIT(code, v)` behind OP_MOV_A_LITL.
unfoldable pub gen_literal : Value → Comp (Unit {0})
gen_literal v = do gen_op mov_a_litl; gen_lit v

-- `gen(code, OP_ATPUT); gen(code, i)`
unfoldable pub gen_atput : ℕ → Comp (Unit {0})
gen_atput i = do gen_op op_atput; gen i

abbrev no_scope : List (List Value) → Bool
no_scope [] = true
no_scope (f ∷ outer) = false

-- Whether `code->scope` is NULL.
unfoldable pub at_toplevel : Comp Bool
at_toplevel c = pure (no_scope c.scope) c

-- A new variable of the innermost scope.
unfoldable pub new_local : Value → Comp (ℕ × ℕ)
new_local name = do offset ← add_binding name; pure (0, offset)

-- A variable that was found is taken where it is of the innermost scope.
unfoldable pub local_place : Value → Option (ℕ × ℕ) → Comp (ℕ × ℕ)
local_place name none = new_local name
local_place name (some (frame, offset)) = if frame == 0 then pure (0, offset) else new_local name

-- The place of the local variable that is defined.
unfoldable pub define_local : Value → Comp (ℕ × ℕ)
define_local name = do
  top ← at_toplevel
  if top then pure (0, 0) else (do found ← lookup name; local_place name found)

-- The call of define-global, or the store into the local variable.
unfoldable pub store_definition : Value × (ℕ × ℕ) → Comp (Unit {0})
store_definition (name, (frame, offset)) = do
  top ← at_toplevel
  if top
      then (do gen_atput 2; gen_literal name; gen_atput 1; apply_global (codes "define-global"))
      else (do gen_op mov_locl_a; gen frame; gen offset)

module _ (w : Limits) where
  unfoldable pub parse_id_loop : ℕ → ℕ → Comp ℕ
  parse_id_loop zero num = no_rounds
  parse_id_loop (suc n) num = do
    named ← check w ident
    count ← if named then (do name ← yylval; add_binding name; drop w; pure (num + 1)) else pure num
    closed ← accept w b')'
    if closed then pure count else (do
      comma ← check w b','
      if comma
          then (do drop w; parse_id_loop n count)
          else parse_error w (codes "comma reqd to separate IDENTs in id_list"))

  unfoldable pub parse_id_list : ℕ → Comp ℕ
  parse_id_list n = do empty ← accept w b')'; if empty then pure 0 else parse_id_loop n 0

  module _ (self : Comp (Unit {0})) where
    -- The body of compile_template between the two exchanges of the buffer and the literals.
    unfoldable pub template_body : ℕ → Comp Value
    template_body argc = do self; gen_op op_ret; new_template argc

    unfoldable pub compile_template : ℕ → Comp Value
    compile_template argc c h =
        and_then (template_body argc (record c { buf = newbuf 0; littab = [] }) h)
          (finish_template c)

    -- From add_scope to OP_CLOSURE.
    unfoldable pub closure_parse : Comp ℕ → Comp (Unit {0})
    closure_parse parameters = do
      add_scope
      argc ← parameters
      template ← compile_template argc
      del_scope
      gen_op mov_a_litl
      gen_lit template
      gen_op op_closure

    unfoldable pub define_method : ℕ → Comp (Unit {0})
    define_method n = do
      expect w b'(' "'define method' requires a target enclosed in parens"
      prepare_call 3
      self
      expect w b')' "'define method' requires a target enclosed in parens"
      gen_atput 1
      chkerr w ident "'define method' needs a method IDENT."
      name ← yylval
      gen_literal name
      drop w
      gen_atput 2
      expect w b'(' "'define method' requires formal arglist"
      closure_parse (parse_id_list n)
      gen_atput 3
      apply_global (codes "add-method")

    -- `= value`, or undefined.
    unfoldable pub initial_value : Comp (Unit {0})
    initial_value = do given ← accept w b'='; if given then self else gen_literal undefined

    unfoldable pub define_slot : Comp (Unit {0})
    define_slot = do
      prepare_call 3
      self
      expect w b')' "Definition of slots requires a target enclosed in parens"
      gen_atput 1
      chkerr w ident "Definition of slots needs a slot IDENT."
      name ← yylval
      gen_literal name
      drop w
      gen_atput 2
      initial_value
      gen_atput 3
      apply_global (codes "add-slot")

    unfoldable pub define_function : ℕ → Comp (Value × (ℕ × ℕ))
    define_function n = do
      name ← expect_ident w "IDENT reqd after 'define function'"
      expect w b'(' "'define function' requires formal arglist"
      place ← define_local name
      closure_parse (parse_id_list n)
      pure (name, place)

    unfoldable pub define_variable : Comp (Value × (ℕ × ℕ))
    define_variable = do
      named ← check w ident
      if named
          then (do
            name ← yylval
            drop w
            place ← define_local name
            initial_value
            pure (name, place))
          else err w "Invalid token following define"

    unfoldable pub define_parse : ℕ → Comp (Unit {0})
    define_parse n = do
      method ← accept w k_method
      if method then define_method n else (do
        slot ← accept w b'('
        if slot then define_slot else (do
          top ← at_toplevel
          if top then prepare_call 2 else pure tt
          function ← accept w k_function
          defined ← if function then define_function n else define_variable
          store_definition defined))
