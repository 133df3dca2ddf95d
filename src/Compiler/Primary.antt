-- ===== src/Compiler/Primary.antt =====
-- Variables, calls, slots, elements and constants: compile_varref to constant_parse of move/parser.c.
-- `self` is expr_parse. The loops are on fuel.
use Prim.Native.String.{String}
use move.Base.{
  ℕ, zero, suc, ◌+◌, Bool, true, false, not, Option, none, some, List, ◌&&◌, if◌then◌else◌,
}
use move.Value.{Value, null}
use move.Alloc.{newvector}
use move.Symbols.{newsym}
use move.Text.{codes}
use move.Scanner.{literal, ident}
use move.Compiler.Tokens.{k_as, k_this}
use move.Vm.Bytecode.{
  Op, op_atput, mov_a_locl, mov_a_glob, mov_a_slot, mov_a_litl, mov_a_self, mov_locl_a, mov_glob_a,
  mov_slot_a, op_push, op_pop, op_swap, op_vector, make_vector, method_closure, op_call, op_call_as,
  op_apply, op_not, op_neg, op_bnot,
}
use move.Compiler.Code.{
  Comp, pure, no_rounds, lift, ◌>>=◌, ◌>>◌, lookup, gen, gen_op, gen_lit, patch, curpos,
}
use move.Compiler.Tokens.{Limits, yylval, check, drop, err, chkerr}

-- The instruction for a local variable with its place, or the one for a global variable.
unfoldable pub gen_variable : Op → Op → Value → Option (ℕ × ℕ) → Comp (Unit {0})
gen_variable local global name (some (frame, offset)) = do gen_op local; gen frame; gen offset
gen_variable local global name none = do gen_op global; gen_lit name

unfoldable pub compile_varref : Value → Comp (Unit {0})
compile_varref name = do found ← lookup name; gen_variable mov_a_locl mov_a_glob name found

-- `GEN_LIT(code, newsym(...))` behind OP_MOV_A_GLOB, and OP_APPLY.
unfoldable pub apply_global : List ℕ → Comp (Unit {0})
apply_global name = do
  gen_op mov_a_glob
  symbol ← lift (newsym name)
  gen_lit symbol
  gen_op op_apply

module _ (w : Limits) where
  -- `CHKERR(class, msg); DROP()`
  unfoldable pub expect : ℕ → String → Comp (Unit {0})
  expect class msg = do chkerr w class msg; drop w

  -- `CHKERR(IDENT, msg); name = yylval; DROP()`
  unfoldable pub expect_ident : String → Comp Value
  expect_ident msg = do chkerr w ident msg; name ← yylval; drop w; pure name

  -- `if (CHECK(class)) { DROP(); ...`
  unfoldable pub accept : ℕ → Comp Bool
  accept class = do here ← check w class; if here then (do drop w; pure true) else pure false

  module _ (self : Comp (Unit {0})) where
    -- The `while (1)` over the arguments of a call; the result is `argc`.
    unfoldable pub argument_loop : String → ℕ → ℕ → Comp ℕ
    argument_loop msg zero argc = no_rounds
    argument_loop msg (suc n) argc = do
      self
      gen_op op_atput
      gen (argc + 1)
      closed ← accept b')'
      if closed then pure (argc + 1) else (do expect b',' msg; argument_loop msg n (argc + 1))

    -- The vector of the arguments, from OP_VECTOR to the patch of its length.
    unfoldable pub arguments : String → ℕ → Comp (Unit {0})
    arguments msg n = do
      gen_op op_vector
      argcloc ← curpos
      gen 0
      gen_op op_push
      closed ← accept b')'
      argc ← if closed then pure 0 else argument_loop msg n 0
      patch argcloc (argc + 1)

    unfoldable pub compile_methodreference : ℕ → Bool → Comp (Unit {0})
    compile_methodreference n asmethod = do
      methname ← expect_ident "IDENT expected after ':'"
      call ← accept b'('
      if call
          then (do
            gen_op op_push
            arguments "Comma separates arguments to method-call" n
            gen_op op_pop
            gen_op op_swap
            gen_op (if asmethod then op_call_as else op_call)
            gen_lit methname)
          else if asmethod
          then err w "as() methods need to be called, they can't be stored"
          else (do gen_op method_closure; gen_lit methname)

    -- The branch of applic_parse for a call.
    unfoldable pub funcall : ℕ → Value → Bool → Bool → Comp (Unit {0})
    funcall n currid lvalue isslot = do
      if lvalue
          then (if isslot then (do gen_op mov_a_slot; gen_lit currid; gen_op op_push) else pure tt)
          else gen_op op_push
      arguments "Comma separates args in funcall" n
      if lvalue && not isslot then compile_varref currid else (do gen_op op_pop; gen_op op_swap)
      gen_op op_apply

    -- The branch of applic_parse for an assignment.
    unfoldable pub assignment : Value → Bool → Bool → Comp (Unit {0})
    assignment currid lvalue isslot = do
      if lvalue then pure tt else err w "lvalue required in assignment"
      if isslot then gen_op op_push else pure tt
      self
      if isslot
          then (do gen_op mov_slot_a; gen_lit currid)
          else (do found ← lookup currid; gen_variable mov_locl_a mov_glob_a currid found)

    -- The branch of applic_parse for an element; whether it was stored to.
    unfoldable pub element : Comp Bool
    element = do
      gen_op op_push
      gen_op op_vector
      pos ← curpos
      gen 3
      gen_op op_swap
      gen_op op_atput
      gen 1
      self
      gen_op op_atput
      gen 2
      expect b']' "Brackets must match in element-ref or element-set syntax"
      store ← accept b'='
      if store
          then (do
            patch pos 4
            self
            gen_op op_atput
            gen 3
            apply_global (codes "element-set")
            pure true)
          else (do apply_global (codes "element-ref"); pure false)

    -- The value of the variable or slot that was named last.
    unfoldable pub load_lvalue : Value → Bool → Bool → Comp (Unit {0})
    load_lvalue currid lvalue isslot =
        if lvalue
        then (if isslot then (do gen_op mov_a_slot; gen_lit currid) else compile_varref currid)
        else pure tt

    unfoldable pub applic_parse : ℕ → Value → Bool → Bool → Comp (Unit {0})
    applic_parse zero currid lvalue isslot = no_rounds
    applic_parse (suc n) currid lvalue isslot = do
      call ← accept b'('
      if call then (do funcall n currid lvalue isslot; applic_parse n currid false isslot) else (do
        assign ← accept b'='
        if assign then assignment currid lvalue isslot else (do
          load_lvalue currid lvalue isslot
          index ← accept b'['
          if index
              then (do
                stored ← element
                if stored then pure tt else applic_parse n currid false false)
              else (do
                dot ← accept b'.'
                if dot
                    then (do
                      id ← expect_ident "slot identifier expected after '.'"
                      applic_parse n id true true)
                    else (do
                      colon ← accept b':'
                      if colon
                          then (do
                            compile_methodreference n false
                            applic_parse n currid false false)
                          else pure tt))))

    -- The `while (1)` over the elements of a vector; the result is `veclen`.
    unfoldable pub vector_loop : ℕ → ℕ → Comp ℕ
    vector_loop zero veclen = no_rounds
    vector_loop (suc n) veclen = do
      self
      gen_op op_push
      closed ← accept b']'
      if closed then pure (veclen + 1) else (do
        expect b',' "Comma separates subexpressions in literal vector"
        vector_loop n (veclen + 1))

    unfoldable pub vector_parse : ℕ → Comp (Unit {0})
    vector_parse n = do
      empty ← accept b']'
      if empty
          then (do gen_op mov_a_litl; v ← lift (newvector 0); gen_lit v)
          else (do veclen ← vector_loop n 0; gen_op make_vector; gen veclen)
      applic_parse n null false false

    -- The branch of id_parse for a call with other permissions.
    unfoldable pub as_parse : ℕ → Comp (Unit {0})
    as_parse n = do
      expect b'(' "'as' typecasts require parens"
      self
      expect b')' "'as' typecasts require parens"
      expect b':' "'as' typecasts are only for method reference; ':' is required"
      compile_methodreference n true
      applic_parse n null false false

    unfoldable pub id_parse : ℕ → Comp (Unit {0})
    id_parse n = do
      paren ← accept b'('
      if paren
          then (do
            self
            expect b')' "Unmatched close-paren in grouping parens"
            applic_parse n null false false)
          else (do
            named ← check w ident
            if named then (do currid ← yylval; drop w; applic_parse n currid true false) else (do
              typecast ← accept k_as
              if typecast then as_parse n else (do
                extra ← accept b';'
                if extra then pure tt else (do drop w; err w "Syntax error in id_parse"))))

    unfoldable pub constant_parse : ℕ → Comp (Unit {0})
    constant_parse zero = no_rounds
    constant_parse (suc n) = do
      lit ← check w literal
      if lit then (do gen_op mov_a_litl; v ← yylval; gen_lit v; drop w) else (do
        this ← check w k_this
        if this then (do gen_op mov_a_self; drop w; applic_parse n null false false) else (do
          vec ← accept b'['
          if vec then vector_parse n else (do
            not_op ← accept b'!'
            if not_op then (do constant_parse n; gen_op op_not) else (do
              bnot_op ← accept b'~'
              if bnot_op then (do constant_parse n; gen_op op_bnot) else (do
                neg_op ← accept b'-'
                if neg_op then (do constant_parse n; gen_op op_neg) else id_parse n)))))
