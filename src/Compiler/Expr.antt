-- ===== src/Compiler/Expr.antt =====
-- expr_parse and parse of move/parser.c.
use move.Base.{
  ℕ, zero, suc, true, false, not, Option, none, some, List, [], ◌∷◌, if◌then◌else◌, length, ltb,
}
use move.Value.{Value, null, undefined}
use move.Heap.{Cmd, ok, fault, and_then}
use move.Text.{codes}
use move.Scanner.{scan_eof, ident}
use move.Scanner.Stream.{ScanInst}
use move.Vm.Registers.{Vms}
use move.Vm.Bytecode.{op_ret, op_jump, jump_false, enter_scope, leave_scope}
use move.Compiler.Code.{
  Outcome, done, rejected, Comp, pure, no_rounds, ◌>>=◌, ◌>>◌, newcode, add_scope, del_scope,
  add_binding, gen, gen_op, gen16, patch, curpos, jump_here_from, gen_jump_to, prepare_call,
}
use move.Compiler.Tokens.{
  Limits, yylval, stuff_token, check, drop, err, chkerr, k_define, k_if, k_else, k_while, k_return,
  k_function, k_bind_cc,
}
use move.Compiler.Primary.{apply_global, expect, accept}
use move.Compiler.Operators.{or_op_parse}
use move.Compiler.Definitions.{
  gen_literal, gen_atput, parse_id_list, closure_parse, define_parse, new_template,
}

unfoldable pub length_in : List (List Value) → Comp ℕ
length_in [] c h = fault
length_in (f ∷ outer) c h = pure (length f) c h

-- The number of the variables of the innermost scope.
unfoldable pub scope_length : Comp ℕ
scope_length c = length_in c.scope c

module _ (w : Limits) where
  module _ (self : Comp (Unit {0})) where
    -- Behind the first branch of an `if`.
    unfoldable pub else_parse : Comp (Unit {0})
    else_parse = do
      semicolon ← accept w b';'
      if semicolon
          then (do
            other ← accept w k_else
            if other then self else (do stuff_token b';'; gen_literal undefined))
          else gen_literal undefined

    unfoldable pub if_parse : Comp (Unit {0})
    if_parse = do
      expect w b'(' "if needs parens around condition"
      self
      gen_op jump_false
      false_jmp ← curpos
      gen16 0
      expect w b')' "if needs parens around condition"
      self
      gen_op op_jump
      end_jmp ← curpos
      gen16 0
      jump_here_from false_jmp
      else_parse
      jump_here_from end_jmp

    unfoldable pub while_parse : Comp (Unit {0})
    while_parse = do
      loop_test ← curpos
      expect w b'(' "while needs parens"
      self
      gen_op jump_false
      loop_end ← curpos
      gen16 0
      expect w b')' "while needs parens"
      self
      gen_jump_to op_jump loop_test
      jump_here_from loop_end

    -- The `while (1)` of a block.
    unfoldable pub block_loop : ℕ → Comp (Unit {0})
    block_loop zero = no_rounds
    block_loop (suc n) = do
      self
      expect w b';' "Semicolon expected after each expression inside { ... }"
      closed ← accept w b'}'
      if closed then pure tt else block_loop n

    unfoldable pub block_parse : ℕ → Comp (Unit {0})
    block_parse n = do
      empty ← accept w b'}'
      if empty then gen_literal undefined else (do
        add_scope
        gen_op enter_scope
        position ← curpos
        gen 0
        block_loop n
        len ← scope_length
        if ltb 255 len then err w "Too many local variables in scope" else pure tt
        patch position len
        gen_op leave_scope
        del_scope)

    unfoldable pub return_parse : Comp (Unit {0})
    return_parse = do
      nothing ← check w b';'
      if nothing then gen_literal undefined else self
      gen_op op_ret

    unfoldable pub bind_cc_parameter : Comp ℕ
    bind_cc_parameter = do
      expect w b'(' "brackets surround IDENT in bind-cc"
      chkerr w ident "IDENT required in bind-cc"
      name ← yylval
      add_binding name
      drop w
      expect w b')' "brackets surround IDENT in bind-cc"
      pure 1

    unfoldable pub bind_cc_parse : Comp (Unit {0})
    bind_cc_parse = do
      prepare_call 1
      closure_parse w self bind_cc_parameter
      gen_atput 1
      apply_global (codes "call/cc")

    unfoldable pub function_parse : ℕ → Comp (Unit {0})
    function_parse n = do
      expect w b'(' "Formal arglist expected after 'function'"
      closure_parse w self (parse_id_list w n)

    unfoldable pub expr_body : ℕ → Comp (Unit {0})
    expr_body n = do
      define ← accept w k_define
      if define then define_parse w self n else (do
        function ← accept w k_function
        if function then function_parse n else (do
          if_key ← accept w k_if
          if if_key then if_parse else (do
            while_key ← accept w k_while
            if while_key then while_parse else (do
              brace ← accept w b'{'
              if brace then block_parse n else (do
                return_key ← accept w k_return
                if return_key then return_parse else (do
                  bind_cc ← accept w k_bind_cc
                  if bind_cc then bind_cc_parse else or_op_parse w self n))))))

  unfoldable pub expr_parse : ℕ → Comp (Unit {0})
  expr_parse zero = no_rounds
  expr_parse (suc n) = expr_body (expr_parse n) n

  unfoldable pub toplevel : ℕ → Comp (Option Value)
  toplevel n = do
    eof ← check w scan_eof
    if eof then pure none else (do
      expr_parse n
      semicolon ← check w b';'
      if not semicolon then err w "Semi-colons must terminate expressions at toplevel" else pure tt
      drop w
      gen_op op_ret
      template ← new_template 0
      pure (some template))

  abbrev pub parsed : Outcome (Option Value) → Cmd (Value × (Vms × ScanInst))
  parsed (done none c) = ok (null, (c.parseinst.vms, c.parseinst.scaninst))
  parsed (done (some t) c) = ok (t, (c.parseinst.vms, c.parseinst.scaninst))
  parsed (rejected c) = ok (null, (c.parseinst.vms, c.parseinst.scaninst))

  unfoldable pub parse : ℕ → Vms → ScanInst → Cmd (Value × (Vms × ScanInst))
  parse n vms scaninst h =
      let code = newcode (record {
        vms = vms;
        scaninst = scaninst;
        need_scan = true;
        scan_result = 0;
        other_scan_result = 0;
        was_close_brace = false;
      }) in
      and_then (toplevel n code h) parsed
