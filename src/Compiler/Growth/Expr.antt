-- ===== src/Compiler/Growth/Expr.antt =====
-- expr_parse keeps what was generated before it, the scopes and the literals.
use move.Base.{
  ◌⊎◌, inl, inr, Bool-cases, ltb→lt, length, ℕ, zero, suc, ◌≤◌, ◌≡◌, refl, sym, ap, List, [], ◌∷◌,
  ◌++◌, ltb, take, arith,
}
use mathlib.Core.List.{append-nil}
use move.Value.{Value}
use move.Heap.{Heap}
use move.Buffer.{buflength}
use move.Compiler.Code.{Code, Comp}
use move.Compiler.Tokens.{Limits, k_define, k_if, k_else, k_while, k_return, k_function, k_bind_cc}
use move.Compiler.Expr.{
  length_in, scope_length, else_parse, if_parse, while_parse, block_loop, block_parse, return_parse,
  bind_cc_parameter, bind_cc_parse, function_parse, expr_body, expr_parse,
}
use move.Compiler.Growth.{
  Made-map, Made, Deep, Keeps, Grows, grows-if, grows-pure, grows-no_rounds, grows-curpos,
}
use move.Compiler.Growth.Blocks.{◌>>=◌, ◌>>◌}
use move.Compiler.Growth.Codes.{here, there}
use move.Compiler.Growth.Steps.{
  grows-gen, grows-gen_op, grows-gen16, grows-patch_mark, grows-jump_here_from, grows-gen_jump_to,
  grows-add_scope, grows-del_scope, grows-add_binding, grows-prepare_call,
}
use move.Compiler.Growth.Tokens.{
  grows-yylval, grows-check, grows-drop, grows-err, grows-chkerr, grows-stuff_token,
}
use move.Compiler.Growth.Primary.{grows-apply_global, grows-expect, grows-accept}
use move.Compiler.Growth.Operators.{grows-or_op_parse}
use move.Compiler.Growth.Definitions.{
  grows-gen_literal, grows-gen_atput, grows-parse_id_list, grows-closure_parse, grows-define_parse,
}

grows-length_in : {d : ℕ} {marks : List ℕ} (s : List (List Value)) → Grows d d marks (length_in s)
unfolding length_in
grows-length_in [] = record { grows = λ k c h keeps. tt }
grows-length_in (f ∷ outer) = record { grows = λ k c h. (grows-pure (length f)).grows k c h }

grows-scope_length : {d : ℕ} {marks : List ℕ} → Grows d d marks scope_length
unfolding scope_length
grows-scope_length = record { grows = λ k c h. (grows-length_in c.scope).grows k c h }

module _ (w : Limits) where
  module _ (self : Comp (Unit {0}))
      (grows-self : (d : ℕ) (marks : List ℕ) → Grows d d marks self) where
    grows-else_parse : {d : ℕ} {marks : List ℕ} → Grows d d marks (else_parse w self)
    unfolding else_parse
    grows-else_parse = do
      semicolon ← grows-accept w _
      grows-if semicolon
          (do
            other ← grows-accept w k_else
            grows-if other (grows-self _ _) (do grows-stuff_token w _; grows-gen_literal _))
          (grows-gen_literal _)

    grows-if_parse : {d : ℕ} {marks : List ℕ} → Grows d d marks (if_parse w self)
    unfolding if_parse
    grows-if_parse = do
      grows-expect w _ _
      grows-self _ _
      grows-gen_op _
      grows-curpos λ false_jmp. do
        grows-gen16 _
        grows-expect w _ _
        grows-self _ _
        grows-gen_op _
        grows-curpos λ end_jmp. do
          grows-gen16 _
          grows-jump_here_from false_jmp (there here)
          grows-else_parse
          grows-jump_here_from end_jmp here

    grows-while_parse : {d : ℕ} {marks : List ℕ} → Grows d d marks (while_parse w self)
    unfolding while_parse
    grows-while_parse = grows-curpos λ loop_test. do
      grows-expect w _ _
      grows-self _ _
      grows-gen_op _
      grows-curpos λ loop_end. do
        grows-gen16 _
        grows-expect w _ _
        grows-self _ _
        grows-gen_jump_to _ _
        grows-jump_here_from loop_end here

    grows-block_loop : {d : ℕ} {marks : List ℕ} (n : ℕ) → Grows d d marks (block_loop w self n)
    unfolding block_loop
    grows-block_loop zero = grows-no_rounds
    grows-block_loop (suc n) = do
      grows-self _ _
      grows-expect w _ _
      closed ← grows-accept w _
      grows-if closed (grows-pure _) (grows-block_loop n)

    grows-block_parse : {d : ℕ} {marks : List ℕ} (n : ℕ) → Grows d d marks (block_parse w self n)
    unfolding block_parse
    grows-block_parse n = do
      empty ← grows-accept w _
      grows-if empty (grows-gen_literal _) (do
        grows-add_scope
        grows-gen_op _
        grows-curpos λ position. do
          grows-gen _
          grows-block_loop n
          len ← grows-scope_length
          grows-if (ltb 255 len) (grows-err w _) (grows-pure _)
          grows-patch_mark position _ here
          grows-gen_op _
          grows-del_scope)

    grows-return_parse : {d : ℕ} {marks : List ℕ} → Grows d d marks (return_parse w self)
    unfolding return_parse
    grows-return_parse = do
      nothing ← grows-check w _
      grows-if nothing (grows-gen_literal _) (grows-self _ _)
      grows-gen_op _

    grows-bind_cc_parameter : {d : ℕ} {marks : List ℕ} → Grows d d marks (bind_cc_parameter w self)
    unfolding bind_cc_parameter
    grows-bind_cc_parameter = do
      grows-expect w _ _
      grows-chkerr w _ _
      name ← grows-yylval
      grows-add_binding name
      grows-drop w
      grows-expect w _ _
      grows-pure _

    grows-bind_cc_parse : {d : ℕ} {marks : List ℕ} → Grows d d marks (bind_cc_parse w self)
    unfolding bind_cc_parse
    grows-bind_cc_parse = do
      grows-prepare_call _
      grows-closure_parse w self grows-self grows-bind_cc_parameter
      grows-gen_atput _
      grows-apply_global _

    grows-function_parse :
        {d : ℕ} {marks : List ℕ} (n : ℕ) → Grows d d marks (function_parse w self n)
    unfolding function_parse
    grows-function_parse n = do
      grows-expect w _ _
      grows-closure_parse w self grows-self (grows-parse_id_list w n)

    grows-expr_body : {d : ℕ} {marks : List ℕ} (n : ℕ) → Grows d d marks (expr_body w self n)
    unfolding expr_body
    grows-expr_body n = do
      define ← grows-accept w k_define
      grows-if define (grows-define_parse w self grows-self n) (do
        function ← grows-accept w k_function
        grows-if function (grows-function_parse n) (do
          if_key ← grows-accept w k_if
          grows-if if_key grows-if_parse (do
            while_key ← grows-accept w k_while
            grows-if while_key grows-while_parse (do
              brace ← grows-accept w _
              grows-if brace (grows-block_parse n) (do
                return_key ← grows-accept w k_return
                grows-if return_key grows-return_parse (do
                  bind_cc ← grows-accept w k_bind_cc
                  grows-if bind_cc grows-bind_cc_parse
                      (grows-or_op_parse w self grows-self n _ _)))))))

  grows-expr_parse : (n d : ℕ) (marks : List ℕ) → Grows d d marks (expr_parse w n)
  unfolding expr_parse
  grows-expr_parse zero d marks = grows-no_rounds
  grows-expr_parse (suc n) d marks = grows-expr_body (expr_parse w n) (grows-expr_parse n) n

same_scopes : (s : List (List Value)) → Deep 0 s s
same_scopes [] = refl
same_scopes (f ∷ outer) = ([], ap (λ g. g ∷ outer) (sym (append-nil f)))

-- The code that was there, before anything is written behind it.
everything :
    (c : Code)
    → c.buf.pos ≤ buflength c.buf
    → Keeps 0 []
        (record {
          start = c.buf.pos;
          bytes = take c.buf.pos c.buf.buf;
          scope = c.scope;
          littab = c.littab;
        })
        c
everything c bounded = record {
  behind = omega arith;
  bounded = bounded;
  same = λ lt. refl;
  marked = λ lt. tt;
  scopes = same_scopes c.scope;
  literals = ([], sym (append-nil c.littab));
}

-- What expr_parse leaves of the code `c` in the code `c'`. A position is a `uint16_t`, so it takes code
-- of less than 65536 bytes.
pub record Grown (c c' : Code) : Type 0 where
  pub longer : c.buf.pos ≤ c'.buf.pos
  pub bounded : c'.buf.pos ≤ buflength c'.buf
  pub bytes : (0x1_0000 ≤ c'.buf.pos) ⊎ (take c.buf.pos c'.buf.buf ≡ take c.buf.pos c.buf.buf)
  pub scopes : Deep 0 c.scope c'.scope
  pub literals : (more : List Value) × (c'.littab ≡ c.littab ++ more)

keeps-Grown :
    {c c' : Code}
    → Keeps 0 []
        (record {
          start = c.buf.pos;
          bytes = take c.buf.pos c.buf.buf;
          scope = c.scope;
          littab = c.littab;
        })
        c'
    → Grown c c'
keeps-Grown {c' = c'} keeps = record {
  longer = keeps.behind;
  bounded = keeps.bounded;
  bytes = elim (Bool-cases (ltb c'.buf.pos 0x1_0000)) [
    | inl short ↦ inr (keeps.same (ltb→lt _ _ short))
    | inr long ↦ inl (ground (arith, long))
  ];
  scopes = keeps.scopes;
  literals = keeps.literals;
}

-- With the position in the buffer, whatever the text and the fuel, where expr_parse returns 1: the
-- position is in the buffer and not before the old one; with less than 65536 bytes generated, the bytes that were there are there still; every
-- scope that it opened is closed, the innermost old one may have more variables, and the others have
-- the same; and the new literals stand behind the old ones.
pub expr_parse-Grown :
    (w : Limits) (n : ℕ) (c : Code) (h : Heap)
    → c.buf.pos ≤ buflength c.buf
    → Made (λ a c'. Grown c c') (expr_parse w n c h)
expr_parse-Grown w n c h bounded =
    Made-map _ (expr_parse w n c h) (λ a c' (keeps, le). keeps-Grown keeps)
      ((grows-expr_parse w n 0 []).grows _ c h (everything c bounded))
