-- ===== src/Compiler/Growth/Definitions.antt =====
-- Templates and definitions keep what was generated before them, and close the scopes they open.
use move.Base.{◌≤◌, ℕ, zero, suc, ◌==◌, Option, none, some, List, [], refl, arith}
use move.Value.{Value}
use move.Heap.{Run, ok, fault, exit, out_of_fuel, and_then}
use move.Buffer.{newbuf}
use move.Scanner.{ident}
use move.Compiler.Code.{Code, Outcome, done, rejected, Comp}
use move.Compiler.Tokens.{Limits, k_function, k_method}
use move.Compiler.Definitions.{
  template_of, new_template, finish_template, gen_literal, gen_atput, at_toplevel, new_local,
  local_place, define_local, store_definition, parse_id_loop, parse_id_list, template_body,
  compile_template, closure_parse, define_method, initial_value, define_slot, define_function,
  define_variable, define_parse,
}
use move.Compiler.Growth.{
  Made, Made-map, Kept, Keeps, Grows, grows-if, grows-pure, grows-lift, grows-no_rounds,
}
use move.Compiler.Growth.Blocks.{◌>>=◌, ◌>>◌}
use move.Compiler.Growth.Steps.{
  grows-gen_op, grows-gen, grows-gen_lit, grows-lookup, grows-add_scope, grows-del_scope,
  grows-add_binding, grows-prepare_call,
}
use move.Compiler.Growth.Tokens.{
  grows-yylval, grows-check, grows-drop, grows-err, grows-chkerr, grows-parse_error,
}
use move.Compiler.Growth.Primary.{
  grows-apply_global, grows-expect, grows-expect_ident, grows-accept,
}

module _ {d : ℕ} {marks : List ℕ} where
  pub grows-new_template : (argc : ℕ) → Grows d d marks (new_template argc)
  unfolding new_template
  grows-new_template argc = record {
    grows = λ k c h. (grows-lift (template_of argc c)).grows k c h;
  }

  pub grows-gen_literal : (v : Value) → Grows d d marks (gen_literal v)
  unfolding gen_literal
  grows-gen_literal v = do grows-gen_op _; grows-gen_lit v

  pub grows-gen_atput : (i : ℕ) → Grows d d marks (gen_atput i)
  unfolding gen_atput
  grows-gen_atput i = do grows-gen_op _; grows-gen _

  grows-at_toplevel : Grows d d marks at_toplevel
  unfolding at_toplevel
  grows-at_toplevel = record { grows = λ k c h. (grows-pure _).grows k c h }

  grows-new_local : (name : Value) → Grows d d marks (new_local name)
  unfolding new_local
  grows-new_local name = do offset ← grows-add_binding name; grows-pure _

  grows-local_place :
      (name : Value) (found : Option (ℕ × ℕ)) → Grows d d marks (local_place name found)
  unfolding local_place
  grows-local_place name none = grows-new_local name
  grows-local_place name (some (frame, offset)) =
      grows-if (frame == 0) (grows-pure _) (grows-new_local name)

  grows-define_local : (name : Value) → Grows d d marks (define_local name)
  unfolding define_local
  grows-define_local name = do
    top ← grows-at_toplevel
    grows-if top (grows-pure _) (do found ← grows-lookup name; grows-local_place name found)

  grows-store_definition : (defined : Value × (ℕ × ℕ)) → Grows d d marks (store_definition defined)
  unfolding store_definition
  grows-store_definition (name, (frame, offset)) = do
    top ← grows-at_toplevel
    grows-if top
        (do grows-gen_atput _; grows-gen_literal name; grows-gen_atput _; grows-apply_global _)
        (do grows-gen_op _; grows-gen _; grows-gen _)

-- The scopes are those that the template's code left; the code and the literals are the old ones.
Made-finish :
    {d : ℕ} {marks : List ℕ} (k : Kept) (c : Code) (r : Run (Outcome Value))
    → Keeps d marks k c
    → Made
        (λ t c'. Keeps d [] (record { start = 0; bytes = []; scope = k.scope; littab = [] }) c')
        r
    → Made (λ t c'. Keeps d marks k c' × (c.buf.pos ≤ c'.buf.pos)) (and_then r (finish_template c))
Made-finish k c (ok (done t c') h) keeps inner = (
  record {
    behind = keeps.behind;
    bounded = keeps.bounded;
    same = keeps.same;
    marked = keeps.marked;
    scopes = inner.scopes;
    literals = keeps.literals;
  },
  omega arith,
)
Made-finish k c (ok (rejected c') h) keeps inner = tt
Made-finish k c fault keeps inner = tt
Made-finish k c (exit n) keeps inner = tt
Made-finish k c out_of_fuel keeps inner = tt

emptied :
    {d : ℕ} {marks : List ℕ} {k : Kept} {c : Code}
    → Keeps d marks k c
    → Keeps d []
        (record { start = 0; bytes = []; scope = k.scope; littab = [] })
        (record c { buf = newbuf 0; littab = [] })
unfolding newbuf
emptied keeps = record {
  behind = omega arith;
  bounded = omega arith;
  same = λ lt. refl;
  marked = λ lt. tt;
  scopes = keeps.scopes;
  literals = ([], refl);
}

module _ (w : Limits) where
  module _ {d : ℕ} {marks : List ℕ} where
    grows-parse_id_loop : (n num : ℕ) → Grows d d marks (parse_id_loop w n num)
    unfolding parse_id_loop
    grows-parse_id_loop zero num = grows-no_rounds
    grows-parse_id_loop (suc n) num = do
      named ← grows-check w ident
      count ←
          grows-if named
            (do name ← grows-yylval; grows-add_binding name; grows-drop w; grows-pure _)
            (grows-pure _)
      closed ← grows-accept w _
      grows-if closed (grows-pure _) (do
        comma ← grows-check w _
        grows-if comma (do grows-drop w; grows-parse_id_loop n _) (grows-parse_error w _))

    pub grows-parse_id_list : (n : ℕ) → Grows d d marks (parse_id_list w n)
    unfolding parse_id_list
    grows-parse_id_list n = do
      empty ← grows-accept w _
      grows-if empty (grows-pure _) (grows-parse_id_loop n 0)

  module _ (self : Comp (Unit {0}))
      (grows-self : (d : ℕ) (marks : List ℕ) → Grows d d marks self) where
    grows-template_body :
        {d : ℕ} {marks : List ℕ} (argc : ℕ) → Grows d d marks (template_body w self argc)
    unfolding template_body
    grows-template_body argc = do grows-self _ _; grows-gen_op _; grows-new_template argc

    grows-compile_template :
        {d : ℕ} {marks : List ℕ} (argc : ℕ) → Grows d d marks (compile_template w self argc)
    unfolding compile_template
    grows-compile_template {d = d} argc = record {
      grows = λ k c h keeps.
          let inner = record c { buf = newbuf 0; littab = [] } in
          Made-finish k c (template_body w self argc inner h) keeps (
            Made-map _ (template_body w self argc inner h) (λ t c' (keeps', le). keeps')
              ((grows-template_body argc).grows _ inner h (emptied keeps)));
    }

    pub grows-closure_parse :
        {d : ℕ} {marks : List ℕ} {parameters : Comp ℕ}
        → Grows (suc d) (suc d) marks parameters
        → Grows d d marks (closure_parse w self parameters)
    unfolding closure_parse
    grows-closure_parse parameters = do
      grows-add_scope
      argc ← parameters
      template ← grows-compile_template argc
      grows-del_scope
      grows-gen_op _
      grows-gen_lit _
      grows-gen_op _

    grows-define_method :
        {d : ℕ} {marks : List ℕ} (n : ℕ) → Grows d d marks (define_method w self n)
    unfolding define_method
    grows-define_method n = do
      grows-expect w _ _
      grows-prepare_call _
      grows-self _ _
      grows-expect w _ _
      grows-gen_atput _
      grows-chkerr w _ _
      name ← grows-yylval
      grows-gen_literal _
      grows-drop w
      grows-gen_atput _
      grows-expect w _ _
      grows-closure_parse (grows-parse_id_list n)
      grows-gen_atput _
      grows-apply_global _

    grows-initial_value : {d : ℕ} {marks : List ℕ} → Grows d d marks (initial_value w self)
    unfolding initial_value
    grows-initial_value = do
      given ← grows-accept w _
      grows-if given (grows-self _ _) (grows-gen_literal _)

    grows-define_slot : {d : ℕ} {marks : List ℕ} → Grows d d marks (define_slot w self)
    unfolding define_slot
    grows-define_slot = do
      grows-prepare_call _
      grows-self _ _
      grows-expect w _ _
      grows-gen_atput _
      grows-chkerr w _ _
      name ← grows-yylval
      grows-gen_literal _
      grows-drop w
      grows-gen_atput _
      grows-initial_value
      grows-gen_atput _
      grows-apply_global _

    grows-define_function :
        {d : ℕ} {marks : List ℕ} (n : ℕ) → Grows d d marks (define_function w self n)
    unfolding define_function
    grows-define_function n = do
      name ← grows-expect_ident w _
      grows-expect w _ _
      place ← grows-define_local name
      grows-closure_parse (grows-parse_id_list n)
      grows-pure _

    grows-define_variable : {d : ℕ} {marks : List ℕ} → Grows d d marks (define_variable w self)
    unfolding define_variable
    grows-define_variable = do
      named ← grows-check w ident
      grows-if named
          (do
            name ← grows-yylval
            grows-drop w
            place ← grows-define_local name
            grows-initial_value
            grows-pure _)
          (grows-err w _)

    pub grows-define_parse :
        {d : ℕ} {marks : List ℕ} (n : ℕ) → Grows d d marks (define_parse w self n)
    unfolding define_parse
    grows-define_parse n = do
      method ← grows-accept w k_method
      grows-if method (grows-define_method n) (do
        slot ← grows-accept w _
        grows-if slot grows-define_slot (do
          top ← grows-at_toplevel
          grows-if top (grows-prepare_call _) (grows-pure _)
          function ← grows-accept w k_function
          defined ← grows-if function (grows-define_function n) grows-define_variable
          grows-store_definition defined))
