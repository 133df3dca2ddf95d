-- ===== src/Compiler/Growth/Steps.antt =====
-- Bytes, patches, scopes and literals keep what was there: the rules for the steps of the compiler.
use move.Base.{
  ℕ, suc, ◌+◌, ◌/◌, ◌%◌, ◌<◌, ◌≤◌, refl, ap, ◌∙◌, inl, inr, List, [], ◌∷◌, ◌++◌, ltb, Bool-cases,
  arith,
}
use mathlib.Core.List.{append_assoc}
use move.Value.{Value}
use move.Buffer.{buflength, buf_append}
use move.Vm.Bytecode.{Op}
use move.Compiler.Code.{
  ParseInst, Code, pure, modify, add_scope, del_scope, add_binding, gen, gen_lit, get_lit, patch,
  patch16, gen16, bufpos, jump_here_from, gen_jump_to, gen_op, lookup, lookup_from, Found, returned,
  bound, free, endless, prepare_call,
}
use move.Compiler.Growth.{
  Kept, Keeps, Grows, grows-bind, grows-then, grows-pure, grows-curpos, grows-no_rounds,
}
use move.Compiler.Growth.Codes.{
  In, in-All, appended, with_scope, patched, literal_in-append, bound_in, here,
}

module _ {d : ℕ} {marks : List ℕ} where
  pub grows-gen : (ch : ℕ) → Grows d d marks (gen ch)
  unfolding gen modify buf_append
  grows-gen ch = record { grows = λ k c h keeps. (appended (ch % 256) keeps, omega arith) }

  pub grows-inst :
      (f : ParseInst → ParseInst)
      → Grows d d marks (modify λ c. record c { parseinst = f c.parseinst })
  unfolding modify
  grows-inst f = record {
    grows = λ k c h keeps. (
      record {
        behind = keeps.behind;
        bounded = keeps.bounded;
        same = keeps.same;
        marked = keeps.marked;
        scopes = keeps.scopes;
        literals = keeps.literals;
      },
      omega arith,
    );
  }

  pub grows-get_lit : (lit : Value) → Grows d d marks (get_lit lit)
  unfolding get_lit
  grows-get_lit lit = record {
    grows = λ k c h keeps.
        let (more, e) = keeps.literals in
        let (new, f) = literal_in-append lit c.littab in
        (
          record {
            behind = keeps.behind;
            bounded = keeps.bounded;
            same = keeps.same;
            marked = keeps.marked;
            scopes = keeps.scopes;
            literals = (more ++ new, f ∙ (ap (λ t. t ++ new) e ∙ append_assoc k.littab more new));
          },
          omega arith,
        );
  }

  pub grows-add_scope : Grows d (suc d) marks add_scope
  unfolding add_scope modify
  grows-add_scope = record {
    grows = λ k c h keeps.
        (with_scope ([] ∷ c.scope) keeps ([], c.scope, refl, keeps.scopes), omega arith);
  }

  -- The innermost scope is closed.
  pub grows-del_scope : Grows (suc d) d marks del_scope
  unfolding del_scope
  grows-del_scope = record {
    grows = λ k c h keeps.
        let (f, outer, e, deep) = keeps.scopes in rw e (with_scope outer keeps deep, omega arith);
  }

  pub grows-add_binding : (name : Value) → Grows d d marks (add_binding name)
  unfolding add_binding
  grows-add_binding name = record { grows = λ k c h keeps. bound_in name k c h keeps }

  pub grows-patch :
      (o ch : ℕ)
      → ((k : Kept) (c : Code) → Keeps d marks k c → c.buf.pos < 0x1_0000 → k.start ≤ o)
      → Grows d d marks (patch o ch)
  unfolding patch
  grows-patch o ch behind = record {
    grows = λ k c h keeps. elim (Bool-cases (ltb o (buflength c.buf))) [
      | inl room ↦ rw room (patched o (ch % 256) keeps (behind k c keeps), omega arith)
      | inr outside ↦ rw outside tt
    ];
  }

  pub grows-patch_mark : (o ch : ℕ) → In o marks → Grows d d marks (patch o ch)
  grows-patch_mark o ch i = grows-patch o ch λ k c keeps lt. in-All _ i (keeps.marked lt)

  pub grows-patch16 : (o w : ℕ) → In o marks → Grows d d marks (patch16 o w)
  unfolding patch16
  grows-patch16 o w i = grows-then (grows-patch_mark o (w / 256) i) (
      grows-patch (o + 1) (w % 256)
        λ k c keeps lt. let le = in-All (λ l. k.start ≤ l) i (keeps.marked lt) in omega (arith, le))

  pub grows-gen16 : (w : ℕ) → Grows d d marks (gen16 w)
  unfolding gen16
  grows-gen16 w = grows-then (grows-gen (w / 256)) (grows-gen (w % 256))

  pub grows-gen_lit : (lit : Value) → Grows d d marks (gen_lit lit)
  unfolding gen_lit
  grows-gen_lit lit = grows-bind (grows-get_lit lit) grows-gen

  pub grows-bufpos : Grows d d marks bufpos
  unfolding bufpos pure
  grows-bufpos = record { grows = λ k c h keeps. (keeps, omega arith) }

  pub grows-jump_here_from : (ip : ℕ) → In ip marks → Grows d d marks (jump_here_from ip)
  unfolding jump_here_from
  grows-jump_here_from ip i = grows-bind grows-bufpos λ here. grows-patch16 ip _ i

  grows-returned : (r : Found) → Grows d d marks (returned r)
  unfolding returned
  grows-returned (bound frame offset) = grows-pure _
  grows-returned free = grows-pure _
  grows-returned endless = grows-no_rounds

  pub grows-lookup : (name : Value) → Grows d d marks (lookup name)
  unfolding lookup
  grows-lookup name = record {
    grows = λ k c h. (grows-returned (lookup_from name 0 c.scope)).grows k c h;
  }

  pub grows-gen_op : (op : Op) → Grows d d marks (gen_op op)
  unfolding gen_op
  grows-gen_op op = grows-gen _

  pub grows-prepare_call : (argc : ℕ) → Grows d d marks (prepare_call argc)
  unfolding prepare_call
  grows-prepare_call argc = grows-then (grows-gen_op _) (grows-then (grows-gen _) (grows-gen_op _))

pub grows-gen_jump_to :
    {d : ℕ} {marks : List ℕ} (op : Op) (ip : ℕ) → Grows d d marks (gen_jump_to op ip)
unfolding gen_jump_to
grows-gen_jump_to op ip = grows-then (grows-gen_op op) (
    grows-curpos
      λ from. grows-then (grows-gen16 0) (grows-bind grows-bufpos λ p. grows-patch16 from _ here))
