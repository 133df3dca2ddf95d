-- ===== src/Compiler/Growth/Primary.antt =====
-- Variables, calls, slots, elements and constants keep what was generated before them.
use Prim.Native.String.{String}
use move.Base.{ℕ, zero, suc, Bool, not, ◌&&◌, Option, none, some, List}
use move.Value.{Value}
use move.Scanner.{literal, ident}
use move.Vm.Bytecode.{Op}
use move.Compiler.Code.{Comp}
use move.Compiler.Tokens.{Limits, k_this}
use move.Compiler.Primary.{
  gen_variable, compile_varref, apply_global, expect, expect_ident, accept, argument_loop,
  arguments, compile_methodreference, funcall, assignment, element, load_lvalue, applic_parse,
  vector_loop, vector_parse, as_parse, id_parse, constant_parse,
}
use move.Compiler.Growth.{Grows, grows-if, grows-pure, grows-lift, grows-no_rounds, grows-curpos}
use move.Compiler.Growth.Blocks.{◌>>=◌, ◌>>◌}
use move.Compiler.Growth.Codes.{here}
use move.Compiler.Growth.Steps.{
  grows-gen_op, grows-gen, grows-gen_lit, grows-lookup, grows-patch_mark,
}
use move.Compiler.Growth.Tokens.{grows-yylval, grows-check, grows-drop, grows-err, grows-chkerr}

module _ {d : ℕ} {marks : List ℕ} where
  grows-gen_variable :
      (local global : Op) (name : Value) (found : Option (ℕ × ℕ))
      → Grows d d marks (gen_variable local global name found)
  unfolding gen_variable
  grows-gen_variable local global name (some (frame, offset)) = do
    grows-gen_op _
    grows-gen _
    grows-gen _
  grows-gen_variable local global name none = do grows-gen_op _; grows-gen_lit _

  pub grows-compile_varref : (name : Value) → Grows d d marks (compile_varref name)
  unfolding compile_varref
  grows-compile_varref name = do found ← grows-lookup name; grows-gen_variable _ _ name found

  pub grows-apply_global : (name : List ℕ) → Grows d d marks (apply_global name)
  unfolding apply_global
  grows-apply_global name = do
    grows-gen_op _
    symbol ← grows-lift _
    grows-gen_lit _
    grows-gen_op _

module _ (w : Limits) where
  module _ {d : ℕ} {marks : List ℕ} where
    pub grows-expect : (class : ℕ) (msg : String) → Grows d d marks (expect w class msg)
    unfolding expect
    grows-expect class msg = do grows-chkerr w class msg; grows-drop w

    pub grows-expect_ident : (msg : String) → Grows d d marks (expect_ident w msg)
    unfolding expect_ident
    grows-expect_ident msg = do
      grows-chkerr w ident msg
      name ← grows-yylval
      grows-drop w
      grows-pure _

    pub grows-accept : (class : ℕ) → Grows d d marks (accept w class)
    unfolding accept
    grows-accept class = do
      present ← grows-check w class
      grows-if present (do grows-drop w; grows-pure _) (grows-pure _)

  module _ (self : Comp (Unit {0}))
      (grows-self : (d : ℕ) (marks : List ℕ) → Grows d d marks self) where
    grows-argument_loop :
        {d : ℕ} {marks : List ℕ} (msg : String) (n argc : ℕ)
        → Grows d d marks (argument_loop w self msg n argc)
    unfolding argument_loop
    grows-argument_loop msg zero argc = grows-no_rounds
    grows-argument_loop msg (suc n) argc = do
      grows-self _ _
      grows-gen_op _
      grows-gen _
      closed ← grows-accept _
      grows-if closed (grows-pure _) (do grows-expect _ _; grows-argument_loop msg n _)

    grows-arguments :
        {d : ℕ} {marks : List ℕ} (msg : String) (n : ℕ) → Grows d d marks (arguments w self msg n)
    unfolding arguments
    grows-arguments msg n = do
      grows-gen_op _
      grows-curpos λ argcloc. do
        grows-gen _
        grows-gen_op _
        closed ← grows-accept _
        argc ← grows-if closed (grows-pure _) (grows-argument_loop msg n 0)
        grows-patch_mark argcloc _ here

    grows-compile_methodreference :
        {d : ℕ} {marks : List ℕ} (n : ℕ) (asmethod : Bool)
        → Grows d d marks (compile_methodreference w self n asmethod)
    unfolding compile_methodreference
    grows-compile_methodreference n asmethod = do
      methname ← grows-expect_ident _
      call ← grows-accept _
      grows-if call
          (do
            grows-gen_op _
            grows-arguments _ n
            grows-gen_op _
            grows-gen_op _
            grows-gen_op _
            grows-gen_lit _)
          (grows-if asmethod (grows-err w _) (do grows-gen_op _; grows-gen_lit _))

    grows-funcall :
        {d : ℕ} {marks : List ℕ} (n : ℕ) (currid : Value) (lvalue isslot : Bool)
        → Grows d d marks (funcall w self n currid lvalue isslot)
    unfolding funcall
    grows-funcall n currid lvalue isslot = do
      grows-if lvalue
          (grows-if isslot (do grows-gen_op _; grows-gen_lit _; grows-gen_op _) (grows-pure _))
          (grows-gen_op _)
      grows-arguments _ n
      grows-if (lvalue && not isslot) (grows-compile_varref currid)
          (do grows-gen_op _; grows-gen_op _)
      grows-gen_op _

    grows-assignment :
        {d : ℕ} {marks : List ℕ} (currid : Value) (lvalue isslot : Bool)
        → Grows d d marks (assignment w self currid lvalue isslot)
    unfolding assignment
    grows-assignment currid lvalue isslot = do
      grows-if lvalue (grows-pure _) (grows-err w _)
      grows-if isslot (grows-gen_op _) (grows-pure _)
      grows-self _ _
      grows-if isslot (do grows-gen_op _; grows-gen_lit _)
          (do found ← grows-lookup currid; grows-gen_variable _ _ currid found)

    grows-element : {d : ℕ} {marks : List ℕ} → Grows d d marks (element w self)
    unfolding element
    grows-element = do
      grows-gen_op _
      grows-gen_op _
      grows-curpos λ position. do
        grows-gen _
        grows-gen_op _
        grows-gen_op _
        grows-gen _
        grows-self _ _
        grows-gen_op _
        grows-gen _
        grows-expect _ _
        store ← grows-accept _
        grows-if store
            (do
              grows-patch_mark position _ here
              grows-self _ _
              grows-gen_op _
              grows-gen _
              grows-apply_global _
              grows-pure _)
            (do grows-apply_global _; grows-pure _)

    grows-load_lvalue :
        {d : ℕ} {marks : List ℕ} (currid : Value) (lvalue isslot : Bool)
        → Grows d d marks (load_lvalue w self currid lvalue isslot)
    unfolding load_lvalue
    grows-load_lvalue currid lvalue isslot =
        grows-if lvalue
          (grows-if isslot (do grows-gen_op _; grows-gen_lit _) (grows-compile_varref currid))
          (grows-pure _)

    grows-applic_parse :
        {d : ℕ} {marks : List ℕ} (n : ℕ) (currid : Value) (lvalue isslot : Bool)
        → Grows d d marks (applic_parse w self n currid lvalue isslot)
    unfolding applic_parse
    grows-applic_parse zero currid lvalue isslot = grows-no_rounds
    grows-applic_parse (suc n) currid lvalue isslot = do
      call ← grows-accept _
      grows-if call (do grows-funcall n _ _ _; grows-applic_parse n _ _ _)
          (do
            assign ← grows-accept _
            grows-if assign (grows-assignment _ _ _) (do
              grows-load_lvalue _ _ _
              index ← grows-accept _
              grows-if index
                  (do
                    stored ← grows-element
                    grows-if stored (grows-pure _) (grows-applic_parse n _ _ _))
                  (do
                    dot ← grows-accept _
                    grows-if dot (do id ← grows-expect_ident _; grows-applic_parse n _ _ _)
                        (do
                          colon ← grows-accept _
                          grows-if colon
                              (do grows-compile_methodreference n _; grows-applic_parse n _ _ _)
                              (grows-pure _)))))

    grows-vector_loop :
        {d : ℕ} {marks : List ℕ} (n veclen : ℕ) → Grows d d marks (vector_loop w self n veclen)
    unfolding vector_loop
    grows-vector_loop zero veclen = grows-no_rounds
    grows-vector_loop (suc n) veclen = do
      grows-self _ _
      grows-gen_op _
      closed ← grows-accept _
      grows-if closed (grows-pure _) (do grows-expect _ _; grows-vector_loop n _)

    grows-vector_parse : {d : ℕ} {marks : List ℕ} (n : ℕ) → Grows d d marks (vector_parse w self n)
    unfolding vector_parse
    grows-vector_parse n = do
      empty ← grows-accept _
      grows-if empty (do grows-gen_op _; v ← grows-lift _; grows-gen_lit _)
          (do veclen ← grows-vector_loop n _; grows-gen_op _; grows-gen _)
      grows-applic_parse n _ _ _

    grows-as_parse : {d : ℕ} {marks : List ℕ} (n : ℕ) → Grows d d marks (as_parse w self n)
    unfolding as_parse
    grows-as_parse n = do
      grows-expect _ _
      grows-self _ _
      grows-expect _ _
      grows-expect _ _
      grows-compile_methodreference n _
      grows-applic_parse n _ _ _

    grows-id_parse : {d : ℕ} {marks : List ℕ} (n : ℕ) → Grows d d marks (id_parse w self n)
    unfolding id_parse
    grows-id_parse n = do
      paren ← grows-accept _
      grows-if paren (do grows-self _ _; grows-expect _ _; grows-applic_parse n _ _ _)
          (do
            named ← grows-check w ident
            grows-if named (do currid ← grows-yylval; grows-drop w; grows-applic_parse n _ _ _)
                (do
                  typecast ← grows-accept _
                  grows-if typecast (grows-as_parse n) (do
                    extra ← grows-accept _
                    grows-if extra (grows-pure _) (do grows-drop w; grows-err w _))))

    pub grows-constant_parse :
        {d : ℕ} {marks : List ℕ} (n : ℕ) → Grows d d marks (constant_parse w self n)
    unfolding constant_parse
    grows-constant_parse zero = grows-no_rounds
    grows-constant_parse (suc n) = do
      lit ← grows-check w literal
      grows-if lit (do grows-gen_op _; v ← grows-yylval; grows-gen_lit _; grows-drop w)
          (do
            this ← grows-check w k_this
            grows-if this (do grows-gen_op _; grows-drop w; grows-applic_parse n _ _ _)
                (do
                  vec ← grows-accept _
                  grows-if vec (grows-vector_parse n) (do
                    not_op ← grows-accept _
                    grows-if not_op (do grows-constant_parse n; grows-gen_op _)
                        (do
                          bnot_op ← grows-accept _
                          grows-if bnot_op (do grows-constant_parse n; grows-gen_op _)
                              (do
                                neg_op ← grows-accept _
                                grows-if neg_op (do grows-constant_parse n; grows-gen_op _)
                                    (grows-id_parse n))))))
