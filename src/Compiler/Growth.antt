-- ===== src/Compiler/Growth.antt =====
-- What the functions of the compiler keep of the state that they are given: rules for the parts that
-- they are put together from.
pub mod Blocks
pub mod Codes
pub mod Steps
pub mod Tokens
pub mod Primary
pub mod Operators
pub mod Definitions
pub mod Expr
use move.Base.{
  ℕ, zero, suc, ◌+◌, ◌%◌, ◌<◌, ◌≤◌, ◌≡◌, refl, sym, ap, ◌∙◌, inl, inr, Bool, true, false, Option,
  none, some, List, [], ◌∷◌, ◌++◌, length, set, take, replicate, leb, ltb, ltb→lt, if◌then◌else◌,
  All, Bool-cases, arith, length-append, length-set, length-replicate,
}
use mathlib.Core.List.{append_assoc, append-nil}
use move.Value.{Value}
use move.Heap.{Run, ok, fault, exit, out_of_fuel, Heap, Cmd, and_then}
use move.Buffer.{Buffer, buflength, grown, buf_append}
use move.Buffer.Append.{take-append}
use move.Compiler.Code.{
  ParseInst, Code, Outcome, done, rejected, Comp, pure, reject, no_rounds, lift, modify, continue,
  ◌>>=◌, ◌>>◌, add_scope, del_scope, add_binding, gen, patch, curpos,
}

-- The result of a run that returns one satisfies `Q`.
abbrev pub Made : {A : Type 0} → (A → Code → Type 0) → Run (Outcome A) → Type 0
Made Q (ok (done a c) h) = Q a c
Made Q (ok (rejected c) h) = Unit
Made Q fault = Unit
Made Q (exit n) = Unit
Made Q out_of_fuel = Unit

-- `s` is what became of the scopes `s₀`, with `d` scopes opened since: the innermost scope of `s₀` may
-- have more variables.
abbrev pub Deep : ℕ → List (List Value) → List (List Value) → Type 0
Deep zero [] s = s ≡ []
Deep zero (f ∷ outer) s = (more : List Value) × (s ≡ (f ++ more) ∷ outer)
Deep (suc d) s₀ s =
    (f : List Value) × (outer : List (List Value)) × (s ≡ f ∷ outer) × Deep d s₀ outer

-- What a function must keep: the bytes in front of `start`, the scopes and the literals.
pub record Kept : Type 0 where
  pub start : ℕ
  pub bytes : List (Option ℕ)
  pub scope : List (List Value)
  pub littab : List Value

-- The code `c` has it, with `d` scopes opened since. `marks` are positions that were taken since, as
-- long as the code is shorter than 65536 bytes.
pub record Keeps (d : ℕ) (marks : List ℕ) (k : Kept) (c : Code) : Type 0 where
  pub behind : k.start ≤ c.buf.pos
  pub bounded : c.buf.pos ≤ buflength c.buf
  pub same : c.buf.pos < 0x1_0000 → take k.start c.buf.buf ≡ k.bytes
  pub marked : c.buf.pos < 0x1_0000 → All (λ l. k.start ≤ l) marks
  pub scopes : Deep d k.scope c.scope
  pub literals : (more : List Value) × (c.littab ≡ k.littab ++ more)

-- The function keeps it, and leaves `d'` scopes opened.
pub record Grows {A : Type 0} (d d' : ℕ) (marks : List ℕ) (m : Comp A) : Type 0 where
  pub grows :
      (k : Kept) (c : Code) (h : Heap)
      → Keeps d marks k c
      → Made (λ a c'. Keeps d' marks k c' × (c.buf.pos ≤ c'.buf.pos)) (m c h)

pub Made-map :
    {A : Type 0} {Q : A → Code → Type 0} (R : A → Code → Type 0) (r : Run (Outcome A))
    → ((a : A) (c : Code) → Q a c → R a c)
    → Made Q r
    → Made R r
Made-map R (ok (done a c) h) f q = f a c q
Made-map R (ok (rejected c) h) f q = tt
Made-map R fault f q = tt
Made-map R (exit n) f q = tt
Made-map R out_of_fuel f q = tt

Made-continue :
    {A B : Type 0} {Q : A → Code → Type 0} (R : B → Code → Type 0) (r : Run (Outcome A))
    (f : A → Comp B)
    → Made Q r
    → ((a : A) (c : Code) (h : Heap) → Q a c → Made R (f a c h))
    → Made R (and_then r (continue f))
Made-continue R (ok (done a c) h) f q next = next a c h q
Made-continue R (ok (rejected c) h) f q next = tt
Made-continue R fault f q next = tt
Made-continue R (exit n) f q next = tt
Made-continue R out_of_fuel f q next = tt

below : (p n : ℕ) → p ≤ n → n < 0x1_0000 → p ≤ n % 0x1_0000
below p n le lt = omega arith

mark :
    {d : ℕ} {marks : List ℕ} {k : Kept} {c : Code}
    → Keeps d marks k c
    → Keeps d (c.buf.pos % 0x1_0000 ∷ marks) k c
mark {k = k} {c = c} keeps = record {
  behind = keeps.behind;
  bounded = keeps.bounded;
  same = keeps.same;
  marked = λ lt. (below (k.start) (c.buf.pos) keeps.behind lt, keeps.marked lt);
  scopes = keeps.scopes;
  literals = keeps.literals;
}

unmark :
    {d l : ℕ} {marks : List ℕ} {k : Kept} {c : Code} → Keeps d (l ∷ marks) k c → Keeps d marks k c
unmark keeps = record {
  behind = keeps.behind;
  bounded = keeps.bounded;
  same = keeps.same;
  marked = λ lt. (keeps.marked lt).1;
  scopes = keeps.scopes;
  literals = keeps.literals;
}

module _ {A B : Type 0} {d d' d'' : ℕ} {marks : List ℕ} where
  pub grows-bind :
      {m : Comp A} {f : A → Comp B}
      → Grows d d' marks m
      → ((a : A) → Grows d' d'' marks (f a))
      → Grows d d'' marks (m >>= f)
  unfolding ◌>>=◌
  grows-bind {m = m} {f = f} first next = record {
    grows = λ k c h keeps.
        Made-continue _ (m c h) f (first.grows k c h keeps) λ a c' h' (keeps', le).
          Made-map _ (f a c' h') (λ b c'' (keeps'', le'). (keeps'', omega (arith, le, le')))
            ((next a).grows k c' h' keeps');
  }

  pub grows-then :
      {m : Comp A} {f : Comp B}
      → Grows d d' marks m
      → Grows d' d'' marks f
      → Grows d d'' marks (m >> f)
  unfolding ◌>>◌
  grows-then first next = grows-bind first λ _. next

module _ {A : Type 0} {d d' : ℕ} {marks : List ℕ} where
  pub grows-if :
      {x y : Comp A} (b : Bool)
      → Grows d d' marks x
      → Grows d d' marks y
      → Grows d d' marks (if b then x else y)
  grows-if true x y = x
  grows-if false x y = y

  pub grows-reject : Grows {A = A} d d' marks reject
  unfolding reject
  grows-reject = record { grows = λ k c h keeps. tt }

  pub grows-no_rounds : Grows {A = A} d d' marks no_rounds
  unfolding no_rounds
  grows-no_rounds = record { grows = λ k c h keeps. tt }

module _ {A : Type 0} {d : ℕ} {marks : List ℕ} where
  pub grows-pure : (a : A) → Grows d d marks (pure a)
  unfolding pure
  grows-pure a = record { grows = λ k c h keeps. (keeps, omega arith) }

  Made-lift :
      {k : Kept} {c : Code} (r : Run A)
      → Keeps d marks k c
      → Made (λ a c'. Keeps d marks k c' × (c.buf.pos ≤ c'.buf.pos)) (and_then r λ a. ok (done a c))
  Made-lift (ok a h) keeps = (keeps, omega arith)
  Made-lift fault keeps = tt
  Made-lift (exit n) keeps = tt
  Made-lift out_of_fuel keeps = tt

  pub grows-lift : (m : Cmd A) → Grows d d marks (lift m)
  unfolding lift
  grows-lift m = record { grows = λ k c h keeps. Made-lift (m h) keeps }

  -- A position that is taken is a mark from there on.
  pub grows-curpos :
      {d' : ℕ} {f : ℕ → Comp A}
      → ((l : ℕ) → Grows d d' (l ∷ marks) (f l))
      → Grows d d' marks (curpos >>= f)
  unfolding ◌>>=◌ curpos pure
  grows-curpos {f = f} next = record {
    grows = λ k c h keeps.
        let l = c.buf.pos % 0x1_0000 in
        Made-map _ (f l c h) (λ a c' (keeps', le). (unmark keeps', le))
          ((next l).grows k c h (mark keeps));
  }
