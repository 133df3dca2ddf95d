-- ===== src/Compiler/Growth/Blocks.antt =====
-- The proof that a function of the compiler keeps what was there is a block that follows its body.
use move.Base.{ℕ, List}
use move.Compiler.Code.{Comp, ◌>>=◌ as bind, ◌>>◌ as then}
use move.Compiler.Growth.{Grows, grows-bind, grows-then}

module _ {A B : Type 0} {d d' d'' : ℕ} {marks : List ℕ} where
  infixl 5 ◌>>=◌ ◌>>◌
  pub ◌>>=◌ :
      {m : Comp A} {f : A → Comp B}
      → Grows d d' marks m
      → ((a : A) → Grows d' d'' marks (f a))
      → Grows d d'' marks (bind m f)
  ◌>>=◌ = grows-bind

  pub ◌>>◌ :
      {m : Comp A} {f : Comp B}
      → Grows d d' marks m
      → Grows d' d'' marks f
      → Grows d d'' marks (then m f)
  ◌>>◌ = grows-then
