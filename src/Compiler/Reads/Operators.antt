-- ===== src/Compiler/Reads/Operators.antt =====
-- What the tests for an operator find in front of tokens that are known.
use Prim.Native.String.{String}
use move.Base.{
  ℕ, zero, suc, ◌≤◌, ◌<◌, ◌≡◌, refl, sym, ◌∙◌, inl, inr, Bool, true, false, Bool-cases, Option,
  none, some, List, [], ◌∷◌, ◌==◌, ◌&&◌, if◌then◌else◌, arith,
}
use move.Heap.{Heap}
use move.Scanner.{ident}
use move.Vm.Bytecode.{Op, op_minus}
use move.Compiler.Code.{Comp}
use move.Compiler.Tokens.{Limits, chkop}
use move.Compiler.Operators.{one_of, mul_ops, add_ops, band_ops, bor_ops, eq_ops}
use move.Compiler.Reads.{Token, Look, peeked, Reads, Reads-bind, Reads-pure, Reads-result}
use move.Compiler.Reads.Tokens.{Next, now, Reads-check, Reads-chkop-ident, Reads-chkop_no}
use move.Compiler.Grammar.{
  Name, star, slash, percent, plus, ampersand, bar, equal, unequal, greater, less, at_least,
  at_most, text, level, code, rank, Names, Operator, named, dash, operation, token,
}

-- The operators that a chain of tests looks for.
abbrev entries : List Name → List (String × Op)
entries [] = []
entries (o ∷ os) = (text o, code o) ∷ entries os

abbrev pick : Name → List Name → Option Op
pick p [] = none
pick p (o ∷ os) = if rank p == rank o then some (code o) else pick p os

-- A token behind an expression whose operators bind more tightly than `k`: an operator that binds more
-- loosely, or no operator.
pub data Follows {h : Heap} (names : Names h) (k : ℕ) : Token → Type 0 where
  name : (p : Name) → k ≤ level p → Follows names k (ident, some (names.symbol p))
  minus : k ≤ 1 → Follows names k (b'-', none)
  stop : {t : Token} → (ident == t.0) ≡ false → (b'-' == t.0) ≡ false → Follows names k t

-- The tests of a level.
abbrev pub ops_at : Limits → ℕ → Comp (Option Op)
ops_at w zero = mul_ops w
ops_at w (suc zero) = add_ops w
ops_at w (suc (suc zero)) = band_ops w
ops_at w (suc (suc (suc zero))) = bor_ops w
ops_at w (suc (suc (suc (suc k)))) = eq_ops w

abbrev names_at : ℕ → List Name
names_at zero = star ∷ slash ∷ percent ∷ []
names_at (suc zero) = plus ∷ []
names_at (suc (suc zero)) = ampersand ∷ []
names_at (suc (suc (suc zero))) = bar ∷ []
names_at (suc (suc (suc (suc k)))) = equal ∷ unequal ∷ greater ∷ less ∷ at_least ∷ at_most ∷ []

-- A level finds its operators and no others.
pick-names_at :
    (k : ℕ)
    → k < 5
    → (p : Name) → pick p (names_at k) ≡ (if level p == k then some (code p) else none)
pick-names_at zero lt star = refl
pick-names_at zero lt _ = refl
pick-names_at (suc zero) lt star = refl
pick-names_at (suc zero) lt _ = refl
pick-names_at (suc (suc zero)) lt star = refl
pick-names_at (suc (suc zero)) lt _ = refl
pick-names_at (suc (suc (suc zero))) lt star = refl
pick-names_at (suc (suc (suc zero))) lt _ = refl
pick-names_at (suc (suc (suc (suc zero)))) lt star = refl
pick-names_at (suc (suc (suc (suc zero)))) lt _ = refl
pick-names_at (suc (suc (suc (suc (suc k))))) lt p = absurd (omega (arith, lt))

level_is : (a k : ℕ) → a ≡ k → (a == k) ≡ true
level_is a k e = ground arith

level_above : (a k : ℕ) → suc k ≤ a → (a == k) ≡ false
level_above a k le = ground arith

level_below : (k : ℕ) → suc k ≤ 1 → (k == 1) ≡ false
level_below k le = ground arith

neither : (b : Bool) → (if b && false then some op_minus else none) ≡ none
neither true = refl
neither false = refl

four_more : (k : ℕ) → (suc (suc (suc (suc k))) == 1) ≡ false
four_more k = ground arith

module _ (w : Limits) {h : Heap} (names : Names h) {ts : List Token} {l : Look} where
  Reads-chkop_name :
      (p o : Name)
      → Next (ident, some (names.symbol p)) ts l
      → Reads w.rounds h l
          (peeked (ident, some (names.symbol p)) ts)
          (chkop w (text o))
          (rank p == rank o)
          []
  Reads-chkop_name p o next =
      rw (sym (names.distinct p o))
        (Reads-chkop-ident w (text o) (names.symbol o) (names.known o) (names.symbol p) next)

module _ (w : Limits) {h : Heap} (names : Names h) {ts : List Token} where
  Reads-one_of_name :
      (p : Name) (os : List Name) {l : Look}
      → Next (ident, some (names.symbol p)) ts l
      → Reads w.rounds h
          (peeked (ident, some (names.symbol p)) ts)
          (peeked (ident, some (names.symbol p)) ts)
          (one_of w (entries os))
          (pick p os)
          []
  unfolding one_of
  Reads-one_of_name p [] next = Reads-pure none
  Reads-one_of_name p (o ∷ os) next = elim (Bool-cases (rank p == rank o)) [
    | inl e ↦ Reads-bind _ (Reads-chkop_name w names p o now) (rw e (Reads-pure _))
    | inr e ↦ Reads-bind _ (Reads-chkop_name w names p o now) (rw e (Reads-one_of_name p os now))
  ]

  Reads-one_of_other :
      (t : Token)
      → (ident == t.0) ≡ false
      → (os : List Name)
      → Reads w.rounds h (peeked t ts) (peeked t ts) (one_of w (entries os)) none []
  unfolding one_of
  Reads-one_of_other t other [] = Reads-pure none
  Reads-one_of_other t other (o ∷ os) =
      Reads-bind _ (Reads-chkop_no w (text o) t other now) (Reads-one_of_other t other os)

  Reads-first_name :
      (p o : Name) (os : List Name) {l : Look}
      → Next (ident, some (names.symbol p)) ts l
      → Reads w.rounds h l
          (peeked (ident, some (names.symbol p)) ts)
          (one_of w (entries (o ∷ os)))
          (pick p (o ∷ os))
          []
  unfolding one_of
  Reads-first_name p o os next = elim (Bool-cases (rank p == rank o)) [
    | inl e ↦ Reads-bind _ (Reads-chkop_name w names p o next) (rw e (Reads-pure _))
    | inr e ↦ Reads-bind _ (Reads-chkop_name w names p o next) (rw e (Reads-one_of_name p os now))
  ]

  Reads-first_other :
      (t : Token)
      → (ident == t.0) ≡ false
      → (o : Name) (os : List Name) {l : Look} → Next t ts l
      → Reads w.rounds h l (peeked t ts) (one_of w (entries (o ∷ os))) none []
  unfolding one_of
  Reads-first_other t other o os next =
      Reads-bind _ (Reads-chkop_no w (text o) t other next) (Reads-one_of_other t other os)

  Reads-add_name :
      (p : Name) {l : Look}
      → Next (ident, some (names.symbol p)) ts l
      → Reads w.rounds h l
          (peeked (ident, some (names.symbol p)) ts)
          (add_ops w)
          (pick p (plus ∷ []))
          []
  unfolding add_ops
  Reads-add_name p next = elim (Bool-cases (rank p == rank plus)) [
    | inl e ↦ Reads-bind _ (Reads-chkop_name w names p plus next) (rw e (Reads-pure _))
    | inr e ↦
        Reads-bind _ (Reads-chkop_name w names p plus next)
          (rw e (Reads-bind _ (Reads-check w b'-' now) (Reads-pure none)))
  ]

  Reads-add_other :
      (t : Token)
      → (ident == t.0) ≡ false
      → {l : Look} → Next t ts l
      → Reads w.rounds h l
          (peeked t ts)
          (add_ops w)
          (if b'-' == t.0 then some op_minus else none)
          []
  unfolding add_ops
  Reads-add_other t other next = elim (Bool-cases (b'-' == t.0)) [
    | inl e ↦
        Reads-bind _ (Reads-chkop_no w "+" t other next)
          (Reads-bind _ (Reads-check w b'-' now) (rw e (Reads-pure _)))
    | inr e ↦
        Reads-bind _ (Reads-chkop_no w "+" t other next)
          (Reads-bind _ (Reads-check w b'-' now) (rw e (Reads-pure _)))
  ]

  Reads-name :
      (k : ℕ)
      → k < 5
      → (p : Name) {l : Look} → Next (ident, some (names.symbol p)) ts l
      → Reads w.rounds h l
          (peeked (ident, some (names.symbol p)) ts)
          (ops_at w k)
          (pick p (names_at k))
          []
  unfolding mul_ops band_ops bor_ops eq_ops
  Reads-name zero lt p next = Reads-first_name p star (slash ∷ percent ∷ []) next
  Reads-name (suc zero) lt p next = Reads-add_name p next
  Reads-name (suc (suc zero)) lt p next = Reads-first_name p ampersand [] next
  Reads-name (suc (suc (suc zero))) lt p next = Reads-first_name p bar [] next
  Reads-name (suc (suc (suc (suc k)))) lt p next =
      Reads-first_name p equal (unequal ∷ greater ∷ less ∷ at_least ∷ at_most ∷ []) next

  Reads-other :
      (k : ℕ) (t : Token)
      → (ident == t.0) ≡ false
      → {l : Look} → Next t ts l
      → Reads w.rounds h l
          (peeked t ts)
          (ops_at w k)
          (if (k == 1) && (b'-' == t.0) then some op_minus else none)
          []
  unfolding mul_ops band_ops bor_ops eq_ops
  Reads-other zero t other next = Reads-first_other t other star (slash ∷ percent ∷ []) next
  Reads-other (suc zero) t other next = Reads-add_other t other next
  Reads-other (suc (suc zero)) t other next = Reads-first_other t other ampersand [] next
  Reads-other (suc (suc (suc zero))) t other next = Reads-first_other t other bar [] next
  Reads-other (suc (suc (suc (suc k)))) t other next =
      rw (four_more k)
        (Reads-first_other t other equal (unequal ∷ greater ∷ less ∷ at_least ∷ at_most ∷ []) next)

  -- A level finds an operator of its own.
  pub Reads-op :
      (k : ℕ)
      → k < 5
      → (op : Operator k) {l : Look} → Next (token names op) ts l
      → Reads w.rounds h l (peeked (token names op) ts) (ops_at w k) (some (operation op)) []
  Reads-op k lt (named o e) next =
      Reads-result (pick-names_at k lt o ∙ rw (level_is (level o) k e) refl)
        (Reads-name k lt o next)
  Reads-op k lt (dash e) next =
      Reads-result (rw (level_is k 1 e) refl) (Reads-other k (b'-', none) refl next)

  -- A level finds none in front of a token that follows its expressions.
  pub Reads-no_op :
      (k : ℕ)
      → k < 5
      → {t : Token} → Follows names (suc k) t
      → {l : Look} → Next t ts l
      → Reads w.rounds h l (peeked t ts) (ops_at w k) none []
  Reads-no_op k lt (name p le) next =
      Reads-result (pick-names_at k lt p ∙ rw (level_above (level p) k le) refl)
        (Reads-name k lt p next)
  Reads-no_op k lt (minus le) next =
      Reads-result (rw (level_below k le) refl) (Reads-other k (b'-', none) refl next)
  Reads-no_op k lt (stop {t = t} no_ident no_dash) next =
      Reads-result (rw no_dash (neither (k == 1))) (Reads-other k t no_ident next)
