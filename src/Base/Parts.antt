-- ===== src/Base/Parts.antt =====
-- The parts of a list that take and drop give.
use Prim.Native.Nat.{ℕ, zero, suc, ◌+◌, ◌≤◌}
use mathlib.Core.Path.{◌≡◌, refl, ap, ◌∙◌}
use mathlib.Core.List.{List, [], ◌∷◌, ◌++◌}
use native.Mathlib.Omega.{arith}
use native.Mathlib.Numerals.{unary_clauses}
use move.Base.Lists.{length, take, drop}

suc_sum : (i l : ℕ) → suc (i + l) ≡ suc i + l
suc_sum i l = omega arith

module _ {ℓ} {A : Type ℓ} where
  pub drop-drop : (i l : ℕ) (xs : List A) → drop l (drop i xs) ≡ drop (i + l) xs
  drop-drop zero l xs = ap (λ k. drop k xs) (omega arith)
  drop-drop (suc i) zero [] = simp unary_clauses refl
  drop-drop (suc i) (suc l) [] = simp unary_clauses refl
  drop-drop (suc i) l (x ∷ xs) = drop-drop i l xs ∙ ap (λ k. drop k (x ∷ xs)) (suc_sum i l)

  pub take-drop : (xs : List A) (n : ℕ) → take n xs ++ drop n xs ≡ xs
  take-drop xs zero = refl
  take-drop [] (suc n) = refl
  take-drop (x ∷ xs) (suc n) = ap (λ ys. x ∷ ys) (take-drop xs n)

  pub length-take : (i : ℕ) (xs : List A) → i ≤ length xs → length (take i xs) ≡ i
  length-take zero xs le = refl
  length-take (suc i) [] le = omega arith
  length-take (suc i) (x ∷ xs) le = ap suc (length-take i xs (omega arith))

  pub length-drop : (i n : ℕ) (xs : List A) → i + n ≤ length xs → n ≤ length (drop i xs)
  length-drop zero n xs le = omega (arith, le)
  length-drop (suc i) n [] le = omega arith
  length-drop (suc i) n (x ∷ xs) le = length-drop i n xs (omega arith)
