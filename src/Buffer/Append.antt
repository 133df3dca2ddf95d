-- ===== src/Buffer/Append.antt =====
-- buf_append adds to the bytes that were written, and never writes out of bounds.
use move.Base.{
  ℕ, zero, suc, ◌<◌, ◌≤◌, ◌≡◌, refl, Option, none, some, List, [], ◌∷◌, ◌++◌, length, set, take,
  replicate, leb, arith, length-append, length-set, length-replicate, map, sym, inl, inr,
  Bool-cases, ◌∙◌, ap,
}
use mathlib.Core.Path.{subst}
use mathlib.Core.List.{append_assoc, append-nil}
use move.Buffer.{Buffer, buflength, grown, buf_append}

-- The bytes `s` were written, and nothing behind the end of the buffer.
pub record Holds (b : Buffer) (s : List ℕ) : Type 0 where
  pub written : take b.pos b.buf ≡ map some s
  pub bounded : b.pos ≤ buflength b

take-set :
    {A : Type 0} (xs : List A) (i : ℕ) (v : A)
    → i < length xs
    → take (suc i) (set xs i v) ≡ take i xs ++ (v ∷ [])
take-set [] i v less = absurd (omega arith)
take-set (x ∷ xs) zero v less = refl
take-set (x ∷ xs) (suc i) v less = ap (λ zs. x ∷ zs) (take-set xs i v (omega arith))

pub take-append :
    {A : Type 0} (xs ys : List A) (i : ℕ) → i ≤ length xs → take i (xs ++ ys) ≡ take i xs
take-append xs ys zero less = refl
take-append [] ys (suc i) less = absurd (omega arith)
take-append (x ∷ xs) ys (suc i) less = ap (λ zs. x ∷ zs) (take-append xs ys i (omega arith))

map-append :
    {A B : Type 0} (f : A → B) (xs : List A) (y : A)
    → map f (xs ++ (y ∷ [])) ≡ map f xs ++ (f y ∷ [])
map-append f [] y = refl
map-append f (x ∷ xs) y = ap (λ zs. f x ∷ zs) (map-append f xs y)

blank_length : length (replicate {A = Option ℕ} 128 none) ≡ 128
blank_length = length-replicate {A = Option ℕ} 128 none

-- After the `if` there is room for one more byte.
grown-Holds :
    (b : Buffer) (s : List ℕ)
    → Holds b s
    → (take b.pos (grown b).buf ≡ map some s) × (b.pos < buflength (grown b))
grown-Holds b s is = elim (Bool-cases (leb (buflength b) b.pos)) [
  | inl full ↦ rw full (
    take-append b.buf (replicate 128 none) b.pos is.bounded ∙ is.written,
    ground (arith, length-append b.buf (replicate 128 none), blank_length, is.bounded),
  )
  | inr room ↦ rw room (is.written, ground (arith, is.bounded))
]

pub append-Holds :
    (b : Buffer) (s : List ℕ) (ch : ℕ) → Holds b s → Holds (buf_append b ch) (s ++ (ch ∷ []))
unfolding buf_append
append-Holds b s ch is =
    let (same, room) = grown-Holds b s is in
    record {
      written =
          take-set (grown b).buf b.pos (some ch) room
          ∙ (ap (λ zs. zs ++ (some ch ∷ [])) same ∙ sym (map-append some s ch));
      bounded = omega (arith, room, length-set (grown b).buf b.pos (some ch));
    }

-- The calls that append the bytes of a list, first to last.
abbrev pub append_all : Buffer → List ℕ → Buffer
append_all b [] = b
append_all b (ch ∷ s) = append_all (buf_append b ch) s

-- Appending bytes to a buffer keeps what was written and adds them behind it in order; from then on
-- too the next free position is in the buffer or at its end, so no byte is written out of bounds.
pub append_all-Holds : (b : Buffer) (s t : List ℕ) → Holds b s → Holds (append_all b t) (s ++ t)
append_all-Holds b s [] is = subst (Holds b) (sym (append-nil s)) is
append_all-Holds b s (ch ∷ t) is =
    subst (Holds (append_all (buf_append b ch) t)) (append_assoc s (ch ∷ []) t)
      (append_all-Holds (buf_append b ch) (s ++ (ch ∷ [])) t (append-Holds b s ch is))
