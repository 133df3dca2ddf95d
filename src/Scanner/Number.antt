-- ===== src/Scanner/Number.antt =====
-- The number state, and its numerals as sums of powers.
use move.Base.{
  ℕ, suc, ◌+◌, ◌-◌, ◌*◌, ◌^◌, ◌<◌, ◌≤◌, ◌≡◌, refl, Bool, true, false, List, [], ◌∷◌, ◌++◌, length,
  All, ◌==◌, leb, lt→ltb, ◌&&◌, ◌||◌, if◌then◌else◌, arith,
}
use native.Mathlib.Nat.{pow-suc, pow-zero}
use move.Scanner.Stream.{ScanInst, scan_drop, isdigit, toupper}
use move.Scanner.{st_number, Locals, number, go, emit, scan_state, scan_number, long_limit}
use move.Scanner.Input.{input, peek-cons, drop-cons}
use move.Scanner.Loop.{Lexes, Lexes-go, Lexes-emit}

-- `c` is taken for a digit, in any radix.
abbrev pub is_numeral : ℕ → Bool
is_numeral c = isdigit (toupper c) || (leb b'A' (toupper c) && leb (toupper c) b'F')

abbrev pub numeral : ℕ → ℕ
numeral c = if leb b'A' (toupper c) then toupper c - b'A' + 10 else toupper c - b'0'

-- `c` ends a number.
abbrev pub ends_number : ℕ → Bool
ends_number c = if is_numeral c then false else if toupper c == b'X' then false else true

-- The sum of the digits, each times the power of the radix for its place.
unfoldable pub positional : ℕ → List ℕ → ℕ
positional r [] = 0
positional r (c ∷ cs) = numeral c * r ^ length cs + positional r cs

-- What the rounds of the loop make of `num`.
pub horner : ℕ → ℕ → List ℕ → ℕ
horner r a [] = a
horner r a (c ∷ cs) = horner r (a * r + numeral c) cs

pub horner-positional :
    (r a : ℕ) (cs : List ℕ) → horner r a cs ≡ a * r ^ length cs + positional r cs
unfolding horner positional
horner-positional r a [] = rw (pow-zero r) (omega arith)
horner-positional r a (c ∷ cs) =
    rw (horner-positional r (a * r + numeral c) cs, pow-suc r (length cs)) (grind arith)

horner-le : (r a : ℕ) (cs : List ℕ) → 0 < r → a ≤ horner r a cs
unfolding horner
horner-le r a [] positive = omega arith
horner-le r a (c ∷ cs) positive =
    let later = horner-le r (a * r + numeral c) cs positive in grind (arith, later)

module _ (l : Locals) (c : ℕ) (cs : List ℕ) (n : ℕ) (si : ScanInst) (is : input si ≡ c ∷ cs) where
  pub digit_round :
      is_numeral c ≡ true
      → l.num * l.radix + numeral c < long_limit
      → (si' : ScanInst) × (scan_state n st_number l si
          ≡ go st_number (record l { num = l.num * l.radix + numeral c }) si')
        × (input si' ≡ cs)
  unfolding scan_state scan_number
  digit_round numeric small =
      let (si₁, peek, is₁) = peek-cons si is in
      (
        scan_drop si₁,
        rw (scan_number, peek, numeric, lt→ltb (l.num * l.radix + numeral c) long_limit small, peek)
            refl,
        drop-cons si₁ is₁,
      )

  pub radix_round :
      (toupper c == b'X') ≡ true
      → (si' : ScanInst) × (scan_state n st_number l si
          ≡ go st_number (record l { radix = 16 }) si')
        × (input si' ≡ cs)
  unfolding scan_state scan_number
  radix_round x =
      let (si₁, peek, is₁) = peek-cons si is in
      let other : is_numeral c ≡ false = ground (arith, x) in
      (scan_drop si₁, rw (scan_number, peek, other, x, peek) refl, drop-cons si₁ is₁)

  last_round :
      ends_number c ≡ true
      → (si' : ScanInst) × (scan_state n st_number l si ≡ emit (number l.negative l.num) si')
        × (input si' ≡ c ∷ cs)
  unfolding scan_state scan_number
  last_round ends =
      let (si₁, peek, is₁) = peek-cons si is in
      let other : is_numeral c ≡ false = ground (arith, ends) in
      let no_x : (toupper c == b'X') ≡ false = ground (arith, ends) in
      (si₁, rw (scan_number, peek, other, no_x, peek) refl, is₁)

-- The number state reads the digits up to the character that ends the number.
pub number-Lexes :
    (ds : List ℕ) (l : Locals) (c : ℕ) (rest : List ℕ)
    → All (λ d. is_numeral d ≡ true) ds
    → ends_number c ≡ true
    → 0 < l.radix
    → horner l.radix l.num ds < long_limit
    → Lexes
        (suc (length ds))
        st_number
        l
        (ds ++ (c ∷ rest))
        (number l.negative (horner l.radix l.num ds))
        (c ∷ rest)
unfolding horner
number-Lexes [] l c rest all ends positive small =
    Lexes-emit st_number l λ n si enough is. last_round l c rest n si is ends
number-Lexes (d ∷ ds) l c rest (numeric, all) ends positive small =
    let next = l.num * l.radix + numeral d in
    let grows = horner-le l.radix next ds positive in
    Lexes-go st_number l
      (λ n si enough is. digit_round l d (ds ++ (c ∷ rest)) n si is numeric (omega arith))
      (number-Lexes ds (record l { num = next }) c rest all ends positive small)
