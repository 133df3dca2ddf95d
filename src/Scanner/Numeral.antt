-- ===== src/Scanner/Numeral.antt =====
-- Signed numerals in radix 10 and 16.
use move.Base.{
  ℕ, ◌+◌, ◌<◌, ◌≤◌, ◌≡◌, refl, Bool, true, false, List, [], ◌∷◌, ◌++◌, length, All, if◌then◌else◌,
  arith, pos, neg_ℤ,
}
use mathlib.Core.Path.{subst}
use move.Value.{mknum}
use move.Heap.{Heap, ok}
use move.Buffer.Append.{Holds}
use move.Scanner.Stream.{ScanInst, scan_drop, isspace, isdigit}
use move.Scanner.{
  st_start, st_number, Locals, first_locals, number, go, scan_state, scan_start, scan_punctuation,
  scan, emit_lexeme, literal, long_limit,
}
use move.Scanner.Input.{input, peek-cons, drop-cons}
use move.Scanner.Loop.{Lexes, Lexes-more, Lexes-go}
use move.Scanner.Start.{reset, skip-spaces, empty-Holds}
use move.Scanner.Number.{
  is_numeral, ends_number, positional, horner, horner-positional, digit_round, radix_round,
  number-Lexes,
}

abbrev pub sign : Bool → List ℕ → List ℕ
sign minus s = if minus then b'-' ∷ s else s

abbrev pub base : Bool → List ℕ → List ℕ
base hex s = if hex then b'0' ∷ b'x' ∷ s else s

abbrev pub radix_of : Bool → ℕ
radix_of hex = if hex then 16 else 10

-- A decimal numeral starts with a decimal digit.
abbrev pub IsNumeral : Bool → List ℕ → Type 0
IsNumeral true ds = All (λ d. is_numeral d ≡ true) ds
IsNumeral false [] = ⊥
IsNumeral false (d ∷ ds) = (isdigit d ≡ true) × All (λ d. is_numeral d ≡ true) ds

not_space : (d : ℕ) → isdigit d ≡ true → isspace d ≡ false
not_space d e = ground (arith, e)

digit_numeral : (d : ℕ) → isdigit d ≡ true → is_numeral d ≡ true
digit_numeral d e = ground (arith, e)

enter_number :
    (minus : Bool) (d : ℕ) (s : List ℕ) (l : Locals)
    → isdigit d ≡ true
    → (n : ℕ) (si : ScanInst) → input si ≡ sign minus (d ∷ s)
    → (si' : ScanInst) × (scan_state n st_start l si
        ≡ go st_number (record (reset l) { negative = minus }) si')
      × (input si' ≡ d ∷ s)
unfolding scan_state scan_start scan_punctuation
enter_number false d s l digit n si is =
    let (si₁, peek, is₁) = peek-cons si is in
    (si₁, rw (scan_start, peek, not_space d digit, digit, peek) refl, is₁)
enter_number true d s l digit n si is =
    let (si₁, peek, is₁) = peek-cons si is in
    let (si₂, peek₂, is₂) = peek-cons (scan_drop si₁) (drop-cons si₁ is₁) in
    (si₂, rw (scan_start, peek, peek, peek₂, digit) refl, is₂)

base-Lexes :
    (hex : Bool) (ds : List ℕ) (c : ℕ) (rest : List ℕ) (l : Locals) (minus : Bool)
    → IsNumeral hex ds
    → ends_number c ≡ true
    → horner (radix_of hex) 0 ds < long_limit
    → Lexes
        (4 + length ds)
        st_start
        l
        (sign minus (base hex (ds ++ (c ∷ rest))))
        (number minus (horner (radix_of hex) 0 ds))
        (c ∷ rest)
base-Lexes true ds c rest l minus numeric ends small = Lexes-more st_start l (omega arith) (
    Lexes-go st_start l
      (λ n si enough is. enter_number minus b'0' (b'x' ∷ ds ++ (c ∷ rest)) l refl n si is)
      (Lexes-go st_number (record (reset l) { negative = minus })
        (λ n si enough is.
          digit_round (record (reset l) { negative = minus }) b'0' (b'x' ∷ ds ++ (c ∷ rest)) n si is
            refl (omega arith))
        (Lexes-go st_number (record (reset l) { negative = minus })
          (λ n si enough is.
            radix_round (record (reset l) { negative = minus }) b'x' (ds ++ (c ∷ rest)) n si is
              refl)
          (number-Lexes ds (record (reset l) { negative = minus; radix = 16 }) c rest numeric ends
            (omega arith) small))))
base-Lexes false [] c rest l minus numeric ends small = absurd numeric
base-Lexes false (d ∷ ds) c rest l minus (digit, numeric) ends small =
    Lexes-more st_start l (omega arith) (
      Lexes-go st_start l
        (λ n si enough is. enter_number minus d (ds ++ (c ∷ rest)) l digit n si is)
        (number-Lexes (d ∷ ds) (record (reset l) { negative = minus }) c rest
          (digit_numeral d digit, numeric) ends (omega arith) small))

value-Lexes :
    (hex : Bool) (ds : List ℕ) (c : ℕ) (rest : List ℕ) (minus : Bool)
    → IsNumeral hex ds
    → ends_number c ≡ true
    → positional (radix_of hex) ds < long_limit
    → (l : Locals) → Holds l.buf []
    → Lexes
        (4 + length ds)
        st_start
        l
        (sign minus (base hex (ds ++ (c ∷ rest))))
        (number minus (positional (radix_of hex) ds))
        (c ∷ rest)
value-Lexes hex ds c rest minus numeric ends small l holds =
    let value : horner (radix_of hex) 0 ds ≡ positional (radix_of hex) ds =
      omega (arith, horner-positional (radix_of hex) 0 ds) in
    subst
      (λ v.
        Lexes (4 + length ds) st_start l (sign minus (base hex (ds ++ (c ∷ rest)))) (number minus v)
          (c ∷ rest))
      value (base-Lexes hex ds c rest l minus numeric ends (omega (arith, value, small)))

-- With white space, a numeral and a character that ends it to come, scan delivers the literal whose
-- value is the sum of its digits, each times the power of the radix for its place, with the sign: in
-- radix 16 behind `0x`, else in radix 10, provided that the sum is less than 2^63. The fuel that is
-- enough is the number of characters and four more; the character that ends the numeral is left.
pub scan-numeral :
    (spaces ds : List ℕ) (minus hex : Bool) (c : ℕ) (rest : List ℕ) (si : ScanInst) (n : ℕ)
    (h : Heap)
    → All (λ d. isspace d ≡ true) spaces
    → IsNumeral hex ds
    → ends_number c ≡ true
    → positional (radix_of hex) ds < long_limit
    → input si ≡ spaces ++ sign minus (base hex (ds ++ (c ∷ rest)))
    → length spaces + (4 + length ds) ≤ n
    → (si' : ScanInst) × (scan n si h
        ≡ ok
            (
              literal,
              record si' {
                yylval = mknum (
                    if minus
                    then neg_ℤ (pos (positional (radix_of hex) ds))
                    else pos (positional (radix_of hex) ds));
              },
            )
            h)
      × (input si' ≡ c ∷ rest)
unfolding scan emit_lexeme
scan-numeral spaces ds minus hex c rest si n h all numeric ends small is enough =
    let (si', lexed, is') =
      skip-spaces spaces all (value-Lexes hex ds c rest minus numeric ends small) first_locals
        empty-Holds n si enough is in
    (si', rw lexed refl, is')
