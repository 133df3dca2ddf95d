-- ===== src/Scanner/Start.antt =====
-- The start state: white space, and the words that follow it.
use move.Base.{
  ℕ, ◌+◌, ◌≤◌, ◌≡◌, refl, Bool, true, false, not, List, [], ◌∷◌, ◌++◌, length, All, ◌==◌, ◌&&◌,
  if◌then◌else◌, arith,
}
use move.Heap.{Heap}
use move.Buffer.{newbuf}
use move.Buffer.Append.{Holds}
use move.Scanner.Stream.{ScanInst, scan_drop, isspace, isdigit}
use move.Scanner.Words.{is_delim}
use move.Scanner.{
  st_start, st_id, Locals, first_locals, Lexeme, word, go, scan_state, scan_start, scan_punctuation,
  scan, emit_lexeme, emit_word,
}
use move.Scanner.Input.{input, peek-cons, drop-cons}
use move.Scanner.Loop.{Lexes, Lexes-more, Lexes-go}
use move.Scanner.Word.{ends_word, IsWord, id-Lexes}

-- What the start state sets the local variables to.
abbrev pub reset : Locals → Locals
reset l = record l { num = 0; negative = false; radix = 10; quoted = false }

pub skip-spaces :
    {fuel : ℕ} {cs rest : List ℕ} {lexeme : Lexeme} (spaces : List ℕ)
    → All (λ c. isspace c ≡ true) spaces
    → ((l : Locals) → Holds l.buf [] → Lexes fuel st_start l cs lexeme rest)
    → (l : Locals) → Holds l.buf []
    → Lexes (length spaces + fuel) st_start l (spaces ++ cs) lexeme rest
unfolding scan_state scan_start
skip-spaces [] all later l holds = Lexes-more st_start l (omega arith) (later l holds)
skip-spaces (c ∷ spaces) (space, all) later l holds = Lexes-more st_start l (omega arith) (
    Lexes-go st_start l
      (λ n si enough is.
        let (si₁, peek, is₁) = peek-cons si is in
        (scan_drop si₁, rw (scan_start, peek, space, peek) refl, drop-cons si₁ is₁))
      (skip-spaces spaces all later (reset l) holds))

-- `c` is the first character of a word.
abbrev pub starts_word : ℕ → Bool
starts_word c = not (ends_word c) && (not (isdigit c) && (not (c == b'/') && not (c == b'-')))

-- What stands in front of the word: a quote sign, or nothing in front of a character that starts one.
abbrev pub lead : Bool → List ℕ → List ℕ
lead quoted w = if quoted then b'#' ∷ w else w

abbrev pub Leads : Bool → List ℕ → Type 0
Leads true w = Unit
Leads false [] = ⊥
Leads false (c ∷ w) = starts_word c ≡ true

no_mark :
    (c : ℕ)
    → is_delim c ≡ false
    → ((c == b'"') ≡ false) × ((c == b'#') ≡ false) × ((c == b'!') ≡ false)
unfolding is_delim
no_mark c e = (ground (arith, e), ground (arith, e), ground (arith, e))

started :
    (c : ℕ)
    → starts_word c ≡ true
    → (isspace c ≡ false)
      × (isdigit c ≡ false)
      × ((c == b'/') ≡ false)
      × ((c == b'-') ≡ false)
      × (is_delim c ≡ false)
started c e =
    (ground (arith, e), ground (arith, e), ground (arith, e), ground (arith, e), ground (arith, e))

enter_word :
    (c : ℕ) (w : List ℕ) (l : Locals)
    → starts_word c ≡ true
    → (n : ℕ) (si : ScanInst) → input si ≡ c ∷ w
    → (si' : ScanInst) × (scan_state n st_start l si ≡ go st_id (reset l) si') × (input si' ≡ c ∷ w)
unfolding scan_state scan_start scan_punctuation
enter_word c w l starts n si is =
    let (si₁, peek, is₁) = peek-cons si is in
    let (space, digit, slash, minus, delim) = started c starts in
    let (quote, hash, bang) = no_mark c delim in
    (
      si₁,
      rw (scan_start, peek, space, digit, slash, minus, quote, hash, bang, delim, peek) refl,
      is₁,
    )

enter_quoted :
    (w : List ℕ) (l : Locals) (n : ℕ) (si : ScanInst)
    → input si ≡ b'#' ∷ w
    → (si' : ScanInst) × (scan_state n st_start l si
        ≡ go st_id (record (reset l) { quoted = true }) si')
      × (input si' ≡ w)
unfolding scan_state scan_start scan_punctuation
enter_quoted w l n si is =
    let (si₁, peek, is₁) = peek-cons si is in
    (scan_drop si₁, rw (scan_start, peek, peek) refl, drop-cons si₁ is₁)

word-Lexes :
    (quoted : Bool) (w : List ℕ) (c : ℕ) (rest : List ℕ)
    → Leads quoted w
    → IsWord w
    → ends_word c ≡ true
    → (l : Locals) → Holds l.buf []
    → Lexes (2 + length w) st_start l (lead quoted (w ++ (c ∷ rest))) (word quoted w) (c ∷ rest)
word-Lexes true w c rest leads inside ends l holds = Lexes-more st_start l (omega arith) (
    Lexes-go st_start l (λ n si enough is. enter_quoted (w ++ (c ∷ rest)) l n si is)
      (id-Lexes w (record (reset l) { quoted = true }) [] c rest inside ends tt holds))
word-Lexes false [] c rest leads inside ends l holds = absurd leads
word-Lexes false (d ∷ w) c rest leads inside ends l holds = Lexes-more st_start l (omega arith) (
    Lexes-go st_start l (λ n si enough is. enter_word d (w ++ (c ∷ rest)) l leads n si is)
      (id-Lexes (d ∷ w) (reset l) [] c rest inside ends tt holds))

pub empty-Holds : Holds (newbuf 0) []
unfolding newbuf
empty-Holds = record { written = refl; bounded = omega arith }

-- With white space, a word and a character that ends it to come, the word led in by a `#` or by a
-- character that starts a word, scan goes on to the tests of the word as a C string within as many
-- rounds as there are characters and two more, and leaves the character that ends it to come.
pub scan-word :
    (spaces w : List ℕ) (quoted : Bool) (c : ℕ) (rest : List ℕ) (si : ScanInst) (n : ℕ) (h : Heap)
    → All (λ d. isspace d ≡ true) spaces
    → Leads quoted w
    → IsWord w
    → ends_word c ≡ true
    → input si ≡ spaces ++ lead quoted (w ++ (c ∷ rest))
    → length spaces + (2 + length w) ≤ n
    → (si' : ScanInst) × (scan n si h ≡ emit_word quoted w si' h) × (input si' ≡ c ∷ rest)
unfolding scan emit_lexeme
scan-word spaces w quoted c rest si n h all leads inside ends is enough =
    let (si', lexed, is') =
      skip-spaces spaces all (word-Lexes quoted w c rest leads inside ends) first_locals empty-Holds
        n si enough is in
    (si', rw lexed refl, is')
