-- ===== src/Scanner/Stream.antt =====
-- The character stream behind a ScanInst, and the tests of <ctype.h> in the C locale. A character is
-- its byte, EOF is `none`.
use move.Base.{
  ℕ, ◌+◌, ◌-◌, Bool, false, Option, none, some, List, [], ◌∷◌, ◌==◌, leb, ◌&&◌, ◌||◌, if◌then◌else◌,
}
use move.Value.{Value}
use move.Buffer.{Buffer, buf_append}

-- `stream` is what the getter of a string connection has left; behind it comes EOF.
pub record ScanInst : Type 0 where
  pub stream : List ℕ
  pub cache : Option ℕ
  pub linenum : ℕ
  pub yylval : Value

abbrev pub getter : ScanInst → Option ℕ × ScanInst
getter si = elim si.stream [ [] ↦ (none, si) | c ∷ cs ↦ (some c, record si { stream = cs }) ]

abbrev pub is_char : ℕ → Option ℕ → Bool
is_char c none = false
is_char c (some d) = d == c

abbrev pub fill_cache : ScanInst → ScanInst
fill_cache si = elim si.cache [
  | some c ↦ si
  | none ↦ let (c, si') = getter si in record si' { cache = c }
]

abbrev pub newline : ScanInst → ScanInst
newline si = if is_char b'\r' si.cache then record si { cache = some b'\n' } else si

abbrev pub count_line : ScanInst → ScanInst
count_line si = if is_char b'\n' si.cache then record si { linenum = si.linenum + 1 } else si

unfoldable pub scan_peek : ScanInst → Option ℕ × ScanInst
scan_peek si = let si' = count_line (newline (fill_cache si)) in (si'.cache, si')

unfoldable pub scan_drop : ScanInst → ScanInst
scan_drop si = elim si.cache [
  | some c ↦ record si { cache = none }
  | none ↦ let (c, si') = getter si in record si' { cache = none }
]

abbrev pub scan_insert : Buffer → ℕ → Buffer
scan_insert buf ch = buf_append buf ch

unfoldable pub scan_shift : ScanInst → Buffer → ScanInst × Buffer
scan_shift si buf =
    let (ch, si') = scan_peek si in
    elim ch [ none ↦ (si', buf) | some c ↦ (scan_drop si', scan_insert buf c) ]

abbrev pub isspace : ℕ → Bool
isspace c = (leb 9 c && leb c 13) || (c == b' ')

abbrev pub isdigit : ℕ → Bool
isdigit c = leb b'0' c && leb c b'9'

abbrev pub toupper : ℕ → ℕ
toupper c = if leb b'a' c && leb c b'z' then c - 32 else c
