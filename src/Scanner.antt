-- ===== src/Scanner.antt =====
-- The scanner of move/scanner.c: it turns the characters of a string connection into the tokens of
-- the MOVE language. The loop over the states is on fuel.
pub mod Stream
pub mod Words
pub mod Input
pub mod Loop
pub mod Word
pub mod Start
pub mod Number
pub mod Numeral
pub mod Escape
pub mod Quoted
pub mod Text
pub mod Comment
pub mod Progress
pub mod Fuel
use move.Base.{
  ℕ, zero, suc, ◌+◌, ◌-◌, ◌*◌, Bool, true, false, not, Option, none, some, List, [], ◌∷◌, ◌==◌, leb,
  ltb, ◌&&◌, ◌||◌, if◌then◌else◌, pos, neg_ℤ,
}
use move.Value.{Value, null, undefined, move_true, move_false, mknum}
use move.Heap.{Cmd, pure, stop, no_fuel, ◌>>=◌}
use move.Alloc.{newstring}
use move.Symbols.{newsym}
use move.Text.{codes}
use move.Buffer.{Buffer, newbuf}
use move.Scanner.Words.{c_string, compile_string_ext_rep, strcmp_eq, keyword, is_delim}
use move.Scanner.Stream.{
  ScanInst, scan_peek, scan_drop, scan_insert, scan_shift, isspace, isdigit, toupper,
}

abbrev pub scan_eof : ℕ
scan_eof = 0

abbrev pub literal : ℕ
literal = 256

abbrev pub ident : ℕ
ident = 257

pub data ScanState : Type 0 where
  st_start : ScanState
  st_id : ScanState
  st_number : ScanState
  st_string : ScanState

-- The local variables of scan.
pub record Locals : Type 0 where
  pub buf : Buffer
  pub num : ℕ
  pub radix : ℕ
  pub negative : Bool
  pub quoted : Bool

-- Which EMIT is reached, with the value that it is reached with.
pub data Lexeme : Type 0 where
  plain : ℕ → Lexeme
  word : (quoted : Bool) (str : List ℕ) → Lexeme
  number : (negative : Bool) (num : ℕ) → Lexeme
  text : List ℕ → Lexeme
  undefined_behaviour : Lexeme
  lost_fuel : Lexeme

-- `continue` in the next state, or the end of scan.
pub data Step : Type 0 where
  go : ScanState → Locals → ScanInst → Step
  emit : Lexeme → ScanInst → Step

-- do SCAN_DROP(); while (SCAN_PEEK() != '\n');
unfoldable pub skip_comment : ℕ → ScanInst → Option ScanInst
skip_comment zero si = none
skip_comment (suc n) si =
    let (ch, si') = scan_peek (scan_drop si) in
    let rest = skip_comment n si' in
    elim ch [ none ↦ rest | some c ↦ if c == b'\n' then some si' else rest ]

abbrev pub is_digit : Option ℕ → Bool
is_digit none = false
is_digit (some c) = isdigit c

abbrev pub equals : ℕ → Option ℕ → Bool
equals c none = false
equals c (some d) = d == c

-- The `switch (ch)` of the start state and what follows it.
unfoldable pub scan_punctuation : ℕ → ℕ → Locals → ScanInst → Step
scan_punctuation n ch l si =
    let (next, si') = scan_peek (scan_drop si) in
    if ch == b'/'
    then if equals b'/' next
      then elim (skip_comment n si') [ none ↦ emit lost_fuel si' | some si'' ↦ go st_start l si'' ]
      else go st_id (record l { buf = scan_insert l.buf b'/' }) si'
    else if ch == b'-'
    then if is_digit next
      then go st_number (record l { negative = true }) si'
      else emit (plain b'-') si'
    else if ch == b'"'
    then go st_string l (scan_drop si)
    else if ch == b'#'
    then go st_id (record l { quoted = true }) (scan_drop si)
    else if ch == b'!'
    then if equals b'=' next
      then go st_id (record l { buf = scan_insert l.buf b'!' }) si'
      else emit (plain b'!') si'
    else if is_delim ch
    then emit (plain ch) (scan_drop si)
    else go st_id l si

-- case ST_START
unfoldable pub scan_start : ℕ → Locals → ScanInst → Step
scan_start n locals si =
    let l = record locals { num = 0; negative = false; radix = 10; quoted = false } in
    let (ch, si') = scan_peek si in
    elim ch [
      | none ↦ emit (plain scan_eof) si'
      | some c ↦
          if isspace c
          then go st_start l (scan_drop si')
          else if isdigit c
          then go st_number l si'
          else scan_punctuation n c l si'
    ]

-- SCAN_SHIFT(); GO(st)
abbrev pub shift_to : ScanState → Locals → ScanInst → Step
shift_to st l si = let (si', buf) = scan_shift si l.buf in go st (record l { buf = buf }) si'

-- case ST_ID, up to the first strcmp.
unfoldable pub scan_id : Locals → ScanInst → Step
scan_id l si =
    let (ch, si') = scan_peek si in
    elim ch [
      | none ↦ emit (plain scan_eof) si'
      | some c ↦
          if not (isspace c) && not (is_delim c)
          then shift_to st_id l si'
          else let buf = scan_insert l.buf 0 in
            elim (c_string buf.buf) [
              | none ↦ emit undefined_behaviour si'
              | some str ↦ emit (word l.quoted str) si'
            ]
    ]

-- A `long` overflows at 2^63.
abbrev pub long_limit : ℕ
long_limit = 0x8000_0000_0000_0000

-- num *= radix; num += digit
abbrev pub add_digit : ℕ → Locals → ScanInst → Step
add_digit digit l si =
    let num = l.num * l.radix + digit in
    if ltb num long_limit
    then go st_number (record l { num = num }) si
    else emit undefined_behaviour si

-- case ST_NUMBER
unfoldable pub scan_number : Locals → ScanInst → Step
scan_number l si =
    let (ch, si') = scan_peek si in
    elim ch [
      | none ↦ emit (number l.negative l.num) si'
      | some c ↦
          let up = toupper c in
          if isdigit up || (leb b'A' up && leb up b'F')
          then add_digit (if leb b'A' up then up - b'A' + 10 else up - b'0') l (scan_drop si')
          else if up == b'X'
          then go st_number (record l { radix = 16 }) (scan_drop si')
          else emit (number l.negative l.num) si'
    ]

-- while (isspace(ch = SCAN_PEEK())) SCAN_DROP();
unfoldable pub skip_space : ℕ → ScanInst → Option (Option ℕ × ScanInst)
skip_space zero si = none
skip_space (suc n) si =
    let (ch, si') = scan_peek si in
    let rest = skip_space n (scan_drop si') in
    elim ch [ none ↦ some (none, si') | some c ↦ if isspace c then rest else some (some c, si') ]

-- After a closing quote: another string goes on in the same buffer.
unfoldable pub scan_string_end : ℕ → Locals → ScanInst → Step
scan_string_end n l si = elim (skip_space n si) [
  | none ↦ emit lost_fuel si
  | some (ch, si') ↦
      if equals b'"' ch
      then go st_string l (scan_drop si')
      else elim (c_string (compile_string_ext_rep (scan_insert l.buf 0).buf)) [
        | none ↦ emit undefined_behaviour si'
        | some str ↦ emit (text str) si'
      ]
]

-- case ST_STRING
unfoldable pub scan_string : ℕ → Locals → ScanInst → Step
scan_string n l si =
    let (ch, si') = scan_peek si in
    let (next, si'') = scan_peek (scan_drop si') in
    elim ch [
      | none ↦ emit (plain scan_eof) si'
      | some c ↦
          if c == b'\\'
          then if equals b'"' next
            then shift_to st_string l si''
            else go st_string (record l { buf = scan_insert l.buf b'\\' }) si''
          else if c == b'"'
          then scan_string_end n l (scan_drop si')
          else shift_to st_string l si'
    ]

-- The body of the loop.
unfoldable pub scan_state : ℕ → ScanState → Locals → ScanInst → Step
scan_state n st_start = scan_start n
scan_state n st_id = scan_id
scan_state n st_number = scan_number
scan_state n st_string = scan_string n

-- The loop.
unfoldable pub scan_loop : ℕ → ScanState → Locals → ScanInst → Lexeme × ScanInst
scan_loop zero st l si = (lost_fuel, si)
scan_loop (suc n) st l si = elim (scan_state n st l si) [
  | go st' l' si' ↦ scan_loop n st' l' si'
  | emit lexeme si' ↦ (lexeme, si')
]

abbrev pub first_locals : Locals
first_locals = record { buf = newbuf 0; num = 0; radix = 10; negative = false; quoted = false }

abbrev pub emit_literal : Value → ScanInst → Cmd (ℕ × ScanInst)
emit_literal v si = pure (literal, record si { yylval = v })

-- The tests of ST_ID behind its SCAN_INSERT.
unfoldable pub emit_word : Bool → List ℕ → ScanInst → Cmd (ℕ × ScanInst)
emit_word quoted str si =
    if strcmp_eq str (codes "=")
    then pure (b'=', si)
    else if strcmp_eq str (codes "null")
    then emit_literal null si
    else if strcmp_eq str (codes "undefined")
    then emit_literal undefined si
    else if strcmp_eq str (codes "true")
    then emit_literal move_true si
    else if strcmp_eq str (codes "false")
    then emit_literal move_false si
    else if quoted
    then (do sym ← newsym str; emit_literal sym si)
    else elim (keyword str) [
      | none ↦ (do sym ← newsym str; pure (ident, record si { yylval = sym }))
      | some k ↦ pure (k, si)
    ]

unfoldable pub emit_lexeme : Lexeme → ScanInst → Cmd (ℕ × ScanInst)
emit_lexeme (plain v) si = pure (v, si)
emit_lexeme (word quoted str) si = emit_word quoted str si
emit_lexeme (number negative num) si =
    emit_literal (mknum (if negative then neg_ℤ (pos num) else pos num)) si
emit_lexeme (text str) si = do string ← newstring str; emit_literal string si
emit_lexeme undefined_behaviour si = stop
emit_lexeme lost_fuel si = no_fuel

unfoldable pub scan : ℕ → ScanInst → Cmd (ℕ × ScanInst)
scan n si = let (lexeme, si') = scan_loop n st_start first_locals si in emit_lexeme lexeme si'
