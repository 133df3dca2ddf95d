-- ===== src/Scanner/Progress.antt =====
-- Each round of the scanner's loop brings it nearer to a token.
use move.Base.{
  ℕ, ◌+◌, ◌*◌, ◌<◌, ◌≤◌, ◌≡◌, ◌≢◌, Bool, true, false, not, Option, none, some, List, [], ◌∷◌,
  length, ◌==◌, ltb, leb, ◌&&◌, ◌||◌, if◌then◌else◌, arith, sym,
}
use mathlib.Core.Path.{subst}
use move.Scanner.Stream.{ScanInst, scan_drop, scan_insert, isspace, isdigit, toupper}
use move.Scanner.Words.{c_string, is_delim}
use move.Scanner.{
  ScanState, st_start, st_id, st_number, st_string, Locals, Lexeme, plain, word,
  undefined_behaviour, lost_fuel, Step, go, emit, scan_state, scan_id, scan_number, shift_to,
  add_digit, long_limit,
}
use move.Scanner.Input.{input, peek-cons, peek-nil, drop-cons}
use move.Scanner.Loop.{shift-cons}

-- Nothing is to come, or its last character is a newline.
abbrev pub EndsLine : List ℕ → Type 0
EndsLine [] = Unit
EndsLine (c ∷ []) = (c == b'\n') ≡ true
EndsLine (c ∷ d ∷ s) = EndsLine (d ∷ s)

pub tail-EndsLine : (c : ℕ) (s : List ℕ) → EndsLine (c ∷ s) → EndsLine s
tail-EndsLine c [] e = tt
tail-EndsLine c (d ∷ s) e = e

-- The rounds that the state and the characters to come can still take.
abbrev pub rounds_left : ScanState → List ℕ → ℕ
rounds_left st_start s = 2 * length s + 1
rounds_left st_id s = 2 * length s
rounds_left st_number s = 2 * length s
rounds_left st_string s = 2 * length s

-- The round ends the loop without having run out of fuel, or leaves fewer rounds than `bound`.
pub data Progress (bound : ℕ) : Step → Type 0 where
  onward :
      {st : ScanState} {l : Locals} {si : ScanInst}
      → EndsLine (input si)
      → rounds_left st (input si) < bound
      → Progress bound (go st l si)
  ended : {lexeme : Lexeme} {si : ScanInst} → lexeme ≢ lost_fuel → Progress bound (emit lexeme si)

pub either :
    {bound : ℕ} {x y : Step} (b : Bool)
    → Progress bound x
    → Progress bound y
    → Progress bound (if b then x else y)
either true p q = p
either false p q = q

pub plain_end : {bound c : ℕ} {si : ScanInst} → Progress bound (emit (plain c) si)
plain_end = ended (λ e. absurd (cc))

-- On to a state, with the characters `s` to come.
pub on_to :
    {bound : ℕ} (st : ScanState) {l : Locals} {si : ScanInst} {s : List ℕ}
    → input si ≡ s
    → EndsLine s
    → rounds_left st s < bound
    → Progress bound (go st l si)
on_to {bound} st is ends less =
    onward (subst EndsLine (sym is) ends) (subst (λ s. rounds_left st s < bound) (sym is) less)

abbrev pub Advances : ScanState → Type 0
Advances st =
    (m : ℕ) (l : Locals) (si : ScanInst) (s : List ℕ)
    → rounds_left st s ≤ m
    → input si ≡ s
    → EndsLine s
    → Progress (rounds_left st s) (scan_state m st l si)

pub shift-Progress :
    (st : ScanState) (l : Locals) (si : ScanInst) (c : ℕ) (s : List ℕ) {bound : ℕ}
    → input si ≡ c ∷ s
    → EndsLine (c ∷ s)
    → rounds_left st s < bound
    → Progress bound (shift_to st l si)
shift-Progress st l si c s is ends less =
    let (si', shift, is') = shift-cons st l si is in
    rw shift (on_to st is' (tail-EndsLine c s ends) less)

pub string_or_end :
    {bound : ℕ} (string : Option (List ℕ)) (f : List ℕ → Lexeme) (si : ScanInst)
    → ((t : List ℕ) → f t ≢ lost_fuel)
    → Progress bound (elim string [ none ↦ emit undefined_behaviour si | some t ↦ emit (f t) si ])
string_or_end none f si fine = ended (λ e. absurd (cc))
string_or_end (some t) f si fine = ended (fine t)

pub id-Advances : Advances st_id
unfolding scan_state scan_id
id-Advances m l si [] enough is ends =
    let (si₁, peek, is₁) = peek-nil si is in rw (scan_id, peek) plain_end
id-Advances m l si (c ∷ s) enough is ends =
    let (si₁, peek, is₁) = peek-cons si is in
    rw (scan_id, peek, peek)
      (either (not (isspace c) && not (is_delim c))
        (shift-Progress st_id l si₁ c s is₁ ends (omega arith))
        (string_or_end (c_string (scan_insert l.buf 0).buf) (word l.quoted) _ λ t e. absurd (cc)))

digit-Progress :
    {bound : ℕ} (d : ℕ) (l : Locals) (si : ScanInst) (s : List ℕ)
    → input si ≡ s
    → EndsLine s
    → 2 * length s < bound
    → Progress bound (add_digit d l si)
digit-Progress d l si s is ends less =
    either (ltb (l.num * l.radix + d) long_limit) (on_to st_number is ends less)
      (ended (λ e. absurd (cc)))

pub number-Advances : Advances st_number
unfolding scan_state scan_number
number-Advances m l si [] enough is ends =
    let (si₁, peek, is₁) = peek-nil si is in rw (scan_number, peek) (ended λ e. absurd (cc))
number-Advances m l si (c ∷ s) enough is ends =
    let (si₁, peek, is₁) = peek-cons si is in
    let up = toupper c in
    let later = tail-EndsLine c s ends in
    rw (scan_number, peek, peek)
      (either (isdigit up || (leb b'A' up && leb up b'F'))
        (digit-Progress _ l (scan_drop si₁) s (drop-cons si₁ is₁) later (omega arith))
        (either (up == b'X') (on_to st_number (drop-cons si₁ is₁) later (omega arith))
          (ended λ e. absurd (cc))))
