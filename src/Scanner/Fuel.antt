-- ===== src/Scanner/Fuel.antt =====
-- The fuel that is enough for a program text.
use move.Base.{
  ℕ, zero, suc, ◌+◌, ◌*◌, ◌<◌, ◌≤◌, ◌≡◌, ◌≢◌, refl, Option, none, some, List, [], ◌∷◌, length, ◌==◌,
  if◌then◌else◌, arith, inl, inr, Bool-cases,
}
use move.Scanner.Stream.{ScanInst, scan_drop, scan_insert, isspace, isdigit}
use move.Scanner.Words.{c_string, compile_string_ext_rep, is_delim}
use move.Scanner.{
  ScanState, st_start, st_id, st_number, st_string, Locals, Lexeme, text, lost_fuel, Step, go, emit,
  skip_comment, skip_space, scan_state, scan_start, scan_punctuation, scan_string, scan_string_end,
  is_digit, equals,
}
use move.Scanner.Input.{input, peek-cons, peek-nil, drop-cons, drop-nil}
use move.Scanner.{scan_loop}
use move.Scanner.Progress.{
  EndsLine, tail-EndsLine, rounds_left, Progress, onward, ended, either, plain_end, on_to, Advances,
  shift-Progress, string_or_end, id-Advances, number-Advances,
}

-- The loop over white space ends; what a drop behind it leaves is no more than there was.
skip_space-EndsLine :
    (n : ℕ) (si : ScanInst) (s : List ℕ)
    → length s < n
    → input si ≡ s
    → EndsLine s
    → (ch : Option ℕ) × (si' : ScanInst) × (s' : List ℕ) × (skip_space n si ≡ some (ch, si'))
      × (input (scan_drop si') ≡ s')
      × EndsLine s'
      × (length s' ≤ length s)
unfolding skip_space
skip_space-EndsLine zero si s less is ends = absurd (omega arith)
skip_space-EndsLine (suc n) si [] less is ends =
    let (si₁, peek, is₁) = peek-nil si is in
    (none, si₁, [], rw (skip_space, peek, peek) refl, drop-nil si₁ is₁, tt, omega arith)
skip_space-EndsLine (suc n) si (c ∷ s) less is ends =
    let (si₁, peek, is₁) = peek-cons si is in
    let later = tail-EndsLine c s ends in
    elim (Bool-cases (isspace c)) [
      | inl e ↦
          let (ch, si', s', skipped, is', ends', le) =
            skip_space-EndsLine n (scan_drop si₁) s (omega arith) (drop-cons si₁ is₁) later in
          (ch, si', s', rw (skip_space, peek, e, peek) skipped, is', ends', omega arith)
      | inr ne ↦ (
        some c,
        si₁,
        s,
        rw (skip_space, peek, ne, peek) refl,
        drop-cons si₁ is₁,
        later,
        omega arith,
      )
    ]

-- The loop over a comment meets a newline.
skip_comment-EndsLine :
    (n : ℕ) (si : ScanInst) (c : ℕ) (s : List ℕ)
    → length s < n
    → input (scan_drop si) ≡ c ∷ s
    → EndsLine (c ∷ s)
    → (si' : ScanInst) × (s' : List ℕ) × (skip_comment n si ≡ some si')
      × (input si' ≡ s')
      × EndsLine s'
      × (length s' ≤ suc (length s))
unfolding skip_comment
skip_comment-EndsLine zero si c s less is ends = absurd (omega arith)
skip_comment-EndsLine (suc n) si c [] less is ends =
    let (si₁, peek, is₁) = peek-cons (scan_drop si) is in
    (si₁, c ∷ [], rw (skip_comment, peek, ends, peek) refl, is₁, ends, omega arith)
skip_comment-EndsLine (suc n) si c (d ∷ s) less is ends =
    let (si₁, peek, is₁) = peek-cons (scan_drop si) is in
    elim (Bool-cases (c == b'\n')) [
      | inl e ↦ (si₁, c ∷ d ∷ s, rw (skip_comment, peek, e, peek) refl, is₁, ends, omega arith)
      | inr ne ↦
          let (si', s', skipped, is', ends', le) =
            skip_comment-EndsLine n si₁ d s (omega arith) (drop-cons si₁ is₁) ends in
          (si', s', rw (skip_comment, peek, ne, peek) skipped, is', ends', omega arith)
    ]

string_end-Progress :
    (m : ℕ) (l : Locals) (si : ScanInst) (s : List ℕ) {bound : ℕ}
    → length s < m
    → input si ≡ s
    → EndsLine s
    → 2 * length s < bound
    → Progress bound (scan_string_end m l si)
unfolding scan_string_end
string_end-Progress m l si s less is ends small =
    let (ch, si', s', skipped, is', ends', le) = skip_space-EndsLine m si s less is ends in
    rw (scan_string_end, skipped)
      (either (equals b'"' ch) (on_to st_string is' ends' (omega arith)) (
        string_or_end (c_string (compile_string_ext_rep (scan_insert l.buf 0).buf)) text _
          λ t e. absurd (cc)))

string-Advances : Advances st_string
unfolding scan_state scan_string
string-Advances m l si [] enough is ends =
    let (si₁, peek, is₁) = peek-nil si is in rw (scan_string, peek) plain_end
string-Advances m l si (c ∷ []) enough is ends =
    let (si₁, peek, is₁) = peek-cons si is in
    let (si₂, peek₂, is₂) = peek-nil (scan_drop si₁) (drop-cons si₁ is₁) in
    rw (scan_string, peek, peek, peek₂)
      (either (c == b'\\') (on_to st_string is₂ tt (omega arith)) (
        either (c == b'"')
          (string_end-Progress m l (scan_drop si₁) [] (omega arith) (drop-cons si₁ is₁) tt
            (omega arith))
          (shift-Progress st_string l si₁ c [] is₁ ends (omega arith))))
string-Advances m l si (c ∷ d ∷ s) enough is ends =
    let (si₁, peek, is₁) = peek-cons si is in
    let (si₂, peek₂, is₂) = peek-cons (scan_drop si₁) (drop-cons si₁ is₁) in
    rw (scan_string, peek, peek, peek₂)
      (either (c == b'\\')
        (either (d == b'"') (shift-Progress st_string l si₂ d s is₂ ends (omega arith))
          (on_to st_string is₂ ends (omega arith)))
        (either (c == b'"')
          (string_end-Progress m l (scan_drop si₁) (d ∷ s) (omega arith) (drop-cons si₁ is₁) ends
            (omega arith))
          (shift-Progress st_string l si₁ c (d ∷ s) is₁ ends (omega arith))))

-- The comment behind two slashes.
slash-Progress :
    (m : ℕ) (l : Locals) (si : ScanInst) (d : ℕ) (s : List ℕ) {bound : ℕ} (lost : ScanInst)
    (other : Step)
    → length s < m
    → input si ≡ d ∷ s
    → EndsLine (d ∷ s)
    → 2 * length s + 1 < bound
    → Progress bound other
    → Progress bound (
        if equals b'/' (some d)
        then elim (skip_comment m si) [ none ↦ emit lost_fuel lost | some si' ↦ go st_start l si' ]
        else other)
slash-Progress m l si d [] lost other less is ends small p = elim (Bool-cases (d == b'/')) [
  | inl e ↦ absurd (ground (arith, e, ends))
  | inr ne ↦ rw ne p
]
slash-Progress m l si d (c ∷ s) lost other less is ends small p = elim (Bool-cases (d == b'/')) [
  | inl e ↦
      let (si', s', skipped, is', ends', le) =
        skip_comment-EndsLine m si c s (omega arith) (drop-cons si is) ends in
      rw (e, skipped) (on_to st_start is' ends' (omega arith))
  | inr ne ↦ rw ne p
]

punctuation-Progress :
    (m c : ℕ) (l : Locals) (si : ScanInst) (s : List ℕ)
    → length s < m
    → input si ≡ c ∷ s
    → EndsLine (c ∷ s)
    → Progress (2 * suc (length s) + 1) (scan_punctuation m c l si)
unfolding scan_punctuation
punctuation-Progress m c l si [] less is ends =
    let (si₁, peek, is₁) = peek-nil (scan_drop si) (drop-cons si is) in
    rw (scan_punctuation, peek)
      (either (c == b'/') (on_to st_id is₁ tt (omega arith)) (
        either (c == b'-') plain_end (
          either (c == b'"') (on_to st_string (drop-cons si is) tt (omega arith)) (
            either (c == b'#') (on_to st_id (drop-cons si is) tt (omega arith)) (
              either (c == b'!') plain_end
                (either (is_delim c) plain_end (on_to st_id is ends (omega arith))))))))
punctuation-Progress m c l si (d ∷ s) less is ends =
    let (si₁, peek, is₁) = peek-cons (scan_drop si) (drop-cons si is) in
    rw (scan_punctuation, peek)
      (either (c == b'/')
        (slash-Progress m l si₁ d s _ _ (omega arith) is₁ ends (omega arith)
          (on_to st_id is₁ ends (omega arith)))
        (either (c == b'-')
          (either (is_digit (some d)) (on_to st_number is₁ ends (omega arith)) plain_end)
          (either (c == b'"') (on_to st_string (drop-cons si is) ends (omega arith)) (
            either (c == b'#') (on_to st_id (drop-cons si is) ends (omega arith)) (
              either (c == b'!')
                (either (equals b'=' (some d)) (on_to st_id is₁ ends (omega arith)) plain_end)
                (either (is_delim c) plain_end (on_to st_id is ends (omega arith))))))))

start-Advances : Advances st_start
unfolding scan_state scan_start
start-Advances m l si [] enough is ends =
    let (si₁, peek, is₁) = peek-nil si is in rw (scan_start, peek) plain_end
start-Advances m l si (c ∷ s) enough is ends =
    let (si₁, peek, is₁) = peek-cons si is in
    rw (scan_start, peek, peek)
      (either (isspace c)
        (on_to st_start (drop-cons si₁ is₁) (tail-EndsLine c s ends) (omega arith))
        (either (isdigit c) (on_to st_number is₁ ends (omega arith))
          (punctuation-Progress m c _ si₁ s (omega arith) is₁ ends)))

advances : (st : ScanState) → Advances st
advances st_start = start-Advances
advances st_id = id-Advances
advances st_number = number-Advances
advances st_string = string-Advances

-- The rest of the loop behind a round.
abbrev remaining : ℕ → Step → Lexeme × ScanInst
remaining n step = elim step [
  | go st' l' si' ↦ scan_loop n st' l' si'
  | emit lexeme si' ↦ (lexeme, si')
]

after_round :
    (n : ℕ) {bound : ℕ} (step : Step)
    → ((st : ScanState) (l : Locals) (si : ScanInst)
        → rounds_left st (input si) < bound
        → EndsLine (input si)
        → (scan_loop n st l si).0 ≢ lost_fuel)
    → Progress bound step
    → (remaining n step).0 ≢ lost_fuel
after_round n (go st' l' si') later (onward ends less) = later st' l' si' less ends
after_round n (emit lexeme si') later (ended fine) = fine

-- With nothing to come, or a newline as the last character to come, the scanner's loop ends, whatever
-- state it is in: twice as many rounds as there are characters to come, and two more, are enough, also
-- for its inner loops over comments and white space.
pub scan_loop-ends :
    (n : ℕ) (st : ScanState) (l : Locals) (si : ScanInst)
    → rounds_left st (input si) < n
    → EndsLine (input si)
    → (scan_loop n st l si).0 ≢ lost_fuel
unfolding scan_loop
scan_loop-ends zero st l si less ends = absurd (omega arith)
scan_loop-ends (suc n) st l si less ends =
    after_round n (scan_state n st l si)
      (λ st' l' si' less' ends'. scan_loop-ends n st' l' si' (omega arith) ends')
      (advances st n l si (input si) (omega arith) refl ends)
