-- ===== src/Scanner/Comment.antt =====
-- Comments, and the fuel that is enough for any program text.
use move.Base.{ℕ, zero, suc, ◌≡◌, refl, false, none, List, [], ◌∷◌, All, ◌==◌}
use move.Heap.{Heap, out_of_fuel}
use move.Scanner.Stream.{ScanInst, scan_drop}
use move.Scanner.{
  st_start, Locals, first_locals, lost_fuel, emit, skip_comment, scan_state, scan_start,
  scan_punctuation, scan_loop, scan, emit_lexeme,
}
use move.Scanner.Input.{input, peek-cons, peek-nil, drop-cons, drop-nil}

abbrev pub NoNewline : List ℕ → Type 0
NoNewline = All λ c. (c == b'\n') ≡ false

-- The loop of the comment never meets a newline.
comment_lost :
    (n : ℕ) (si : ScanInst) (s : List ℕ)
    → NoNewline s
    → input (scan_drop si) ≡ s
    → skip_comment n si ≡ none
unfolding skip_comment
comment_lost zero si s plain is = refl
comment_lost (suc n) si [] plain is =
    let (si₁, peek, is₁) = peek-nil (scan_drop si) is in
    rw (skip_comment, peek, peek) (comment_lost n si₁ [] tt (drop-nil si₁ is₁))
comment_lost (suc n) si (c ∷ s) (other, plain) is =
    let (si₁, peek, is₁) = peek-cons (scan_drop si) is in
    rw (skip_comment, peek, other, peek) (comment_lost n si₁ s plain (drop-cons si₁ is₁))

comment_start :
    (n : ℕ) (l : Locals) (si : ScanInst) (s : List ℕ)
    → NoNewline s
    → input si ≡ b'/' ∷ b'/' ∷ s
    → (si' : ScanInst) × (scan_state n st_start l si ≡ emit lost_fuel si')
unfolding scan_state scan_start scan_punctuation
comment_start n l si s plain is =
    let (si₁, peek, is₁) = peek-cons si is in
    let (si₂, peek₂, is₂) = peek-cons (scan_drop si₁) (drop-cons si₁ is₁) in
    let lost = comment_lost n si₂ s plain (drop-cons si₂ is₂) in
    (si₂, rw (scan_start, peek, peek, peek₂, lost, peek, peek₂) refl)

-- With a comment to come that no newline ends, scan returns no token, whatever fuel it is given: the loop
-- that skips the comment goes on at the end of the input.
pub scan-open_comment :
    (s : List ℕ) (si : ScanInst) (n : ℕ) (h : Heap)
    → NoNewline s
    → input si ≡ b'/' ∷ b'/' ∷ s
    → scan n si h ≡ out_of_fuel
unfolding scan scan_loop emit_lexeme
scan-open_comment s si zero h plain is = refl
scan-open_comment s si (suc n) h plain is =
    let (si', lost) = comment_start n first_locals si s plain is in rw (scan_loop, lost) refl
