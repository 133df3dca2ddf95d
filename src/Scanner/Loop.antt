-- ===== src/Scanner/Loop.antt =====
-- The rounds of the scanner's loop, on the characters that are still to come.
use move.Base.{
  ℕ, zero, suc, ◌≤◌, ◌≡◌, ◌≢◌, refl, false, Option, none, some, List, [], ◌∷◌, ◌++◌, map, take, All,
  ◌==◌, arith, ap,
}
use move.Buffer.{Buffer, buf_append}
use move.Buffer.Append.{Holds}
use move.Scanner.Stream.{ScanInst, scan_shift, scan_drop}
use move.Scanner.Words.{c_string}
use move.Scanner.{ScanState, Locals, Lexeme, go, emit, scan_state, scan_loop, shift_to}
use move.Scanner.Input.{input, peek-cons, drop-cons}

-- From the state, with the characters `cs` to come, `fuel` rounds are enough to emit `lexeme`, and
-- leave `rest` to come.
abbrev pub Lexes : ℕ → ScanState → Locals → List ℕ → Lexeme → List ℕ → Type 0
Lexes fuel st l cs lexeme rest =
    (n : ℕ) (si : ScanInst)
    → fuel ≤ n
    → input si ≡ cs
    → (si' : ScanInst) × (scan_loop n st l si ≡ (lexeme, si')) × (input si' ≡ rest)

pub Lexes-more :
    {fuel more : ℕ} (st : ScanState) (l : Locals) {cs rest : List ℕ} {lexeme : Lexeme}
    → fuel ≤ more
    → Lexes fuel st l cs lexeme rest
    → Lexes more st l cs lexeme rest
Lexes-more st l le lexes n si enough is = lexes n si (omega arith) is

-- A round that goes on.
pub Lexes-go :
    {fuel : ℕ} (st : ScanState) {st' : ScanState} (l : Locals) {l' : Locals} {cs cs' rest : List ℕ}
    {lexeme : Lexeme}
    → ((n : ℕ) (si : ScanInst)
        → fuel ≤ n
        → input si ≡ cs
        → (si' : ScanInst) × (scan_state n st l si ≡ go st' l' si') × (input si' ≡ cs'))
    → Lexes fuel st' l' cs' lexeme rest
    → Lexes (suc fuel) st l cs lexeme rest
unfolding scan_loop
Lexes-go st l round later zero si enough is = absurd (omega arith)
Lexes-go st l round later (suc n) si enough is =
    let (si₁, step, is₁) = round n si (omega arith) is in
    let (si₂, lexed, is₂) = later n si₁ (omega arith) is₁ in (si₂, rw (scan_loop, step) lexed, is₂)

-- A round that ends the loop.
pub Lexes-emit :
    {fuel : ℕ} (st : ScanState) (l : Locals) {cs rest : List ℕ} {lexeme : Lexeme}
    → ((n : ℕ) (si : ScanInst)
        → fuel ≤ n
        → input si ≡ cs
        → (si' : ScanInst) × (scan_state n st l si ≡ emit lexeme si') × (input si' ≡ rest))
    → Lexes (suc fuel) st l cs lexeme rest
unfolding scan_loop
Lexes-emit st l round zero si enough is = absurd (omega arith)
Lexes-emit st l round (suc n) si enough is =
    let (si₁, step, is₁) = round n si (omega arith) is in (si₁, rw (scan_loop, step) refl, is₁)

-- SCAN_SHIFT moves the next character to the buffer.
pub shift-cons :
    (st : ScanState) (l : Locals) (si : ScanInst) {c : ℕ} {cs : List ℕ}
    → input si ≡ c ∷ cs
    → (si' : ScanInst) × (shift_to st l si ≡ go st (record l { buf = buf_append l.buf c }) si')
      × (input si' ≡ cs)
unfolding scan_shift
shift-cons st l si is =
    let (si₁, peek, is₁) = peek-cons si is in
    (scan_drop si₁, rw (scan_shift, peek, peek) refl, drop-cons si₁ is₁)

-- The C string of a buffer that holds a zero behind the bytes.
pub c_string-take :
    (bytes : List (Option ℕ)) (n : ℕ) (s : List ℕ)
    → All (λ c. c ≢ 0) s
    → take n bytes ≡ map some (s ++ (0 ∷ []))
    → c_string bytes ≡ some s
c_string-take [] zero [] plain e = absurd (cc)
c_string-take [] (suc n) [] plain e = absurd (cc)
c_string-take [] zero (c ∷ s) plain e = absurd (cc)
c_string-take [] (suc n) (c ∷ s) plain e = absurd (cc)
c_string-take (b ∷ bytes) zero [] plain e = absurd (cc)
c_string-take (b ∷ bytes) zero (c ∷ s) plain e = absurd (cc)
c_string-take (none ∷ bytes) (suc n) [] plain e = absurd (cc)
c_string-take (none ∷ bytes) (suc n) (c ∷ s) plain e = absurd (cc)
c_string-take (some b ∷ bytes) (suc n) [] plain e = ground (arith, e)
c_string-take (some b ∷ bytes) (suc n) (c ∷ s) (nz, plain) e =
    let head : b ≡ c = ground (arith, e) in
    let tail : take n bytes ≡ map some (s ++ (0 ∷ [])) = ground (arith, e) in
    let other : (b == 0) ≡ false = ground (arith, nz, head) in
    rw (other, c_string-take bytes n s plain tail) (ap (λ x. some (x ∷ s)) head)

pub c_string-Holds :
    (b : Buffer) (s : List ℕ)
    → All (λ c. c ≢ 0) s
    → Holds b (s ++ (0 ∷ []))
    → c_string b.buf ≡ some s
c_string-Holds b s plain holds = c_string-take b.buf b.pos s plain holds.written
