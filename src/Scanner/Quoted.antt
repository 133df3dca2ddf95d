-- ===== src/Scanner/Quoted.antt =====
-- The rounds of the string state.
use move.Base.{
  ℕ, zero, suc, ◌≤◌, ◌≡◌, refl, Bool, true, false, some, List, ◌∷◌, ◌==◌, if◌then◌else◌, arith,
}
use move.Buffer.{buf_append}
use move.Scanner.Stream.{ScanInst, scan_drop, isspace}
use move.Scanner.Words.{c_string, compile_string_ext_rep}
use move.Scanner.{
  st_string, Locals, text, go, emit, scan_state, scan_string, scan_string_end, skip_space,
}
use move.Scanner.Input.{input, peek-cons, drop-cons}
use move.Scanner.Loop.{shift-cons}

abbrev pub append_to : Locals → ℕ → Locals
append_to l c = record l { buf = buf_append l.buf c }

module _ (l : Locals) (n : ℕ) (si : ScanInst) (more : List ℕ) where
  pub plain_round :
      (c : ℕ)
      → (c == b'\\') ≡ false
      → (c == b'"') ≡ false
      → input si ≡ c ∷ more
      → (si' : ScanInst) × (scan_state n st_string l si ≡ go st_string (append_to l c) si')
        × (input si' ≡ more)
  unfolding scan_state scan_string
  plain_round c nb nq is =
      let (si₁, peek, is₁) = peek-cons si is in
      let (si₂, shift, is₂) = shift-cons st_string l si₁ is₁ in
      (si₂, rw (scan_string, peek, nb, nq, peek) shift, is₂)

  -- A backslash is put into the buffer, what follows it is left.
  pub backslash_round :
      (d : ℕ)
      → (d == b'"') ≡ false
      → input si ≡ b'\\' ∷ d ∷ more
      → (si' : ScanInst) × (scan_state n st_string l si ≡ go st_string (append_to l b'\\') si')
        × (input si' ≡ d ∷ more)
  unfolding scan_state scan_string
  backslash_round d nq is =
      let (si₁, peek, is₁) = peek-cons si is in
      let (si₂, peek₂, is₂) = peek-cons (scan_drop si₁) (drop-cons si₁ is₁) in
      (si₂, rw (scan_string, peek, peek, peek₂, nq) refl, is₂)

  pub quote_round :
      input si ≡ b'\\' ∷ b'"' ∷ more
      → (si' : ScanInst) × (scan_state n st_string l si ≡ go st_string (append_to l b'"') si')
        × (input si' ≡ more)
  unfolding scan_state scan_string
  quote_round is =
      let (si₁, peek, is₁) = peek-cons si is in
      let (si₂, peek₂, is₂) = peek-cons (scan_drop si₁) (drop-cons si₁ is₁) in
      let (si₃, shift, is₃) = shift-cons st_string l si₂ is₂ in
      (si₃, rw (scan_string, peek, peek, peek₂) shift, is₃)

-- Neither white space nor a quote, so it ends the literal.
abbrev pub ends_text : ℕ → Bool
ends_text c = if isspace c then false else if c == b'"' then false else true

no_space :
    (n : ℕ) (si : ScanInst) (c : ℕ) (rest : List ℕ)
    → isspace c ≡ false
    → input si ≡ c ∷ rest
    → (si' : ScanInst) × (skip_space (suc n) si ≡ some (some c, si')) × (input si' ≡ c ∷ rest)
unfolding skip_space
no_space n si c rest space is =
    let (si₁, peek, is₁) = peek-cons si is in (si₁, rw (skip_space, peek, space, peek) refl, is₁)

pub end_round :
    (l : Locals) (n : ℕ) (si : ScanInst) (c : ℕ) (rest t : List ℕ)
    → ends_text c ≡ true
    → c_string (compile_string_ext_rep (buf_append l.buf 0).buf) ≡ some t
    → 1 ≤ n
    → input si ≡ b'"' ∷ c ∷ rest
    → (si' : ScanInst) × (scan_state n st_string l si ≡ emit (text t) si') × (input si' ≡ c ∷ rest)
unfolding scan_state scan_string scan_string_end
end_round l zero si c rest t ends string enough is = absurd (omega arith)
end_round l (suc n) si c rest t ends string enough is =
    let (si₁, peek, is₁) = peek-cons si is in
    let space : isspace c ≡ false = ground (arith, ends) in
    let (si₂, skipped, is₂) = no_space n (scan_drop si₁) c rest space (drop-cons si₁ is₁) in
    let quote : (c == b'"') ≡ false = ground (arith, ends) in
    (si₂, rw (scan_string, peek, peek, scan_string_end, skipped, quote, string) refl, is₂)
