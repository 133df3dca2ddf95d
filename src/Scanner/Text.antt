-- ===== src/Scanner/Text.antt =====
-- A written string literal is read back.
use move.Base.{
  ℕ, suc, ◌+◌, ◌*◌, ◌≤◌, ◌≡◌, ◌≢◌, refl, true, false, List, [], ◌∷◌, ◌++◌, length, All, ◌==◌, arith,
  ap, sym, ◌∙◌, inl, inr, Bool-cases, ==_iff,
}
use mathlib.Core.Path.{subst}
use mathlib.Core.List.{append_assoc}
use move.Alloc.{newstring}
use move.Heap.{Heap, ◌>>=◌}
use move.Buffer.{buf_append}
use move.Buffer.Append.{Holds, append-Holds}
use move.Scanner.Stream.{ScanInst, scan_drop, isspace}
use move.Scanner.{
  st_start, st_string, Locals, first_locals, text, scan_state, scan_start, scan_punctuation, scan,
  emit_lexeme, emit_literal,
}
use move.Scanner.Input.{input, peek-cons, drop-cons}
use move.Scanner.Loop.{Lexes, Lexes-more, Lexes-go, Lexes-emit}
use move.Scanner.Start.{reset, skip-spaces, empty-Holds}
use move.Scanner.Escape.{write_text, in_buffer, compile-Holds}
use move.Scanner.Quoted.{append_to, plain_round, backslash_round, quote_round, ends_text, end_round}

-- The last character is no backslash.
abbrev pub NoLastBackslash : List ℕ → Type 0
NoLastBackslash [] = Unit
NoLastBackslash (c ∷ []) = c ≢ b'\\'
NoLastBackslash (c ∷ d ∷ s) = NoLastBackslash (d ∷ s)

-- The characters that a written string starts with.
written_starts :
    (c : ℕ) (s : List ℕ)
    → (d : ℕ) × (ds : List ℕ) × (write_text (c ∷ s) ≡ d ∷ ds) × ((d == b'"') ≡ false)
written_starts c s = elim (Bool-cases (c == b'"')) [
  | inl e ↦ rw e (b'\\', _, refl, refl)
  | inr nq ↦ elim (Bool-cases (c == b'\\')) [
    | inl e ↦ rw (nq, e) (b'\\', _, refl, refl)
    | inr nb ↦ elim (Bool-cases (c == b'\r')) [
      | inl e ↦ rw (nq, nb, e) (b'\\', _, refl, refl)
      | inr nr ↦ rw (nq, nb, nr) (c, _, refl, nq)
    ]
  ]
]

-- Behind a backslash of the string no quote follows.
no_quote_next :
    (d : ℕ) (s more : List ℕ)
    → (d == b'\\') ≡ true
    → NoLastBackslash (d ∷ s)
    → (x : ℕ) × (xs : List ℕ) × (write_text s ++ more ≡ x ∷ xs) × ((x == b'"') ≡ false)
no_quote_next d [] more e last = absurd (last ((==_iff d b'\\').0 e))
no_quote_next d (d' ∷ s) more e last =
    let (x, xs, is, nq) = written_starts d' s in (x, xs ++ more, ap (λ t. t ++ more) is, nq)

module _ (whole : List ℕ) (nonzero : All (λ c. c ≢ 0) whole) (c : ℕ) (rest : List ℕ)
    (ends : ends_text c ≡ true) where
  -- With `t` put into the buffer it would hold what stands for the whole string.
  abbrev Reading : List ℕ → Locals → Type 0
  Reading t l = (p : List ℕ) × Holds l.buf p × (p ++ t ≡ in_buffer whole)

  read_on : (d : ℕ) (t : List ℕ) (l : Locals) → Reading (d ∷ t) l → Reading t (append_to l d)
  read_on d t l (p, holds, is) =
      (p ++ (d ∷ []), append-Holds l.buf p d holds, append_assoc p (d ∷ []) t ∙ is)

  -- From the characters `cs` the string literal is read.
  abbrev Reads : ℕ → List ℕ → Locals → Type 0
  Reads fuel cs l = Lexes fuel st_string l cs (text whole) (c ∷ rest)

  abbrev Rest : List ℕ → Type 0
  Rest s =
      (l : Locals)
      → Reading (in_buffer s) l
      → Reads (2 + 2 * length s) (write_text s ++ (b'"' ∷ c ∷ rest)) l

  Rest-nil : Rest []
  Rest-nil l (p, holds, is) =
      let after = subst (Holds (buf_append l.buf 0)) is (append-Holds l.buf p 0 holds) in
      let string = compile-Holds (buf_append l.buf 0) whole nonzero after in
      Lexes-more st_string l (omega arith) (
        Lexes-emit {fuel = 1} st_string l
          λ n si enough at. end_round l n si c rest whole ends string enough at)

  backslash_first :
      {fuel d : ℕ} {cs : List ℕ} (l : Locals)
      → (d == b'"') ≡ false
      → Reads fuel (d ∷ cs) (append_to l b'\\')
      → Reads (suc fuel) (b'\\' ∷ d ∷ cs) l
  backslash_first l nq later =
      Lexes-go st_string l (λ n si enough at. backslash_round l n si _ _ nq at) later

  plain_first :
      {fuel d : ℕ} {cs : List ℕ} (l : Locals)
      → (d == b'\\') ≡ false
      → (d == b'"') ≡ false
      → Reads fuel cs (append_to l d)
      → Reads (suc fuel) (d ∷ cs) l
  plain_first l nb nq later =
      Lexes-go st_string l (λ n si enough at. plain_round l n si _ _ nb nq at) later

  quote_first :
      {fuel : ℕ} {cs : List ℕ} (l : Locals)
      → Reads fuel cs (append_to l b'"')
      → Reads (suc fuel) (b'\\' ∷ b'"' ∷ cs) l
  quote_first l later = Lexes-go st_string l (λ n si enough at. quote_round l n si _ at) later

  two_backslashes :
      (d : ℕ) (s : List ℕ) (l : Locals)
      → (d == b'\\') ≡ true
      → NoLastBackslash (d ∷ s)
      → Rest s
      → Reading (b'\\' ∷ b'\\' ∷ in_buffer s) l
      → Reads (4 + 2 * length s) (b'\\' ∷ b'\\' ∷ write_text s ++ (b'"' ∷ c ∷ rest)) l
  two_backslashes d s l e last later reading =
      let (x, xs, is, nq) = no_quote_next d s (b'"' ∷ c ∷ rest) e last in
      let l₁ = append_to l b'\\' in
      let l₂ = append_to l₁ b'\\' in
      let reads =
        later l₂ (read_on b'\\' (in_buffer s) l₁ (read_on b'\\' (b'\\' ∷ in_buffer s) l reading)) in
      Lexes-more st_string l (omega arith) (
        backslash_first l refl (
          subst (λ cs. Reads (suc (2 + 2 * length s)) (b'\\' ∷ cs) l₁) (sym is)
            (backslash_first l₁ nq (subst (λ cs. Reads (2 + 2 * length s) cs l₂) is reads))))

  -- The rest of the string from one character on.
  abbrev Onward : List ℕ → Locals → ℕ → Type 0
  Onward s l d =
      Reading (in_buffer (d ∷ s)) l
      → Reads (4 + 2 * length s) (write_text (d ∷ s) ++ (b'"' ∷ c ∷ rest)) l

  quote-Onward : (s : List ℕ) (l : Locals) → Rest s → Onward s l b'"'
  quote-Onward s l later reading =
      Lexes-more st_string l (omega arith)
        (quote_first l (later (append_to l b'"') (read_on b'"' (in_buffer s) l reading)))

  return-Onward : (s : List ℕ) (l : Locals) → Rest s → Onward s l b'\r'
  return-Onward s l later reading =
      let l₁ = append_to l b'\\' in
      Lexes-more st_string l (omega arith) (
        backslash_first l refl (
          plain_first l₁ refl refl (
            later (append_to l₁ b'r')
              (read_on b'r' (in_buffer s) l₁ (read_on b'\\' (b'r' ∷ in_buffer s) l reading)))))

  plain-Onward :
      (d : ℕ) (s : List ℕ) (l : Locals)
      → (d == b'"') ≡ false
      → (d == b'\\') ≡ false
      → (d == b'\r') ≡ false
      → Rest s
      → Onward s l d
  plain-Onward d s l nq nb nr later =
      rw (nq, nb, nr)
        λ reading.
          Lexes-more st_string l (omega arith)
            (plain_first l nb nq (later (append_to l d) (read_on d (in_buffer s) l reading)))

  onward : (d : ℕ) (s : List ℕ) (l : Locals) → NoLastBackslash (d ∷ s) → Rest s → Onward s l d
  onward d s l last later = elim (Bool-cases (d == b'"')) [
    | inl e ↦ subst (Onward s l) (sym ((==_iff d b'"').0 e)) (quote-Onward s l later)
    | inr nq ↦ elim (Bool-cases (d == b'\\')) [
      | inl e ↦
          subst (Onward s l) (sym ((==_iff d b'\\').0 e))
            λ reading. two_backslashes d s l e last later reading
      | inr nb ↦ elim (Bool-cases (d == b'\r')) [
        | inl e ↦ subst (Onward s l) (sym ((==_iff d b'\r').0 e)) (return-Onward s l later)
        | inr nr ↦ plain-Onward d s l nq nb nr later
      ]
    ]
  ]

  tail_last : (d : ℕ) (s : List ℕ) → NoLastBackslash (d ∷ s) → NoLastBackslash s
  tail_last d [] last = tt
  tail_last d (d' ∷ s) last = last

  rest_lem : (s : List ℕ) → NoLastBackslash s → Rest s
  rest_lem [] last = Rest-nil
  rest_lem (d ∷ s) last = λ l reading.
      Lexes-more st_string l (omega arith)
        (onward d s l last (rest_lem s (tail_last d s last)) reading)

  text-Lexes :
      NoLastBackslash whole
      → (l : Locals) → Holds l.buf []
      → Lexes
          (3 + 2 * length whole)
          st_start
          l
          (b'"' ∷ write_text whole ++ (b'"' ∷ c ∷ rest))
          (text whole)
          (c ∷ rest)
  unfolding scan_state scan_start scan_punctuation
  text-Lexes last l holds = Lexes-more st_start l (omega arith) (
      Lexes-go st_start l
        (λ n si enough is.
          let (si₁, peek, is₁) = peek-cons si is in
          (scan_drop si₁, rw (scan_start, peek, peek) refl, drop-cons si₁ is₁))
        (rest_lem whole last (reset l) ([], holds, refl)))

-- With white space, a string between quotes and a character that is neither white space nor a quote to
-- come, in the string a quote, a backslash and a carriage return written with a backslash, scan
-- delivers the literal that newstring makes of the string, provided that the string has no zero byte
-- and that its last character is no backslash. It takes at most two rounds for each of its
-- characters, one for each of white space and three more.
pub scan-text :
    (spaces s : List ℕ) (c : ℕ) (rest : List ℕ) (si : ScanInst) (n : ℕ) (h : Heap)
    → All (λ d. isspace d ≡ true) spaces
    → All (λ d. d ≢ 0) s
    → NoLastBackslash s
    → ends_text c ≡ true
    → input si ≡ spaces ++ (b'"' ∷ write_text s ++ (b'"' ∷ c ∷ rest))
    → length spaces + (3 + 2 * length s) ≤ n
    → (si' : ScanInst) × (scan n si h ≡ (newstring s >>= λ string. emit_literal string si') h)
      × (input si' ≡ c ∷ rest)
unfolding scan emit_lexeme
scan-text spaces s c rest si n h all nonzero last ends is enough =
    let (si', lexed, is') =
      skip-spaces spaces all (text-Lexes s nonzero c rest ends last) first_locals empty-Holds n si
        enough is in
    (si', rw lexed refl, is')
