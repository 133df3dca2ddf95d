-- ===== src/Scanner/Word.antt =====
-- The identifier state.
use move.Base.{
  ℕ, suc, ◌≡◌, ◌≢◌, refl, Bool, true, false, not, List, [], ◌∷◌, ◌++◌, length, All, ◌&&◌, ◌||◌,
  arith, sym,
}
use mathlib.Core.Path.{subst}
use mathlib.Core.List.{append_assoc, append-nil}
use move.Buffer.{buf_append}
use move.Buffer.Append.{Holds, append-Holds}
use move.Scanner.Stream.{ScanInst, isspace}
use move.Scanner.Words.{is_delim}
use move.Scanner.{st_id, Locals, word, go, emit, scan_state, scan_id}
use move.Scanner.Input.{input, peek-cons}
use move.Scanner.Loop.{Lexes, Lexes-go, Lexes-emit, shift-cons, c_string-Holds}

-- `c` ends a word.
abbrev pub ends_word : ℕ → Bool
ends_word c = isspace c || is_delim c

-- No character of the list ends a word.
abbrev pub IsWord : List ℕ → Type 0
IsWord = All λ c. ends_word c ≡ false

goes_on : (c : ℕ) → ends_word c ≡ false → (isspace c ≡ false) × (is_delim c ≡ false)
goes_on c e = ground (arith, e)

id_shift :
    (l : Locals) (c : ℕ) (cs : List ℕ)
    → ends_word c ≡ false
    → (n : ℕ) (si : ScanInst) → input si ≡ c ∷ cs
    → (si' : ScanInst) × (scan_state n st_id l si
        ≡ go st_id (record l { buf = buf_append l.buf c }) si')
      × (input si' ≡ cs)
unfolding scan_state scan_id
id_shift l c cs inside n si is =
    let (si₁, peek, is₁) = peek-cons si is in
    let (si₂, shift, is₂) = shift-cons st_id l si₁ is₁ in
    let (no_space, no_delim) = goes_on c inside in
    (si₂, rw (scan_id, peek, no_space, no_delim, peek) shift, is₂)

id_end :
    (l : Locals) (s : List ℕ) (c : ℕ) (rest : List ℕ)
    → All (λ d. d ≢ 0) s
    → Holds l.buf s
    → ends_word c ≡ true
    → (n : ℕ) (si : ScanInst) → input si ≡ c ∷ rest
    → (si' : ScanInst) × (scan_state n st_id l si ≡ emit (word l.quoted s) si')
      × (input si' ≡ c ∷ rest)
unfolding scan_state scan_id
id_end l s c rest nonzero holds ends n si is =
    let (si₁, peek, is₁) = peek-cons si is in
    let stops : (not (isspace c) && not (is_delim c)) ≡ false = ground (arith, ends) in
    let string = c_string-Holds (buf_append l.buf 0) s nonzero (append-Holds l.buf s 0 holds) in
    (si₁, rw (scan_id, peek, stops, string, peek) refl, is₁)

-- A character that does not end a word is not the zero byte.
word_nonzero : (c : ℕ) → ends_word c ≡ false → c ≢ 0
unfolding is_delim
word_nonzero c inside e = ground (arith, inside, e)

All-append :
    {A : Type 0} (P : A → Type 0) (xs : List A) (y : A) → All P xs → P y → All P (xs ++ (y ∷ []))
All-append P [] y all p = (p, tt)
All-append P (x ∷ xs) y (q, all) p = (q, All-append P xs y all p)

-- The identifier state collects the characters up to the one that ends the word.
pub id-Lexes :
    (w : List ℕ) (l : Locals) (s : List ℕ) (c : ℕ) (rest : List ℕ)
    → IsWord w
    → ends_word c ≡ true
    → All (λ d. d ≢ 0) s
    → Holds l.buf s
    → Lexes (suc (length w)) st_id l (w ++ (c ∷ rest)) (word l.quoted (s ++ w)) (c ∷ rest)
id-Lexes [] l s c rest inside ends nonzero holds = Lexes-emit st_id l λ n si enough is.
    subst
      (λ t.
        (si' : ScanInst) × (scan_state n st_id l si ≡ emit (word l.quoted t) si')
        × (input si' ≡ c ∷ rest))
      (sym (append-nil s)) (id_end l s c rest nonzero holds ends n si is)
id-Lexes (d ∷ w) l s c rest (inside, all) ends nonzero holds =
    Lexes-go st_id l (λ n si enough is. id_shift l d (w ++ (c ∷ rest)) inside n si is)
      (subst
        (λ t.
          Lexes (suc (length w)) st_id (record l { buf = buf_append l.buf d }) (w ++ (c ∷ rest))
            (word l.quoted t) (c ∷ rest))
        (append_assoc s (d ∷ []) w)
        (id-Lexes w (record l { buf = buf_append l.buf d }) (s ++ (d ∷ [])) c rest all ends
          (All-append (λ e. e ≢ 0) s d nonzero (word_nonzero d inside))
          (append-Holds l.buf s d holds)))
