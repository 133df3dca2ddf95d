-- ===== src/Scanner/Escape.antt =====
-- Strings as they are written in a program, and what compile_string_ext_rep makes of them.
use move.Base.{
  ℕ, ◌≡◌, ◌≢◌, refl, false, Option, some, List, [], ◌∷◌, ◌++◌, map, drop, take-drop, All, ◌==◌,
  if◌then◌else◌, arith, ap, sym, ◌∙◌, inl, inr, Bool-cases, ==_iff,
}
use mathlib.Core.Path.{subst}
use move.Buffer.{Buffer}
use move.Buffer.Append.{Holds}
use move.Scanner.Words.{c_string, compile_string_ext_rep}

-- A quote, a backslash and a carriage return are written with a backslash.
abbrev pub write_char : ℕ → List ℕ → List ℕ
write_char c s =
    if c == b'"'
    then b'\\' ∷ b'"' ∷ s
    else if c == b'\\'
    then b'\\' ∷ b'\\' ∷ s
    else if c == b'\r'
    then b'\\' ∷ b'r' ∷ s
    else c ∷ s

abbrev pub write_text : List ℕ → List ℕ
write_text [] = []
write_text (c ∷ s) = write_char c (write_text s)

-- What the scanner puts into the buffer for the written character: a quote without its backslash.
abbrev pub buffered : ℕ → List ℕ → List ℕ
buffered c s =
    if c == b'\\' then b'\\' ∷ b'\\' ∷ s else if c == b'\r' then b'\\' ∷ b'r' ∷ s else c ∷ s

abbrev pub in_buffer : List ℕ → List ℕ
in_buffer [] = 0 ∷ []
in_buffer (c ∷ s) = buffered c (in_buffer s)

compile-plain :
    (c : ℕ) (bytes : List (Option ℕ)) {d : Option ℕ} {ds : List (Option ℕ)}
    → (c == 0) ≡ false
    → (c == b'\\') ≡ false
    → bytes ≡ d ∷ ds
    → compile_string_ext_rep (some c ∷ bytes) ≡ some c ∷ compile_string_ext_rep bytes
unfolding compile_string_ext_rep
compile-plain c [] nz nb e = absurd (cc)
compile-plain c (b ∷ bytes) nz nb e = rw (nz, nb) refl

starts :
    (s : List ℕ) (behind : List (Option ℕ))
    → (d : Option ℕ) × (ds : List (Option ℕ)) × (map some (in_buffer s) ++ behind ≡ d ∷ ds)
starts [] behind = (some 0, behind, refl)
starts (c ∷ s) behind = elim (Bool-cases (c == b'\\')) [
  | inl e ↦ rw e (some b'\\', _, refl)
  | inr ne ↦ elim (Bool-cases (c == b'\r')) [
    | inl e ↦ rw (ne, e) (some b'\\', _, refl)
    | inr ne' ↦ rw (ne, ne') (some c, _, refl)
  ]
]

compile-zero :
    (behind : List (Option ℕ)) → c_string (compile_string_ext_rep (some 0 ∷ behind)) ≡ some []
unfolding compile_string_ext_rep
compile-zero [] = refl
compile-zero (b ∷ behind) = refl

c_string-cons :
    (c : ℕ) (bytes : List (Option ℕ)) {s : List ℕ}
    → (c == 0) ≡ false
    → c_string bytes ≡ some s
    → c_string (some c ∷ bytes) ≡ some (c ∷ s)
c_string-cons c bytes nz e = rw (nz, e) refl

compile-in_buffer :
    (s : List ℕ) (behind : List (Option ℕ))
    → All (λ c. c ≢ 0) s
    → c_string (compile_string_ext_rep (map some (in_buffer s) ++ behind)) ≡ some s
unfolding compile_string_ext_rep
compile-in_buffer [] behind nonzero = compile-zero behind
compile-in_buffer (c ∷ s) behind (nz, nonzero) =
    let later = compile-in_buffer s behind nonzero in
    elim (Bool-cases (c == b'\\')) [
      | inl e ↦ rw (e, later) (ap (λ d. some (d ∷ s)) (sym ((==_iff c b'\\').0 e)))
      | inr ne ↦ elim (Bool-cases (c == b'\r')) [
        | inl e ↦ rw (ne, e, later) (ap (λ d. some (d ∷ s)) (sym ((==_iff c b'\r').0 e)))
        | inr ne' ↦
            let (d, ds, is) = starts s behind in
            rw
              (
                ne,
                ne',
                compile-plain c (map some (in_buffer s) ++ behind) (ground (arith, nz)) ne is,
              )
              (c_string-cons c (compile_string_ext_rep (map some (in_buffer s) ++ behind))
                (ground (arith, nz)) later)
      ]
    ]

pub compile-Holds :
    (b : Buffer) (s : List ℕ)
    → All (λ c. c ≢ 0) s
    → Holds b (in_buffer s)
    → c_string (compile_string_ext_rep b.buf) ≡ some s
compile-Holds b s nonzero holds =
    subst (λ bytes. c_string (compile_string_ext_rep bytes) ≡ some s)
      (ap (λ t. t ++ drop b.pos b.buf) (sym holds.written) ∙ take-drop b.buf b.pos)
      (compile-in_buffer s (drop b.pos b.buf) nonzero)
