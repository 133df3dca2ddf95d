-- ===== src/Scanner/Input.antt =====
-- What scan_peek and scan_drop do to the characters that are still to come.
use move.Base.{
  ℕ, ◌+◌, ◌≡◌, refl, inl, inr, Option, none, some, List, [], ◌∷◌, ◌==◌, if◌then◌else◌, map,
  Bool-cases, arith, ap, ◌∙◌,
}
use move.Value.{Value}
use move.Scanner.Stream.{ScanInst, scan_peek, scan_drop, newline, count_line}

-- A carriage return is read as a newline.
abbrev pub unified : ℕ → ℕ
unified c = if c == b'\r' then b'\n' else c

abbrev pub upcoming : Option ℕ → List ℕ → List ℕ
upcoming none s = map unified s
upcoming (some c) s = unified c ∷ map unified s

-- The characters that scan_peek will deliver, EOF behind them.
abbrev pub input : ScanInst → List ℕ
input si = upcoming si.cache si.stream

abbrev with_cache : List ℕ → Option ℕ → ℕ → Value → ScanInst
with_cache s k l v = record { stream = s; cache = k; linenum = l; yylval = v }

-- What scan_peek makes of a cache that holds `d`.
settle :
    (d : ℕ) (s : List ℕ) (l : ℕ) (v : Value)
    → (l' : ℕ) × (count_line (newline (with_cache s (some d) l v))
        ≡ with_cache s (some (unified d)) l' v)
settle d s l v = elim (Bool-cases (d == b'\r')) [
  | inl e ↦ rw e (l + 1, refl)
  | inr ne ↦ elim (Bool-cases (d == b'\n')) [
    | inl e ↦ rw (ne, e) (l + 1, refl)
    | inr ne' ↦ rw (ne, ne') (l, refl)
  ]
]

unified_twice : (c : ℕ) → unified (unified c) ≡ unified c
unified_twice c = ground arith

-- The next character is `c`, and is still to come after the peek.
abbrev pub Peeks : ScanInst → Option ℕ → List ℕ → Type 0
Peeks si ch cs = (si' : ScanInst) × (scan_peek si ≡ (ch, si')) × (input si' ≡ cs)

abbrev both : ScanInst → Option ℕ × ScanInst
both si = (si.cache, si)

settled :
    (d : ℕ) (s : List ℕ) (l : ℕ) (v : Value) {c : ℕ} {cs : List ℕ}
    → unified d ∷ map unified s ≡ c ∷ cs
    → (si' : ScanInst) × (both (count_line (newline (with_cache s (some d) l v))) ≡ (some c, si'))
      × (input si' ≡ c ∷ cs)
settled d s l v {c} {cs} e =
    let (l', is) = settle d s l v in
    (
      with_cache s (some (unified d)) l' v,
      rw is (ground (arith, e)),
      ap (λ u. u ∷ map unified s) (unified_twice d) ∙ e,
    )

peek_parts :
    (s : List ℕ) (k : Option ℕ) (l : ℕ) (v : Value) {c : ℕ} {cs : List ℕ}
    → input (with_cache s k l v) ≡ c ∷ cs
    → Peeks (with_cache s k l v) (some c) (c ∷ cs)
unfolding scan_peek
peek_parts s (some d) l v e = settled d s l v e
peek_parts (d ∷ s) none l v e = settled d s l v e
peek_parts [] none l v e = absurd (cc)

pub peek-cons :
    (si : ScanInst) {c : ℕ} {cs : List ℕ} → input si ≡ c ∷ cs → Peeks si (some c) (c ∷ cs)
peek-cons si e = peek_parts si.stream si.cache si.linenum si.yylval e

peek_end :
    (s : List ℕ) (k : Option ℕ) (l : ℕ) (v : Value)
    → input (with_cache s k l v) ≡ []
    → Peeks (with_cache s k l v) none []
unfolding scan_peek
peek_end s (some d) l v e = absurd (cc)
peek_end (d ∷ s) none l v e = absurd (cc)
peek_end [] none l v e = (with_cache [] none l v, refl, refl)

pub peek-nil : (si : ScanInst) → input si ≡ [] → Peeks si none []
peek-nil si e = peek_end si.stream si.cache si.linenum si.yylval e

drop_parts :
    (s : List ℕ) (k : Option ℕ) (l : ℕ) (v : Value) {c : ℕ} {cs : List ℕ}
    → input (with_cache s k l v) ≡ c ∷ cs
    → input (scan_drop (with_cache s k l v)) ≡ cs
unfolding scan_drop
drop_parts s (some d) l v e = ground (arith, e)
drop_parts (d ∷ s) none l v e = ground (arith, e)
drop_parts [] none l v e = absurd (cc)

pub drop-cons :
    (si : ScanInst) {c : ℕ} {cs : List ℕ} → input si ≡ c ∷ cs → input (scan_drop si) ≡ cs
drop-cons si e = drop_parts si.stream si.cache si.linenum si.yylval e

drop_end :
    (s : List ℕ) (k : Option ℕ) (l : ℕ) (v : Value)
    → input (with_cache s k l v) ≡ []
    → input (scan_drop (with_cache s k l v)) ≡ []
unfolding scan_drop
drop_end s (some d) l v e = absurd (cc)
drop_end (d ∷ s) none l v e = absurd (cc)
drop_end [] none l v e = refl

pub drop-nil : (si : ScanInst) → input si ≡ [] → input (scan_drop si) ≡ []
drop-nil si e = drop_end si.stream si.cache si.linenum si.yylval e
