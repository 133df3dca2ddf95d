-- ===== src/Compiler/Growth/Codes.antt =====
-- What the code of the compiler keeps when a byte, a literal or a binding is added to it.
use move.Base.{
  ℕ, zero, suc, ◌<◌, ◌≤◌, ◌≡◌, refl, sym, ap, ◌∙◌, inl, inr, ◌⊎◌, Option, none, some, List, [], ◌∷◌,
  ◌++◌, set, take, replicate, leb, All, Bool-cases, arith, length-append, length-set,
  length-replicate,
}
use mathlib.Core.List.{append_assoc, append-nil}
use mathlib.Core.Path.{subst}
use move.Value.{Value, same}
use move.Heap.{Heap}
use move.Buffer.{Buffer, buflength, grown, buf_append}
use move.Buffer.Append.{take-append}
use move.Compiler.Code.{Code, add_binding, vec_append, literal_in}
use move.Compiler.Growth.{Made, Deep, Kept, Keeps}

pub data In (l : ℕ) : List ℕ → Type 0 where
  here : {marks : List ℕ} → In l (l ∷ marks)
  there : {m : ℕ} {marks : List ℕ} → In l marks → In l (m ∷ marks)

pub in-All : (P : ℕ → Type 0) {l : ℕ} {marks : List ℕ} → In l marks → All P marks → P l
in-All P here (p, ps) = p
in-All P (there i) (p, ps) = in-All P i ps

take-set_behind :
    {A : Type 0} (p i : ℕ) (xs : List A) (v : A) → p ≤ i → take p (set xs i v) ≡ take p xs
take-set_behind zero i xs v le = refl
take-set_behind (suc p) i [] v le = refl
take-set_behind (suc p) zero (x ∷ xs) v le = absurd (omega (arith, le))
take-set_behind (suc p) (suc i) (x ∷ xs) v le =
    ap (λ ys. x ∷ ys) (take-set_behind p i xs v (omega (arith, le)))

-- Room for one more byte, behind the same bytes.
pub take-grown :
    (b : Buffer) (p : ℕ)
    → p ≤ b.pos
    → b.pos ≤ buflength b
    → (take p (grown b).buf ≡ take p b.buf) × (b.pos < buflength (grown b))
take-grown b p le bounded = elim (Bool-cases (leb (buflength b) b.pos)) [
  | inl full ↦ rw full (
    take-append b.buf (replicate 128 none) p (omega arith),
    ground (
      arith,
      length-append b.buf (replicate 128 none),
      length-replicate {A = Option ℕ} 128 none,
      bounded,
    ),
  )
  | inr room ↦ rw room (refl, ground (arith, bounded))
]

pub appended :
    {d : ℕ} {marks : List ℕ} {k : Kept} {c : Code} (ch : ℕ)
    → Keeps d marks k c
    → Keeps d marks k (record c { buf = buf_append c.buf ch })
unfolding buf_append
appended {k = k} {c = c} ch keeps =
    let (same, room) = take-grown c.buf k.start keeps.behind keeps.bounded in
    record {
      behind = omega (arith, keeps.behind);
      bounded = omega (arith, room, length-set (grown c.buf).buf c.buf.pos (some ch));
      same = λ lt.
          take-set_behind k.start c.buf.pos (grown c.buf).buf (some ch) keeps.behind
          ∙ (same ∙ keeps.same (omega (arith, lt)));
      marked = λ lt. keeps.marked (omega (arith, lt));
      scopes = keeps.scopes;
      literals = keeps.literals;
    }

pub with_scope :
    {d d' : ℕ} {marks : List ℕ} {k : Kept} {c : Code} (s : List (List Value))
    → Keeps d marks k c
    → Deep d' k.scope s
    → Keeps d' marks k (record c { scope = s })
with_scope s keeps deep = record {
  behind = keeps.behind;
  bounded = keeps.bounded;
  same = keeps.same;
  marked = keeps.marked;
  scopes = deep;
  literals = keeps.literals;
}

pub patched :
    {d : ℕ} {marks : List ℕ} {k : Kept} {c : Code} (o ch : ℕ)
    → Keeps d marks k c
    → (c.buf.pos < 0x1_0000 → k.start ≤ o)
    → Keeps d marks k (record c { buf = record c.buf { buf = set c.buf.buf o (some ch) } })
patched {k = k} {c = c} o ch keeps behind = record {
  behind = keeps.behind;
  bounded = omega (arith, keeps.bounded, length-set c.buf.buf o (some ch));
  same = λ lt. take-set_behind k.start o c.buf.buf (some ch) (behind lt) ∙ keeps.same lt;
  marked = keeps.marked;
  scopes = keeps.scopes;
  literals = keeps.literals;
}

-- A new literal stands behind the old ones.
pub literal_in-append :
    (lit : Value) (tab : List Value) → (more : List Value) × ((literal_in lit tab).1 ≡ tab ++ more)
unfolding literal_in
literal_in-append lit [] = (lit ∷ [], refl)
literal_in-append lit (x ∷ xs) =
    let (more, e) = literal_in-append lit xs in
    elim (Bool-cases (same x lit)) [
      | inl found ↦ ([], rw (found, append-nil xs) refl)
      | inr other ↦ (more, rw other (ap (λ ys. x ∷ ys) e))
    ]

tail_of : {A : Type 0} → List A → List A
tail_of [] = []
tail_of (x ∷ xs) = xs

bind-Deep :
    (name : Value) (s₀ : List (List Value)) (f : List Value) (outer : List (List Value))
    → (d : ℕ) → Deep d s₀ (f ∷ outer)
    → Deep d s₀ (vec_append f name ∷ outer)
unfolding tail_of
bind-Deep name [] f outer zero e = absurd (cc e)
bind-Deep name (g ∷ s) f outer zero (more, e) =
    (vec_append more name, cc (e, append_assoc g more (name ∷ [])))
bind-Deep name s₀ f outer (suc d) (g, o, is, deep) =
    (vec_append f name, outer, refl, subst (Deep d s₀) (sym (ap tail_of is)) deep)

pub scope-cases :
    (s : List (List Value))
    → (s ≡ []) ⊎ ((f : List Value) × (outer : List (List Value)) × (s ≡ f ∷ outer))
scope-cases [] = inl refl
scope-cases (f ∷ outer) = inr (f, outer, refl)

pub bound_in :
    {d : ℕ} {marks : List ℕ} (name : Value) (k : Kept) (c : Code) (h : Heap)
    → Keeps d marks k c
    → Made (λ a c'. Keeps d marks k c' × (c.buf.pos ≤ c'.buf.pos)) (add_binding name c h)
unfolding add_binding
bound_in {d = d} name k c h keeps = elim (scope-cases c.scope) [
  | inl e ↦ rw e tt
  | inr (f, outer, e) ↦ rw e (
    with_scope (vec_append f name ∷ outer) keeps
        (bind-Deep name k.scope f outer d (subst (Deep d k.scope) e keeps.scopes)),
    omega arith,
  )
]
