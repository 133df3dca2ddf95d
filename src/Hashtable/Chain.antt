-- ===== src/Hashtable/Chain.antt =====
-- Chains of links in the heap, as in a bucket of a hash table.
use move.Base.{
  ℕ, zero, suc, ◌<◌, ◌≡◌, ◌≢◌, refl, Bool, true, false, ◌||◌, none, some, List, [], ◌∷◌, ◌==◌,
  if◌then◌else◌, length, arith, ◌≤◌, ap, not, ◌&&◌, Bool-cases, inl, inr,
}
use move.Value.{Value, null, ref, Body, ovector, same}
use move.Heap.{Heap}

-- Address and key of each link, in order.
abbrev pub Links : Type 0
Links = List (ℕ × Value)

-- The opaque vector at `p` has key `k` and next link `v`.
pub record Link (h : Heap) (p : ℕ) (k v : Value) : Type 0 where
  pub finalize : Bool
  pub type : ℕ
  pub rest : List Value
  pub holds : h.cell p ≡ some (ovector finalize type (k ∷ v ∷ rest))

abbrev pub has : ℕ → Links → Bool
has a [] = false
has a ((p, k) ∷ xs) = (a == p) || has a xs

-- From `v` the next fields lead through the distinct links `xs` to NULL.
pub data Chain (h : Heap) : Value → Links → Type 0 where
  nil : Chain h null []
  cons :
      {p : ℕ} {k v : Value} {xs : Links}
      → Link h p k v
      → has p xs ≡ false
      → Chain h v xs
      → Chain h (ref p) ((p, k) ∷ xs)

-- The link of a key, as the loops find it: the first that holds the key.
abbrev pub find_link : Value → Links → Value
find_link key [] = null
find_link key ((p, k) ∷ xs) = if same k key then ref p else find_link key xs

abbrev pub has_key : Value → Links → Bool
has_key key [] = false
has_key key ((p, k) ∷ xs) = same k key || has_key key xs

-- The link of the key gives way to the link at `p`.
abbrev pub replace_link : Value → ℕ → Links → Links
replace_link key p [] = []
replace_link key p ((q, k) ∷ xs) =
    if same k key then (p, key) ∷ xs else (q, k) ∷ replace_link key p xs

-- The first link of the key is dropped.
abbrev pub remove_link : Value → Links → Links
remove_link key [] = []
remove_link key ((q, k) ∷ xs) = if same k key then xs else (q, k) ∷ remove_link key xs

pub has-replace_link :
    (key : Value) (p a : ℕ) (xs : Links)
    → has a xs ≡ false
    → a ≢ p
    → has a (replace_link key p xs) ≡ false
has-replace_link key p a [] out ne = refl
has-replace_link key p a ((q, k) ∷ xs) out ne = ground (arith, has-replace_link key p a xs)

pub has-remove_link :
    (key : Value) (a : ℕ) (xs : Links) → has a xs ≡ false → has a (remove_link key xs) ≡ false
has-remove_link key a [] out = refl
has-remove_link key a ((q, k) ∷ xs) out = ground (arith, has-remove_link key a xs)

module _ {h : Heap} where
  -- A chain survives any change that spares its links.
  pub frame :
      {g : Heap} {v : Value} {xs : Links}
      → Chain h v xs
      → ((a : ℕ) → has a xs ≡ true → g.cell a ≡ h.cell a)
      → Chain g v xs
  frame nil e = nil
  frame (cons {p} l out c) e =
      cons
        (record {
          finalize = l.finalize;
          type = l.type;
          rest = l.rest;
          holds = ground (arith, e p, l.holds);
        })
        out (frame c λ a i. e a (ground arith))

abbrev pub Distinct : Links → Type 0
Distinct [] = Unit
Distinct ((p, k) ∷ xs) = (has p xs ≡ false) × Distinct xs

pub Chain-Distinct : {h : Heap} {v : Value} {xs : Links} → Chain h v xs → Distinct xs
Chain-Distinct nil = tt
Chain-Distinct (cons l out c) = (out, Chain-Distinct c)

-- Addresses from `fresh` on hold nothing.
abbrev pub IsBounded : Heap → Type 0
IsBounded h = (a : ℕ) → h.fresh ≤ a → h.cell a ≡ none

pub lt_of_cell : (h : Heap) → IsBounded h → (a : ℕ) {b : Body} → h.cell a ≡ some b → a < h.fresh
lt_of_cell h bounded a e = ground (arith, bounded a)

pub lt_of_has :
    {h : Heap} {v : Value} {xs : Links}
    → IsBounded h
    → Chain h v xs
    → (a : ℕ) → has a xs ≡ true
    → a < h.fresh
lt_of_has bounded nil a e = absurd (cc)
lt_of_has {h} bounded (cons {p} l out c) a e =
    ground (arith, lt_of_cell h bounded p l.holds, lt_of_has bounded c a)

without : ℕ → Links → Links
without a [] = []
without a ((p, k) ∷ xs) = if a == p then without a xs else (p, k) ∷ without a xs

without-absent : (a : ℕ) (xs : Links) → has a xs ≡ false → without a xs ≡ xs
unfolding without
without-absent a [] e = refl
without-absent a ((p, k) ∷ xs) e = ground (arith, without-absent a xs)

length-without : (a : ℕ) (xs : Links) → Distinct xs → length xs ≤ suc (length (without a xs))
unfolding without
length-without a [] d = omega arith
length-without a ((p, k) ∷ xs) d =
    ground (arith, length-without a xs d.1, ap length (without-absent p xs d.0))

has-without : (a b : ℕ) (xs : Links) → has b (without a xs) ≡ (not (a == b) && has b xs)
unfolding without
has-without a b [] = ground arith
has-without a b ((p, k) ∷ xs) = ground (arith, has-without a b xs)

without-Distinct : (a : ℕ) (xs : Links) → Distinct xs → Distinct (without a xs)
unfolding without
without-Distinct a [] d = tt
without-Distinct a ((p, k) ∷ xs) d = elim (Bool-cases (a == p)) [
  | inl e ↦ rw e (without-Distinct a xs d.1)
  | inr e ↦ rw e (ground (arith, has-without a p xs), without-Distinct a xs d.1)
]

-- Distinct addresses below `n` are at most `n`.
pigeonhole :
    (n : ℕ) (xs : Links) → Distinct xs → ((a : ℕ) → has a xs ≡ true → a < n) → length xs ≤ n
pigeonhole zero [] d below = omega arith
pigeonhole zero ((p, k) ∷ xs) d below = absurd (omega (arith, below p (ground arith)))
pigeonhole (suc n) xs d below = omega (
  arith,
  length-without n xs d,
  pigeonhole n (without n xs) (without-Distinct n xs d)
      λ a e. ground (arith, below a, has-without n a xs),
)

-- A chain is no longer than the number of addresses that were handed out.
pub length-le-fresh :
    {h : Heap} {v : Value} {xs : Links} → IsBounded h → Chain h v xs → length xs ≤ h.fresh
length-le-fresh {h} {xs} bounded c = pigeonhole h.fresh xs (Chain-Distinct c) (lt_of_has bounded c)
