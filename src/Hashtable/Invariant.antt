-- ===== src/Hashtable/Invariant.antt =====
-- Well-formed tables: each chain holds the links whose keys hash to its index.
use move.Base.{
  ℕ, suc, ◌%◌, ◌<◌, ◌≡◌, ◌≢◌, Bool, true, false, some, List, [], ◌∷◌, ◌==◌, if◌then◌else◌, length,
  get_elem?, arith, pos, Bool-cases, inl, inr,
}
use mathlib.Core.Path.{subst}
use move.Value.{Value, num, ref, Body, ovector, t_hashtable, t_symbol, sy_hash}
use move.Heap.{Heap, ok, update, length_of, num_of, body_of}
use move.Heap.Laws.{at-ovector}
use move.Hashtable.{bucket, bucket_index}
use move.Hashtable.Chain.{Links, Link, Chain, nil, cons, has}

-- `key` is a symbol whose hash is the number `k`.
pub record Hashes (h : Heap) (key : Value) (k : ℕ) : Type 0 where
  pub address : ℕ
  pub is_ref : key ≡ ref address
  pub finalize : Bool
  pub slots : List Value
  pub holds : h.cell address ≡ some (ovector finalize t_symbol slots)
  pub hash : get_elem? slots sy_hash ≡ some (num (pos k))

-- `key` belongs into chain `i` of `n`.
abbrev pub Belongs : Heap → ℕ → ℕ → Value → Type 0
Belongs h n i key = (k : ℕ) × Hashes h key k × (k % n ≡ i)

abbrev pub AllBelong : Heap → ℕ → ℕ → Links → Type 0
AllBelong h n i [] = Unit
AllBelong h n i ((p, key) ∷ xs) = Belongs h n i key × AllBelong h n i xs

-- The head of chain `i` leads through the links `xs`, none of which is the table itself.
pub record IsBucket (h : Heap) (t n i : ℕ) (heads : List Value) (xs : Links) : Type 0 where
  pub head : Value
  pub at_index : get_elem? heads i ≡ some head
  pub chain : Chain h head xs
  pub belong : AllBelong h n i xs
  pub apart : has t xs ≡ false

-- The table at address `t` has `n` chains, `buckets i` being chain `i`, and says `count`.
pub record IsTable (h : Heap) (t n count : ℕ) (buckets : ℕ → Links) : Type 0 where
  pub positive : 0 < n
  pub finalize : Bool
  pub heads : List Value
  pub holds : h.cell t ≡ some (ovector finalize t_hashtable (num (pos count) ∷ heads))
  pub width : length heads ≡ n
  pub bucket_at : (i : ℕ) → i < n → IsBucket h t n i heads (buckets i)

module _ {h : Heap} {t n count k : ℕ} {buckets : ℕ → Links} {key : Value}
    (is : IsTable h t n count buckets) (hashes : Hashes h key k) where
  pub bucket-mod : bucket (ref t) key h ≡ ok (suc (k % n)) h
  unfolding bucket bucket_index length_of num_of body_of
  bucket-mod =
      let positive = is.positive in
      let w = is.width in
      rw hashes.is_ref (
        rw (at-ovector h hashes.address sy_hash hashes.slots hashes.holds hashes.hash, is.holds)
          (ground arith))

-- Symbols keep their hashes.
abbrev pub KeepsHashes : Heap → Heap → Type 0
KeepsHashes h g = (key : Value) (k : ℕ) → Hashes h key k → Hashes g key k

pub KeepsHashes-trans : (h g f : Heap) → KeepsHashes h g → KeepsHashes g f → KeepsHashes h f
KeepsHashes-trans h g f a b key k s = b key k (a key k s)

-- A write to a table, and a write to the next field of a link, keep the hashes of all symbols.
pub KeepsHashes-table :
    (h g : Heap) (t : ℕ) {f : Bool} {xs : List Value} (b : Body)
    → h.cell t ≡ some (ovector f t_hashtable xs)
    → g.cell ≡ update h.cell t (some b)
    → KeepsHashes h g
KeepsHashes-table h g t b e same key k s = record {
  address = s.address;
  is_ref = s.is_ref;
  finalize = s.finalize;
  slots = s.slots;
  holds = rw same (ground (arith, s.holds));
  hash = s.hash;
}

pub KeepsHashes-next :
    (h g : Heap) (p : ℕ) {f : Bool} {type : ℕ} {x y : Value} {xs : List Value} (v : Value)
    → h.cell p ≡ some (ovector f type (x ∷ y ∷ xs))
    → g.cell ≡ update h.cell p (some (ovector f type (x ∷ v ∷ xs)))
    → KeepsHashes h g
KeepsHashes-next h g p {f} {x} {y} {xs} v e same key k s = record {
  address = s.address;
  is_ref = s.is_ref;
  finalize = s.finalize;
  slots = if p == s.address then x ∷ v ∷ xs else s.slots;
  holds = rw same (ground (arith, s.holds));
  hash = ground (arith, s.holds, s.hash);
}

pub AllBelong-keep :
    {h g : Heap} (n i : ℕ) (xs : Links) → KeepsHashes h g → AllBelong h n i xs → AllBelong g n i xs
AllBelong-keep n i [] keep b = tt
AllBelong-keep n i ((p, key) ∷ xs) keep b =
    ((b.0.0, keep key b.0.0 b.0.1, b.0.2), AllBelong-keep n i xs keep b.1)

pub Hashes-unique : {h : Heap} {key : Value} {k j : ℕ} → Hashes h key k → Hashes h key j → k ≡ j
Hashes-unique a b = ground (arith, a.is_ref, b.is_ref, a.holds, b.holds, a.hash, b.hash)

pub Link-unique : {h : Heap} {p : ℕ} {k j v w : Value} → Link h p k v → Link h p j w → k ≡ j
Link-unique a b = ground (arith, a.holds, b.holds)

-- A link of a bucket, with its key.
pub Link-of_has :
    {h : Heap} {v : Value} {xs : Links} (n i a : ℕ)
    → Chain h v xs
    → AllBelong h n i xs
    → has a xs ≡ true
    → (k : Value) × (w : Value) × Link h a k w × Belongs h n i k
Link-of_has n i a nil b e = absurd (cc)
Link-of_has {h} n i a (cons {p} {k} {v} {xs} l out c) b e = elim (Bool-cases (a == p)) [
  | inl q ↦ (k, v, subst (λ x. Link h x k v) (ground arith) l, b.0)
  | inr q ↦ Link-of_has n i a c b.1 (ground arith)
]

-- Two chains of one table share no link.
pub has-other :
    {h : Heap} {t n count : ℕ} {buckets : ℕ → Links}
    → IsTable h t n count buckets
    → (i j a : ℕ) → i < n
    → j < n
    → i ≢ j
    → has a (buckets i) ≡ true
    → has a (buckets j) ≡ false
has-other {h} {n} {buckets} is i j a hi hj ne e = elim (Bool-cases (has a (buckets j))) [
  | inl q ↦
      let (k, v, l, (x, s, p)) =
        Link-of_has n i a (is.bucket_at i hi).chain (is.bucket_at i hi).belong e in
      let (k', v', l', (x', s', p')) =
        Link-of_has n j a (is.bucket_at j hj).chain (is.bucket_at j hj).belong q in
      let same_key : k' ≡ k = Link-unique l' l in
      let same_hash : x' ≡ x = Hashes-unique (subst (λ z. Hashes h z x') same_key s') s in
      absurd (ne (ground arith))
  | inr q ↦ q
]
