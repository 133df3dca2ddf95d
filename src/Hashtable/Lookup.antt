-- ===== src/Hashtable/Lookup.antt =====
-- What hashtable_get finds after hashtable_put.
use move.Base.{
  ℕ, suc, ◌%◌, ◌<◌, ◌≡◌, ◌≢◌, refl, true, false, ◌∷◌, if◌then◌else◌, arith, inl, inr, Bool-cases,
  [], ◌==◌, ap, sym,
}
use mathlib.Core.Path.{subst}
use move.Value.{Value, ref, same, num_half}
use move.Value.Laws.{same→eq}
use move.Heap.{Heap, ◌>>◌}
use move.Heap.Laws.{Yields, follow, yields}
use move.Hashtable.{hashtable_put, hashtable_get}
use move.Hashtable.Chain.{Links, Link, has, has_key, replace_link, find_link, IsBounded}
use move.Hashtable.Get.{hashtable_get-find}
use move.Hashtable.Invariant.{Hashes, IsTable, Hashes-unique}
use move.Hashtable.Rebuild.{with_bucket}
use move.Hashtable.Store.{insert_link, hashtable_put-IsTable}

find_link-replace_link :
    (key other : Value) (p : ℕ) (xs : Links)
    → has_key key xs ≡ true
    → find_link other (replace_link key p xs)
      ≡ (if same key other then ref p else find_link other xs)
find_link-replace_link key other p [] e = absurd (cc)
find_link-replace_link key other p ((q, k) ∷ xs) e = elim (Bool-cases (same k key)) [
  | inl hit ↦
      let agree : same k other ≡ same key other = ap (λ x. same x other) (same→eq k key hit) in
      rw (hit, agree) (ground arith)
  | inr miss ↦
      ground (arith, find_link-replace_link key other p xs, same→eq key other, same→eq k other)
]

find_link-insert_link :
    (key other : Value) (p : ℕ) (xs : Links)
    → find_link other (insert_link key p xs)
      ≡ (if same key other then ref p else find_link other xs)
find_link-insert_link key other p xs = elim (Bool-cases (has_key key xs)) [
  | inl e ↦ rw e (find_link-replace_link key other p xs e)
  | inr e ↦ rw e refl
]

-- The links of another key are found as before, those of the key are the new one.
find_link-with_bucket :
    {h : Heap} {key other : Value} {j k : ℕ} (n p : ℕ) (buckets : ℕ → Links)
    → Hashes h key k
    → Hashes h other j
    → find_link other (with_bucket buckets (k % n) (insert_link key p (buckets (k % n))) (j % n))
      ≡ (if same key other then ref p else find_link other (buckets (j % n)))
find_link-with_bucket {h} {key} {other} {j} {k} n p buckets s s' =
    elim (Bool-cases (k % n == j % n)) [
      | inl e ↦
          let same_index : k % n ≡ j % n = ground arith in
          rw (e, same_index) (find_link-insert_link key other p (buckets (j % n)))
      | inr e ↦ elim (Bool-cases (same key other)) [
        | inl hit ↦
            let eq = same→eq key other hit in
            let hashes_eq : k ≡ j = Hashes-unique s (subst (λ x. Hashes h x j) (sym eq) s') in
            absurd (ground arith)
        | inr miss ↦ rw (e, miss) refl
      ]
    ]

-- On a well-formed table, hashtable_put and then hashtable_get terminate: the key that was put gives
-- the new link, and any other symbol gives the link that it had before.
pub hashtable_get-put :
    {h : Heap} {t n count j k : ℕ} {buckets : ℕ → Links} {key other : Value} {p : ℕ} {w : Value}
    → IsBounded h
    → IsTable h t n count buckets
    → Hashes h key k
    → Hashes h other j
    → Link h p key w
    → p ≢ t
    → ((i : ℕ) → i < n → has p (buckets i) ≡ false)
    → suc count < num_half
    → Yields
        (λ v g. v ≡ (if same key other then ref p else find_link other (buckets (j % n))))
        ((hashtable_put (ref t) key (ref p) >> hashtable_get (ref t) other) h)
hashtable_get-put {h} {t} {n} {j} {k} {buckets} {key} {other} {p} bounded is hashes hashes' new ne
      unlinked fits =
    follow (hashtable_put-IsTable bounded is hashes new ne unlinked fits)
      λ _ g (is', keep, bounded').
        rw (hashtable_get-find bounded' is' (keep other j hashes'))
          (yields (find_link-with_bucket n p buckets hashes hashes'))
