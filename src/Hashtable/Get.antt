-- ===== src/Hashtable/Get.antt =====
-- hashtable_get finds the first link of the key's chain that holds the key.
use move.Base.{ℕ, zero, suc, ◌%◌, ◌<◌, ◌≡◌, refl, ◌∷◌, length, arith, inl, inr, Bool-cases, pos}
use move.Value.{Value, num, ref, same, hashlink_name, hashlink_next}
use move.Heap.{Heap, ok, at}
use move.Heap.Laws.{at-ovector}
use move.Hashtable.{get_loop, hashtable_get}
use move.Hashtable.Chain.{Links, Link, Chain, nil, cons, find_link, IsBounded, length-le-fresh}
use move.Hashtable.Invariant.{Hashes, IsTable, bucket-mod}

module _ {h : Heap} where
  pub at-name : {p : ℕ} {k v : Value} → Link h p k v → at (ref p) hashlink_name h ≡ ok k h
  at-name {p} {k} {v} l = at-ovector h p 0 (k ∷ v ∷ l.rest) l.holds refl

  pub at-next : {p : ℕ} {k v : Value} → Link h p k v → at (ref p) hashlink_next h ≡ ok v h
  at-next {p} {k} {v} l = at-ovector h p 1 (k ∷ v ∷ l.rest) l.holds refl

  get_loop-find :
      (fuel : ℕ) (key : Value) {v : Value} {xs : Links}
      → Chain h v xs
      → length xs < fuel
      → get_loop fuel key v h ≡ ok (find_link key xs) h
  unfolding get_loop
  get_loop-find zero key c m = absurd (omega arith)
  get_loop-find (suc fuel) key nil m = refl
  get_loop-find (suc fuel) key (cons {k} {xs} l out c) m = elim (Bool-cases (same k key)) [
    | inl e ↦ rw (at-name l, e) refl
    | inr e ↦ rw (at-name l, e, at-next l) (get_loop-find fuel key c (omega arith))
  ]

  -- On a well-formed table hashtable_get terminates with the first link of the key's chain that
  -- holds the key, or NULL, and leaves the heap as it is.
  pub hashtable_get-find :
      {t n count k : ℕ} {buckets : ℕ → Links} {key : Value}
      → IsBounded h
      → IsTable h t n count buckets
      → Hashes h key k
      → hashtable_get (ref t) key h ≡ ok (find_link key (buckets (k % n))) h
  unfolding hashtable_get
  hashtable_get-find {t} {n} {count} {k} {key} bounded is hashes =
      let positive = is.positive in
      let b = is.bucket_at (k % n) (grind arith) in
      let found = at-ovector h t (suc (k % n)) (num (pos count) ∷ is.heads) is.holds b.at_index in
      rw (bucket-mod is hashes, found)
        (get_loop-find (suc h.fresh) key b.chain (ground (arith, length-le-fresh bounded b.chain)))
