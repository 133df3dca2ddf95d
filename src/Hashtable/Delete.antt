-- ===== src/Hashtable/Delete.antt =====
-- hashtable_remove on a well-formed table.
use move.Base.{ℕ, suc, ◌%◌, ◌<◌, ◌∷◌, arith, inl, inr, Bool-cases, pos, []}
use move.Value.{Value, num, ref, same}
use move.Heap.{Heap}
use move.Heap.Laws.{at-ovector, Yields, weaken}
use move.Hashtable.{hashtable_remove}
use move.Hashtable.Chain.{
  Links, remove_link, has-remove_link, IsBounded, length-le-fresh, lt_of_cell,
}
use move.Hashtable.Invariant.{Hashes, IsTable, AllBelong, KeepsHashes, bucket-mod}
use move.Hashtable.Rebuild.{Changed, with_bucket, rebuild_changed, Changed-IsBounded}
use move.Hashtable.Remove.{remove_loop-Changed}

AllBelong-remove_link :
    (h : Heap) (n i : ℕ) (key : Value) (xs : Links)
    → AllBelong h n i xs
    → AllBelong h n i (remove_link key xs)
AllBelong-remove_link h n i key [] all = tt
AllBelong-remove_link h n i key ((q, k) ∷ xs) all = elim (Bool-cases (same k key)) [
  | inl e ↦ rw e all.1
  | inr e ↦ rw e (all.0, AllBelong-remove_link h n i key xs all.1)
]

module _ {h : Heap} {t n count k : ℕ} {buckets : ℕ → Links} {key : Value} where
  remove-Changed :
      IsBounded h
      → (is : IsTable h t n count buckets) → Hashes h key k
      → let xs = buckets (k % n) in
        Yields
          (λ _. Changed h t is.finalize count is.heads (k % n) t xs (remove_link key xs))
          (hashtable_remove (ref t) key h)
  unfolding hashtable_remove
  remove-Changed bounded is hashes =
      let positive = is.positive in
      let i = k % n in
      let less : i < n = grind arith in
      let b = is.bucket_at i less in
      let found = at-ovector h t (suc i) (num (pos count) ∷ is.heads) is.holds b.at_index in
      let bound = length-le-fresh bounded b.chain in
      rw (bucket-mod is hashes, found)
        (remove_loop-Changed i is.holds key (suc h.fresh) b.at_index b.chain b.apart (omega arith))

  -- Removing a key from a well-formed table terminates, and leaves a well-formed table in which the
  -- first link of the key is gone from its chain. The other chains and the hashes of all symbols
  -- stay, and so does the count, also when a link was removed. Addresses that were not handed out
  -- hold nothing still.
  pub hashtable_remove-IsTable :
      IsBounded h
      → IsTable h t n count buckets
      → Hashes h key k
      → Yields
          (λ _ g.
            IsTable g t n count (with_bucket buckets (k % n) (remove_link key (buckets (k % n))))
            × KeepsHashes h g
            × IsBounded g)
          (hashtable_remove (ref t) key h)
  hashtable_remove-IsTable bounded is hashes =
      let positive = is.positive in
      let i = k % n in
      let less : i < n = grind arith in
      let b = is.bucket_at i less in
      weaken (remove-Changed bounded is hashes) λ _ g c. (
        rebuild_changed is less (λ j lj nj. (is.bucket_at j lj).apart) c
            (AllBelong-remove_link h n i key (buckets i) b.belong)
            (has-remove_link key t (buckets i) b.apart),
        c.keep,
        Changed-IsBounded bounded (lt_of_cell h bounded t is.holds)
            (lt_of_cell h bounded t is.holds) b.chain c,
      )
