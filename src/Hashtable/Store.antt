-- ===== src/Hashtable/Store.antt =====
-- hashtable_put on a well-formed table.
use move.Base.{
  ℕ, suc, ◌%◌, ◌<◌, ◌≡◌, ◌≢◌, refl, false, ◌∷◌, if◌then◌else◌, arith, inl, inr, Bool-cases, pos, [],
}
use move.Value.{Value, null, num, ref, num_half, same}
use move.Heap.{Heap}
use move.Heap.Laws.{at-ovector, Yields, yields, follow, weaken}
use move.Hashtable.{hashtable_put}
use move.Hashtable.Chain.{
  Links, Link, has, has_key, replace_link, has-replace_link, IsBounded, length-le-fresh, lt_of_cell,
}
use move.Hashtable.Invariant.{Hashes, IsTable, Belongs, AllBelong, KeepsHashes, bucket-mod}
use move.Hashtable.Put.{put_loop-absent}
use move.Hashtable.Rebuild.{Changed, with_bucket, rebuild_changed, Changed-IsBounded}
use move.Hashtable.Front.{put_front-Changed}
use move.Hashtable.Replace.{put_loop-Changed}

-- What put makes of a chain, and of the count.
abbrev pub insert_link : Value → ℕ → Links → Links
insert_link key p xs = if has_key key xs then replace_link key p xs else (p, key) ∷ xs

abbrev pub insert_count : Value → Links → ℕ → ℕ
insert_count key xs count = if has_key key xs then count else suc count

AllBelong-replace_link :
    {h : Heap} (n i : ℕ) (key : Value) (p : ℕ) (xs : Links)
    → Belongs h n i key
    → AllBelong h n i xs
    → AllBelong h n i (replace_link key p xs)
AllBelong-replace_link n i key p [] b all = tt
AllBelong-replace_link n i key p ((q, k) ∷ xs) b all = elim (Bool-cases (same k key)) [
  | inl e ↦ rw e (b, all.1)
  | inr e ↦ rw e (all.0, AllBelong-replace_link n i key p xs b all.1)
]

module _ {h : Heap} {t n count k : ℕ} {buckets : ℕ → Links} {key : Value} {p : ℕ} {w : Value} where
  put-Changed :
      IsBounded h
      → (is : IsTable h t n count buckets) → Hashes h key k
      → Link h p key w
      → p ≢ t
      → ((i : ℕ) → i < n → has p (buckets i) ≡ false)
      → suc count < num_half
      → let xs = buckets (k % n) in
        Yields
          (λ _.
            Changed h t is.finalize
              (insert_count key xs count)
              is.heads
              (k % n)
              p
              xs
              (insert_link key p xs))
          (hashtable_put (ref t) key (ref p) h)
  unfolding hashtable_put
  put-Changed bounded is hashes new ne unlinked fits =
      let positive = is.positive in
      let i = k % n in
      let less : i < n = grind arith in
      let b = is.bucket_at i less in
      let found = at-ovector h t (suc i) (num (pos count) ∷ is.heads) is.holds b.at_index in
      let bound = length-le-fresh bounded b.chain in
      rw (bucket-mod is hashes, found)
        (elim (Bool-cases (has_key key (buckets i))) [
          | inl e ↦ rw e (
              follow
                (put_loop-Changed i is.holds key new ne (suc h.fresh) b.at_index b.chain b.apart
                  (unlinked i less) (omega arith) e)
                λ done g (d, c). rw d (yields c))
          | inr e ↦
              rw
                (
                  e,
                  put_loop-absent (ref t) (suc i) key (suc h.fresh) (ref p) null b.chain
                      (omega arith) e,
                )
                (put_front-Changed i is.holds b.at_index b.chain b.apart key new ne
                  (unlinked i less) fits)
        ])

  -- Putting a link into a well-formed table of which it is no link terminates, and leaves a
  -- well-formed table: in the chain of the key the new link stands in place of the link that held
  -- the key, or in front, and only then the count grows by one. The other chains and the hashes of
  -- all symbols stay, and addresses that were not handed out hold nothing still.
  pub hashtable_put-IsTable :
      IsBounded h
      → IsTable h t n count buckets
      → Hashes h key k
      → Link h p key w
      → p ≢ t
      → ((i : ℕ) → i < n → has p (buckets i) ≡ false)
      → suc count < num_half
      → let xs = buckets (k % n) in
        Yields
          (λ _ g.
            IsTable g t n
              (insert_count key xs count)
              (with_bucket buckets (k % n) (insert_link key p xs))
            × KeepsHashes h g
            × IsBounded g)
          (hashtable_put (ref t) key (ref p) h)
  hashtable_put-IsTable bounded is hashes new ne unlinked fits =
      let positive = is.positive in
      let i = k % n in
      let less : i < n = grind arith in
      let b = is.bucket_at i less in
      let belongs : Belongs h n i key = (k, hashes, refl) in
      weaken (put-Changed bounded is hashes new ne unlinked fits) λ _ g c. (
        rebuild_changed is less (λ j lj nj. unlinked j lj) c
            (elim (Bool-cases (has_key key (buckets i))) [
              | inl e ↦ rw e (AllBelong-replace_link n i key p (buckets i) belongs b.belong)
              | inr e ↦ rw e (belongs, b.belong)
            ])
            (ground (arith, b.apart, has-replace_link key p t (buckets i))),
        c.keep,
        Changed-IsBounded bounded (lt_of_cell h bounded p new.holds)
            (lt_of_cell h bounded t is.holds) b.chain c,
      )
