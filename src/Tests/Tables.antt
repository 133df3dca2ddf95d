-- ===== src/Tests/Tables.antt =====
-- The theorems on hash tables at a table of two chains.
use move.Base.{
  ℕ, zero, suc, ◌<◌, ◌≡◌, refl, false, List, [], ◌∷◌, get_elem?, get_elem?-none, arith, pos,
}
use move.Value.{null, num, ref, same, Body, ovector, vector, t_symbol, t_hashtable, t_slot}
use move.Heap.{Heap, ok, ◌>>◌}
use move.Heap.Laws.{Yields}
use move.Hashtable.{hashtable_get, hashtable_put, hashtable_remove}
use move.Hashtable.Chain.{Links, Link, nil, cons, IsBounded, has, remove_link}
use move.Hashtable.Invariant.{Hashes, IsTable, IsBucket, KeepsHashes}
use move.Hashtable.Rebuild.{with_bucket}
use move.Hashtable.Get.{hashtable_get-find}
use move.Hashtable.Store.{hashtable_put-IsTable, insert_link, insert_count}
use move.Base.{◌≢◌}
use move.Hashtable.{newhashtable}
use move.Hashtable.Fresh.{newhashtable-IsTable}
use move.Hashtable.Delete.{hashtable_remove-IsTable}
use move.Hashtable.Lookup.{hashtable_get-put}

-- Two symbols with the hashes 5 and 7, a table that links the first, and a link of the second.
abbrev bodies : List Body
bodies =
    vector []
    ∷ ovector false t_symbol (null ∷ null ∷ null ∷ num (pos 5) ∷ [])
    ∷ ovector false t_symbol (null ∷ null ∷ null ∷ num (pos 7) ∷ [])
    ∷ ovector false t_hashtable (num (pos 1) ∷ null ∷ ref 4 ∷ [])
    ∷ ovector false t_slot (ref 1 ∷ null ∷ [])
    ∷ ovector false t_slot (ref 2 ∷ null ∷ [])
    ∷ []

abbrev heap : Heap
heap = record {
  cell = get_elem? bodies;
  fresh = 6;
  all_objects = [];
  curr_heapsize = 0;
  symtab = null;
}

abbrev buckets : ℕ → Links
buckets zero = []
buckets (suc zero) = (4, ref 1) ∷ []
buckets (suc (suc i)) = []

heap-IsBounded : IsBounded heap
heap-IsBounded a le = get_elem?-none bodies a le

first-Hashes : Hashes heap (ref 1) 5
first-Hashes = record {
  address = 1;
  is_ref = refl;
  finalize = false;
  slots = null ∷ null ∷ null ∷ num (pos 5) ∷ [];
  holds = refl;
  hash = refl;
}

second-Hashes : Hashes heap (ref 2) 7
second-Hashes = record {
  address = 2;
  is_ref = refl;
  finalize = false;
  slots = null ∷ null ∷ null ∷ num (pos 7) ∷ [];
  holds = refl;
  hash = refl;
}

old-Link : Link heap 4 (ref 1) null
old-Link = record { finalize = false; type = t_slot; rest = []; holds = refl }

new-Link : Link heap 5 (ref 2) null
new-Link = record { finalize = false; type = t_slot; rest = []; holds = refl }

IsBucket-at : (i : ℕ) → i < 2 → IsBucket heap 3 2 i (null ∷ ref 4 ∷ []) (buckets i)
IsBucket-at zero less = record {
  head = null;
  at_index = refl;
  chain = nil;
  belong = tt;
  apart = refl;
}
IsBucket-at (suc zero) less = record {
  head = ref 4;
  at_index = refl;
  chain = cons old-Link refl nil;
  belong = ((5, first-Hashes, refl), tt);
  apart = refl;
}
IsBucket-at (suc (suc i)) less = absurd (omega arith)

table : IsTable heap 3 2 1 buckets
table = record {
  positive = omega arith;
  finalize = false;
  heads = null ∷ ref 4 ∷ [];
  holds = refl;
  width = refl;
  bucket_at = IsBucket-at;
}

unlinked : (i : ℕ) → i < 2 → has 5 (buckets i) ≡ false
unlinked zero less = refl
unlinked (suc zero) less = refl
unlinked (suc (suc i)) less = refl

hashtable_get-find_example : hashtable_get (ref 3) (ref 1) heap ≡ ok (ref 4) heap
unfolding same
hashtable_get-find_example = hashtable_get-find heap-IsBounded table first-Hashes

hashtable_put-IsTable_example :
    Yields
      (λ _ g.
        IsTable g 3 2
          (insert_count (ref 2) (buckets 1) 1)
          (with_bucket buckets 1 (insert_link (ref 2) 5 (buckets 1)))
        × KeepsHashes heap g
        × IsBounded g)
      (hashtable_put (ref 3) (ref 2) (ref 5) heap)
hashtable_put-IsTable_example =
    hashtable_put-IsTable heap-IsBounded table second-Hashes new-Link (omega arith) unlinked
      (omega arith)

hashtable_get-put_example :
    Yields
      (λ v g. v ≡ ref 4)
      ((hashtable_put (ref 3) (ref 2) (ref 5) >> hashtable_get (ref 3) (ref 1)) heap)
unfolding same
hashtable_get-put_example =
    hashtable_get-put heap-IsBounded table second-Hashes first-Hashes new-Link (omega arith)
      unlinked (omega arith)

hashtable_remove-IsTable_example :
    Yields
      (λ _ g.
        IsTable g 3 2 1 (with_bucket buckets 1 (remove_link (ref 1) (buckets 1)))
        × KeepsHashes heap g
        × IsBounded g)
      (hashtable_remove (ref 3) (ref 1) heap)
hashtable_remove-IsTable_example = hashtable_remove-IsTable heap-IsBounded table first-Hashes

newhashtable-IsTable_example :
    Yields
      (λ v g. (v ≡ ref 6) × IsTable g 6 19 0 (λ i. []) × ((a : ℕ) → a ≢ 6 → g.cell a ≡ heap.cell a))
      (newhashtable 19 heap)
newhashtable-IsTable_example = newhashtable-IsTable 19 heap (omega arith) (omega arith)
