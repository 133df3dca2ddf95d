-- ===== src/Tests/Inheritance.antt =====
-- The search for a slot at an object with one parent, and the permissions on the slot.
use move.Base.{
  ℕ, zero, suc, ◌<◌, ◌≡◌, inl, inr, refl, false, List, [], ◌∷◌, get_elem?, get_elem?-none, arith,
  pos,
}
use move.Value.{
  Value, null, num, ref, same, Body, ObjectRec, object, ovector, vector, t_symbol, t_hashtable,
  t_slot,
}
use move.Heap.{Heap, ok, object_of, body_of}
use move.Hashtable.Chain.{nil, cons, IsBounded}
use move.Hashtable.Invariant.{IsTable, IsBucket, Hashes}
use move.Hashtable.Get.{hashtable_get-find}
use move.Value.{o_all_r}
use move.Heap.Laws.{at-ovector}
use move.Perms.{ms_can}
use move.Perms.Groups.{Decides}
use move.Perms.Allowed.{AllowedMember, ms_can-Decides}
use move.Slots.{findslot}
use move.Slots.Search.{Search, attributes_of, findslot-Search}

abbrev object_with : Value → Value → ObjectRec
object_with attributes parents = record {
  finalize = false;
  flags = 0xf00;
  methods = null;
  attributes = attributes;
  parents = parents;
  owner = null;
  group = null;
  location = null;
  contents = null;
  lock = record { counter = 0; owner_threadnum = 0 };
}

-- The child at 1 has an empty table, and the vector of parents at 2; the parent at 3 has the slot at 7
-- under the symbol at 6.
abbrev family : List Body
family =
    vector []
    ∷ object (object_with (ref 4) (ref 2))
    ∷ vector (ref 3 ∷ [])
    ∷ object (object_with (ref 5) null)
    ∷ ovector false t_hashtable (num (pos 0) ∷ null ∷ [])
    ∷ ovector false t_hashtable (num (pos 1) ∷ ref 7 ∷ [])
    ∷ ovector false t_symbol (null ∷ null ∷ null ∷ num (pos 5) ∷ [])
    ∷ ovector false t_slot (ref 6 ∷ null ∷ num (pos 0) ∷ num (pos 42) ∷ null ∷ [])
    ∷ []

abbrev heap : Heap
heap = record {
  cell = get_elem? family;
  fresh = 8;
  all_objects = [];
  curr_heapsize = 0;
  symtab = null;
}

heap-IsBounded : IsBounded heap
heap-IsBounded a le = get_elem?-none family a le

name-Hashes : Hashes heap (ref 6) 5
name-Hashes = record {
  address = 6;
  is_ref = refl;
  finalize = false;
  slots = null ∷ null ∷ null ∷ num (pos 5) ∷ [];
  holds = refl;
  hash = refl;
}

empty-IsBucket : (i : ℕ) → i < 1 → IsBucket heap 4 1 i (null ∷ []) []
empty-IsBucket zero less = record {
  head = null;
  at_index = refl;
  chain = nil;
  belong = tt;
  apart = refl;
}
empty-IsBucket (suc i) less = absurd (omega arith)

full-IsBucket : (i : ℕ) → i < 1 → IsBucket heap 5 1 i (ref 7 ∷ []) ((7, ref 6) ∷ [])
full-IsBucket zero less = record {
  head = ref 7;
  at_index = refl;
  chain =
      cons
        (record {
          finalize = false;
          type = t_slot;
          rest = num (pos 0) ∷ num (pos 42) ∷ null ∷ [];
          holds = refl;
        })
        refl nil;
  belong = ((5, name-Hashes, refl), tt);
  apart = refl;
}
full-IsBucket (suc i) less = absurd (omega arith)

child-IsTable : IsTable heap 4 1 0 (λ i. [])
child-IsTable = record {
  positive = omega arith;
  finalize = false;
  heads = null ∷ [];
  holds = refl;
  width = refl;
  bucket_at = empty-IsBucket;
}

parent-IsTable : IsTable heap 5 1 1 (λ i. (7, ref 6) ∷ [])
parent-IsTable = record {
  positive = omega arith;
  finalize = false;
  heads = ref 7 ∷ [];
  holds = refl;
  width = refl;
  bucket_at = full-IsBucket;
}

slot_of_parent : Search heap attributes_of (ref 6) 1 (ref 3) (ref 7, ref 3)
unfolding object_of body_of same
slot_of_parent = (
  object_with (ref 5) null,
  ref 7,
  refl,
  hashtable_get-find heap-IsBounded parent-IsTable name-Hashes,
  inl (refl, refl),
)

slot_of_child : Search heap attributes_of (ref 6) 2 (ref 1) (ref 7, ref 3)
unfolding object_of body_of
slot_of_child = (
  object_with (ref 4) (ref 2),
  null,
  refl,
  hashtable_get-find heap-IsBounded child-IsTable name-Hashes,
  inr (refl, inr (inr (2, ref 3 ∷ [], refl, refl, inl (slot_of_parent, refl)))),
)

findslot-Search_example : findslot (ref 1) (ref 6) heap ≡ ok (ref 7, ref 3) heap
findslot-Search_example =
    findslot-Search (ref 6) 2 (ref 1) (ref 7, ref 3) slot_of_child (omega arith)

child-is_object : object_of (ref 1) heap ≡ ok (object_with (ref 4) (ref 2)) heap
unfolding object_of body_of
child-is_object = refl

abbrev slot_cells : List Value
slot_cells = ref 6 ∷ null ∷ num (pos 0) ∷ num (pos 42) ∷ null ∷ []

ms_can-Decides_example :
    Decides heap
      (AllowedMember heap o_all_r (pos 0) null (ref 1))
      (ms_can o_all_r (ref 7) (ref 1) heap)
ms_can-Decides_example =
    ms_can-Decides heap (ref 1) (inr (object_with (ref 4) (ref 2), child-is_object)) o_all_r (ref 7)
      (pos 0) null (at-ovector heap 7 2 slot_cells refl refl)
      (at-ovector heap 7 4 slot_cells refl refl)
