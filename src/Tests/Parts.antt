-- ===== src/Tests/Parts.antt =====
-- The theorems on buffers, locks, primitives, symbols, permissions and methods at concrete inputs.
use move.Base.{
  ℕ, zero, suc, ◌<◌, ◌≡◌, ◌≢◌, ◌⊎◌, inr, refl, true, false, some, List, [], ◌∷◌, ◌++◌, get_elem?,
  get_elem?-none, replicate, arith, pos, negsuc,
}
use mathlib.Core.Path.{subst}
use move.Value.{
  Value, null, num, ref, Body, ObjectRec, object, bvector, ovector, vector, t_symbol, t_hashtable,
  o_all_x,
}
use move.Heap.{Heap, ok, object_of, body_of, is_vector}
use move.Heap.Laws.{Yields}
use move.Objects.{vector_clone}
use move.Objects.Clone.{vector_clone-vector}
use move.Buffer.{newbuf}
use move.Buffer.Append.{Holds, append_all, append_all-Holds}
use move.Recmutex.{recmutex_lock}
use move.Recmutex.Nesting.{held_by, lock_times, unlock_times, nested_lock}
use move.Vm.Primitives.{PrimFn, init_prim, register_prim, lookup_prim}
use move.Vm.Primitives.Lookup.{lookup_prim-register_prim}
use move.Symbols.{newsym, hash_str}
use move.Symbols.Prefix.{newsym-prefix}
use move.Text.{codes}
use move.Perms.{in_group_fuel, o_can}
use move.Perms.Groups.{Within, Nested, members, Decides, in_group-Decides}
use move.Perms.Allowed.{Allowed, o_can-Decides}
use move.Slots.{findmethod_fuel}
use move.Hashtable.Chain.{nil, IsBounded}
use move.Hashtable.Invariant.{IsTable, IsBucket, Hashes}
use move.Hashtable.Get.{hashtable_get-find}
use move.Slots.Find.{LacksMethod, findmethod-diverges}

one_byte : Holds (newbuf 1) []
unfolding newbuf
one_byte = record { written = refl; bounded = omega arith }

append_all-Holds_example : Holds (append_all (newbuf 1) (10 ∷ 20 ∷ 30 ∷ [])) (10 ∷ 20 ∷ 30 ∷ [])
append_all-Holds_example = append_all-Holds (newbuf 1) [] (10 ∷ 20 ∷ 30 ∷ []) one_byte

nested_lock_example :
    let held = lock_times 2 7 (held_by 0 0) in
    let m = unlock_times 1 held in
    ((recmutex_lock 7 m).0 ≡ pos 0)
    × (recmutex_lock 8 m ≡ (negsuc 0, m))
    × (recmutex_lock 8 (unlock_times 2 held) ≡ (pos 0, held_by 8 1))
nested_lock_example = nested_lock 2 1 7 8 0 (omega arith) (omega arith)

abbrev answer : PrimFn
answer vms argvec h = ok (num (pos 42), vms) h

lookup_prim-register_prim_example :
    lookup_prim 420 (register_prim (pos 0) (97 ∷ []) 1 answer init_prim) ≡ lookup_prim 420 init_prim
lookup_prim-register_prim_example =
    lookup_prim-register_prim (pos 0) (97 ∷ []) 1 answer init_prim 420

-- The symbol "a" is in the bucket that "aaajk" hashes to.
abbrev symbols : Heap
symbols = record {
  cell = get_elem? (
      vector []
      ∷ vector (replicate 97 null ++ (ref 2 ∷ replicate 2033 null))
      ∷ ovector false t_symbol (ref 3 ∷ null ∷ null ∷ num (pos 97) ∷ [])
      ∷ bvector (codes "a")
      ∷ []);
  fresh = 4;
  all_objects = [];
  curr_heapsize = 0;
  symtab = ref 1;
}

newsym-prefix_example : newsym (codes "aaajk") symbols ≡ ok (ref 2) symbols
unfolding hash_str
newsym-prefix_example = newsym-prefix (codes "a") (codes "aajk") refl refl refl (record {
  finalize = false;
  string = 3;
  rest = null ∷ null ∷ num (pos 97) ∷ [];
  holds = refl;
  bytes = refl;
})

abbrev plain_object : Value → Value → ObjectRec
plain_object group methods = record {
  finalize = false;
  flags = 0xf0;
  methods = methods;
  attributes = null;
  parents = ref 0;
  owner = null;
  group = group;
  location = null;
  contents = null;
  lock = held_by 0 0;
}

-- The user at 4 is in a vector that is in the group of the object at 1. The object at 1 has an empty
-- vector of parents, and no method in its table at 5; the symbol at 6 names none.
abbrev things : List Body
things =
    vector []
    ∷ object (plain_object (ref 2) (ref 5))
    ∷ vector (ref 3 ∷ [])
    ∷ vector (ref 4 ∷ [])
    ∷ object (plain_object null (ref 5))
    ∷ ovector false t_hashtable (num (pos 0) ∷ null ∷ [])
    ∷ ovector false t_symbol (null ∷ null ∷ null ∷ num (pos 5) ∷ [])
    ∷ []

abbrev objects : Heap
objects = record {
  cell = get_elem? things;
  fresh = 7;
  all_objects = [];
  curr_heapsize = 0;
  symtab = null;
}

inner_items :
    (i : ℕ) (x : Value)
    → get_elem? (ref 4 ∷ []) i ≡ some x
    → is_vector x objects ≡ true
    → Nested objects 0 x
inner_items zero x e vec = absurd (
    let v =
      subst (λ z. is_vector z objects ≡ true) (let q : x ≡ ref 4 = ground (arith, e) in q) vec in
    cc)
inner_items (suc i) x e vec = absurd (cc)

outer_items :
    (i : ℕ) (x : Value)
    → get_elem? (ref 3 ∷ []) i ≡ some x
    → is_vector x objects ≡ true
    → Nested objects 1 x
outer_items zero x e vec =
    subst (Nested objects 1) (let q : ref 3 ≡ x = ground (arith, e) in q) (members refl inner_items)
outer_items (suc i) x e vec = absurd (cc)

group-Nested : Nested objects 2 (ref 2)
group-Nested = members refl outer_items

in_group-Decides_example :
    Decides objects (Within objects (ref 4) (ref 2)) (in_group_fuel 3 (ref 4) (ref 2) objects)
in_group-Decides_example = in_group-Decides objects (ref 4) 2 3 (ref 2) group-Nested (omega arith)

object_of-user : object_of (ref 4) objects ≡ ok (plain_object null (ref 5)) objects
unfolding object_of body_of
object_of-user = refl

object_of-thing : object_of (ref 1) objects ≡ ok (plain_object (ref 2) (ref 5)) objects
unfolding object_of body_of
object_of-thing = refl

o_can-Decides_example :
    Decides objects
      (Allowed objects o_all_x (plain_object (ref 2) (ref 5)) (ref 4))
      (o_can o_all_x (ref 1) (ref 4) objects)
o_can-Decides_example =
    o_can-Decides objects (ref 4) (inr (plain_object null (ref 5), object_of-user)) o_all_x 2
      (ref 1) (plain_object (ref 2) (ref 5)) object_of-thing group-Nested (omega arith)

methods_at : (i : ℕ) → i < 1 → IsBucket objects 5 1 i (null ∷ []) []
methods_at zero less = record {
  head = null;
  at_index = refl;
  chain = nil;
  belong = tt;
  apart = refl;
}
methods_at (suc i) less = absurd (omega arith)

methods : IsTable objects 5 1 0 (λ i. [])
methods = record {
  positive = omega arith;
  finalize = false;
  heads = null ∷ [];
  holds = refl;
  width = refl;
  bucket_at = methods_at;
}

objects-IsBounded : IsBounded objects
objects-IsBounded a le = get_elem?-none things a le

name-Hashes : Hashes objects (ref 6) 5
name-Hashes = record {
  address = 6;
  is_ref = refl;
  finalize = false;
  slots = null ∷ null ∷ null ∷ num (pos 5) ∷ [];
  holds = refl;
  hash = refl;
}

thing-LacksMethod : LacksMethod objects (ref 6) (ref 1) []
thing-LacksMethod = record {
  o = plain_object (ref 2) (ref 5);
  is_obj = object_of-thing;
  no_own = hashtable_get-find objects-IsBounded methods name-Hashes;
  vec = 0;
  parents = refl;
  holds = refl;
}

findmethod-diverges_example : findmethod_fuel 100 (ref 6) (ref 1) objects ≢ ok null objects
findmethod-diverges_example =
    findmethod-diverges (ref 6) thing-LacksMethod (λ j x e. absurd (cc)) 100 null objects

vector_clone-vector_example :
    Yields
      (λ v g.
        (q : ℕ) × (v ≡ ref q)
        × ((q ≡ 7) ⊎ ((q ≡ 0) × (ref 3 ∷ [] ≡ [])))
        × (g.cell q ≡ some (vector (ref 3 ∷ [])))
        × ((a : ℕ) → a < 7 → g.cell a ≡ objects.cell a))
      (vector_clone (ref 2) objects)
vector_clone-vector_example =
    vector_clone-vector objects 2 (ref 3 ∷ []) refl (omega arith) (omega arith) refl
