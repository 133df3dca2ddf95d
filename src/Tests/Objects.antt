-- ===== src/Tests/Objects.antt =====
-- The theorems on the primitives on objects at concrete inputs.
use move.Base.{ℕ, zero, suc, ◌≡◌, refl, false, some, List, [], ◌∷◌, get_elem?, All, arith}
use mathlib.Core.Path.{subst}
use move.Value.{Value, null, ref, ObjectRec, Body, object, vector}
use move.Heap.{Heap, object_of, body_of, at}
use move.Perms.{privileged}
use move.Perms.Groups.{Decides}
use move.Vm.Registers.{Vms}
use move.Vm.Primitives.{init_prim}
use move.Vm.Object.{real_isa}
use move.Vm.Object.Owners.{set_priv_fun, set_owner_fun, group_fun, set_group_fun, set_parents_fun}
use move.Vm.Object.Places.{move_to_fun}
use move.Vm.Object.Ancestry.{Descends, Lineage, child, real_isa-Decides}
use move.Vm.Object.Refusals.{Refused, setters-Refused}
use move.Tests.Threading.{registers}

abbrev object_under : Value → ObjectRec
object_under parents = record {
  finalize = false;
  flags = 0xf00;
  methods = null;
  attributes = null;
  parents = parents;
  owner = ref 3;
  group = null;
  location = null;
  contents = null;
  lock = record { counter = 0; owner_threadnum = 0 };
}

-- The object at 1 has the vector of parents at 2: the objects at 3 and 4. The one at 3 has a single
-- parent, the one at 4. The vectors at 5 and 6 hold arguments.
abbrev bodies : List Body
bodies =
    vector []
    ∷ object (object_under (ref 2))
    ∷ vector (ref 3 ∷ ref 4 ∷ [])
    ∷ object (object_under (ref 4))
    ∷ object (object_under null)
    ∷ vector (null ∷ ref 1 ∷ ref 3 ∷ [])
    ∷ vector (null ∷ ref 1 ∷ [])
    ∷ []

abbrev heap : Heap
heap = record {
  cell = get_elem? bodies;
  fresh = 7;
  all_objects = [];
  curr_heapsize = 0;
  symtab = null;
}

each_of :
    (P : Value → Type 0) (xs : List Value)
    → All P xs
    → (i : ℕ) (z : Value) → get_elem? xs i ≡ some z
    → P z
each_of P [] all i z e = absurd (cc)
each_of P (x ∷ xs) (first, others) zero z e = subst P (ground (arith, e)) first
each_of P (x ∷ xs) (first, others) (suc i) z e = each_of P xs others i z e

root-Lineage : (n : ℕ) → Lineage heap (suc n) (ref 4)
unfolding object_of body_of
root-Lineage n = child {o = object_under null} refl (each_of (Lineage heap n) [] tt)

single-Lineage : (n : ℕ) → Lineage heap (suc (suc n)) (ref 3)
unfolding object_of body_of
single-Lineage n =
    child {o = object_under (ref 4)} refl
      (each_of (Lineage heap (suc n)) (ref 4 ∷ []) (root-Lineage n, tt))

several-Lineage : Lineage heap 3 (ref 1)
unfolding object_of body_of
several-Lineage =
    child {o = object_under (ref 2)} refl
      (each_of (Lineage heap 2) (ref 3 ∷ ref 4 ∷ []) (single-Lineage 0, (root-Lineage 1, tt)))

real_isa-Decides_example :
    Decides heap (Descends heap (ref 4) (ref 1)) (real_isa (ref 1) (ref 4) heap)
real_isa-Decides_example = real_isa-Decides heap (ref 4) 3 (ref 1) several-Lineage (omega arith)

abbrev user : Vms
user = record registers { effuid = ref 3 }

setters-Refused_example :
    Refused 9 init_prim heap user (ref 6) (group_fun 9 init_prim)
    × Refused 9 init_prim heap user (ref 5) (set_priv_fun 9 init_prim)
    × Refused 9 init_prim heap user (ref 5) (set_owner_fun 9 init_prim)
    × Refused 9 init_prim heap user (ref 5) (set_group_fun 9 init_prim)
    × Refused 9 init_prim heap user (ref 5) (set_parents_fun 9 init_prim)
    × Refused 9 init_prim heap user (ref 5) (move_to_fun 9 init_prim)
unfolding at body_of privileged object_of
setters-Refused_example = setters-Refused 9 init_prim heap user (ref 6) (ref 5) refl refl refl refl
