-- ===== src/Tests/Strings.antt =====
-- The theorems on the primitives of strings at concrete inputs.
use move.Base.{
  ℕ, ◌+◌, ◌≤◌, ◌<◌, ◌≡◌, ◌⊎◌, refl, Option, none, some, List, [], ◌∷◌, ◌++◌, length, ◌==◌,
  if◌then◌else◌, arith, pos,
}
use move.Value.{null, num, ref, Body, bvector, vector}
use move.Heap.{Heap}
use move.Tests.Threading.{registers}
use move.Vm.Primitives.{init_prim}
use move.Vm.Compound.{section_fun, delete_fun, raise_undefined}
use move.Vm.Compound.Extents.{Extent, new_string, section-delete}

-- "hello", and the arguments of a section or a deletion of the three bytes behind the first.
abbrev hello_bytes : List ℕ
hello_bytes = 104 ∷ 101 ∷ 108 ∷ 108 ∷ 111 ∷ []

abbrev cells : ℕ → Option Body
cells n =
    if n == 1
    then some (bvector hello_bytes)
    else if n == 2
    then some (vector (null ∷ ref 1 ∷ num (pos 1) ∷ num (pos 3) ∷ []))
    else none

abbrev hello : Heap
hello = record {
  cell = cells;
  fresh = 3;
  all_objects = 2 ∷ 1 ∷ [];
  curr_heapsize = 0;
  symtab = null;
}

hello-Extent : Extent hello 2 hello_bytes 1 3
hello-Extent = record { self = null; x = 1; args = refl; string = refl; fits = omega arith }

section-delete_example :
    ((1 + 3 ≤ length hello_bytes)
      × (p s q : List ℕ) × (hello_bytes ≡ p ++ (s ++ q))
      × (length p ≡ 1)
      × (length s ≡ 3)
      × (section_fun 9 init_prim registers (ref 2) hello ≡ new_string registers s hello)
      × (delete_fun 9 init_prim registers (ref 2) hello ≡ new_string registers (p ++ q) hello))
    ⊎ ((length hello_bytes < 1 + 3)
        × (section_fun 9 init_prim registers (ref 2) hello
            ≡ raise_undefined 9 init_prim "range-error" (ref 2) registers hello)
        × (delete_fun 9 init_prim registers (ref 2) hello
            ≡ raise_undefined 9 init_prim "range-error" (ref 2) registers hello))
section-delete_example = section-delete 9 init_prim registers hello 2 hello_bytes 1 3 hello-Extent
