-- ===== src/Vm/Primitives/Lookup.antt =====
-- What lookup_prim finds after register_prim.
use move.Base.{ℕ, ◌%◌, ◌≡◌, refl, some, List, ◌==◌, if◌then◌else◌, ℤ, arith, inl, inr, Bool-cases}
use move.Vm.Primitives.{PrimFn, Primtab, register_prim, lookup_prim, primtab_size}

-- The number of the newest registration gives its record; every other number gives what it gave
-- before, also in the same chain.
pub lookup_prim-register_prim :
    (primargc : ℤ) (name : List ℕ) (number : ℕ) (fn : PrimFn) (tab : Primtab) (other : ℕ)
    → lookup_prim other (register_prim primargc name number fn tab) ≡ (
        if number == other
        then some (record { name = name; primargc = primargc; number = number; fn = fn })
        else lookup_prim other tab)
unfolding lookup_prim register_prim
lookup_prim-register_prim primargc name number fn tab other =
    elim (Bool-cases (other % primtab_size == number % primtab_size)) [
      | inl e ↦ rw e refl
      | inr e ↦ elim (Bool-cases (number == other)) [
        | inl hit ↦ absurd (ground arith)
        | inr miss ↦ rw (e, miss) refl
      ]
    ]
