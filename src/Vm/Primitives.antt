-- ===== src/Vm/Primitives.antt =====
-- The table of primitives of move/prim.c. A primitive is a C function of the registers and the
-- argument vector.
pub mod Lookup
use move.Base.{
  ℕ, zero, suc, ◌-◌, ◌%◌, Bool, true, false, Option, none, some, List, [], ◌∷◌, ◌==◌, if◌then◌else◌,
  ℤ, pos, negsuc, eq_ℤ,
}
use move.Value.{Value, num, undefined, same, t_prim, sy_value, pr_number, mknum}
use move.Heap.{Cmd, pure, ◌>>=◌, ◌>>◌, at, atput}
use move.Alloc.{newovector}
use move.Symbols.{newsym}
use move.Vm.Registers.{Vms}

abbrev pub PrimFn : Type 0
PrimFn = Vms → Value → Cmd (Value × Vms)

-- struct primrec; `next` is the rest of the chain. Primitives have positive numbers.
pub record Primrec : Type 0 where
  pub name : List ℕ
  pub primargc : ℤ
  pub number : ℕ
  pub fn : PrimFn

abbrev pub primtab_size : ℕ
primtab_size = 419

abbrev pub Primtab : Type 0
Primtab = ℕ → List Primrec

pub init_prim : Primtab
init_prim hash = []

unfoldable pub register_prim : ℤ → List ℕ → ℕ → PrimFn → Primtab → Primtab
register_prim primargc name number fn tab hash =
    if hash == number % primtab_size
    then record { name = name; primargc = primargc; number = number; fn = fn } ∷ tab hash
    else tab hash

chain_lookup : ℕ → List Primrec → Option Primrec
chain_lookup number [] = none
chain_lookup number (p ∷ ps) = if p.number == number then some p else chain_lookup number ps

-- lookup_prim: the arity and the function together. A negative number has a negative index, which
-- is no chain of the table.
unfoldable pub lookup_prim : ℕ → Primtab → Option Primrec
unfolding chain_lookup
lookup_prim number tab = chain_lookup number (tab (number % primtab_size))

-- The body of the `while` of bind_primitives_to_symbols.
bind_prim : Primrec → Cmd (Unit {0})
unfolding same mknum
bind_prim p = do
  pname ← newsym p.name
  v ← at pname sy_value
  if same v undefined
      then (do
        pobj ← newovector 2 t_prim
        atput pobj 0 pname
        atput pobj pr_number (mknum (pos p.number))
        atput pname sy_value pobj)
      else pure tt

bind_chain : List Primrec → Cmd (Unit {0})
bind_chain [] = pure tt
bind_chain (p ∷ ps) = do bind_prim p; bind_chain ps

bind_chains : Primtab → ℕ → ℕ → Cmd (Unit {0})
bind_chains tab zero i = pure tt
bind_chains tab (suc n) i = do bind_chain (tab i); bind_chains tab n (suc i)

unfoldable pub bind_primitives_to_symbols : Primtab → Cmd (Unit {0})
unfolding bind_chains bind_chain bind_prim newsym
bind_primitives_to_symbols tab = bind_chains tab primtab_size 0
