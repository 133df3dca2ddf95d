-- ===== src/Vm/Object/Refusals.antt =====
-- What the primitives of move/PRIM.object.c refuse to a user without privileges.
use move.Base.{ℕ, ◌≡◌, ◌⊎◌, inl, inr, refl, Bool, true, false}
use move.Value.{Value, move_false}
use move.Heap.{Heap, Cmd, ok, at}
use move.Perms.{privileged}
use move.Vm.Registers.{Vms}
use move.Vm.Primitives.{Primtab, PrimFn}
use move.Vm.Compound.{typeerrif, raise_undefined}
use move.Vm.Object.Owners.{set_priv_fun, set_owner_fun, group_fun, set_group_fun, set_parents_fun}
use move.Vm.Object.Places.{move_to_fun}

module _ (depth : ℕ) (tab : Primtab) (h : Heap) (vms : Vms) where
  -- The run is that of a type error, or returns false and leaves the registers and the heap.
  abbrev pub Refused : Value → PrimFn → Type 0
  Refused argvec prim =
      (prim vms argvec h ≡ raise_undefined depth tab "type-error" argvec vms h)
      ⊎ (prim vms argvec h ≡ ok (move_false, vms) h)

  typeerrif-cases :
      (argvec : Value) (c : Bool) (body : Cmd (Value × Vms))
      → body h ≡ ok (move_false, vms) h
      → (typeerrif depth tab c argvec vms body h
          ≡ raise_undefined depth tab "type-error" argvec vms h)
        ⊎ (typeerrif depth tab c argvec vms body h ≡ ok (move_false, vms) h)
  unfolding typeerrif
  typeerrif-cases argvec true body e = inl refl
  typeerrif-cases argvec false body e = inr e

  module _ (one two : Value) {x v : Value} (single : at one 1 h ≡ ok x h)
      (first : at two 1 h ≡ ok x h) (second : at two 2 h ≡ ok v h)
      (plain : privileged vms.effuid h ≡ ok false h) where
    -- To a user without privileges group, with one argument, and set-privileged, set-owner, set-group,
    -- set-parents and move-to, with two, answer with a type error or with false, whatever the
    -- arguments are; with false they leave the registers and the heap as they are.
    pub setters-Refused :
        Refused one (group_fun depth tab)
        × Refused two (set_priv_fun depth tab)
        × Refused two (set_owner_fun depth tab)
        × Refused two (set_group_fun depth tab)
        × Refused two (set_parents_fun depth tab)
        × Refused two (move_to_fun depth tab)
    unfolding set_priv_fun set_owner_fun group_fun set_group_fun set_parents_fun move_to_fun
    setters-Refused = (
      rw single (typeerrif-cases one _ _ (rw plain refl)),
      rw (first, second) (typeerrif-cases two _ _ (rw plain refl)),
      rw (first, second) (typeerrif-cases two _ _ (rw plain refl)),
      rw (first, second) (typeerrif-cases two _ _ (rw plain refl)),
      rw (first, second) (typeerrif-cases two _ _ (rw plain refl)),
      rw (first, second) (typeerrif-cases two _ _ (rw plain refl)),
    )
