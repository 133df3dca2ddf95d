-- ===== src/Vm/Object/Install.antt =====
-- install_PRIM_object of move/PRIM.object.c: the numbers and the names of the primitives.
use Prim.Native.String.{String}
use move.Base.{ℕ, List, [], ◌∷◌, pos}
use move.Heap.{Cmd, pure, ◌>>◌}
use move.Text.{codes}
use move.Vm.Primitives.{Primtab, PrimFn, register_prim}
use move.Vm.Object.{setup_ancestor}
use move.Vm.Object.Owners.{
  clone_fun, priv_fun, set_priv_fun, get_o_flags_fun, set_o_flags_fun, owner_fun, set_owner_fun,
  group_fun, set_group_fun, parents_fun, set_parents_fun,
}
use move.Vm.Object.Attributes.{
  slot_ref_fun, slot_set_fun, add_slot_fun, slot_owner_fun, set_slot_owner_fun, slot_flags_fun,
  set_slot_flags_fun, get_slots_fun, has_slot_fun, slot_clear_p_fun, clear_slot_fun,
}
use move.Vm.Object.Methods.{
  add_meth_fun, meth_owner_fun, set_meth_owner_fun, meth_flags_fun, set_meth_flags_fun,
  meth_name_fun, get_methods_fun, has_meth_fun, meth_ref_fun,
}
use move.Vm.Object.Places.{
  move_to_fun, location_fun, contents_fun, isa_fun, strip_obj_fun, strip_obj_m_fun, strip_obj_s_fun,
}

-- The arguments of a call of register_prim.
abbrev pub Registration : Type 0
Registration = ℕ × String × ℕ × PrimFn

unfoldable pub register_all : List Registration → Primtab → Primtab
register_all [] tab = tab
register_all ((primargc, name, number, fn) ∷ rest) tab =
    register_all rest (register_prim (pos primargc) (codes name) number fn tab)

-- `depth` and `tab` are those that the primitives raise with, `self` is the number of the current
-- thread, and `locking` and `unlocking` are lockObjFun and unlockObjFun on the threads of the program.
module _ (depth : ℕ) (tab : Primtab) (self : ℕ) (locking unlocking : PrimFn) where
  abbrev pub registrations : List Registration
  registrations =
      (1, "clone", 0x4001, clone_fun depth tab self)
      ∷ (1, "privileged?", 0x4002, priv_fun depth tab)
      ∷ (2, "set-privileged", 0x4003, set_priv_fun depth tab)
      ∷ (1, "object-flags", 0x4004, get_o_flags_fun depth tab)
      ∷ (2, "set-object-flags", 0x4005, set_o_flags_fun depth tab)
      ∷ (1, "owner", 0x4006, owner_fun depth tab)
      ∷ (2, "set-owner", 0x4007, set_owner_fun depth tab)
      ∷ (1, "group", 0x4008, group_fun depth tab)
      ∷ (2, "set-group", 0x4009, set_group_fun depth tab)
      ∷ (1, "parents", 0x400a, parents_fun depth tab)
      ∷ (2, "set-parents", 0x400b, set_parents_fun depth tab)
      ∷ (1, "lock", 0x400c, locking)
      ∷ (1, "unlock", 0x400d, unlocking)
      ∷ (2, "slot-ref", 0x400e, slot_ref_fun depth tab)
      ∷ (3, "slot-set", 0x400f, slot_set_fun depth tab)
      ∷ (3, "add-slot", 0x4010, add_slot_fun depth tab)
      ∷ (2, "slot-owner", 0x4011, slot_owner_fun depth tab)
      ∷ (3, "set-slot-owner", 0x4012, set_slot_owner_fun depth tab)
      ∷ (2, "slot-flags", 0x4013, slot_flags_fun depth tab)
      ∷ (3, "set-slot-flags", 0x4014, set_slot_flags_fun depth tab)
      ∷ (2, "move-to", 0x4015, move_to_fun depth tab)
      ∷ (1, "location", 0x4016, location_fun depth tab)
      ∷ (1, "contents", 0x4017, contents_fun depth tab)
      ∷ (3, "add-method", 0x4018, add_meth_fun depth tab)
      ∷ (1, "method-owner", 0x4019, meth_owner_fun depth tab)
      ∷ (2, "set-method-owner", 0x401a, set_meth_owner_fun depth tab)
      ∷ (1, "method-flags", 0x401b, meth_flags_fun depth tab)
      ∷ (2, "set-method-flags", 0x401c, set_meth_flags_fun depth tab)
      ∷ (1, "method-name", 0x401d, meth_name_fun depth tab)
      ∷ (1, "slots", 0x401d, get_slots_fun depth tab)
      ∷ (1, "methods", 0x401e, get_methods_fun depth tab)
      ∷ (2, "isa", 0x401f, isa_fun depth tab)
      ∷ (2, "has-slot", 0x4020, has_slot_fun depth tab)
      ∷ (2, "has-method", 0x4021, has_meth_fun depth tab)
      ∷ (2, "slot-clear?", 0x4022, slot_clear_p_fun depth tab)
      ∷ (2, "method-ref", 0x4023, meth_ref_fun depth tab)
      ∷ (1, "strip-object-clean", 0x4024, strip_obj_fun depth tab)
      ∷ (1, "strip-object-methods", 0x4025, strip_obj_m_fun depth tab)
      ∷ (1, "strip-object-slots", 0x4026, strip_obj_s_fun depth tab)
      ∷ (2, "clear-slot", 0x4027, clear_slot_fun depth tab)
      ∷ []

  unfoldable pub install_prim_object : Primtab → Cmd Primtab
  install_prim_object table = do setup_ancestor self; pure (register_all registrations table)
