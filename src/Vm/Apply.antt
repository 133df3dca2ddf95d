-- ===== src/Vm/Apply.antt =====
-- apply_closure and vm_raise of move/vm.c, which call one another. `depth` bounds how deep these
-- calls nest, as the C stack does.
use move.Base.{
  ℕ, zero, suc, ◌+◌, Bool, true, not, none, some, ltb, ◌==◌, ◌||◌, if◌then◌else◌, ℤ, pos, negsuc,
  eq_ℤ, sub_ℕ,
}
use Prim.Native.String.{String}
use move.Value.{
  Value, null, ovector, t_prim, t_closure, t_continuation, cl_method, cl_self, me_name, me_code,
  me_lits, me_env, me_owner, me_argc, pr_number, cont_frame, cont_stack, o_all_x, o_setuid,
}
use move.Heap.{
  Cmd, pure, stop, no_fuel, ◌>>=◌, ◌>>◌, at, atput, body_of, num_of, length_of, is_null, tagged,
}
use move.Alloc.{newvector_noinit}
use move.Text.{codes}
use move.Symbols.{newsym}
use move.Perms.{ms_can, flag_set}
use move.Vm.Registers.{Vms, dying, push_frame, restoreframe, copy_cells, getcont_from}
use move.Vm.Primitives.{Primtab, lookup_prim}

-- Applies a closure to an argument vector.
abbrev pub Applier : Type 0
Applier = Value → Value → Vms → Cmd Vms

-- vm_raise, over the apply_closure that it calls.
unfoldable pub raise_with : Applier → Value → Value → Vms → Cmd Vms
raise_with apply exception arg vms =
    if is_null vms.trap_closure then pure (record vms { state = dying }) else do
      argvec ← newvector_noinit 5
      v ← push_frame vms
      atput argvec 0 null
      atput argvec 1 exception
      atput argvec 2 arg
      cont ← getcont_from v
      atput argvec 3 cont
      atput argvec 4 v.acc
      w ← apply v.trap_closure argvec (record v { top = 0 })
      pure (record w { frame = null })

-- `vm_raise(vms, newsym(name), arg)`
unfoldable pub throw_with : Applier → String → Value → Vms → Cmd Vms
throw_with apply name arg vms = do
  exception ← newsym (codes name)
  raise_with apply exception arg vms

-- `closure->type`. On anything but an opaque vector there is no such field.
unfoldable pub ovector_type : Value → Cmd ℕ
unfolding body_of
ovector_type x = do b ← body_of x; elim b [ ovector f t xs ↦ pure t | _ ↦ stop ]

-- `(primargc >= 0 && argc != primargc) || (primargc < 0 && argc < -primargc)`
unfoldable pub wrong_argc : ℤ → ℤ → Bool
wrong_argc (pos n) argc = not (eq_ℤ argc (pos n))
wrong_argc (negsuc n) (pos argc) = ltb argc (n + 1)
wrong_argc (negsuc n) (negsuc argc) = true

pub apply_prim : Applier → Primtab → Applier
apply_prim again tab closure argvec vms = do
  n ← at closure pr_number
  k ← num_of n
  len ← length_of argvec
  elim k [
    | negsuc j ↦ stop
    | pos j ↦ elim (lookup_prim j tab) [
      | none ↦ throw_with again "invalid-primitive" n vms
      | some p ↦
          if wrong_argc p.primargc (sub_ℕ len 1)
          then throw_with again "wrong-argc" closure vms
          else do (result, v) ← p.fn vms argvec; pure (record v { acc = result })
    ]
  ]

-- The effective owner after a call of `meth`.
unfoldable pub effuid_of : Value → Value → Cmd Value
effuid_of meth effuid = do
  setuid ← flag_set meth o_setuid
  if setuid then at meth me_owner else pure effuid

-- The registers on entry to a method, whose frame was pushed.
unfoldable pub enter_method : (meth self argvec : Value) → Vms → Cmd Vms
enter_method meth self argvec v = do
  env ← at meth me_env
  atput argvec 0 env
  lits ← at meth me_lits
  code ← at meth me_code
  effuid ← effuid_of meth v.effuid
  pure (record v {
    env = argvec;
    lits = lits;
    code = code;
    self = self;
    ip = pos 0;
    method = meth;
    effuid = effuid;
  })

pub apply_method : Applier → Applier
apply_method again closure argvec vms = do
  meth ← at closure cl_method
  allowed ← ms_can o_all_x meth vms.effuid
  if allowed
      then (do
        len ← length_of argvec
        argc ← num_of (← at meth me_argc)
        if eq_ℤ (sub_ℕ len 1) argc
            then (do v ← push_frame vms; self ← at closure cl_self; enter_method meth self argvec v)
            else throw_with again "wrong-argc" meth vms)
      else (do name ← at meth me_name; throw_with again "no-permission" name vms)

unfoldable pub apply_continuation : Applier
apply_continuation closure argvec vms = do
  cstk ← at closure cont_stack
  len ← length_of cstk
  copy_cells cstk vms.stack len 0
  frame ← at closure cont_frame
  v ← restoreframe frame (record vms { top = len })
  result ← at argvec 1
  pure (record v { acc = result })

-- apply_closure, at a depth of calls.
unfoldable pub apply_depth : ℕ → Primtab → Applier
unfolding apply_prim apply_method
apply_depth zero tab closure argvec vms = no_fuel
apply_depth (suc d) tab closure argvec vms =
    let again = apply_depth d tab in
    if is_null closure || tagged closure
    then throw_with again "invalid-callable" closure vms
    else do
      type ← ovector_type closure
      if type == t_prim
          then apply_prim again tab closure argvec vms
          else if type == t_closure
          then apply_method again closure argvec vms
          else if type == t_continuation
          then apply_continuation closure argvec vms
          else throw_with again "invalid-callable" closure vms

-- `vm_raise(vms, newsym(name), arg)` at a depth of calls.
unfoldable pub throw : ℕ → Primtab → String → Value → Vms → Cmd Vms
throw d tab = throw_with (apply_depth d tab)
