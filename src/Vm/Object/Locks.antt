-- ===== src/Vm/Object/Locks.antt =====
-- lockObjFun and unlockObjFun of move/PRIM.object.c. They work on the threads besides the registers.
use move.Base.{ℕ, ◌+◌, ◌-◌, false, not, ◌&&◌, ltb, ◌==◌, if◌then◌else◌, pos, negsuc}
use move.Value.{Value, null, same, yield_thread, move_true, move_false}
use move.Heap.{Cmd, pure, ◌>>=◌, is_object, test}
use move.Perms.{privileged}
use move.Thread.{Threads, block_ctxt_locking}
use move.Thread.Schedule.{lock, unlock, block_thread}
use move.Vm.Registers.{Vms}
use move.Vm.Primitives.{Primtab}
use move.Vm.Compound.{arg, typeerrif, raise_undefined}
use move.Vm.Object.{permitted}

-- A part of the function that leaves the threads.
abbrev pub leaving : Threads → Cmd (Value × Vms) → Cmd (Value × Vms × Threads)
leaving s m = do (v, vms) ← m; pure (v, vms, s)

module _ (depth : ℕ) (tab : Primtab) where
  unfoldable pub lock_obj_fun : Vms → Value → Threads → Cmd (Value × Vms × Threads)
  lock_obj_fun vms argvec s = do
    x ← arg argvec 0
    isobj ← test (is_object x)
    allowed ← if isobj then privileged vms.effuid else pure false
    if not isobj
        then leaving s (raise_undefined depth tab "type-error" argvec vms)
        else if not allowed
        then leaving s (raise_undefined depth tab "no-permission" argvec vms)
        else if ltb 0 vms.locked_count && not (same vms.locked x)
        then leaving s (raise_undefined depth tab "multiple-locks-disallowed" x vms)
        else (do
          let vms' = record vms { locked = x; locked_count = vms.locked_count + 1 }
          result ← lock x s
          elim result [
            | negsuc n ↦ do s' ← block_thread block_ctxt_locking x s; pure (yield_thread, vms', s')
            | pos n ↦ pure (move_true, vms', s)
          ])

  unfoldable pub unlock_obj_fun : Vms → Value → Threads → Cmd (Value × Vms × Threads)
  unlock_obj_fun vms argvec s = leaving s (do
    x ← arg argvec 0
    isobj ← test (is_object x)
    typeerrif depth tab (not isobj) argvec vms (do
      allowed ← privileged vms.effuid
      permitted depth tab allowed argvec vms (
          if not (same vms.locked x) then pure (move_false, vms) else (do
            let left = vms.locked_count - 1
            let vms' =
                if left == 0
                then record vms { locked = null; locked_count = 0 }
                else record vms { locked_count = left }
            result ← unlock x
            pure (move_true, vms')))))
