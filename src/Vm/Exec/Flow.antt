-- ===== src/Vm/Exec/Flow.antt =====
-- Returns: a call saves the caller and OP_RET brings it back.
use mathlib.Core.Path.{subst}
use move.Base.{◌≡◌, refl, false, some, Bool, ap, ◌∙◌}
use move.Value.{ref, ovector, t_frame}
use move.Heap.{Heap, ok, is_null}
use move.Vm.Registers.{Vms, frame_slots, push_frame}
use move.Heap.Laws.{Yields, of_ok}
use move.Vm.Registers.Frames.{FitsI32, Framed, returned, restoreframe-saved, push_frame-Framed}
use move.Vm.Call.{op_ret}

-- OP_RET from a frame that was saved of `vms`.
op_ret-returned :
    (vms w : Vms) (g : Heap) {p : _} {f : Bool}
    → FitsI32 vms.ip
    → is_null vms.code ≡ false
    → w.frame ≡ ref p
    → g.cell p ≡ some (ovector f t_frame (frame_slots vms))
    → op_ret w g ≡ ok (false, returned vms w) g
unfolding op_ret
op_ret-returned vms w g {p} fits has_code frame saved =
    rw (frame, restoreframe-saved vms (record w { frame = ref p }) g p fits saved, has_code) refl

-- Once push_frame has ended, for a caller that has code and an instruction pointer of 32 bits, a
-- return restores the caller: with any later registers `w` whose frame is the pushed one, in any
-- later heap that keeps that frame, OP_RET gives back the caller's eight saved registers, keeps the
-- other registers and the heap, and the thread goes on.
pub push_frame-op_ret :
    (vms v w : Vms) (h g g' : Heap)
    → FitsI32 vms.ip
    → is_null vms.code ≡ false
    → push_frame vms h ≡ ok v g
    → w.frame ≡ v.frame
    → g'.cell h.fresh ≡ g.cell h.fresh
    → op_ret w g' ≡ ok (false, returned vms w) g'
push_frame-op_ret vms v w h g g' fits has_code pushed same_frame kept =
    let framed = of_ok (subst (Yields (Framed h vms)) pushed (push_frame-Framed vms h)) in
    op_ret-returned vms w g' fits has_code (same_frame ∙ ap (λ (x : Vms). x.frame) framed.registers)
      (kept ∙ framed.saved)
