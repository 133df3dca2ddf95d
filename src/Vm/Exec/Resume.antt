-- ===== src/Vm/Exec/Resume.antt =====
-- Applying a continuation: the saved stack and frame are current again.
use move.Base.{
  ℕ, ◌<◌, ◌≤◌, ◌≡◌, ◌≢◌, refl, some, List, ◌∷◌, length, get_elem?, arith, ◌∙◌, [], Bool, false, ap,
}
use move.Value.{Value, ref, ovector, vector, t_frame, t_continuation}
use move.Heap.{Heap}
use move.Heap.Laws.{at-ovector, at-vector, length_of-vector, Yields, yields, follow}
use move.Vm.Registers.{Vms, frame_slots}
use move.Vm.Registers.Frames.{FitsI32, returned, restoreframe-saved}
use move.Vm.Registers.Copies.{copy_cells-Copied}
use move.Vm.Registers.Continuations.{IsCont}
use move.Vm.Apply.{apply_continuation}

-- The machine runs as it did when the continuation was made: the registers of the frame and the
-- stack pointer are back, the accumulator has the value, and the occupied stack is the saved one.
pub record Resumed (vms w : Vms) (top s : ℕ) (stack : List Value) (value : Value) (v : Vms)
    (g : Heap) : Type 0 where
  pub registers : v ≡ record (returned vms w) { top = top; acc = value }
  pub cells : List Value
  pub holds : g.cell s ≡ some (vector cells)
  pub same : (j : ℕ) → j < top → get_elem? cells j ≡ get_elem? stack j

-- Applying a continuation whose frame was saved of `vms` resumes `vms` with the first argument as the
-- accumulator, whatever the registers `w` are by then; the stack vector of `w` has room, and is none
-- of the vectors that are read.
pub apply_continuation-Resumed :
    (vms w : Vms) (g : Heap) {c p s av top : ℕ} {f : Bool} {stack ys args : List Value}
    {value : Value}
    → IsCont g c (ref p) top stack
    → FitsI32 vms.ip
    → g.cell p ≡ some (ovector f t_frame (frame_slots vms))
    → w.stack ≡ ref s
    → g.cell s ≡ some (vector ys)
    → top ≤ length ys
    → p ≢ s
    → c ≢ s
    → g.cell av ≡ some (vector args)
    → get_elem? args 1 ≡ some value
    → av ≢ s
    → (cont_apart : (a : ℕ)
        → g.cell c ≡ some (ovector false t_continuation (ref p ∷ ref a ∷ []))
        → a ≢ s)
    → Yields (Resumed vms w top s stack value) (apply_continuation (ref c) (ref av) w g)
unfolding apply_continuation
apply_continuation-Resumed vms w g {c} {p} {s} {av} {top} {stack} {ys} {args} {value} is fits frame
      is_stack holds room pne cne argv arg avne apart =
    let a = is.saved in
    let ne : a ≢ s = apart a is.holds in
    let width = is.width in
    rw
      (
        at-ovector g c 1 (ref p ∷ ref a ∷ []) is.holds refl,
        length_of-vector {h = g} a is.cells is.copy,
        is_stack,
      )
      (follow
        (copy_cells-Copied g a s 0 (length is.cells) (vector is.cells) (vector ys) is.cells ys ne
          is.copy refl holds refl (omega arith) (omega arith))
        λ _ g' (zs, copied, wr).
          rw
            (
              at-ovector g' c 0 (ref p ∷ ref a ∷ []) (wr.others c cne ∙ is.holds) refl,
              restoreframe-saved vms (record w { stack = ref s; top = length is.cells }) g' p fits
                  (wr.others p pne ∙ frame),
              at-vector g' av 1 args (wr.others av avne ∙ argv) arg,
            )
            (yields (record {
              registers =
                  ap (λ x. record (returned vms w) { stack = ref s; top = x; acc = value }) width;
              cells = zs;
              holds = wr.at_p;
              same = λ j less. ground (arith, copied.cells j, is.same j less);
            })))
