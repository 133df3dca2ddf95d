-- ===== src/Vm/Registers/Frames.antt =====
-- Frames: what push_frame saves, and what restoreframe and the return give back.
use move.Base.{
  ℕ, suc, ◌+◌, ◌<◌, ◌≤◌, ◌≡◌, ◌≢◌, refl, Bool, false, some, ◌∷◌, arith, ℤ, pos, negsuc, replicate,
  pos_part, neg_part, ap, ◌∙◌,
}
use move.Value.{null, num, ref, ovector, mknum, t_frame}
use move.Value.Laws.{mknum_fits}
use move.Heap.{Heap, Run, ok, update, num_of, getmem}
use move.Heap.Laws.{at-ovector, Yields, yields, follow}
use move.Alloc.{newovector}
use move.Vm.Registers.{Vms, push_frame, restoreframe, frame_slots, u32_of, i32_of}
use move.Vm.Registers.Copies.{fill_slots-Writes}

-- The new frame is at address `h.fresh`, and no other cell changed.
pub record Framed (h : Heap) (vms v : Vms) (g : Heap) : Type 0 where
  pub registers : v ≡ record vms { frame = ref h.fresh }
  pub saved : g.cell h.fresh ≡ some (ovector false t_frame (frame_slots vms))
  pub others : (a : ℕ) → a ≢ h.fresh → g.cell a ≡ h.cell a

-- push_frame allocates a frame that holds the eight saved registers, makes it the current frame and
-- changes nothing else.
pub push_frame-Framed : (vms : Vms) (h : Heap) → Yields (Framed h vms) (push_frame vms h)
unfolding push_frame newovector getmem
push_frame-Framed vms h =
    let start = record h {
      cell = update h.cell h.fresh (some (ovector false t_frame (replicate 8 null)));
      fresh = suc h.fresh;
      all_objects = h.fresh ∷ h.all_objects;
      curr_heapsize = h.curr_heapsize + 88;
    } in
    follow
      (fill_slots-Writes start h.fresh 0 (ovector false t_frame (replicate 8 null))
        (replicate 8 null) (frame_slots vms) (ground arith) refl (omega arith))
      λ _ g w.
        yields (record {
          registers = refl;
          saved = w.at_p;
          others = λ a ne. w.others a ne ∙ ground arith;
        })

-- An instruction pointer that fits `int32_t`.
abbrev pub FitsI32 : ℤ → Type 0
FitsI32 a = (pos_part a < 0x8000_0000) × (neg_part a ≤ 0x8000_0000)

i32_of-u32_of : (a : ℤ) → FitsI32 a → i32_of (pos (u32_of a)) ≡ a
i32_of-u32_of (pos n) fits = ground arith
i32_of-u32_of (negsuc n) fits = ground arith

u32_of-lt : (a : ℤ) → u32_of a < 0x1_0000_0000
u32_of-lt (pos n) = omega arith
u32_of-lt (negsuc n) = omega arith

-- The registers of `w`, with those that a frame saves taken from `vms`.
abbrev pub returned : Vms → Vms → Vms
returned vms w = record w {
  code = vms.code;
  ip = vms.ip;
  self = vms.self;
  lits = vms.lits;
  env = vms.env;
  frame = vms.frame;
  method = vms.method;
  effuid = vms.effuid;
}

-- From a heap in which the frame at `p` still holds what was saved of `vms`, restoreframe gives all
-- eight registers back, whatever the registers are by then.
pub restoreframe-saved :
    (vms w : Vms) (g : Heap) (p : ℕ) {f : Bool}
    → FitsI32 vms.ip
    → g.cell p ≡ some (ovector f t_frame (frame_slots vms))
    → restoreframe (ref p) w g ≡ ok (returned vms w) g
unfolding restoreframe num_of
restoreframe-saved vms w g p fits saved =
    let slots = frame_slots vms in
    let back = i32_of-u32_of vms.ip fits in
    let number : mknum (pos (u32_of vms.ip)) ≡ num (pos (u32_of vms.ip)) =
      mknum_fits (pos (u32_of vms.ip)) (omega (arith, u32_of-lt vms.ip)) (omega arith) in
    rw
      (
        at-ovector g p 0 slots saved refl,
        at-ovector g p 1 slots saved refl,
        number,
        at-ovector g p 2 slots saved refl,
        at-ovector g p 3 slots saved refl,
        at-ovector g p 4 slots saved refl,
        at-ovector g p 5 slots saved refl,
        at-ovector g p 6 slots saved refl,
        at-ovector g p 7 slots saved refl,
      )
      (ap {B = Run Vms} (λ x. ok (record (returned vms w) { ip = x }) g) back)
