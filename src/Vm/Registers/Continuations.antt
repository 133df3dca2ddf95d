-- ===== src/Vm/Registers/Continuations.antt =====
-- Continuations: what getcont_from saves, and what applying it gives back.
use move.Base.{
  ℕ, zero, suc, ◌+◌, ◌<◌, ◌≤◌, ◌≡◌, ◌≢◌, refl, false, some, List, [], ◌∷◌, length, get_elem?, arith,
  replicate, ap, ◌∙◌, length-replicate, ◌⊎◌, inl, inr, sym,
}
use move.Value.{Value, ref, indeterminate, ovector, vector, t_continuation}
use move.Heap.{Heap, update, getmem}
use move.Heap.Laws.{Yields, yields, follow}
use move.Heap.Writes.{atput-Writes}
use move.Alloc.{newovector_noinit, newvector_noinit}
use move.Vm.Registers.{Vms, getcont_from}
use move.Vm.Registers.Copies.{copy_cells-Copied}

-- `cont` is a continuation in `g` that holds the frame `frame` and the first `top` cells of `stack`.
pub record IsCont (g : Heap) (cont : ℕ) (frame : Value) (top : ℕ) (stack : List Value)
    : Type 0 where
  pub saved : ℕ
  pub cells : List Value
  pub holds : g.cell cont ≡ some (ovector false t_continuation (frame ∷ ref saved ∷ []))
  pub copy : g.cell saved ≡ some (vector cells)
  pub width : length cells ≡ top
  pub same : (j : ℕ) → j < top → get_elem? cells j ≡ get_elem? stack j

-- A new vector of `n` cells: the empty vector at address 0, or one at the next address.
pub record IsNew (h : Heap) (n : ℕ) (v : Value) (g : Heap) : Type 0 where
  pub address : ℕ
  pub is_ref : v ≡ ref address
  pub cells : List Value
  pub holds : g.cell address ≡ some (vector cells)
  pub width : length cells ≡ n
  pub others : (a : ℕ) → a < h.fresh → g.cell a ≡ h.cell a
  pub place : (address ≡ 0) ⊎ (address ≡ h.fresh)

pub newvector_noinit-IsNew :
    (n : ℕ) (h : Heap) → h.cell 0 ≡ some (vector []) → Yields (IsNew h n) (newvector_noinit n h)
unfolding newvector_noinit getmem
newvector_noinit-IsNew zero h zero_vector = yields (record {
  address = 0;
  is_ref = refl;
  cells = [];
  holds = zero_vector;
  width = refl;
  others = λ a l. refl;
  place = inl refl;
})
newvector_noinit-IsNew (suc n) h zero_vector = yields (record {
  address = h.fresh;
  is_ref = refl;
  cells = replicate (suc n) indeterminate;
  holds = ground arith;
  width = length-replicate (suc n) indeterminate;
  others = λ a l. ground arith;
  place = inr refl;
})

module _ (vms : Vms) (h : Heap) {s : ℕ} (stack : List Value) (is_stack : vms.stack ≡ ref s)
    (holds : h.cell s ≡ some (vector stack)) (room : vms.top ≤ length stack) (used : s < h.fresh)
    (not_zero : 0 < s) (zero_vector : h.cell 0 ≡ some (vector [])) where
  -- getcont_from returns a continuation that holds the frame and the occupied part of the stack,
  -- and leaves the stack as it is.
  pub getcont_from-IsCont :
      Yields
        (λ cont g.
          (c : ℕ) × (cont ≡ ref c)
          × IsCont g c vms.frame vms.top stack
          × (g.cell s ≡ some (vector stack)))
        (getcont_from vms h)
  unfolding getcont_from newovector_noinit getmem
  getcont_from-IsCont =
      let c = h.fresh in
      let blank = ovector false t_continuation (indeterminate ∷ indeterminate ∷ []) in
      let h₀ = record h {
        cell = update h.cell c (some blank);
        fresh = suc c;
        all_objects = c ∷ h.all_objects;
        curr_heapsize = h.curr_heapsize + 40;
      } in
      follow
        (atput-Writes h₀ c 0 blank (indeterminate ∷ indeterminate ∷ []) vms.frame (ground arith)
          refl (omega arith))
        λ _ h₁ w₁.
          let half = ovector false t_continuation (vms.frame ∷ indeterminate ∷ []) in
          follow (newvector_noinit-IsNew vms.top h₁ (w₁.others 0 (omega arith) ∙ ground arith))
            λ v h₂ new.
              let cont_kept : h₂.cell c ≡ some half =
                ground (arith, new.others c, w₁.at_p, w₁.still_fresh) in
              follow
                (atput-Writes h₂ c 1 half (vms.frame ∷ indeterminate ∷ []) v cont_kept refl
                  (omega arith))
                λ _ h₃ w₃.
                  let apart : c ≢ new.address = λ e. elim new.place [
                    | inl z ↦ omega arith
                    | inr z ↦ omega (arith, w₁.still_fresh)
                  ] in
                  let stack_apart : s ≢ new.address = λ e. elim new.place [
                    | inl z ↦ omega arith
                    | inr z ↦ omega (arith, w₁.still_fresh)
                  ] in
                  let stack_kept : h₃.cell s ≡ some (vector stack) =
                    w₃.others s (omega arith)
                    ∙ (new.others s (omega (arith, w₁.still_fresh))
                        ∙ (w₁.others s (omega arith) ∙ ground arith)) in
                  let new_kept : h₃.cell new.address ≡ some (vector new.cells) =
                    w₃.others new.address (λ e. apart (sym e)) ∙ new.holds in
                  rw (is_stack, new.is_ref)
                    (follow
                      (copy_cells-Copied h₃ s new.address 0 vms.top (vector stack)
                        (vector new.cells) stack new.cells stack_apart stack_kept refl new_kept refl
                        (omega arith) (omega (arith, new.width)))
                      λ _ g (zs, copied, w₄). yields (
                        c,
                        refl,
                        record {
                          saved = new.address;
                          cells = zs;
                          holds =
                              w₄.others c apart
                              ∙ (w₃.at_p
                                  ∙ ap
                                      (λ x.
                                        some (ovector false t_continuation (vms.frame ∷ x ∷ [])))
                                      new.is_ref);
                          copy = w₄.at_p;
                          width = copied.width ∙ new.width;
                          same = λ j less. ground (arith, copied.cells j);
                        },
                        w₄.others s stack_apart ∙ stack_kept,
                      ))
