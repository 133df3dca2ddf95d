-- ===== src/Vm/Exec/Quota.antt =====
-- The cycles of a thread.
use move.Base.{
  ℕ, zero, suc, ◌-◌, ◌≡◌, ◌≢◌, refl, true, false, arith, ℤ, pos, negsuc, eq_ℤ, ltb_ℤ, ◌-ℤ◌, ap, ◌∙◌,
}
use move.Value.{Value, null}
use move.Heap.{Heap, ok, is_null}
use move.Vm.Registers.{Vms, dying, vm_default_cpu_quota}
use move.Vm.Primitives.{Primtab}
use Prim.Native.String.{String}
use move.Heap.Laws.{and_then-eq-ok}
use move.Symbols.{newsym}
use move.Text.{codes}
use move.Vm.Apply.{throw, throw_with, raise_with}
use move.Vm.Exec.{charge}

not-one : (n : ℕ) → eq_ℤ (pos (suc (suc n))) (pos 1) ≡ false
unfolding eq_ℤ
not-one n = ground arith

one-one : eq_ℤ (pos 1) (pos 1) ≡ true
unfolding eq_ℤ
one-one = refl

minus_one : (n : ℕ) → pos (suc (suc n)) -ℤ pos 1 ≡ pos (suc n)
unfolding ◌-ℤ◌
minus_one n = ground arith

module _ (depth : ℕ) (tab : Primtab) (vms : Vms) (h : Heap) where
  charge-more :
      (n : ℕ)
      → vms.state ≡ pos (suc (suc n))
      → charge depth tab vms h ≡ ok (record vms { state = pos (suc n) }) h
  unfolding charge
  charge-more n e =
      let some_left : ltb_ℤ (pos 0) vms.state ≡ true = rw e (ground arith) in
      let not_last : eq_ℤ vms.state (pos 1) ≡ false = rw e (not-one n) in
      let less : vms.state -ℤ pos 1 ≡ pos (suc n) = rw e (minus_one n) in
      rw (some_left, not_last, less) refl

  charge-stay :
      (s : ℤ) → vms.state ≡ s → ltb_ℤ (pos 0) s ≡ false → charge depth tab vms h ≡ ok vms h
  unfolding charge
  charge-stay s e small =
      let none_left : ltb_ℤ (pos 0) vms.state ≡ false = rw e small in rw none_left refl

  -- Without a trap a raise kills the thread.
  throw-dying :
      (name : String) (arg : Value) {v : Vms} {g : Heap}
      → vms.trap_closure ≡ null
      → throw depth tab name arg vms h ≡ ok v g
      → v.state ≡ dying
  unfolding throw throw_with raise_with
  throw-dying name arg trap e =
      let (exception, f, made, rest) = and_then-eq-ok (newsym (codes name) h) _ e in
      let rest' = rw (ap is_null trap) at rest in ground (arith, rest')

-- What one instruction costs: a positive number of cycles falls by one, 0 and less stay.
abbrev pub ticked : ℤ → ℤ
ticked (pos n) = pos (n - 1)
ticked (negsuc n) = negsuc n

module _ (depth : ℕ) (tab : Primtab) (vms : Vms) (h : Heap) where
  ticked-state :
      (s : ℤ)
      → vms.state ≡ s
      → s ≢ pos 1
      → charge depth tab vms h ≡ ok (record vms { state = ticked s }) h
  ticked-state (pos zero) e ne =
      charge-stay depth tab vms h (pos zero) e refl ∙ ap (λ x. ok (record vms { state = x }) h) e
  ticked-state (pos (suc zero)) e ne = absurd (ne refl)
  ticked-state (pos (suc (suc n))) e ne =
      charge-more depth tab vms h n e ∙ ap (λ x. ok (record vms { state = pos x }) h) (omega arith)
  ticked-state (negsuc n) e ne =
      charge-stay depth tab vms h (negsuc n) e (ground arith)
      ∙ ap (λ x. ok (record vms { state = x }) h) e

  -- Before an instruction that does not use the last cycle, a thread with a quota loses a cycle, a
  -- daemon and a thread without quota lose none, and nothing else changes.
  pub charge-ticked :
      vms.state ≢ pos 1 → charge depth tab vms h ≡ ok (record vms { state = ticked vms.state }) h
  charge-ticked ne = ticked-state vms.state refl ne

  -- A thread without a trap that uses its last cycle is dying and has no trap afterwards.
  pub charge-expired :
      {v : Vms} {g : Heap}
      → vms.state ≡ pos 1
      → vms.trap_closure ≡ null
      → throw depth tab "quota-expired" null (record vms { state = vm_default_cpu_quota }) h
        ≡ ok v g
      → (w : Vms) × (charge depth tab vms h ≡ ok w g) × (w.state ≡ dying) × (w.trap_closure ≡ null)
  unfolding charge
  charge-expired {v} last trap thrown =
      let some_left : ltb_ℤ (pos 0) vms.state ≡ true = rw last refl in
      let is_last : eq_ℤ vms.state (pos 1) ≡ true = rw last one-one in
      (
        record v { trap_closure = null },
        rw (some_left, is_last, thrown) refl,
        throw-dying depth tab (record vms { state = vm_default_cpu_quota }) h "quota-expired" null
            trap thrown,
        refl,
      )
