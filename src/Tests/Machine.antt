-- ===== src/Tests/Machine.antt =====
-- A small machine, and the theorems on the registers at it.
use Prim.Native.String.{String}
use move.Base.{
  ℕ, zero, suc, ◌<◌, ◌≡◌, refl, false, some, List, [], ◌∷◌, get_elem?, length, replicate, set,
  length-replicate, arith, ℤ, pos,
}
use move.Alloc.{newovector}
use move.Value.{
  Value, null, num, ref, Body, bvector, ovector, vector, t_symbol, t_frame, t_continuation, mknum,
}
use move.Heap.{Heap, Run, ok, ◌>>=◌, atput, getmem, body_of, put_body}
use move.Heap.Laws.{Yields}
use move.Heap.Writes.{Writes}
use move.Text.{codes}
use move.Vm.Registers.{
  Vms, frame_slots, fill_slots, push, pop, push_frame, getcont_from, vm_stack_length,
}
use move.Vm.Registers.Stack.{IsStack, pop-push, push-pop-IsStack}
use move.Vm.Registers.Frames.{returned}
use move.Vm.Registers.Continuations.{IsCont, getcont_from-IsCont}
use move.Vm.Apply.{apply_continuation}
use move.Vm.Call.{op_ret}
use move.Vm.Exec.Flow.{push_frame-op_ret}
use move.Vm.Exec.Resume.{Resumed, apply_continuation-Resumed}

-- The stack at address 1 holds a 7; every bucket of the symbol table at 3 leads to the symbol at 4.
abbrev pub stack : List Value
stack = num (pos 7) ∷ replicate 1023 null

abbrev bodies : String → List Body
bodies name =
    vector []
    ∷ vector stack
    ∷ bvector (0x33 ∷ [])
    ∷ vector (replicate 2131 (ref 4))
    ∷ ovector false t_symbol (ref 5 ∷ null ∷ null ∷ num (pos 0) ∷ [])
    ∷ bvector (codes name)
    ∷ []

abbrev pub heap : String → Heap
heap name = record {
  cell = get_elem? (bodies name);
  fresh = 6;
  all_objects = [];
  curr_heapsize = 0;
  symtab = ref 3;
}

abbrev pub machine : ℤ → Vms
machine a = record {
  acc = num a;
  code = ref 2;
  env = null;
  lits = null;
  self = null;
  stack = ref 1;
  frame = null;
  method = null;
  trap_closure = null;
  uid = null;
  effuid = null;
  locked = null;
  ip = pos 0;
  top = 1;
  state = pos 1;
  locked_count = 0;
}

abbrev pub h : Heap
h = heap "divide-by-zero"

stack-width : length stack ≡ vm_stack_length
stack-width = omega (arith, length-replicate 1023 null)

machine-IsStack : IsStack (machine (pos 2)) h 1 stack
machine-IsStack = record { is_ref = refl; holds = refl; width = stack-width; bounded = omega arith }

pop-push_example :
    Yields
      (λ (x, v) g.
        (x ≡ num (pos 9))
        × (v ≡ machine (pos 2))
        × Writes h 1 (vector (set stack 1 (num (pos 9)))) g)
      ((push (num (pos 9)) (machine (pos 2)) >>= pop) h)
pop-push_example = pop-push machine-IsStack (num (pos 9)) (omega arith)

abbrev pub empty : Vms
empty = record (machine (pos 2)) { top = 0 }

push-pop-IsStack_example :
    Yields
      (λ v g. ((ys : List Value) × IsStack v g 1 ys) × (v.state ≡ pos 1))
      (push null (machine (pos 2)) h)
    × Yields (λ (x, v) g. IsStack v g 1 stack × (v.state ≡ pos 1)) (pop (machine (pos 2)) h)
push-pop-IsStack_example = push-pop-IsStack machine-IsStack null

-- The heap at the end of a run that ends.
abbrev heap_after : {A : Type 0} → Run A → Heap
heap_after (ok a g) = g
heap_after _ = h

abbrev pushed : Vms
pushed = record (machine (pos 2)) { frame = ref 6 }

pushed-ok : push_frame (machine (pos 2)) h ≡ ok pushed (heap_after (push_frame (machine (pos 2)) h))
unfolding push_frame newovector fill_slots atput getmem body_of put_body mknum
pushed-ok = refl

push_frame-op_ret_example :
    op_ret pushed (heap_after (push_frame (machine (pos 2)) h))
    ≡ ok (false, returned (machine (pos 2)) pushed) (heap_after (push_frame (machine (pos 2)) h))
push_frame-op_ret_example =
    push_frame-op_ret (machine (pos 2)) pushed pushed h _ _ (omega arith, omega arith) refl
      pushed-ok refl refl

getcont_from-IsCont_example :
    Yields
      (λ cont g.
        (c : ℕ) × (cont ≡ ref c) × IsCont g c null 1 stack × (g.cell 1 ≡ some (vector stack)))
      (getcont_from (machine (pos 2)) h)
getcont_from-IsCont_example =
    getcont_from-IsCont (machine (pos 2)) h stack refl refl (omega (arith, stack-width))
      (omega arith) (omega arith) refl

-- A continuation at 4 of a machine whose frame is at 3 and whose stack had one cell.
abbrev saved : Heap
saved = record h {
  cell = get_elem? (
      vector []
      ∷ vector (replicate 1024 null)
      ∷ bvector (0x33 ∷ [])
      ∷ ovector false t_frame (frame_slots (machine (pos 2)))
      ∷ ovector false t_continuation (ref 3 ∷ ref 5 ∷ [])
      ∷ vector (num (pos 7) ∷ [])
      ∷ vector (null ∷ num (pos 42) ∷ [])
      ∷ []);
}

first_cell : (j : ℕ) → j < 1 → get_elem? (num (pos 7) ∷ []) j ≡ get_elem? stack j
first_cell zero less = refl
first_cell (suc j) less = absurd (omega arith)

saved-IsCont : IsCont saved 4 (ref 3) 1 stack
saved-IsCont = record {
  saved = 5;
  cells = num (pos 7) ∷ [];
  holds = refl;
  copy = refl;
  width = refl;
  same = first_cell;
}

apply_continuation-Resumed_example :
    Yields
      (Resumed (machine (pos 2)) empty 1 1 stack (num (pos 42)))
      (apply_continuation (ref 4) (ref 6) empty saved)
apply_continuation-Resumed_example =
    apply_continuation-Resumed (machine (pos 2)) empty saved saved-IsCont (omega arith, omega arith)
      refl refl refl (omega (arith, length-replicate 1024 null)) (omega arith) (omega arith) refl
      refl (omega arith) (λ a e z. ground (arith, e))
