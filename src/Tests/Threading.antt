-- ===== src/Tests/Threading.antt =====
-- The theorems on the queues of threads at concrete inputs.
use move.Base.{ℕ, zero, suc, ◌≡◌, refl, Bool, Option, none, some, [], ◌∷◌, arith, pos, get_elem?}
use move.Value.{null, yield_thread, ref, vector, bvector}
use move.Heap.{Heap, Cmd, pure}
use move.Heap.Laws.{Yields}
use move.Vm.Registers.{Vms}
use move.Thread.{
  QueueName, run_q, block_q, sleep_q, ThreadQ, Thread, Threads, block_ctxt_readline, deq,
}
use move.Thread.Schedule.{unblock_thread}
use move.Thread.Segments.{nothing, link}
use move.Thread.Unlink.{Beside}
use move.Thread.Queues.{IsQueue, deq-IsQueue}
use move.Vm.Exec.{run_vm}
use move.Vm.Primitives.{init_prim}
use move.Vm.Bytecode.{opcode, mov_a_litl}
use move.Vm.Access
use move.Thread.Moves.{unblock_thread-IsQueue}

abbrev heap : Heap
heap = record { cell = λ p. none; fresh = 0; all_objects = []; curr_heapsize = 0; symtab = null }

abbrev pub registers : Vms
registers = record {
  acc = yield_thread;
  code = null;
  env = null;
  lits = null;
  self = null;
  stack = null;
  frame = null;
  method = null;
  trap_closure = null;
  uid = null;
  effuid = null;
  locked = null;
  ip = pos 0;
  top = 0;
  state = pos 9;
  locked_count = 0;
}

abbrev with_links : ℕ → Option QueueName → Option ℕ → Option ℕ → Thread
with_links number queue next prev = record {
  vms = registers;
  number = number;
  next = none;
  contextkind = block_ctxt_readline;
  context = null;
  queue = queue;
  next_q = next;
  prev_q = prev;
}

-- Threads 1 and 2 are blocked, thread 3 is runnable, thread 4 is in no queue.
abbrev memory : ℕ → Option Thread
memory zero = none
memory (suc zero) = some (with_links 1 (some block_q) (some 2) none)
memory (suc (suc zero)) = some (with_links 2 (some block_q) none (some 1))
memory (suc (suc (suc zero))) = some (with_links 3 (some run_q) none none)
memory (suc (suc (suc (suc zero)))) = some (with_links 4 none none none)
memory (suc (suc (suc (suc (suc n))))) = none

abbrev ends : QueueName → ThreadQ
ends run_q = record { first = some 3; last = some 3 }
ends block_q = record { first = some 1; last = some 2 }
ends sleep_q = record { first = none; last = none }

abbrev threads : Threads
threads = record {
  thread = memory;
  fresh = 5;
  num_active = 3;
  queue_of = ends;
  threadtab = λ n. none;
  next_number = 5;
  current_thread = none;
}

blocked-IsQueue : IsQueue threads block_q (1 ∷ 2 ∷ [])
blocked-IsQueue = record {
  first = refl;
  last = refl;
  linked =
      link (with_links 1 (some block_q) (some 2) none) refl refl refl
        (link (with_links 2 (some block_q) none (some 1)) refl refl refl nothing);
  distinct = (((λ e. ground (arith, e)), tt), (tt, tt));
}

runnable-IsQueue : IsQueue threads run_q (3 ∷ [])
runnable-IsQueue = record {
  first = refl;
  last = refl;
  linked = link (with_links 3 (some run_q) none none) refl refl refl nothing;
  distinct = (tt, tt);
}

deq-IsQueue_example :
    Yields
      (λ s' h'.
        (h' ≡ heap)
        × IsQueue s' block_q (1 ∷ [])
        × Beside threads block_q (1 ∷ 2 ∷ []) s'
        × ((r : Thread) × (s'.thread 2 ≡ some r)))
      (deq (some block_q) 2 threads heap)
deq-IsQueue_example = deq-IsQueue threads heap block_q 2 (1 ∷ []) [] blocked-IsQueue

unblock_thread-IsQueue_example :
    Yields
      (λ s' h'. (h' ≡ heap) × IsQueue s' block_q (1 ∷ []) × IsQueue s' run_q (2 ∷ 3 ∷ []))
      (unblock_thread (some 2) threads heap)
unblock_thread-IsQueue_example =
    unblock_thread-IsQueue block_q 2 (with_links 2 (some block_q) none (some 1)) (1 ∷ []) []
      (3 ∷ []) threads heap refl refl refl blocked-IsQueue runnable-IsQueue
      (((λ e. ground (arith, e)), ((λ e. ground (arith, e)), tt)), tt)

-- The instruction loads the literal that gives up the processor.
abbrev program : Heap
program = record {
  cell =
      get_elem?
        (vector [] ∷ bvector (opcode mov_a_litl ∷ 0 ∷ []) ∷ vector (yield_thread ∷ []) ∷ []);
  fresh = 3;
  all_objects = [];
  curr_heapsize = 0;
  symtab = null;
}

abbrev ready : Vms
ready = record registers { acc = null; code = ref 1; lits = ref 2 }

-- Behind the instruction, with a cycle less.
abbrev rested : Vms
rested = record ready { acc = yield_thread; ip = pos 2; state = pos 8 }

abbrev ready_at : Option ℕ → Option ℕ → Thread
ready_at next prev = record (with_links 1 (some run_q) next prev) { vms = ready }

-- Two threads that are to run.
abbrev ready_memory : ℕ → Option Thread
ready_memory zero = none
ready_memory (suc zero) = some (ready_at (some 2) none)
ready_memory (suc (suc zero)) = some (ready_at none (some 1))
ready_memory (suc (suc (suc n))) = none

abbrev ready_threads : Threads
ready_threads = record threads {
  thread = ready_memory;
  queue_of = λ q. record { first = some 1; last = some 2 };
}

abbrev machine : Vms → Cmd (Bool × Vms)
machine = run_vm 9 init_prim (λ vms. pure tt)
