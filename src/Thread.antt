-- ===== src/Thread.antt =====
-- The threads of move/thread.c: the table of threads by number, and the queues of runnable, blocked
-- and sleeping threads. A thread is at an address of its own; NULL is `none`.
pub mod Schedule
pub mod Rounds
pub mod Segments
pub mod Unlink
pub mod Queues
pub mod Moves
pub mod Fairness
use move.Base.{
  ℕ, zero, suc, ◌+◌, ◌-◌, ◌%◌, Bool, true, false, not, Option, none, some, List, [], ◌∷◌, ◌==◌, leb,
  ltb, ◌&&◌, if◌then◌else◌, ℤ, pos, negsuc, eq_ℤ,
}
use move.Value.{Value, null, undefined, move_true, yield_thread, same}
use move.Heap.{
  Heap, Cmd, pure, stop, terminate, no_fuel, ◌>>=◌, of_option, object_of, put_object, is_null,
}
use move.Recmutex.{recmutex_lock, recmutex_unlock}
use move.Vm.Registers.{Vms}

pub data QueueName : Type 0 where
  run_q : QueueName
  block_q : QueueName
  sleep_q : QueueName

abbrev pub same_queue : QueueName → QueueName → Bool
same_queue run_q run_q = true
same_queue block_q block_q = true
same_queue sleep_q sleep_q = true
same_queue _ _ = false

pub record ThreadQ : Type 0 where
  pub first : Option ℕ
  pub last : Option ℕ

pub record Thread : Type 0 where
  pub vms : Vms
  pub number : ℕ
  pub next : Option ℕ
  pub contextkind : ℕ
  pub context : Value
  pub queue : Option QueueName
  pub next_q : Option ℕ
  pub prev_q : Option ℕ

-- The static variables, and the memory that holds the threads.
pub record Threads : Type 0 where
  pub thread : ℕ → Option Thread
  pub fresh : ℕ
  pub num_active : ℕ
  pub queue_of : QueueName → ThreadQ
  pub threadtab : ℕ → Option ℕ
  pub next_number : ℕ
  pub current_thread : Option ℕ

abbrev pub table_size : ℕ
table_size = 2131

abbrev pub block_ctxt_none : ℕ
block_ctxt_none = 0

abbrev pub block_ctxt_readline : ℕ
block_ctxt_readline = 1

abbrev pub block_ctxt_accept : ℕ
block_ctxt_accept = 2

abbrev pub block_ctxt_locking : ℕ
block_ctxt_locking = 3

abbrev pub set_thread : ℕ → Option Thread → (ℕ → Option Thread) → ℕ → Option Thread
set_thread t r f u = if t == u then r else f u

abbrev pub set_slot : ℕ → Option ℕ → (ℕ → Option ℕ) → ℕ → Option ℕ
set_slot n t f m = if n == m then t else f m

abbrev pub set_queue : QueueName → ThreadQ → (QueueName → ThreadQ) → QueueName → ThreadQ
set_queue q ends f p = if same_queue q p then ends else f p

-- The thread behind a pointer; a freed one faults.
unfoldable pub thread_at : ℕ → Threads → Cmd Thread
thread_at t s = of_option (s.thread t)

-- A write to the fields of a thread.
unfoldable pub edit : ℕ → (Thread → Thread) → Threads → Cmd Threads
unfolding thread_at
edit t change s = do
  r ← thread_at t s
  pure (record s { thread = set_thread t (some (change r)) s.thread })

abbrev pub set_first : QueueName → Option ℕ → Threads → Threads
set_first q t s = record s {
  queue_of = set_queue q (record (s.queue_of q) { first = t }) s.queue_of;
}

abbrev pub set_last : QueueName → Option ℕ → Threads → Threads
set_last q t s = record s { queue_of = set_queue q (record (s.queue_of q) { last = t }) s.queue_of }

-- if (q->h) q->h->prev_q = t; else q->t = t;
abbrev pub link_head : QueueName → ℕ → Threads → Cmd Threads
link_head q t s = elim (s.queue_of q).first [
  | none ↦ pure (set_last q (some t) s)
  | some h ↦ edit h (λ r. record r { prev_q = some t }) s
]

unfoldable pub enq : QueueName → ℕ → Threads → Cmd Threads
unfolding edit
enq q t s = do
  s₁ ← edit t (λ r. record r { prev_q = none; next_q = (s.queue_of q).first }) s
  s₂ ← link_head q t s₁
  edit t (λ r. record r { queue = some q }) (set_first q (some t) s₂)

-- if (t->prev_q) t->prev_q->next_q = t->next_q; else q->h = t->next_q;
abbrev pub unlink_prev : QueueName → Thread → Threads → Cmd Threads
unlink_prev q r s = elim r.prev_q [
  | none ↦ pure (set_first q r.next_q s)
  | some p ↦ edit p (λ x. record x { next_q = r.next_q }) s
]

-- if (t->next_q) t->next_q->prev_q = t->prev_q; else q->t = t->prev_q;
abbrev pub unlink_next : QueueName → Thread → Threads → Cmd Threads
unlink_next q r s = elim r.next_q [
  | none ↦ pure (set_last q r.prev_q s)
  | some n ↦ edit n (λ x. record x { prev_q = r.prev_q }) s
]

unfoldable pub deq : Option QueueName → ℕ → Threads → Cmd Threads
unfolding edit thread_at
deq none t s = pure s
deq (some q) t s = do
  r ← thread_at t s
  s₁ ← unlink_prev q r s
  r₁ ← thread_at t s₁
  s₂ ← unlink_next q r₁ s₁
  edit t (λ x. record x { queue = none }) s₂

unfoldable pub register_thread : ℕ → Threads → Cmd Threads
unfolding edit thread_at
register_thread t s = do
  r ← thread_at t s
  let n = r.number % table_size
  s₁ ← edit t (λ x. record x { next = s.threadtab n }) s
  enq run_q t
      (record s₁ { threadtab = set_slot n (some t) s₁.threadtab; num_active = s₁.num_active + 1 })

-- if (prev == NULL) threadtab[n] = curr->next; else prev->next = curr->next;
abbrev pub unchain : ℕ → Option ℕ → Option ℕ → Threads → Cmd Threads
unchain n prev rest s = elim prev [
  | none ↦ pure (record s { threadtab = set_slot n rest s.threadtab })
  | some p ↦ edit p (λ x. record x { next = rest }) s
]

-- The `while (curr != NULL)` of deregister_thread.
unfoldable pub deregister_loop : ℕ → ℕ → ℕ → Option ℕ → Option ℕ → Threads → Cmd Threads
unfolding thread_at edit deq
deregister_loop zero t n prev curr s = no_fuel
deregister_loop (suc k) t n prev none s = pure s
deregister_loop (suc k) t n prev (some c) s = do
  r ← thread_at c s
  if c == t
      then (do
        s₁ ← unchain n prev r.next s
        r₁ ← thread_at t s₁
        deq r₁.queue t (record s₁ { num_active = s₁.num_active - 1 }))
      else deregister_loop k t n (some c) r.next s

unfoldable pub deregister_thread : ℕ → Threads → Cmd Threads
unfolding deregister_loop thread_at edit
deregister_thread t s = do
  r ← thread_at t s
  let n = r.number % table_size
  s₁ ← deregister_loop (suc s.fresh) t n none (s.threadtab n) s
  edit t (λ x. record x { next = none }) s₁

unfoldable pub init_thread : Threads → Threads
init_thread s = record s {
  threadtab = λ n. none;
  next_number = 1;
  current_thread = none;
  queue_of = λ q. record { first = none; last = none };
}

unfoldable pub count_active_threads : Threads → ℕ
count_active_threads s = s.num_active

-- The walk along one chain of the table, on fuel.
unfoldable pub find_loop : ℕ → ℤ → Option ℕ → Threads → Cmd (Option ℕ)
unfolding thread_at eq_ℤ
find_loop zero num t s = no_fuel
find_loop (suc k) num none s = pure none
find_loop (suc k) num (some t) s = do
  r ← thread_at t s
  if eq_ℤ (pos r.number) num then pure (some t) else find_loop k num r.next s

-- `%` on a negative number gives 0 or a negative number; a negative index faults.
unfoldable pub find_thread_by_number : ℤ → Threads → Cmd (Option ℕ)
unfolding find_loop
find_thread_by_number (pos num) s =
    find_loop (suc s.fresh) (pos num) (s.threadtab (num % table_size)) s
find_thread_by_number (negsuc num) s =
    if suc num % table_size == 0
    then find_loop (suc s.fresh) (negsuc num) (s.threadtab 0) s
    else stop
