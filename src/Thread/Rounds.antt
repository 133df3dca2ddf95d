-- ===== src/Thread/Rounds.antt =====
-- The rounds of the server's main loop over the threads: those that can run run, those that sleep or
-- wait are looked at. `run` is run_vm on the current thread, with what its primitives do to the
-- threads; it says whether the thread has ended. `resume_readline` and `resume_accept` are the
-- functions of move/conn.c that try the connection again.
use move.Base.{
  ℕ, zero, suc, ◌+◌, Bool, true, false, Option, none, some, List, [], ◌∷◌, ◌++◌, ◌==◌, leb, ltb,
  length, if◌then◌else◌, ℤ, pos, ltb_ℤ,
}
use move.Value.{Value, move_true}
use move.Heap.{Cmd, pure, stop, terminate, no_fuel, ◌>>=◌}
use move.Vm.Registers.{Vms}
use move.Thread.{
  QueueName, run_q, block_q, sleep_q, same_queue, Thread, Threads, thread_at, edit, enq, deq,
  block_ctxt_readline, block_ctxt_accept, block_ctxt_locking, table_size, find_thread_by_number,
}
use move.Thread.Schedule.{lock, edit_vms, end_thread, unblock_thread}

abbrev pub with_current : Option ℕ → Threads → Threads
with_current t s = record s { current_thread = t }

-- run_vm(thr->vms) on the current thread, where the primitives leave the threads alone.
unfoldable pub run_current : (Vms → Cmd (Bool × Vms)) → Threads → Cmd (Bool × Threads)
unfolding edit thread_at
run_current vm s = elim s.current_thread [
  | none ↦ stop
  | some t ↦ do
    r ← thread_at t s
    (ended, v) ← vm r.vms
    s₁ ← edit_vms t (λ w. v) s
    pure (ended, s₁)
]

-- One thread of the run queue.
unfoldable pub run_thread : (Threads → Cmd (Bool × Threads)) → ℕ → Threads → Cmd Threads
run_thread run t s = do
  (ended, s₁) ← run (with_current (some t) s)
  if ended then end_thread t s₁ else pure s₁

-- The next thread is read before the thread runs.
unfoldable pub run_loop : (Threads → Cmd (Bool × Threads)) → ℕ → Option ℕ → Threads → Cmd Threads
unfolding thread_at
run_loop run zero t s = no_fuel
run_loop run (suc n) none s = pure s
run_loop run (suc n) (some t) s = do
  r ← thread_at t s
  s₁ ← run_thread run t s
  run_loop run n r.next_q s₁

-- The Boolean says that there was a thread to run.
unfoldable pub run_run_queue : (Threads → Cmd (Bool × Threads)) → Threads → Cmd (Bool × Threads)
unfolding run_loop
run_run_queue run s = elim (s.queue_of run_q).first [
  | none ↦ pure (false, s)
  | some t ↦ do s₁ ← run_loop run (suc s.fresh) (some t) s; pure (true, with_current none s₁)
]

-- A thread that slept its time out wakes with `true` in its accumulator.
unfoldable pub wake : ℕ → ℕ → Thread → Threads → Cmd Threads
wake time_now t r s =
    if leb r.contextkind time_now
    then (do s₁ ← unblock_thread (some t) s; edit_vms t (λ v. record v { acc = move_true }) s₁)
    else pure s

unfoldable pub wake_loop : ℕ → ℕ → Option ℕ → Threads → Cmd Threads
unfolding thread_at wake
wake_loop time_now zero t s = no_fuel
wake_loop time_now (suc n) none s = pure s
wake_loop time_now (suc n) (some t) s = do
  r ← thread_at t s
  s₁ ← wake time_now t r s
  wake_loop time_now n r.next_q s₁

abbrev pub exit_memory_oddness : ℕ
exit_memory_oddness = 3

module _ (resume_readline resume_accept : Value → Threads → Cmd Threads) where
  -- The `switch` on what the thread waits for.
  unfoldable pub retry : ℕ → Thread → Threads → Cmd Threads
  retry t r s =
      if r.contextkind == block_ctxt_readline
      then resume_readline r.context s
      else if r.contextkind == block_ctxt_accept
      then resume_accept r.context s
      else if r.contextkind == block_ctxt_locking
      then (do
        result ← lock r.context s
        if ltb_ℤ result (pos 0) then pure s else (do s₁ ← deq (some block_q) t s; enq run_q t s₁))
      else terminate exit_memory_oddness

  unfoldable pub retry_loop : ℕ → Option ℕ → Threads → Cmd Threads
  unfolding thread_at retry
  retry_loop zero t s = no_fuel
  retry_loop (suc n) none s = pure s
  retry_loop (suc n) (some t) s = do
    r ← thread_at t s
    s₁ ← retry t r (with_current (some t) s)
    retry_loop n r.next_q s₁

  unfoldable pub run_blocked_queue : ℕ → Threads → Cmd Threads
  unfolding wake_loop retry_loop
  run_blocked_queue time_now s = do
    s₁ ← wake_loop time_now (suc s.fresh) (s.queue_of sleep_q).first s
    s₂ ← retry_loop (suc s₁.fresh) (s₁.queue_of block_q).first s₁
    pure (with_current none s₂)

pub record ThreadStat : Type 0 where
  pub number : ℕ
  pub owner : Value
  pub sleeping : Bool
  pub status : ℕ

abbrev pub is_sleeping : Option QueueName → Bool
is_sleeping none = false
is_sleeping (some q) = same_queue q sleep_q

abbrev pub stat_of : Thread → ThreadStat
stat_of r = record {
  number = r.number;
  owner = r.vms.uid;
  sleeping = is_sleeping r.queue;
  status = r.contextkind;
}

-- The threads of one chain of the table.
unfoldable pub chain_stats : ℕ → Option ℕ → Threads → Cmd (List ThreadStat)
unfolding thread_at
chain_stats zero t s = no_fuel
chain_stats (suc n) none s = pure []
chain_stats (suc n) (some t) s = do
  r ← thread_at t s
  rest ← chain_stats n r.next s
  pure (stat_of r ∷ rest)

-- The chains from index `i` on.
unfoldable pub table_stats : ℕ → ℕ → Threads → Cmd (List ThreadStat)
unfolding chain_stats
table_stats zero i s = pure []
table_stats (suc n) i s = do
  stats ← chain_stats (suc s.fresh) (s.threadtab i) s
  rest ← table_stats n (i + 1) s
  pure (stats ++ rest)

-- The count of cell 0, and the cells behind it: the array has one for each active thread.
unfoldable pub get_thread_stats : Threads → Cmd (ℕ × List ThreadStat)
unfolding table_stats
get_thread_stats s = do
  stats ← table_stats table_size 0 s
  if ltb s.num_active (length stats) then stop else pure (s.num_active, stats)

unfoldable pub get_thread_status : ℤ → Threads → Cmd (Option ThreadStat)
get_thread_status n s = do
  t ← find_thread_by_number n s
  elim t [ none ↦ pure none | some a ↦ do r ← thread_at a s; pure (some (stat_of r)) ]
