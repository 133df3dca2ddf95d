-- ===== src/Thread/Fairness.antt =====
-- A round over the run queue gives each of its threads a time slice.
use move.Base.{ℕ, ◌≡◌, Bool, true, false, Option, none, some, List, [], ◌∷◌}
use move.Heap.{Heap, ok, Cmd}
use move.Vm.Registers.{Vms}
use move.Thread.{Thread, Threads, set_thread}

-- The machine runs one time slice of each thread of the list, first to last, on the registers that
-- the thread has in `m`. No slice ends its thread. The last list has the threads with their new
-- registers, the last heap is the one that the last slice leaves.
pub data Slices (vm : Vms → Cmd (Bool × Vms)) (m : ℕ → Option Thread)
    : List ℕ → Heap → List Thread → Heap → Type 0 where
  no_slice : {h : Heap} → Slices vm m [] h [] h
  slice :
      {x : ℕ} {xs : List ℕ} {r : Thread} {v : Vms} {rs : List Thread} {h h₁ h₂ : Heap}
      → m x ≡ some r
      → vm r.vms h ≡ ok (false, v) h₁
      → Slices vm m xs h₁ rs h₂
      → Slices vm m (x ∷ xs) h (record r { vms = v } ∷ rs) h₂

-- The threads of the list are now these.
abbrev pub saved : List ℕ → List Thread → (ℕ → Option Thread) → ℕ → Option Thread
saved [] rs m = m
saved (x ∷ xs) [] m = m
saved (x ∷ xs) (r ∷ rs) m = saved xs rs (set_thread x (some r) m)

-- Whether there was a thread, and the threads with what was saved.
abbrev pub after_round : List ℕ → List Thread → Threads → Bool × Threads
after_round [] rs s = (false, s)
after_round (x ∷ xs) rs s =
    (true, record s { thread = saved (x ∷ xs) rs s.thread; current_thread = none })
