-- ===== src/Thread/Schedule.antt =====
-- Starting, ending, blocking and waking threads: the operations of move/thread.c that take a thread
-- from one queue to another.
use move.Base.{ℕ, zero, suc, ◌+◌, Bool, true, not, Option, none, some, if◌then◌else◌, ℤ}
use move.Value.{Value, null, undefined, yield_thread, same}
use move.Heap.{Cmd, pure, ◌>>=◌, ◌>>◌, object_of, put_object, is_null}
use move.Alloc.{newvector_noinit}
use move.Recmutex.{recmutex_lock, recmutex_unlock}
use move.Vm.Registers.{Vms, init_vm}
use move.Vm.Primitives.{Primtab}
use move.Vm.Apply.{apply_depth}
use move.Thread.{
  run_q, block_q, sleep_q, same_queue, Threads, thread_at, edit, set_thread, enq, deq,
  register_thread, deregister_thread, block_ctxt_none,
}

-- The number that a lock is taken with.
abbrev pub self_number : Threads → Cmd ℕ
self_number s = elim s.current_thread [
  | none ↦ pure 0
  | some t ↦ do r ← thread_at t s; pure r.number
]

-- LOCK(o) and UNLOCK(o)
unfoldable pub lock : Value → Threads → Cmd ℤ
unfolding thread_at
lock o s = do
  self ← self_number s
  object ← object_of o
  let (result, mutex) = recmutex_lock self object.lock
  put_object o (record object { lock = mutex })
  pure result

unfoldable pub unlock : Value → Cmd ℤ
unlock o = do
  object ← object_of o
  let (result, mutex) = recmutex_unlock object.lock
  put_object o (record object { lock = mutex })
  pure result

abbrev pub edit_vms : ℕ → (Vms → Vms) → Threads → Cmd Threads
edit_vms t change = edit t (λ r. record r { vms = change r.vms })

-- A new thread in memory.
abbrev pub new_thread : ℕ → Vms → Threads → ℕ × Threads
new_thread number vms s = (
  s.fresh,
  record s {
    thread =
        set_thread s.fresh
          (some (record {
            vms = vms;
            number = number;
            next = none;
            contextkind = block_ctxt_none;
            context = null;
            queue = none;
            next_q = none;
            prev_q = none;
          }))
          s.thread;
    fresh = suc s.fresh;
  },
)

-- The LOCKs of a thread that is restarted.
unfoldable pub relock : ℕ → Value → Threads → Cmd (Unit {0})
relock zero o s = pure tt
relock (suc n) o s = lock o s >> relock n o s

-- The registers that a new thread takes over.
abbrev pub inherit : Vms → ℤ → Vms → Vms
inherit parent quota vms = record vms {
  state = quota;
  uid = parent.effuid;
  effuid = parent.effuid;
  trap_closure = parent.trap_closure;
}

module _ (depth : ℕ) (tab : Primtab) where
  unfoldable pub begin_thread : Value → Vms → ℤ → Threads → Cmd (ℕ × Threads)
  unfolding init_vm
  begin_thread closure parentvms cpu_quota s = do
    vms ← init_vm
    let (t, s₁) = new_thread s.next_number vms (record s { next_number = s.next_number + 1 })
    s₂ ← register_thread t s₁
    argvec ← newvector_noinit 1
    vms' ← apply_depth depth tab closure argvec (inherit parentvms cpu_quota vms)
    s₃ ← edit_vms t (λ v. vms') s₂
    pure (t, s₃)

-- The case of a thread that was loaded.
unfoldable pub restart_thread : ℕ → Vms → Threads → Cmd (ℕ × Threads)
restart_thread oldnumber vms s = do
  let (t, s₁) = new_thread oldnumber vms s
  s₂ ← register_thread t s₁
  relock vms.locked_count vms.locked s₂
  pure (t, s₂)

-- The UNLOCKs of a thread that has ended.
unfoldable pub unlock_all : ℕ → Value → Cmd (Unit {0})
unlock_all zero o = pure tt
unlock_all (suc n) o = if is_null o then pure tt else unlock o >> unlock_all n o

-- freemem(thr)
abbrev pub free_thread : ℕ → Threads → Threads
free_thread t s = record s { thread = set_thread t none s.thread }

unfoldable pub end_thread : ℕ → Threads → Cmd Threads
end_thread t s = do
  r ← thread_at t s
  unlock_all r.vms.locked_count r.vms.locked
  s₁ ← deregister_thread t s
  pure (free_thread t s₁)

unfoldable pub block_thread : ℕ → Value → Threads → Cmd Threads
block_thread contextkind context s = elim s.current_thread [
  | none ↦ pure s
  | some t ↦ do
    s₁ ← edit t (λ r. record r { contextkind = contextkind; context = context }) s
    r ← thread_at t s₁
    s₂ ← deq r.queue t s₁
    enq block_q t s₂
]

unfoldable pub sleep_thread : ℕ → ℕ → Threads → Cmd Threads
sleep_thread time_now seconds s = elim s.current_thread [
  | none ↦ pure s
  | some t ↦ do
    s₁ ← edit t (λ r. record r { contextkind = time_now + seconds }) s
    r ← thread_at t s₁
    s₂ ← deq r.queue t s₁
    enq sleep_q t s₂
]

unfoldable pub unblock_thread : Option ℕ → Threads → Cmd Threads
unblock_thread none s = pure s
unblock_thread (some t) s = do
  r ← thread_at t s
  let acc = if same r.vms.acc yield_thread then undefined else r.vms.acc
  s₁ ← edit t (λ x. record x { vms = record x.vms { acc = acc }; contextkind = block_ctxt_none }) s
  s₂ ← deq r.queue t s₁
  enq run_q t s₂

unfoldable pub thread_is_blocked : ℕ → Threads → Cmd Bool
thread_is_blocked t s = do
  r ← thread_at t s
  elim r.queue [ none ↦ pure true | some q ↦ pure (not (same_queue q run_q)) ]
