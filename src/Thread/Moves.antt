-- ===== src/Thread/Moves.antt =====
-- A thread that goes from one queue to another.
use move.Base.{
  ℕ, ◌≡◌, ◌≢◌, refl, sym, ap, ◌∙◌, false, Option, some, List, [], ◌∷◌, ◌++◌, ◌==◌, All, All-zip,
  All-append_split, All-append, arith, Bool-cases, inl, inr, ==_iff,
}
use mathlib.Core.Path.{subst}
use move.Heap.{Heap, ◌>>=◌}
use move.Heap.Laws.{Yields, follow, weaken}
use move.Thread.{
  QueueName, run_q, block_q, sleep_q, same_queue, Thread, Threads, set_thread, edit, thread_at, enq,
  deq,
}
use move.Thread.Schedule.{unblock_thread}
use move.Thread.Segments.{Linked, nothing, link, Linked-frame}
use move.Thread.Unlink.{Beside}
use move.Thread.Queues.{IsQueue, Around, Distinct-Around, turned, deq-IsQueue, enq-IsQueue}

some-inj : {a b : Thread} {o : Option Thread} → o ≡ some a → o ≡ some b → a ≡ b
some-inj e f = ground (arith, e, f)

-- No thread of the one list is in the other.
abbrev pub Disjoint : List ℕ → List ℕ → Type 0
Disjoint xs zs = All (λ x. All (λ z. z ≢ x) zs) xs

-- A queue that a change passes by.
IsQueue-Beside :
    {s s' : Threads} {p q : QueueName} (xs zs : List ℕ)
    → IsQueue s p xs
    → Beside s q zs s'
    → same_queue q p ≡ false
    → Disjoint xs zs
    → IsQueue s' p xs
IsQueue-Beside {s} {s'} {p} xs zs is beside other disjoint =
    let kept = beside.queues p other in
    record {
      first = ap (λ e. e.first) kept ∙ is.first;
      last = ap (λ e. e.last) kept ∙ is.last;
      linked =
          Linked-frame xs (All-zip xs disjoint disjoint λ x new same. beside.memory x new)
            is.linked;
      distinct = is.distinct;
    }

-- A change of a thread that keeps its links.
Linked-edit :
    {m : ℕ → Option Thread} {front behind : Option ℕ} (t : ℕ) (r r' : Thread) (xs : List ℕ)
    → m t ≡ some r
    → r'.next_q ≡ r.next_q
    → r'.prev_q ≡ r.prev_q
    → Linked m behind front xs
    → Linked (set_thread t (some r') m) behind front xs
Linked-edit t r r' [] holds next prev linked = nothing
Linked-edit {m} t r r' (x ∷ xs) holds next prev (link rx at_x prev_x next_x linked) =
    let later = Linked-edit t r r' xs holds next prev linked in
    elim (Bool-cases (t == x)) [
      | inl e ↦
          let is : rx ≡ r = some-inj at_x (subst (λ y. m y ≡ some r) ((==_iff t x).0 e) holds) in
          link r' (rw e refl) (prev ∙ sym (ap (λ z. z.prev_q) is) ∙ prev_x)
            (next ∙ sym (ap (λ z. z.next_q) is) ∙ next_x) later
      | inr ne ↦ link rx (rw ne at_x) prev_x next_x later
    ]

module _ (q p : QueueName) (t : ℕ) (xs ys zs : List ℕ) (other : same_queue q p ≡ false)
    (other' : same_queue p q ≡ false) (disjoint : Disjoint zs (xs ++ (t ∷ ys))) where
  not_there : All (λ z. z ≢ t) zs
  not_there = All-zip zs disjoint disjoint λ z apart same.
      let (left, (ne, right)) = All-append_split (λ w. w ≢ z) xs (t ∷ ys) apart in λ e. ne (sym e)

  apart_after : Around xs t ys → Disjoint (xs ++ ys) (t ∷ zs)
  apart_after around =
      let all = turned zs (xs ++ (t ∷ ys)) disjoint in
      let (left, (at_t, right)) = All-append_split (λ w. All (λ z. z ≢ w) zs) xs (t ∷ ys) all in
      All-zip (xs ++ ys) (All-append (λ x. x ≢ t) xs ys around.not_left around.not_right)
        (All-append (λ w. All (λ z. z ≢ w) zs) xs ys left right)
        λ x ne new. ((λ e. ne (sym e)), new)

  requeue :
      (s : Threads) (h : Heap)
      → IsQueue s q (xs ++ (t ∷ ys))
      → IsQueue s p zs
      → Yields
          (λ s' h'. (h' ≡ h) × IsQueue s' q (xs ++ ys) × IsQueue s' p (t ∷ zs))
          ((deq (some q) t s >>= enq p t) h)
  requeue s h from to =
      follow (deq-IsQueue s h q t xs ys from) λ s₁ h₁ (e₁, from₁, beside₁, (r, holds)).
        let to₁ = IsQueue-Beside zs (xs ++ (t ∷ ys)) to beside₁ other disjoint in
        weaken (enq-IsQueue s₁ h₁ p t zs r to₁ not_there holds) λ s₂ h₂ (e₂, to₂, beside₂). (
          e₂ ∙ e₁,
          IsQueue-Beside (xs ++ ys) (t ∷ zs) from₁ beside₂ other'
              (apart_after (Distinct-Around xs t ys from.distinct)),
          to₂,
        )

IsQueue-edit :
    {s : Threads} {q : QueueName} {xs : List ℕ} (t : ℕ) (r r' : Thread)
    → s.thread t ≡ some r
    → r'.next_q ≡ r.next_q
    → r'.prev_q ≡ r.prev_q
    → IsQueue s q xs
    → IsQueue (record s { thread = set_thread t (some r') s.thread }) q xs
IsQueue-edit {xs} t r r' holds next prev is = record {
  first = is.first;
  last = is.last;
  linked = Linked-edit t r r' xs holds next prev is.linked;
  distinct = is.distinct;
}

other_way : (q : QueueName) → same_queue q run_q ≡ false → same_queue run_q q ≡ false
other_way run_q e = e
other_way block_q e = refl
other_way sleep_q e = refl

-- For a thread of a queue other than the run queue, with no thread in both queues, unblock_thread ends and
-- leaves the heap: the queue holds its list without the thread, and the run queue has the thread in
-- front of those that it held.
pub unblock_thread-IsQueue :
    (q : QueueName) (t : ℕ) (r : Thread) (xs ys zs : List ℕ) (s : Threads) (h : Heap)
    → same_queue q run_q ≡ false
    → s.thread t ≡ some r
    → r.queue ≡ some q
    → IsQueue s q (xs ++ (t ∷ ys))
    → IsQueue s run_q zs
    → Disjoint zs (xs ++ (t ∷ ys))
    → Yields
        (λ s' h'. (h' ≡ h) × IsQueue s' q (xs ++ ys) × IsQueue s' run_q (t ∷ zs))
        (unblock_thread (some t) s h)
unfolding unblock_thread edit thread_at
unblock_thread-IsQueue q t r xs ys zs s h other holds queue from to disjoint =
    rw (holds, queue)
      (requeue q run_q t xs ys zs other (other_way q other) disjoint _ h
        (IsQueue-edit t r _ holds refl refl from) (IsQueue-edit t r _ holds refl refl to))
