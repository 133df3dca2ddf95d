-- ===== src/Thread/Unlink.antt =====
-- The two writes by which deq takes a thread out between its neighbours.
use move.Base.{ℕ, ◌≡◌, ◌≢◌, refl, ◌∙◌, true, false, none, some, List, [], ◌∷◌, All, Distinct, arith}
use move.Heap.{Heap}
use move.Heap.Laws.{Yields, yields}
use move.Thread.{
  QueueName, run_q, block_q, sleep_q, same_queue, Thread, Threads, edit, thread_at, unlink_prev,
  unlink_next,
}
use move.Thread.Segments.{
  first_of, last_of, Linked, nothing, link, Linked-frame, others_same, set_self, last-Linked,
}

-- Outside the threads of `xs` the memory is the same, and so are the other queues.
pub record Beside (s : Threads) (q : QueueName) (xs : List ℕ) (s' : Threads) : Type 0 where
  pub memory : (y : ℕ) → All (λ x. x ≢ y) xs → s'.thread y ≡ s.thread y
  pub queues : (p : QueueName) → same_queue q p ≡ false → s'.queue_of p ≡ s.queue_of p

pub same_self : (q : QueueName) → same_queue q q ≡ true
same_self run_q = refl
same_self block_q = refl
same_self sleep_q = refl

module _ (s : Threads) (h : Heap) (q : QueueName) (t : ℕ) (r : Thread) where
  pub unlink_prev-Linked :
      (xs : List ℕ)
      → Linked s.thread (some t) none xs
      → Distinct xs
      → r.prev_q ≡ last_of none xs
      → (s.queue_of q).first ≡ first_of xs (some t)
      → Yields
          (λ s' h'.
            (h' ≡ h)
            × Linked s'.thread r.next_q none xs
            × ((s'.queue_of q).first ≡ first_of xs r.next_q)
            × ((s'.queue_of q).last ≡ (s.queue_of q).last)
            × Beside s q xs s')
          (unlink_prev q r s h)
  unfolding edit thread_at
  unlink_prev-Linked [] linked distinct prev first = rw prev (
      yields (
        refl,
        nothing,
        rw (same_self q) refl,
        rw (same_self q) refl,
        record { memory = λ y new. refl; queues = λ p e. rw e refl },
      ))
  unlink_prev-Linked (a ∷ xs) linked distinct prev first =
      let (p, rp, last, holds, relink, belongs) = last-Linked a xs distinct linked in
      rw (prev ∙ last, holds)
        (yields (
          refl,
          relink r.next_q,
          first,
          refl,
          record {
            memory = λ y new. let ne : p ≢ y = belongs (λ x. x ≢ y) new in ground (arith, ne);
            queues = λ p e. refl;
          },
        ))

  pub unlink_next-Linked :
      (xs : List ℕ)
      → Linked s.thread none (some t) xs
      → Distinct xs
      → r.next_q ≡ first_of xs none
      → (s.queue_of q).last ≡ last_of (some t) xs
      → Yields
          (λ s' h'.
            (h' ≡ h)
            × Linked s'.thread none r.prev_q xs
            × ((s'.queue_of q).last ≡ last_of r.prev_q xs)
            × ((s'.queue_of q).first ≡ (s.queue_of q).first)
            × Beside s q xs s')
          (unlink_next q r s h)
  unfolding edit thread_at
  unlink_next-Linked [] linked distinct next last = rw next (
      yields (
        refl,
        nothing,
        rw (same_self q) refl,
        rw (same_self q) refl,
        record { memory = λ y new. refl; queues = λ p e. rw e refl },
      ))
  unlink_next-Linked (b ∷ xs) (link rb holds prev after linked) (new, distinct) next last =
      rw (next, holds)
        (yields (
          refl,
          link (record rb { prev_q = r.prev_q }) (set_self s.thread b _) refl after
              (Linked-frame xs (others_same s.thread b _ xs new) linked),
          last,
          refl,
          record { memory = λ y (ne, all). ground (arith, ne); queues = λ p e. refl },
        ))
