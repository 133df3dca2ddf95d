-- ===== src/Thread/Queues.antt =====
-- The queues as lists: enq puts a thread in front, deq takes a thread out wherever it stands.
use move.Base.{
  ℕ, ◌≡◌, ◌≢◌, refl, sym, ap, ◌∙◌, Option, none, some, List, [], ◌∷◌, ◌++◌, All, All-zip,
  All-append_split, All-append, Distinct, arith, ==_refl,
}
use mathlib.Core.Path.{subst}
use move.Heap.{Heap}
use move.Heap.Laws.{Yields, yields, follow}
use move.Thread.{QueueName, Thread, Threads, set_thread, set_queue, edit, thread_at, enq, deq}
use move.Thread.Segments.{
  first_of, last_of, Linked, nothing, link, Linked-frame, Linked-split, Linked-append, others_same,
  set_self,
}
use move.Thread.Unlink.{same_self, Beside, unlink_prev-Linked, unlink_next-Linked}

-- The queue holds the threads of the list, first to last.
pub record IsQueue (s : Threads) (q : QueueName) (xs : List ℕ) : Type 0 where
  pub first : (s.queue_of q).first ≡ first_of xs none
  pub last : (s.queue_of q).last ≡ last_of none xs
  pub linked : Linked s.thread none none xs
  pub distinct : Distinct xs

-- A list without repetition, taken apart at one element.
pub record Around (xs : List ℕ) (t : ℕ) (ys : List ℕ) : Type 0 where
  pub left : Distinct xs
  pub right : Distinct ys
  pub not_left : All (λ x. x ≢ t) xs
  pub not_right : All (λ y. y ≢ t) ys
  pub apart : All (λ x. All (λ y. y ≢ x) ys) xs
  pub without : Distinct (xs ++ ys)

pub Distinct-Around :
    (xs : List ℕ) (t : ℕ) (ys : List ℕ) → Distinct (xs ++ (t ∷ ys)) → Around xs t ys
Distinct-Around [] t ys (new, distinct) = record {
  left = tt;
  right = distinct;
  not_left = tt;
  not_right = new;
  apart = tt;
  without = distinct;
}
Distinct-Around (x ∷ xs) t ys (new, distinct) =
    let rest = Distinct-Around xs t ys distinct in
    let (new_left, (ne, new_right)) = All-append_split (λ y. y ≢ x) xs (t ∷ ys) new in
    record {
      left = (new_left, rest.left);
      right = rest.right;
      not_left = ((λ e. ne (sym e)), rest.not_left);
      not_right = rest.not_right;
      apart = (new_right, rest.apart);
      without = (All-append (λ y. y ≢ x) xs ys new_left new_right, rest.without);
    }

first_of-append : (xs ys : List ℕ) → first_of (xs ++ ys) none ≡ first_of xs (first_of ys none)
first_of-append [] ys = refl
first_of-append (x ∷ xs) ys = refl

last_of-append :
    (front : Option ℕ) (xs ys : List ℕ) → last_of front (xs ++ ys) ≡ last_of (last_of front xs) ys
last_of-append front [] ys = refl
last_of-append front (x ∷ xs) ys = last_of-append (some x) xs ys

-- For each thread of `ys`, none of `xs` is that thread.
pub turned :
    (xs ys : List ℕ) → All (λ x. All (λ y. y ≢ x) ys) xs → All (λ y. All (λ x. x ≢ y) xs) ys
turned xs [] apart = tt
turned xs (y ∷ ys) apart = (
  All-zip xs apart apart (λ x (ne, all) same. λ e. ne (sym e)),
  turned xs ys (All-zip xs apart apart λ x (ne, all) same. all),
)

head-Linked :
    {m : ℕ → Option Thread} {front behind : Option ℕ} {a : ℕ} {xs : List ℕ}
    → Linked m behind front (a ∷ xs)
    → (r : Thread) × (m a ≡ some r) × (r.next_q ≡ first_of xs behind) × Linked m behind (some a) xs
head-Linked (link r holds prev next linked) = (r, holds, next, linked)

module _ (s : Threads) (h : Heap) (q : QueueName) (t : ℕ) where
  -- The last write of deq leaves the threads that stay.
  closed :
      {s₂ : Threads} (xs ys : List ℕ) (r : Thread)
      → Around xs t ys
      → (s₂.queue_of q).first ≡ first_of (xs ++ ys) none
      → (s₂.queue_of q).last ≡ last_of none (xs ++ ys)
      → Linked s₂.thread none none (xs ++ ys)
      → IsQueue (record s₂ { thread = set_thread t (some r) s₂.thread }) q (xs ++ ys)
  closed {s₂} xs ys r around first last linked = record {
    first = first;
    last = last;
    linked =
        Linked-frame (xs ++ ys)
          (others_same s₂.thread t (some r) (xs ++ ys)
            (All-append (λ x. x ≢ t) xs ys around.not_left around.not_right))
          linked;
    distinct = around.without;
  }

  beside :
      {s₁ s₂ : Threads} (xs ys : List ℕ) (r : Thread)
      → Beside s q xs s₁
      → Beside s₁ q ys s₂
      → Beside s q (xs ++ (t ∷ ys)) (record s₂ { thread = set_thread t (some r) s₂.thread })
  beside xs ys r first second = record {
    memory = λ y new.
        let (left, (ne, right)) = All-append_split (λ x. x ≢ y) xs (t ∷ ys) new in
        ground (arith, ne) ∙ second.memory y right ∙ first.memory y left;
    queues = λ p e. second.queues p e ∙ first.queues p e;
  }

  -- On a queue that holds a list of threads, deq of any thread of the list ends, leaves the heap, and
  -- the queue holds the list without that thread; threads outside the list and the other queues stay.
  pub deq-IsQueue :
      (xs ys : List ℕ)
      → IsQueue s q (xs ++ (t ∷ ys))
      → Yields
          (λ s' h'.
            (h' ≡ h)
            × IsQueue s' q (xs ++ ys)
            × Beside s q (xs ++ (t ∷ ys)) s'
            × ((r : Thread) × (s'.thread t ≡ some r)))
          (deq (some q) t s h)
  unfolding deq edit thread_at
  deq-IsQueue xs ys is =
      let around = Distinct-Around xs t ys is.distinct in
      let (left, (r, holds, prev, next), right) = Linked-split xs t ys is.linked in
      rw holds (
        follow
          (unlink_prev-Linked s h q t r xs left around.left prev
            (is.first ∙ first_of-append xs (t ∷ ys)))
          λ s₁ h₁ (e₁, left₁, first₁, last₁, beside₁).
            let right₁ =
              Linked-frame ys
                (All-zip ys (turned xs ys around.apart) around.not_right
                  λ y ne other. beside₁.memory y ne)
                right in
            rw (beside₁.memory t around.not_left ∙ holds) (
              follow
                (unlink_next-Linked s₁ h₁ q t r ys right₁ around.right next
                  (last₁ ∙ is.last ∙ last_of-append none xs (t ∷ ys)))
                λ s₂ h₂ (e₂, right₂, last₂, first₂, beside₂).
                  let left₂ =
                    Linked-frame xs
                      (All-zip xs around.apart around.not_left λ x ne other. beside₂.memory x ne)
                      left₁ in
                  rw
                    (beside₂.memory t around.not_right ∙ (beside₁.memory t around.not_left ∙ holds))
                    (yields (
                      e₂ ∙ e₁,
                      closed xs ys (record r { queue = none }) around
                          (first₂ ∙ first₁ ∙ ap (first_of xs) next ∙ sym (first_of-append xs ys))
                          (last₂ ∙ ap (λ f. last_of f ys) prev ∙ sym (last_of-append none xs ys))
                          (Linked-append xs ys (subst (λ b. Linked s₂.thread b none xs) next left₂)
                            (subst (λ f. Linked s₂.thread none f ys) prev right₂)),
                      beside xs ys (record r { queue = none }) beside₁ beside₂,
                      (
                        record r { queue = none },
                        set_self s₂.thread t (some (record r { queue = none })),
                      ),
                    ))))

  -- Provided that the thread at `t` is there and in no place of the queue, enq ends, leaves the heap, and puts
  -- it in front of the queue's list; threads outside that list and the other queues stay.
  pub enq-IsQueue :
      (xs : List ℕ) (r : Thread)
      → IsQueue s q xs
      → All (λ x. x ≢ t) xs
      → s.thread t ≡ some r
      → Yields (λ s' h'. (h' ≡ h) × IsQueue s' q (t ∷ xs) × Beside s q (t ∷ xs) s') (enq q t s h)
  unfolding enq edit thread_at
  enq-IsQueue [] r is new holds =
      let entered = record r { queue = some q; next_q = (s.queue_of q).first; prev_q = none } in
      let placed = record r { next_q = (s.queue_of q).first; prev_q = none } in
      rw (holds, is.first, ==_refl t)
        (yields (
          refl,
          record {
            first = rw (same_self q) refl;
            last = rw (same_self q) refl;
            linked =
                link entered (set_self (set_thread t (some placed) s.thread) t (some entered)) refl
                  is.first nothing;
            distinct = (tt, tt);
          },
          record { memory = λ y (ne, none_left). ground (arith, ne); queues = λ p e. rw e refl },
        ))
  enq-IsQueue (a ∷ xs) r is new holds =
      let (ra, holds_a, next, linked) = head-Linked is.linked in
      let placed = record r { next_q = (s.queue_of q).first; prev_q = none } in
      let entered = record placed { queue = some q } in
      let pointed = record ra { prev_q = some t } in
      let at_a : set_thread t (some placed) s.thread a ≡ some ra = ground (arith, new.0, holds_a) in
      let at_t : set_thread a (some pointed) (set_thread t (some placed) s.thread) t ≡ some placed =
        ground (arith, new.0) in
      rw (holds, is.first, at_a, at_t)
        (yields
          {result = record s {
            thread =
                set_thread t (some entered)
                  (set_thread a (some pointed) (set_thread t (some placed) s.thread));
            queue_of =
                set_queue q (record { first = some t; last = (s.queue_of q).last }) s.queue_of;
          }}
          {after = h}
          (
            refl,
            record {
              first = rw (same_self q) refl;
              last = rw (same_self q) is.last;
              linked =
                  link entered
                    (set_self (set_thread a (some pointed) (set_thread t (some placed) s.thread)) t
                      (some entered))
                    refl is.first
                    (link {x = a} {xs = xs} pointed (ground (arith, new.0)) refl next (
                      Linked-frame xs
                        (All-zip xs new.1 is.distinct.0 λ x ne ne'. ground (arith, ne, ne'))
                        linked));
              distinct = (new, is.distinct);
            },
            record {
              memory = λ y (ne, (ne', all)). ground (arith, ne, ne');
              queues = λ p e. rw e refl;
            },
          ))
