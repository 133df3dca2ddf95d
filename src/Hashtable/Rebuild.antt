-- ===== src/Hashtable/Rebuild.antt =====
-- A table of which one chain has changed.
use move.Base.{
  ℕ, ◌<◌, ◌≡◌, ◌≢◌, true, false, some, List, ◌∷◌, ◌==◌, if◌then◌else◌, length, get_elem?, arith,
  Bool-cases, inl, inr, pos, Bool, ◌∙◌, sym,
}
use mathlib.Core.Path.{subst}
use move.Value.{Value, num, ovector, t_hashtable}
use move.Heap.{Heap}
use move.Hashtable.Chain.{Links, Chain, has, frame, IsBounded, lt_of_has}
use move.Hashtable.Invariant.{IsTable, IsBucket, AllBelong, AllBelong-keep, KeepsHashes, has-other}

abbrev pub with_bucket : (ℕ → Links) → ℕ → Links → ℕ → Links
with_bucket buckets i xs j = if i == j then xs else buckets j

module _ {h g : Heap} {t n count : ℕ} {buckets : ℕ → Links} (is : IsTable h t n count buckets)
    (keep : KeepsHashes h g) where
  IsBucket-frame :
      (j : ℕ) {heads : List Value}
      → j < n
      → get_elem? heads j ≡ get_elem? is.heads j
      → ((a : ℕ) → has a (buckets j) ≡ true → g.cell a ≡ h.cell a)
      → IsBucket g t n j heads (buckets j)
  IsBucket-frame j less head same =
      let b = is.bucket_at j less in
      record {
        head = b.head;
        at_index = ground (arith, head, b.at_index);
        chain = frame b.chain same;
        belong = AllBelong-keep n j (buckets j) keep b.belong;
        apart = b.apart;
      }

  pub rebuild :
      {i : ℕ} {head : Value} {xs : Links} (f : Bool) (count' : ℕ) (heads : List Value)
      → g.cell t ≡ some (ovector f t_hashtable (num (pos count') ∷ heads))
      → length heads ≡ n
      → get_elem? heads i ≡ some head
      → ((j : ℕ) → i ≢ j → get_elem? heads j ≡ get_elem? is.heads j)
      → Chain g head xs
      → AllBelong g n i xs
      → has t xs ≡ false
      → ((j a : ℕ) → j < n → i ≢ j → has a (buckets j) ≡ true → g.cell a ≡ h.cell a)
      → IsTable g t n count' (with_bucket buckets i xs)
  rebuild {i} {head} {xs} f count' heads holds width at_i others chain belong apart same = record {
    positive = is.positive;
    finalize = f;
    heads = heads;
    holds = holds;
    width = width;
    bucket_at = λ j less. elim (Bool-cases (i == j)) [
      | inl e ↦ rw e (
          let same_index : i ≡ j = ground arith in
          rw (← same_index) (record {
            head = head;
            at_index = at_i;
            chain = chain;
            belong = belong;
            apart = apart;
          }))
      | inr e ↦
          let ne : i ≢ j = ground arith in
          rw e (IsBucket-frame j less (others j ne) λ a m. same j a less ne m)
    ];
  }

-- One operation on the chain `xs` at index `i`, whose head was in `heads`: the chain is now `ys`,
-- and only the table, its links and the link at `p` were written.
pub record Changed (h : Heap) (t : ℕ) (f : Bool) (count' : ℕ) (heads : List Value) (i p : ℕ)
    (xs ys : Links) (g : Heap) : Type 0 where
  pub new_heads : List Value
  pub new_head : Value
  pub holds : g.cell t ≡ some (ovector f t_hashtable (num (pos count') ∷ new_heads))
  pub width : length new_heads ≡ length heads
  pub at_i : get_elem? new_heads i ≡ some new_head
  pub others : (j : ℕ) → i ≢ j → get_elem? new_heads j ≡ get_elem? heads j
  pub chain : Chain g new_head ys
  pub same : (a : ℕ) → a ≢ p → a ≢ t → has a xs ≡ false → g.cell a ≡ h.cell a
  pub keep : KeepsHashes h g
  pub still_fresh : g.fresh ≡ h.fresh

ne_of_has : (a p : ℕ) (xs : Links) → has a xs ≡ true → has p xs ≡ false → a ≢ p
ne_of_has a p xs m out e = cc (subst (λ x. has x xs ≡ true) e m)

-- The other chains of a changed table stand as they were.
pub rebuild_changed :
    {h g : Heap} {t n count i p count' : ℕ} {buckets : ℕ → Links} {ys : Links}
    (is : IsTable h t n count buckets)
    → i < n
    → ((j : ℕ) → j < n → i ≢ j → has p (buckets j) ≡ false)
    → Changed h t is.finalize count' is.heads i p (buckets i) ys g
    → AllBelong h n i ys
    → has t ys ≡ false
    → IsTable g t n count' (with_bucket buckets i ys)
rebuild_changed {h} {g} {t} {n} {i} {p} {count'} {buckets} {ys} is less unlinked c belong apart =
    rebuild is c.keep is.finalize count' c.new_heads c.holds (c.width ∙ is.width) c.at_i c.others
      c.chain (AllBelong-keep n i ys c.keep belong) apart
      λ j a lj ne m.
        c.same a (ne_of_has a p (buckets j) m (unlinked j lj ne))
          (ne_of_has a t (buckets j) m (is.bucket_at j lj).apart)
          (has-other is j i a lj less (λ e. ne (sym e)) m)

-- No operation on one chain reaches addresses that were not handed out.
pub Changed-IsBounded :
    {h g : Heap} {t count' i p : ℕ} {f : Bool} {heads : List Value} {xs ys : Links} {head : Value}
    → IsBounded h
    → p < h.fresh
    → t < h.fresh
    → Chain h head xs
    → Changed h t f count' heads i p xs ys g
    → IsBounded g
Changed-IsBounded {h} {g} {xs} bounded pl tl chain c a ge =
    let fresh = c.still_fresh in
    c.same a (λ e. omega arith) (λ e. omega arith)
      (elim (Bool-cases (has a xs)) [
        | inl e ↦ absurd (omega (arith, lt_of_has bounded chain a e))
        | inr e ↦ e
      ])
    ∙ bounded a (omega arith)
