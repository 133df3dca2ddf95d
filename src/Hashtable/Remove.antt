-- ===== src/Hashtable/Remove.antt =====
-- hashtable_remove: the loop over the chain.
use move.Base.{
  ℕ, zero, suc, ◌<◌, ◌≡◌, refl, Bool, true, false, some, List, ◌∷◌, length, get_elem?, set, arith,
  inl, inr, Bool-cases, ◌∙◌, pos, length-set, get_elem?-set_self, get_elem?-set_ne, lt_of_get_elem?,
}
use move.Value.{Value, null, num, ref, ovector, t_hashtable, same}
use move.Heap.{Heap, ok, atput}
use move.Heap.Laws.{Yields, yields, weaken}
use move.Hashtable.{remove_loop, relink}
use move.Hashtable.Chain.{Links, Link, Chain, nil, cons, has, remove_link, has-remove_link, frame}
use move.Hashtable.Get.{at-name, at-next}
use move.Hashtable.Invariant.{KeepsHashes, KeepsHashes-trans, KeepsHashes-table}
use move.Hashtable.Put.{
  set_next, atput-next, set_next-Link, set_next-other, set_next-Chain, set_next-keep,
}
use move.Hashtable.Rebuild.{Changed}
use move.Hashtable.Front.{with_table, head_write}

-- Behind the link `(q, j)` the link of the key is gone.
record Removed (h : Heap) (key : Value) (q : ℕ) (j : Value) (xs : Links) (g : Heap) : Type 0 where
  chain : Chain g (ref q) ((q, j) ∷ remove_link key xs)
  same : (a : ℕ) → has a ((q, j) ∷ xs) ≡ false → g.cell a ≡ h.cell a
  keep : KeepsHashes h g
  still_fresh : g.fresh ≡ h.fresh

module _ {h : Heap} (table : Value) (b : ℕ) (key : Value) where
  remove_here :
      {q r : ℕ} {j k v : Value} {xs : Links}
      → Link h q j (ref r)
      → has q ((r, k) ∷ xs) ≡ false
      → Link h r k v
      → has r xs ≡ false
      → Chain h v xs
      → same k key ≡ true
      → (g₁ g : Heap) × (relink table b (ref q) v h ≡ ok tt g₁)
        × (atput (ref r) 1 null g₁ ≡ ok tt g)
        × Removed h key q j ((r, k) ∷ xs) g
  unfolding relink
  remove_here {q} {r} {j} {k} {v} {xs} lq outq lr outr c hit =
      let g₁ = set_next lq v in
      let lr' = set_next-other lq v lr (ground arith) in
      let first = set_next-Link lq v in
      let g = set_next lr' null in
      (
        g₁,
        g,
        atput-next lq v,
        atput-next lr' null,
        record {
          chain = rw hit (
              cons (set_next-other lr' null first (ground arith)) (ground arith)
                (set_next-Chain lr' null (set_next-Chain lq v c (ground arith)) outr));
          same = λ a out. ground arith;
          keep = KeepsHashes-trans h g₁ g (set_next-keep lq v) (set_next-keep lr' null);
          still_fresh = refl;
        },
      )

  Removed-cons :
      {q r : ℕ} {j k : Value} {xs : Links} {g : Heap}
      → Link h q j (ref r)
      → has q ((r, k) ∷ xs) ≡ false
      → same k key ≡ false
      → Removed h key r k xs g
      → Removed h key q j ((r, k) ∷ xs) g
  Removed-cons {q} {r} {j} {k} {xs} {g} lq outq miss rem = record {
    chain = rw miss (
        cons
          (record {
            finalize = lq.finalize;
            type = lq.type;
            rest = lq.rest;
            holds = ground (arith, rem.same q, lq.holds);
          })
          (ground (arith, has-remove_link key q xs)) rem.chain);
    same = λ a out. rem.same a (ground arith);
    keep = rem.keep;
    still_fresh = rem.still_fresh;
  }

  remove_loop-Removed :
      (fuel : ℕ) {q : ℕ} {j v : Value} {xs : Links}
      → Link h q j v
      → has q xs ≡ false
      → Chain h v xs
      → length xs < fuel
      → Yields (λ _ g. Removed h key q j xs g) (remove_loop fuel table b key (ref q) v h)
  unfolding remove_loop
  remove_loop-Removed zero lq outq c m = absurd (omega arith)
  remove_loop-Removed (suc fuel) lq outq nil m = yields (record {
    chain = cons lq outq nil;
    same = λ a o. refl;
    keep = λ key' k s. s;
    still_fresh = refl;
  })
  remove_loop-Removed (suc fuel) {q} lq outq (cons {p = r} {k} {v} {xs} lr outr c) m =
      elim (Bool-cases (same k key)) [
        | inl hit ↦
            let (g₁, g, first, second, rem) = remove_here lq outq lr outr c hit in
            rw (at-name lr, at-next lr, hit, first, second) (yields rem)
        | inr miss ↦
            rw (at-name lr, at-next lr, miss)
              (weaken (remove_loop-Removed fuel lr outr c (omega arith))
                λ _ g rem. Removed-cons lq outq miss rem)
      ]

module _ {h : Heap} {t : ℕ} {f : Bool} {count : ℕ} {heads : List Value} (i : ℕ)
    (holds : h.cell t ≡ some (ovector f t_hashtable (num (pos count) ∷ heads))) (key : Value) where
  head_Changed :
      {r : ℕ} {k v : Value} {xs : Links}
      → get_elem? heads i ≡ some (ref r)
      → Link h r k v
      → has r xs ≡ false
      → Chain h v xs
      → has t ((r, k) ∷ xs) ≡ false
      → (g₁ g : Heap) × (atput (ref t) (suc i) v h ≡ ok tt g₁)
        × (atput (ref r) 1 null g₁ ≡ ok tt g)
        × Changed h t f count heads i t ((r, k) ∷ xs) xs g
  head_Changed {r} {k} {v} {xs} at_i lr outr c apart =
      let h₁ = with_table h t f count (set heads i v) in
      let lr' : Link h₁ r k v = record {
        finalize = lr.finalize;
        type = lr.type;
        rest = lr.rest;
        holds = ground (arith, lr.holds);
      } in
      let g = set_next lr' null in
      (
        h₁,
        g,
        head_write h i v holds at_i,
        atput-next lr' null,
        record {
          new_heads = set heads i v;
          new_head = v;
          holds = ground arith;
          width = length-set heads i v;
          at_i = get_elem?-set_self heads i v (lt_of_get_elem? heads i at_i);
          others = λ j nj. get_elem?-set_ne heads i j v nj;
          chain = set_next-Chain lr' null (frame c (ground arith)) outr;
          same = λ a na nt o. ground arith;
          keep =
              KeepsHashes-trans h h₁ g (KeepsHashes-table h h₁ t _ holds refl)
                (set_next-keep lr' null);
          still_fresh = refl;
        },
      )

  pub remove_loop-Changed :
      (fuel : ℕ) {head : Value} {xs : Links}
      → get_elem? heads i ≡ some head
      → Chain h head xs
      → has t xs ≡ false
      → length xs < fuel
      → Yields
          (λ _ g. Changed h t f count heads i t xs (remove_link key xs) g)
          (remove_loop fuel (ref t) (suc i) key null head h)
  unfolding remove_loop relink
  remove_loop-Changed zero at_i c apart m = absurd (omega arith)
  remove_loop-Changed (suc fuel) at_i nil apart m = yields (record {
    new_heads = heads;
    new_head = null;
    holds = holds;
    width = refl;
    at_i = at_i;
    others = λ j nj. refl;
    chain = nil;
    same = λ a na nt o. refl;
    keep = λ key' k s. s;
    still_fresh = refl;
  })
  remove_loop-Changed (suc fuel) at_i (cons {p = r} {k} {v} {xs} lr outr c) apart m =
      elim (Bool-cases (same k key)) [
        | inl hit ↦
            let (g₁, g, first, second, changed) = head_Changed at_i lr outr c apart in
            rw (at-name lr, at-next lr, hit, first, second) (yields changed)
        | inr miss ↦
            rw (at-name lr, at-next lr, miss)
              (weaken (remove_loop-Removed (ref t) (suc i) key fuel lr outr c (omega arith))
                λ _ g rem. record {
                  new_heads = heads;
                  new_head = ref r;
                  holds = rem.same t apart ∙ holds;
                  width = refl;
                  at_i = at_i;
                  others = λ j nj. refl;
                  chain = rem.chain;
                  same = λ a na nt o. rem.same a o;
                  keep = rem.keep;
                  still_fresh = rem.still_fresh;
                })
      ]
