-- ===== src/Hashtable/Put.antt =====
-- hashtable_put: the loop over the chain.
use move.Base.{
  ℕ, zero, suc, ◌<◌, ◌≡◌, ◌≢◌, refl, true, false, some, ◌∷◌, length, arith, inl, inr, Bool-cases,
  sym,
}
use move.Value.{Value, ref, ovector, same, hashlink_next}
use move.Heap.{Heap, ok, atput, update}
use move.Heap.Laws.{atput-ovector, Yields, yields, weaken}
use move.Hashtable.{put_loop, relink}
use move.Hashtable.Chain.{
  Links, Link, Chain, nil, cons, has, has_key, replace_link, has-replace_link, frame,
}
use move.Hashtable.Get.{at-name, at-next}
use move.Hashtable.Invariant.{KeepsHashes, KeepsHashes-next, KeepsHashes-trans}

-- What `AT(p, HASHLINK_NEXT) = v` makes of a heap in which `p` is a link.
abbrev pub set_next : {h : Heap} {p : ℕ} {k w : Value} → Link h p k w → Value → Heap
set_next {h} {p} {k} l v = record h {
  cell = update h.cell p (some (ovector l.finalize l.type (k ∷ v ∷ l.rest)));
}

module _ {h : Heap} {p : ℕ} {k w : Value} (l : Link h p k w) (v : Value) where
  pub atput-next : atput (ref p) hashlink_next v h ≡ ok tt (set_next l v)
  atput-next = atput-ovector h p 1 (k ∷ w ∷ l.rest) v l.holds (omega arith)

  pub set_next-Link : Link (set_next l v) p k v
  set_next-Link = record {
    finalize = l.finalize;
    type = l.type;
    rest = l.rest;
    holds = ground arith;
  }

  pub set_next-other : {q : ℕ} {j x : Value} → Link h q j x → p ≢ q → Link (set_next l v) q j x
  set_next-other {q} m ne = record {
    finalize = m.finalize;
    type = m.type;
    rest = m.rest;
    holds = ground (arith, m.holds);
  }

  pub set_next-Chain :
      {x : Value} {xs : Links} → Chain h x xs → has p xs ≡ false → Chain (set_next l v) x xs
  set_next-Chain c out = frame c (ground arith)

  pub set_next-keep : KeepsHashes h (set_next l v)
  set_next-keep = KeepsHashes-next h (set_next l v) p v l.holds refl

module _ {h : Heap} (table : Value) (b : ℕ) (key : Value) where
  -- Without a link of the key the loop changes nothing.
  pub put_loop-absent :
      (fuel : ℕ) (value prev : Value) {v : Value} {xs : Links}
      → Chain h v xs
      → length xs < fuel
      → has_key key xs ≡ false
      → put_loop fuel table b key value prev v h ≡ ok false h
  unfolding put_loop
  put_loop-absent zero value prev c m e = absurd (omega arith)
  put_loop-absent (suc fuel) value prev nil m e = refl
  put_loop-absent (suc fuel) value prev (cons {p} {k} {v} {xs} l out c) m e =
      let miss : same k key ≡ false = ground arith in
      rw (at-name l, at-next l, miss)
        (put_loop-absent fuel value (ref p) c (omega arith) (ground arith))

-- The loop found the key behind the link `(q, j)`, and put the link `p` in place of its link.
pub record Replaced (h : Heap) (key : Value) (p q : ℕ) (j : Value) (xs : Links) (g : Heap)
    : Type 0 where
  pub chain : Chain g (ref q) ((q, j) ∷ replace_link key p xs)
  pub same : (a : ℕ) → a ≢ p → has a ((q, j) ∷ xs) ≡ false → g.cell a ≡ h.cell a
  pub keep : KeepsHashes h g
  pub still_fresh : g.fresh ≡ h.fresh

module _ {h : Heap} (table : Value) (b : ℕ) (key : Value) {p : ℕ} {w : Value}
    (new : Link h p key w) where
  -- The link `r` behind `q` is replaced.
  replace_here :
      {q r : ℕ} {j k v : Value} {xs : Links}
      → Link h q j (ref r)
      → has q ((r, k) ∷ xs) ≡ false
      → Link h r k v
      → has r xs ≡ false
      → Chain h v xs
      → p ≢ q
      → has p ((r, k) ∷ xs) ≡ false
      → same k key ≡ true
      → (g : Heap) × (atput (ref p) hashlink_next v h ≡ ok tt (set_next new v))
        × (relink table b (ref q) (ref p) (set_next new v) ≡ ok tt g)
        × Replaced h key p q j ((r, k) ∷ xs) g
  unfolding relink
  replace_here {q} {r} {j} {k} {v} {xs} lq outq lr outr c ne outp hit =
      let lq' = set_next-other new v lq ne in
      let g = set_next lq' (ref p) in
      let first : Link g q j (ref p) = set_next-Link lq' (ref p) in
      let second : Link g p key v =
        set_next-other lq' (ref p) (set_next-Link new v) (λ e. ne (sym e)) in
      let rest : Chain g v xs =
        set_next-Chain lq' (ref p) (set_next-Chain new v c (ground arith)) (ground arith) in
      (
        g,
        atput-next new v,
        atput-next lq' (ref p),
        record {
          chain = rw hit (cons first (ground arith) (cons second (ground arith) rest));
          same = λ a na out. ground arith;
          keep =
              KeepsHashes-trans h (set_next new v) g (set_next-keep new v)
                (set_next-keep lq' (ref p));
          still_fresh = refl;
        },
      )

  -- The link `r` is passed over.
  Replaced-cons :
      {q r : ℕ} {j k : Value} {xs : Links} {g : Heap}
      → Link h q j (ref r)
      → has q ((r, k) ∷ xs) ≡ false
      → p ≢ q
      → same k key ≡ false
      → Replaced h key p r k xs g
      → Replaced h key p q j ((r, k) ∷ xs) g
  Replaced-cons {q} {r} {j} {k} {xs} {g} lq outq ne miss rep = record {
    chain = rw miss (
        cons
          (record {
            finalize = lq.finalize;
            type = lq.type;
            rest = lq.rest;
            holds = ground (arith, rep.same q, lq.holds);
          })
          (ground (arith, has-replace_link key p q xs)) rep.chain);
    same = λ a na out. rep.same a na (ground arith);
    keep = rep.keep;
    still_fresh = rep.still_fresh;
  }

  pub put_loop-Replaced :
      (fuel : ℕ) {q : ℕ} {j v : Value} {xs : Links}
      → Link h q j v
      → has q xs ≡ false
      → Chain h v xs
      → p ≢ q
      → has p xs ≡ false
      → length xs < fuel
      → has_key key xs ≡ true
      → Yields
          (λ done g. (done ≡ true) × Replaced h key p q j xs g)
          (put_loop fuel table b key (ref p) (ref q) v h)
  unfolding put_loop
  put_loop-Replaced zero lq outq c ne outp m e = absurd (omega arith)
  put_loop-Replaced (suc fuel) lq outq nil ne outp m e = absurd (cc)
  put_loop-Replaced (suc fuel) {q} lq outq (cons {p = r} {k} {v} {xs} lr outr c) ne outp m e =
      elim (Bool-cases (same k key)) [
        | inl hit ↦
            let (g, first, second, rep) = replace_here lq outq lr outr c ne outp hit in
            rw (at-name lr, at-next lr, hit, first, second) (yields (refl, rep))
        | inr miss ↦
            rw (at-name lr, at-next lr, miss)
              (weaken
                (put_loop-Replaced fuel lr outr c (ground arith) (ground arith) (omega arith)
                  (ground arith))
                λ done g (d, rep). (d, Replaced-cons lq outq ne miss rep))
      ]
