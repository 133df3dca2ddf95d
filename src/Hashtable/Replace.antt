-- ===== src/Hashtable/Replace.antt =====
-- hashtable_put puts the new link in place of the link that held its key.
use move.Base.{
  ℕ, zero, suc, ◌<◌, ◌≡◌, ◌≢◌, refl, Bool, true, false, some, List, ◌∷◌, length, get_elem?, set,
  arith, inl, inr, Bool-cases, sym, ◌∙◌, pos, length-set, get_elem?-set_self, get_elem?-set_ne,
  lt_of_get_elem?,
}
use move.Value.{Value, null, num, ref, ovector, t_hashtable, same}
use move.Heap.{Heap}
use move.Heap.Laws.{Yields, yields, weaken}
use move.Hashtable.{put_loop, relink}
use move.Hashtable.Chain.{Links, Link, Chain, nil, cons, has, has_key, replace_link, frame}
use move.Hashtable.Get.{at-name, at-next}
use move.Hashtable.Invariant.{KeepsHashes-trans, KeepsHashes-table}
use move.Hashtable.Put.{
  set_next, atput-next, set_next-Link, set_next-Chain, set_next-keep, put_loop-Replaced, Replaced,
}
use move.Hashtable.Rebuild.{Changed}
use move.Hashtable.Front.{with_table, head_write}

module _ {h : Heap} {t : ℕ} {f : Bool} {count : ℕ} {heads : List Value} (i : ℕ)
    (holds : h.cell t ≡ some (ovector f t_hashtable (num (pos count) ∷ heads))) (key : Value)
    {p : ℕ} {w : Value} (new : Link h p key w) (ne : p ≢ t) where
  -- The first link of the chain held the key.
  head_Changed :
      {r : ℕ} {k v : Value} {xs : Links}
      → get_elem? heads i ≡ some (ref r)
      → Chain h v xs
      → has t ((r, k) ∷ xs) ≡ false
      → has p ((r, k) ∷ xs) ≡ false
      → Changed h t f count heads i p
          ((r, k) ∷ xs)
          ((p, key) ∷ xs)
          (with_table (set_next new v) t f count (set heads i (ref p)))
  head_Changed {v} at_i c apart out =
      let h₁ = set_next new v in
      let g = with_table h₁ t f count (set heads i (ref p)) in
      let old : h₁.cell t ≡ some (ovector f t_hashtable (num (pos count) ∷ heads)) = ground arith in
      let l₁ = set_next-Link new v in
      record {
        new_heads = set heads i (ref p);
        new_head = ref p;
        holds = ground arith;
        width = length-set heads i (ref p);
        at_i = get_elem?-set_self heads i (ref p) (lt_of_get_elem? heads i at_i);
        others = λ j nj. get_elem?-set_ne heads i j (ref p) nj;
        chain =
            cons
              (record {
                finalize = l₁.finalize;
                type = l₁.type;
                rest = l₁.rest;
                holds = ground arith;
              })
              (ground arith) (frame (set_next-Chain new v c (ground arith)) (ground arith));
        same = λ a na nt o. ground arith;
        keep = KeepsHashes-trans h h₁ g (set_next-keep new v) (KeepsHashes-table h₁ g t _ old refl);
        still_fresh = refl;
      }

  -- A later link of the chain held the key.
  later_Changed :
      {r : ℕ} {k : Value} {xs : Links} {g : Heap}
      → get_elem? heads i ≡ some (ref r)
      → has t ((r, k) ∷ xs) ≡ false
      → Replaced h key p r k xs g
      → Changed h t f count heads i p ((r, k) ∷ xs) ((r, k) ∷ replace_link key p xs) g
  later_Changed {r} at_i apart rep = record {
    new_heads = heads;
    new_head = ref r;
    holds = rep.same t (λ e. ne (sym e)) apart ∙ holds;
    width = refl;
    at_i = at_i;
    others = λ j nj. refl;
    chain = rep.chain;
    same = λ a na nt o. rep.same a na o;
    keep = rep.keep;
    still_fresh = rep.still_fresh;
  }

  pub put_loop-Changed :
      (fuel : ℕ) {head : Value} {xs : Links}
      → get_elem? heads i ≡ some head
      → Chain h head xs
      → has t xs ≡ false
      → has p xs ≡ false
      → length xs < fuel
      → has_key key xs ≡ true
      → Yields
          (λ done g. (done ≡ true) × Changed h t f count heads i p xs (replace_link key p xs) g)
          (put_loop fuel (ref t) (suc i) key (ref p) null head h)
  unfolding put_loop relink
  put_loop-Changed zero at_i c apart out m e = absurd (omega arith)
  put_loop-Changed (suc fuel) at_i nil apart out m e = absurd (cc)
  put_loop-Changed (suc fuel) at_i (cons {k} {v} {xs} lr outr c) apart out m e =
      elim (Bool-cases (same k key)) [
        | inl hit ↦
            let h₁ = set_next new v in
            let old : h₁.cell t ≡ some (ovector f t_hashtable (num (pos count) ∷ heads)) =
              ground arith in
            rw (at-name lr, at-next lr, hit, atput-next new v, head_write h₁ i (ref p) old at_i)
              (yields (refl, head_Changed at_i c apart out))
        | inr miss ↦
            rw (at-name lr, at-next lr, miss)
              (weaken
                (put_loop-Replaced (ref t) (suc i) key new fuel lr outr c (ground arith)
                  (ground arith) (omega arith) (ground arith))
                λ done g (d, rep). (d, later_Changed at_i apart rep))
      ]
