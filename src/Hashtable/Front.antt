-- ===== src/Hashtable/Front.antt =====
-- hashtable_put puts a new link in front of its chain and counts it.
use move.Base.{
  ℕ, suc, ◌<◌, ◌≡◌, ◌≢◌, refl, Bool, false, some, List, ◌∷◌, if◌then◌else◌, get_elem?, set, arith,
  pos, length-set, get_elem?-set_self, get_elem?-set_ne, lt_of_get_elem?, ◌+ℤ◌,
}
use move.Value.{Value, num, ref, ovector, t_hashtable, mknum, num_half}
use move.Heap.{Heap, ok, atput, update, num_of}
use move.Heap.Laws.{at-ovector, atput-ovector, Yields, yields}
use move.Hashtable.{put_front}
use move.Hashtable.Chain.{Links, Link, Chain, cons, has, has_key, frame, replace_link}
use move.Hashtable.Invariant.{KeepsHashes-trans, KeepsHashes-table}
use move.Hashtable.Put.{set_next, atput-next, set_next-Link, set_next-Chain, set_next-keep}
use move.Hashtable.Rebuild.{Changed}

-- What put makes of a chain.
abbrev pub insert_link : Value → ℕ → Links → Links
insert_link key p xs = if has_key key xs then replace_link key p xs else (p, key) ∷ xs

-- A heap in which cell `t` holds a table with the given count and heads.
abbrev pub with_table : Heap → ℕ → Bool → ℕ → List Value → Heap
with_table h t f count heads = record h {
  cell = update h.cell t (some (ovector f t_hashtable (num (pos count) ∷ heads)));
}

count_suc : (count : ℕ) → suc count < num_half → mknum (pos count +ℤ pos 1) ≡ num (pos (suc count))
unfolding mknum ◌+ℤ◌
count_suc count fits = ground arith

-- A new link as the head of its chain.
pub head_write :
    (g : Heap) {t : ℕ} {f : Bool} {count : ℕ} {heads : List Value} (i : ℕ) {head : Value}
    (v : Value)
    → g.cell t ≡ some (ovector f t_hashtable (num (pos count) ∷ heads))
    → get_elem? heads i ≡ some head
    → atput (ref t) (suc i) v g ≡ ok tt (with_table g t f count (set heads i v))
head_write g {t} {count} {heads} i v holds at_i =
    atput-ovector g t (suc i) (num (pos count) ∷ heads) v holds
      (omega (arith, lt_of_get_elem? heads i at_i))

module _ {h : Heap} {t : ℕ} {f : Bool} {count : ℕ} {heads : List Value} (i : ℕ) {head : Value}
    {xs : Links} (holds : h.cell t ≡ some (ovector f t_hashtable (num (pos count) ∷ heads)))
    (at_i : get_elem? heads i ≡ some head) (chain : Chain h head xs) (apart : has t xs ≡ false)
    (key : Value) {p : ℕ} {w : Value} (new : Link h p key w) (ne : p ≢ t)
    (out : has p xs ≡ false) where
  front_Changed :
      let h₁ = set_next new head in
      let h₂ = with_table h₁ t f count (set heads i (ref p)) in
      Changed h t f
        (suc count)
        heads
        i
        p
        xs
        ((p, key) ∷ xs)
        (with_table h₂ t f (suc count) (set heads i (ref p)))
  front_Changed =
      let h₁ = set_next new head in
      let h₂ = with_table h₁ t f count (set heads i (ref p)) in
      let g = with_table h₂ t f (suc count) (set heads i (ref p)) in
      let old : h₁.cell t ≡ some (ovector f t_hashtable (num (pos count) ∷ heads)) = ground arith in
      let held : h₂.cell t ≡ some (ovector f t_hashtable (num (pos count) ∷ set heads i (ref p))) =
        ground arith in
      let l₁ = set_next-Link new head in
      record {
        new_heads = set heads i (ref p);
        new_head = ref p;
        holds = ground arith;
        width = length-set heads i (ref p);
        at_i = get_elem?-set_self heads i (ref p) (lt_of_get_elem? heads i at_i);
        others = λ j ne. get_elem?-set_ne heads i j (ref p) ne;
        chain =
            cons
              (record {
                finalize = l₁.finalize;
                type = l₁.type;
                rest = l₁.rest;
                holds = ground arith;
              })
              out (frame (set_next-Chain new head chain out) (ground arith));
        same = λ a na nt o. ground arith;
        keep = KeepsHashes-trans h h₁ g (set_next-keep new head) (
            KeepsHashes-trans h₁ h₂ g (KeepsHashes-table h₁ h₂ t _ old refl)
              (KeepsHashes-table h₂ g t _ held refl));
        still_fresh = refl;
      }

  pub put_front-Changed :
      suc count < num_half
      → Yields
          (λ _ g. Changed h t f (suc count) heads i p xs ((p, key) ∷ xs) g)
          (put_front (ref t) (suc i) (ref p) h)
  unfolding put_front num_of
  put_front-Changed fits =
      let h₁ = set_next new head in
      let h₂ = with_table h₁ t f count (set heads i (ref p)) in
      let old : h₁.cell t ≡ some (ovector f t_hashtable (num (pos count) ∷ heads)) = ground arith in
      let held : h₂.cell t ≡ some (ovector f t_hashtable (num (pos count) ∷ set heads i (ref p))) =
        ground arith in
      rw
        (
          at-ovector h t (suc i) (num (pos count) ∷ heads) holds at_i,
          atput-next new head,
          head_write h₁ i (ref p) old at_i,
          at-ovector h₂ t 0 (num (pos count) ∷ set heads i (ref p)) held refl,
          count_suc count fits,
          atput-ovector h₂ t 0 (num (pos count) ∷ set heads i (ref p)) (num (pos (suc count))) held
              (omega arith),
        )
        (yields front_Changed)
