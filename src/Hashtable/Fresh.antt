-- ===== src/Hashtable/Fresh.antt =====
-- newhashtable makes an empty well-formed table.
use move.Base.{
  ℕ, suc, ◌+◌, ◌<◌, ◌≡◌, ◌≢◌, refl, false, some, [], ◌∷◌, length, replicate, length-replicate,
  get_elem?-replicate, arith, pos, lt→ltb, ◌∙◌, ◌*◌,
}
use move.Value.{null, num, ref, mknum, ovector, t_hashtable}
use move.Heap.{Heap, update, getmem}
use move.Heap.Laws.{Yields, yields, follow}
use move.Heap.Writes.{atput-Writes}
use move.Alloc.{newovector, max_cells}
use move.Hashtable.{newhashtable}
use move.Hashtable.Chain.{nil}
use move.Hashtable.Invariant.{IsTable}

-- For a positive number of chains whose cells have a size that is an `int`, newhashtable terminates with
-- a table at a new address that is well-formed, has that many chains, all empty, and says 0. Every
-- other address holds what it held.
pub newhashtable-IsTable :
    (len : ℕ) (h : Heap)
    → 0 < len
    → suc len < max_cells
    → Yields
        (λ v g.
          (v ≡ ref h.fresh)
          × IsTable g h.fresh len 0 (λ i. [])
          × ((a : ℕ) → a ≢ h.fresh → g.cell a ≡ h.cell a))
        (newhashtable len h)
unfolding newhashtable newovector getmem mknum
newhashtable-IsTable len h positive fits =
    let size : len + 1 ≡ suc len = omega arith in
    let blank = ovector false t_hashtable (replicate (suc len) null) in
    let start = record h {
      cell = update h.cell h.fresh (some blank);
      fresh = suc h.fresh;
      all_objects = h.fresh ∷ h.all_objects;
      curr_heapsize = h.curr_heapsize + (24 + length (replicate (suc len) null) * 8);
    } in
    rw (size, lt→ltb (suc len) max_cells fits)
      (follow
        (atput-Writes start h.fresh 0 blank (replicate (suc len) null) (num (pos 0)) (ground arith)
          refl (omega arith))
        λ _ g w. yields (
          refl,
          record {
            positive = positive;
            finalize = false;
            heads = replicate len null;
            holds = w.at_p;
            width = length-replicate len null;
            bucket_at = λ i less. record {
              head = null;
              at_index = get_elem?-replicate len i null less;
              chain = nil;
              belong = tt;
              apart = refl;
            };
          },
          λ a ne. w.others a ne ∙ ground arith,
        ))
