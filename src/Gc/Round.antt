-- ===== src/Gc/Round.antt =====
-- One round of the sweep: what becomes of one object.
use move.Base.{
  ℕ, ◌+◌, ◌≡◌, ◌≢◌, inl, inr, refl, sym, Bool, true, false, not, none, some, ◌∷◌, ◌&&◌,
  if◌then◌else◌, arith, Bool-cases,
}
use move.Value.{ref, Body}
use move.Heap.{Heap, Run, body_of}
use move.Heap.Laws.{Yields, yields, follow}
use move.Gc.{Gc, finalizer_taken, sweep_one}
use move.Heap.{put_body}
use move.Gc.Relink.{Table, Ready, relink-Ready}

-- What becomes of the object at `p`, by its mark and its `finalize` flag.
abbrev pub Outcome : (ℕ → Bool) → (ℕ → ℕ) → Heap → Bool → Bool → ℕ → Heap → Type 0
Outcome fin size h true flag p h' = Ready fin size h' p
Outcome fin size h false true p h' =
    (b : Body) × (h.cell p ≡ some b) × (h'.cell p ≡ some (finalizer_taken b))
Outcome fin size h false false p h' = h'.cell p ≡ none

-- One round of the sweep, on the object at `p`.
pub record Swept (fin : ℕ → Bool) (size : ℕ → ℕ) (t n : ℕ) (gc : Gc) (h : Heap) (p : ℕ) (gc' : Gc)
    (h' : Heap) : Type 0 where
  pub table : Table h' t n
  pub others : (q : ℕ) → q ≢ t → q ≢ p → h'.cell q ≡ h.cell q
  pub marks : (q : ℕ) → q ≢ p → gc'.marked q ≡ gc.marked q
  pub cleared : gc'.marked p ≡ false
  pub objects : h'.all_objects ≡ (if gc.marked p then p ∷ h.all_objects else h.all_objects)
  pub bytes : h'.curr_heapsize ≡ (if gc.marked p then h.curr_heapsize + size p else h.curr_heapsize)
  pub waiting :
      gc'.finalizable_chain
      ≡ (if not (gc.marked p) && fin p then p ∷ gc.finalizable_chain else gc.finalizable_chain)
  pub outcome : Outcome fin size h (gc.marked p) (fin p) p h'

module _ (fin : ℕ → Bool) (size : ℕ → ℕ) (t n p : ℕ) (gc : Gc) (h : Heap) (table : Table h t n)
    (ready : Ready fin size h p) where
  abbrev pub Round : Run Gc → Type 0
  Round run = Yields (λ gc' h'. Swept fin size t n gc h p gc' h') run

  kept : gc.marked p ≡ true → Round (sweep_one (ref t) p gc h)
  unfolding sweep_one body_of
  kept e =
      rw (ready.holds, e)
        (follow
          (relink-Ready fin size h t n p table ready.body ready.holds ready.flag ready.bytes
            ready.hash)
          λ _ h' (relinked, ready'). yields (record {
            table = record {
              is_symtab = relinked.table.is_symtab;
              chains = relinked.table.chains;
              holds = relinked.table.holds;
              count = relinked.table.count;
              some_chain = relinked.table.some_chain;
            };
            others = relinked.others;
            marks = ground arith;
            cleared = ground arith;
            objects = rw (e, relinked.all_same) refl;
            bytes = rw (e, relinked.size_same, ready.bytes) refl;
            waiting = rw e refl;
            outcome = rw e (record {
              body = ready'.body;
              holds = ready'.holds;
              flag = ready'.flag;
              bytes = ready'.bytes;
              hash = ready'.hash;
            });
          }))

  detached : gc.marked p ≡ false → fin p ≡ true → p ≢ t → Round (sweep_one (ref t) p gc h)
  unfolding sweep_one body_of put_body
  detached e flag apart =
      rw (ready.holds, e, sym ready.flag, flag)
        (yields (record {
          table = record {
            is_symtab = table.is_symtab;
            chains = table.chains;
            holds = ground (arith, apart, table.holds);
            count = table.count;
            some_chain = table.some_chain;
          };
          others = ground arith;
          marks = λ q f. refl;
          cleared = e;
          objects = rw e refl;
          bytes = rw e refl;
          waiting = rw (e, flag) refl;
          outcome = rw (e, flag) (ready.body, ready.holds, ground arith);
        }))

  freed : gc.marked p ≡ false → fin p ≡ false → p ≢ t → Round (sweep_one (ref t) p gc h)
  unfolding sweep_one body_of
  freed e flag apart =
      rw (ready.holds, e, sym ready.flag, flag)
        (yields (record {
          table = record {
            is_symtab = table.is_symtab;
            chains = table.chains;
            holds = ground (arith, apart, table.holds);
            count = table.count;
            some_chain = table.some_chain;
          };
          others = ground arith;
          marks = λ q f. refl;
          cleared = e;
          objects = rw e refl;
          bytes = rw e refl;
          waiting = rw (e, flag) refl;
          outcome = rw (e, flag) (ground arith);
        }))

  pub sweep_one-Swept : (p ≡ t → gc.marked p ≡ true) → Round (sweep_one (ref t) p gc h)
  sweep_one-Swept table_kept = elim (Bool-cases (gc.marked p)) [
    | inl e ↦ kept e
    | inr ne ↦ elim (Bool-cases (fin p)) [
      | inl flag ↦ detached ne flag λ e. absurd (cc (table_kept e))
      | inr flag ↦ freed ne flag λ e. absurd (cc (table_kept e))
    ]
  ]
