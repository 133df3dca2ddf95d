-- ===== src/Gc/Relink.antt =====
-- A marked symbol goes back to its chain of the symbol table.
use move.Base.{
  ℕ, ◌%◌, ◌<◌, ◌≡◌, ◌≢◌, inl, inr, refl, sym, ◌∙◌, Bool, true, false, some, List, ◌==◌, length,
  length-set, get_elem?, get_elem?-set_ne, get_elem?_lt, set, arith, Bool-cases, ==_iff, ℤ,
}
use native.Mathlib.Nat.{mod-lt}
use move.Value.{
  Value, num, ref, Body, object, bvector, ovector, vector, t_symbol, sy_next, sy_hash, to_bits,
}
use move.Heap.{Heap, Run, ok, update, atput, num_of, object_length_bytes}
use move.Heap.Laws.{
  Yields, yields, weaken, at-ovector, at-vector, atput-ovector, atput-vector, length_of-vector,
}
use move.Gc.{relink_symbol, wants_finalizer}

-- The symbol table is a vector of `n` chains, at least one.
pub record Table (h : Heap) (t n : ℕ) : Type 0 where
  pub is_symtab : h.symtab ≡ ref t
  pub chains : List Value
  pub holds : h.cell t ≡ some (vector chains)
  pub count : length chains ≡ n
  pub some_chain : 0 < n

-- A symbol has the four slots that newsym gives it, and a number for its hash.
abbrev pub HasHash : Body → Type 0
HasHash (ovector f t xs) =
    t ≡ t_symbol → (hash : ℤ) × (get_elem? xs sy_hash ≡ some (num hash)) × (sy_next < length xs)
HasHash _ = Unit

-- The object at `p` is there, with `finalize` flag `fin p` and `size p` bytes.
pub record Ready (fin : ℕ → Bool) (size : ℕ → ℕ) (h : Heap) (p : ℕ) : Type 0 where
  pub body : Body
  pub holds : h.cell p ≡ some body
  pub flag : fin p ≡ wants_finalizer body
  pub bytes : size p ≡ object_length_bytes body
  pub hash : HasHash body

-- What linking the symbol at `p` into its chain leaves as it was.
pub record Relinked (h : Heap) (t n p : ℕ) (h' : Heap) : Type 0 where
  pub table : Table h' t n
  pub others : (q : ℕ) → q ≢ t → q ≢ p → h'.cell q ≡ h.cell q
  pub all_same : h'.all_objects ≡ h.all_objects
  pub size_same : h'.curr_heapsize ≡ h.curr_heapsize

positive : {n : ℕ} → 0 < n → (n == 0) ≡ false
positive less = ground arith

module _ (h : Heap) (t n p : ℕ) (table : Table h t n) where
  -- The write of the symbol into its chain, behind the write of its link.
  link_in :
      (f : Bool) (tag : ℕ) (xs : List Value) (head : Value) (i : ℕ)
      → i < n
      → (t == p) ≡ false
      → Yields
          (λ _ h'.
            Relinked h t n p h'
            × ((x : Value) × (h'.cell p ≡ some (ovector f tag (set xs sy_next x)))))
          (atput
            (ref t)
            i
            (ref p)
            (record h { cell = update h.cell p (some (ovector f tag (set xs sy_next head))) }))
  link_in f tag xs head i inside apart =
      let linked = update h.cell p (some (ovector f tag (set xs sy_next head))) in
      let at_t : linked t ≡ some (vector table.chains) = ground (arith, apart, table.holds) in
      rw
        (atput-vector (record h { cell = linked }) t i table.chains (ref p) at_t
          (rw table.count inside))
        (yields (
          record {
            table = record {
              is_symtab = table.is_symtab;
              chains = set table.chains i (ref p);
              count = length-set table.chains i (ref p) ∙ table.count;
              holds = ground arith;
              some_chain = table.some_chain;
            };
            others = ground arith;
            all_same = refl;
            size_same = refl;
          },
          (head, ground (arith, apart)),
        ))

  relink-symbol :
      (f : Bool) (tag : ℕ) (xs : List Value) (hash : ℤ)
      → (tag == t_symbol) ≡ true
      → h.cell p ≡ some (ovector f tag xs)
      → get_elem? xs sy_hash ≡ some (num hash)
      → sy_next < length xs
      → Yields
          (λ _ h'.
            Relinked h t n p h'
            × ((head : Value) × (h'.cell p ≡ some (ovector f tag (set xs sy_next head)))))
          (relink_symbol (ref t) p (ovector f tag xs) h)
  unfolding relink_symbol num_of
  relink-symbol f tag xs hash is_symbol holds at_hash less =
      let i = to_bits hash % n in
      let inside : i < n = mod-lt (to_bits hash) table.some_chain in
      let (head, at_i) = get_elem?_lt table.chains i (rw table.count inside) in
      let apart : (t == p) ≡ false = ground (arith, holds, table.holds) in
      rw
        (
          is_symbol,
          at-ovector h p sy_hash xs holds at_hash,
          length_of-vector {h = h} t table.chains table.holds,
          table.count,
          positive table.some_chain,
          at-vector h t i table.chains table.holds at_i,
          atput-ovector h p sy_next xs head holds less,
        )
        (link_in f tag xs head i inside apart)

length-with :
    (f : Bool) (t : ℕ) (xs : List Value) (i : ℕ) (x : Value)
    → object_length_bytes (ovector f t (set xs i x)) ≡ object_length_bytes (ovector f t xs)
length-with f t xs i x = rw (length-set xs i x) refl

-- What relink_symbol leaves at `p`, whatever body it is.
module _ (fin : ℕ → Bool) (size : ℕ → ℕ) (h : Heap) (t n p : ℕ) (table : Table h t n) where
  abbrev pub AfterLink : Unit {0} → Heap → Type 0
  AfterLink _ h' = Relinked h t n p h' × Ready fin size h' p

  unlinked : {run : Run (Unit {0})} → Ready fin size h p → run ≡ ok tt h → Yields AfterLink run
  unlinked ready e = rw e (
      yields (
        record { table = table; others = λ q e f. refl; all_same = refl; size_same = refl },
        ready,
      ))

  pub relink-Ready :
      (b : Body)
      → h.cell p ≡ some b
      → fin p ≡ wants_finalizer b
      → size p ≡ object_length_bytes b
      → HasHash b
      → Yields (λ _ h'. Relinked h t n p h' × Ready fin size h' p) (relink_symbol (ref t) p b h)
  unfolding relink_symbol
  relink-Ready (object o) holds flag bytes hash =
      unlinked (record { body = _; holds = holds; flag = flag; bytes = bytes; hash = hash }) refl
  relink-Ready (bvector o) holds flag bytes hash =
      unlinked (record { body = _; holds = holds; flag = flag; bytes = bytes; hash = hash }) refl
  relink-Ready (vector o) holds flag bytes hash =
      unlinked (record { body = _; holds = holds; flag = flag; bytes = bytes; hash = hash }) refl
  relink-Ready (ovector f tag xs) holds flag bytes hash = elim (Bool-cases (tag == t_symbol)) [
    | inl e ↦
        let (number, at_hash, less) = hash ((==_iff tag t_symbol).0 e) in
        weaken (relink-symbol h t n p table f tag xs number e holds at_hash less)
          λ _ h' (relinked, (head, holds')). (
            relinked,
            record {
              body = ovector f tag (set xs sy_next head);
              holds = holds';
              flag = flag;
              bytes = bytes ∙ sym (length-with f tag xs sy_next head);
              hash = λ _. (
                number,
                get_elem?-set_ne xs sy_next sy_hash head (λ e. absurd (omega (arith, e))) ∙ at_hash,
                rw (length-set xs sy_next head) less,
              );
            },
          )
    | inr e ↦ rw e (
        unlinked (record { body = _; holds = holds; flag = flag; bytes = bytes; hash = hash }) refl)
  ]
