-- ===== src/Gc.antt =====
-- The collector of move/gc.c: roots, the mark phase, the symbol table's weak references, the sweep and
-- the objects that wait for their finalizer. The mark bits of the headers are a function of the
-- addresses; an address that was not handed out has the bit 0, as getmem sets it. The calls of mark
-- nest at most as deep as there are addresses.
pub mod Mark
pub mod Roots
pub mod Relink
pub mod Round
pub mod Sweep
use move.Base.{
  ℕ, zero, suc, ◌+◌, ◌-◌, ◌*◌, ◌%◌, ◌<◌, Bool, true, false, not, List, [], ◌∷◌, ◌==◌, ltb, ◌&&◌,
  if◌then◌else◌, map,
}
use move.Value.{
  Value, null, num, singleton, ref, indeterminate, undefined, same, to_bits, ObjectRec, Body,
  object, bvector, ovector, vector, t_symbol, sy_value, sy_next, sy_hash,
}
use move.Heap.{
  Heap, Cmd, ok, pure, stop, no_fuel, get_heap, update, ◌>>=◌, ◌>>◌, at, atput, body_of, put_body,
  num_of, length_of, is_null, object_length_bytes,
}
use mathlib.Core.Option.{none}

abbrev pub Marks : Type 0
Marks = ℕ → Bool

abbrev pub set_mark : Marks → ℕ → Bool → Marks
set_mark m p b q = if p == q then b else m q

-- The static variables of move/gc.c, all_objects and curr_heapsize excepted. A root is the address of a C variable.
pub record Gc : Type 0 where
  pub marked : Marks
  pub num_roots : ℕ
  pub roots : List ℕ
  pub finalizable_chain : List ℕ
  pub max_heapsize : ℕ
  pub double_threshold : ℕ

abbrev pub gc_max_heapsize : ℕ
gc_max_heapsize = 1048576

abbrev pub gc_double_threshold : ℕ
gc_double_threshold = 786432

unfoldable pub init_gc : Cmd Gc
init_gc h =
    ok
      (record {
        marked = λ p. false;
        num_roots = 0;
        roots = [];
        finalizable_chain = [];
        max_heapsize = gc_max_heapsize;
        double_threshold = gc_double_threshold;
      })
      (record h { all_objects = []; curr_heapsize = 0 })

unfoldable pub protect : ℕ → Gc → Gc
protect root gc = record gc { roots = root ∷ gc.roots; num_roots = gc.num_roots + 1 }

-- The first root that is the variable is unlinked.
abbrev pub erase_root : ℕ → List ℕ → List ℕ
erase_root root [] = []
erase_root root (r ∷ rs) = if r == root then rs else r ∷ erase_root root rs

abbrev pub has_root : ℕ → List ℕ → Bool
has_root root [] = false
has_root root (r ∷ rs) = if r == root then true else has_root root rs

unfoldable pub unprotect : ℕ → Gc → Gc
unprotect root gc =
    if has_root root gc.roots
    then record gc { roots = erase_root root gc.roots; num_roots = gc.num_roots - 1 }
    else gc

-- What mark follows in a body; a symbol's next link is left out.
abbrev pub skip_next : List Value → List Value
skip_next [] = []
skip_next (x ∷ []) = x ∷ []
skip_next (x ∷ next ∷ xs) = x ∷ xs

abbrev pub children : Body → List Value
children (object o) =
    o.methods ∷ o.attributes ∷ o.parents ∷ o.owner ∷ o.group ∷ o.location ∷ o.contents ∷ []
children (bvector bytes) = []
children (ovector f t xs) = if t == t_symbol then skip_next xs else xs
children (vector xs) = xs

unfoldable pub mark_each : (Value → Marks → Cmd Marks) → List Value → Marks → Cmd Marks
mark_each f [] m = pure m
mark_each f (x ∷ xs) m = do m' ← f x m; mark_each f xs m'

unfoldable pub mark : ℕ → Value → Marks → Cmd Marks
mark zero x m = no_fuel
mark (suc n) null m = pure m
mark (suc n) (num a) m = pure m
mark (suc n) (singleton a) m = pure m
mark (suc n) indeterminate m = stop
mark (suc n) (ref p) m =
    if m p
    then pure m
    else do b ← body_of (ref p); mark_each (mark n) (children b) (set_mark m p true)

-- A symbol of the table with a value is marked, whether or not anything refers to it.
pub mark_symbol : ℕ → Value → Marks → Cmd Marks
mark_symbol n (ref p) m =
    if m p
    then pure m
    else do value ← at (ref p) sy_value; if same value undefined then pure m else mark n (ref p) m
mark_symbol n _ m = stop

-- The walk along one chain of the symbol table.
pub mark_chain : ℕ → ℕ → Value → Marks → Cmd Marks
mark_chain n zero curr m = no_fuel
mark_chain n (suc k) curr m =
    if is_null curr
    then pure m
    else do m' ← mark_symbol n curr m; next ← at curr sy_next; mark_chain n k next m'

-- The `for` over the chains from index `i` on; each is emptied behind the walk.
pub mark_chains : ℕ → Value → ℕ → ℕ → Marks → Cmd Marks
mark_chains n symtab zero i m = pure m
mark_chains n symtab (suc k) i m = do
  curr ← at symtab i
  m' ← mark_chain n n curr m
  atput symtab i null
  mark_chains n symtab k (i + 1) m'

-- A marked symbol goes to the front of its chain of the symbol table.
pub relink_symbol : Value → ℕ → Body → Cmd (Unit {0})
relink_symbol symtab p (ovector f t xs) =
    if t == t_symbol
    then (do
      hash ← num_of (← at (ref p) sy_hash)
      len ← length_of symtab
      if len == 0 then stop else do
        head ← at symtab (to_bits hash % len)
        atput (ref p) sy_next head
        atput symtab (to_bits hash % len) (ref p))
    else pure tt
relink_symbol symtab p _ = pure tt

-- `finalize` of an object or an opaque vector.
abbrev pub wants_finalizer : Body → Bool
wants_finalizer (object o) = o.finalize
wants_finalizer (ovector f t xs) = f
wants_finalizer _ = false

abbrev pub finalizer_taken : Body → Body
finalizer_taken (object o) = object (record o { finalize = false })
finalizer_taken (ovector f t xs) = ovector false t xs
finalizer_taken b = b

-- free(x)
abbrev pub free_cell : ℕ → Cmd (Unit {0})
free_cell p h = ok tt (record h { cell = update h.cell p none })

abbrev pub keep_object : ℕ → Body → Cmd (Unit {0})
keep_object p b h = ok tt (record h {
  all_objects = p ∷ h.all_objects;
  curr_heapsize = h.curr_heapsize + object_length_bytes b;
})

-- One round of the sweep.
pub sweep_one : Value → ℕ → Gc → Cmd Gc
sweep_one symtab p gc = do
  b ← body_of (ref p)
  if gc.marked p
      then (do
        relink_symbol symtab p b
        keep_object p b
        pure (record gc { marked = set_mark gc.marked p false }))
      else if wants_finalizer b
      then (do
        put_body p (finalizer_taken b)
        pure (record gc { finalizable_chain = p ∷ gc.finalizable_chain }))
      else do free_cell p; pure gc

pub sweep : Value → List ℕ → Gc → Cmd Gc
sweep symtab [] gc = pure gc
sweep symtab (p ∷ ps) gc = do gc' ← sweep_one symtab p gc; sweep symtab ps gc'

-- The symbol table's own mark.
pub mark_table : Value → Marks → Cmd Marks
mark_table (ref t) m = pure (set_mark m t true)
mark_table _ m = stop

-- The mark phase; `variable` says what the C variable of a root holds.
pub mark_phase : (ℕ → Value) → Gc → Cmd Marks
mark_phase variable gc = do
  h ← get_heap
  let n = suc h.fresh
  m₁ ← mark_each (mark n) (map variable gc.roots) gc.marked
  m₂ ← mark_table h.symtab m₁
  len ← length_of h.symtab
  mark_chains n h.symtab len 0 m₂

abbrev pub detach_all : Cmd (List ℕ)
detach_all h = ok h.all_objects (record h { all_objects = []; curr_heapsize = 0 })

abbrev pub heapsize : Cmd ℕ
heapsize h = ok h.curr_heapsize h

-- The two shifts of an `int`, which is less than 2^31.
double_limits : Gc → Cmd Gc
double_limits gc =
    if ltb (gc.max_heapsize * 2) 0x8000_0000 && ltb (gc.double_threshold * 2) 0x8000_0000
    then pure (record gc {
      max_heapsize = gc.max_heapsize * 2;
      double_threshold = gc.double_threshold * 2;
    })
    else stop

unfoldable pub gc_run : (ℕ → Value) → Gc → Cmd Gc
unfolding mark_phase sweep double_limits
gc_run variable gc = do
  m ← mark_phase variable gc
  h ← get_heap
  objects ← detach_all
  gc' ← sweep h.symtab objects (record gc { marked = m })
  size ← heapsize
  if ltb gc'.double_threshold size then double_limits gc' else pure gc'

unfoldable pub need_gc : Gc → Cmd Bool
need_gc gc = do size ← heapsize; pure (ltb gc.max_heapsize size)

-- The object goes back to the chain of all objects.
unfoldable pub next_to_finalize : Gc → Cmd (Value × Gc)
next_to_finalize gc = elim gc.finalizable_chain [
  | [] ↦ pure (null, gc)
  | p ∷ ps ↦ do
    b ← body_of (ref p)
    keep_object p b
    pure (ref p, record gc { finalizable_chain = ps })
]
