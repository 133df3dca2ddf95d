-- ===== src/Objects.antt =====
-- init_object, newobject and vector_clone of move/object.c.
pub mod Clone
use move.Base.{ℕ, false, List, [], if◌then◌else◌}
use move.Value.{Value, indeterminate, ObjectRec, object, o_owner_mask, null}
use move.Heap.{
  Heap, Cmd, ok, pure, get_heap, ◌>>=◌, ◌>>◌, getmem, object_of, put_object, length_of, is_null,
}
use move.Alloc.{newvector, newvector_noinit, cons_pair}
use move.Symbols.{symtab_size}
use move.Hashtable.{newhashtable}
use move.Recmutex.{recmutex_init}
use move.Vm.Registers.{copy_cells}

abbrev pub set_symtab : Value → Cmd (Unit {0})
set_symtab v h = ok tt (record h { symtab = v })

-- The static empty vector stands at address 0 before anything is allocated.
unfoldable pub init_object : Cmd (Unit {0})
init_object = do symtab ← newvector symtab_size; set_symtab symtab

-- The object before its fields are written.
abbrev pub blank_object : ObjectRec
blank_object = record {
  finalize = false;
  flags = 0;
  methods = indeterminate;
  attributes = indeterminate;
  parents = indeterminate;
  owner = indeterminate;
  group = indeterminate;
  location = indeterminate;
  contents = indeterminate;
  lock = record { counter = 0; owner_threadnum = 0 };
}

-- newobject(parents, owner), in the thread `self`: with an owner, the object goes to the front of the
-- owner's contents and is in the owner's group.
unfoldable pub newobject : ℕ → Value → Value → Cmd Value
newobject self parents owner = do
  o ← getmem (object blank_object)
  methods ← newhashtable 19
  attributes ← newhashtable 19
  let fields = record blank_object {
    flags = o_owner_mask;
    methods = methods;
    attributes = attributes;
    parents = parents;
    owner = owner;
    location = owner;
    contents = null;
    group = null;
    lock = recmutex_init self;
  }
  if is_null owner then (do put_object o fields; pure o) else do
    w ← object_of owner
    link ← cons_pair o w.contents
    put_object owner (record w { contents = link })
    put_object o (record fields { group = w.group })
    pure o

unfoldable pub vector_clone : Value → Cmd Value
vector_clone v = do
  len ← length_of v
  result ← newvector_noinit len
  copy_cells v result len 0
  pure result
