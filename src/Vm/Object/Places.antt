-- ===== src/Vm/Object/Places.antt =====
-- The primitives of move/PRIM.object.c on places and ancestors, those that strip an object, and the
-- installation of all of them.
use move.Base.{ℕ, zero, suc, ◌+◌, false, not, ◌&&◌, ◌||◌, if◌then◌else◌}
use move.Value.{Value, null, same, move_true, move_false, o_owner_mask}
use move.Heap.{
  Cmd, pure, no_fuel, get_heap, ◌>>=◌, ◌>>◌, at, atput, object_of, is_null, is_object, test,
}
use move.Alloc.{newvector_noinit, cons_pair}
use move.Hashtable.{newhashtable}
use move.Perms.{privileged}
use move.Vm.Primitives.{Primtab, PrimFn}
use move.Vm.Compound.{arg, typeerrif}
use move.Vm.Object.{edit_object, owns, permitted, real_isa}
use move.Vm.Object.Owners.{truth}

-- The `while` of contents_remove, on the list `c`.
unfoldable pub contents_loop : ℕ → Value → Value → (prev curr : Value) → Cmd Value
contents_loop zero c o prev curr = no_fuel
contents_loop (suc n) c o prev curr = if is_null curr then pure c else do
  x ← at curr 0
  rest ← at curr 1
  if same x o
      then (if is_null prev then pure rest else do atput prev 1 rest; pure c)
      else contents_loop n c o curr rest

unfoldable pub contents_remove : Value → Value → Cmd Value
contents_remove c o = do heap ← get_heap; contents_loop (suc heap.fresh) c o null c

-- The first loop of list_to_vector, on pairs.
unfoldable pub pairs_length : ℕ → Value → Cmd ℕ
pairs_length zero l = no_fuel
pairs_length (suc n) l =
    if is_null l then pure 0 else do rest ← at l 1; len ← pairs_length n rest; pure (suc len)

-- Its second loop, from index `i` on.
unfoldable pub fill_pairs : Value → ℕ → ℕ → Value → Cmd (Unit {0})
fill_pairs v zero i l = pure tt
fill_pairs v (suc k) i l = do x ← at l 0; atput v i x; rest ← at l 1; fill_pairs v k (i + 1) rest

unfoldable pub pairs_to_vector : Value → Cmd Value
pairs_to_vector l = do
  heap ← get_heap
  len ← pairs_length (suc heap.fresh) l
  v ← newvector_noinit len
  fill_pairs v len 0 l
  pure v

module _ (depth : ℕ) (tab : Primtab) where
  unfoldable pub move_to_fun : PrimFn
  move_to_fun vms argvec = do
    x ← arg argvec 0
    loc ← arg argvec 1
    isobj ← test (is_object x)
    isobj' ← test (is_object loc)
    typeerrif depth tab (not isobj || (not (is_null loc) && not isobj')) argvec vms (do
      allowed ← privileged vms.effuid
      if not allowed then pure (move_false, vms) else do
        o ← object_of x
        (if is_null o.location then pure tt else do
          oldloc ← object_of o.location
          rest ← contents_remove oldloc.contents x
          edit_object o.location (λ p. record p { contents = rest }))
        edit_object x (λ p. record p { location = loc })
        (if is_null loc then pure tt else do
          dest ← object_of loc
          link ← cons_pair x dest.contents
          edit_object loc (λ p. record p { contents = link }))
        pure (move_true, vms))

  unfoldable pub location_fun : PrimFn
  location_fun vms argvec = do
    x ← arg argvec 0
    isobj ← test (is_object x)
    typeerrif depth tab (not isobj) argvec vms (do o ← object_of x; pure (o.location, vms))

  unfoldable pub contents_fun : PrimFn
  contents_fun vms argvec = do
    x ← arg argvec 0
    isobj ← test (is_object x)
    typeerrif depth tab (not isobj) argvec vms
        (do o ← object_of x; result ← pairs_to_vector o.contents; pure (result, vms))

  unfoldable pub isa_fun : PrimFn
  isa_fun vms argvec = do
    x ← arg argvec 0
    y ← arg argvec 1
    isobj' ← test (is_object y)
    isobj ← test (is_object x)
    typeerrif depth tab (not isobj') argvec vms
        (if not isobj then pure (move_false, vms) else do b ← real_isa x y; pure (truth b, vms))

  -- The test of the functions that strip an object, with what they do behind it.
  unfoldable pub on_owned : PrimFn → PrimFn
  on_owned body vms argvec = do
    x ← arg argvec 0
    isobj ← test (is_object x)
    typeerrif depth tab (not isobj) argvec vms
        (do allowed ← owns vms.effuid x; permitted depth tab allowed argvec vms (body vms x))

  unfoldable pub strip_obj_fun : PrimFn
  strip_obj_fun = on_owned λ vms x. do
    edit_object x (λ o. record o { finalize = false; flags = o_owner_mask })
    methods ← newhashtable 19
    edit_object x (λ o. record o { methods = methods })
    attributes ← newhashtable 19
    edit_object x (λ o. record o { attributes = attributes })
    pure (x, vms)

  unfoldable pub strip_obj_m_fun : PrimFn
  strip_obj_m_fun = on_owned λ vms x. do
    methods ← newhashtable 19
    edit_object x (λ o. record o { methods = methods })
    pure (x, vms)

  unfoldable pub strip_obj_s_fun : PrimFn
  strip_obj_s_fun = on_owned λ vms x. do
    attributes ← newhashtable 19
    edit_object x (λ o. record o { attributes = attributes })
    pure (x, vms)
