-- ===== src/Vm/Compound/Queries.antt =====
-- The primitives index-of, all-keys, as-sym and copy-of of move/PRIM.compound.c.
use move.Base.{
  ℕ, zero, suc, ◌+◌, not, Option, none, some, List, [], ◌∷◌, ◌==◌, ◌&&◌, ◌||◌, if◌then◌else◌, pos,
  get_elem?, map,
}
use move.Value.{Value, same, mknum, move_false, bvector, t_hashtable}
use move.Heap.{
  Cmd, pure, of_option, ◌>>=◌, ◌>>◌, at, length_of, is_bvector, is_vector, test, getmem,
}
use move.Alloc.{newbvector, newvector_noinit}
use move.Symbols.{bytes_of, newsym}
use move.Scanner.Words.{c_string}
use move.Hashtable.{enumerate_keys}
use move.Vm.Registers.{copy_cells}
use move.Vm.Primitives.{Primtab, PrimFn}
use move.Vm.Arith.{bvector_concat}
use move.Vm.Compound.{arg, has_type, typeerrif}

-- memchr, as an index.
unfoldable pub memchr_index : ℕ → List ℕ → Option ℕ
memchr_index c [] = none
memchr_index c (b ∷ bs) =
    let rest = memchr_index c bs in
    if b == c then some 0 else elim rest [ some i ↦ some (i + 1) | none ↦ none ]

-- The loop of index-of over a vector.
unfoldable pub find_element : (vx v : Value) → (k i : ℕ) → Cmd Value
find_element vx v zero i = pure move_false
find_element vx v (suc k) i = do
  x ← at vx i
  if same x v then pure (mknum (pos i)) else find_element vx v k (i + 1)

module _ (depth : ℕ) (tab : Primtab) where
  unfoldable pub index_of_fun : PrimFn
  index_of_fun vms argvec = do
    x ← arg argvec 0
    v ← arg argvec 1
    isbvec ← test (is_bvector x)
    isbvec_v ← test (is_bvector v)
    isvec ← test (is_vector x)
    typeerrif depth tab (not ((isbvec && isbvec_v) || isvec)) argvec vms (
        if isbvec
        then (do
          bs ← bytes_of x
          vs ← bytes_of v
          c ← of_option (get_elem? vs 0)
          elim (memchr_index c bs) [
            | none ↦ pure (move_false, vms)
            | some i ↦ pure (mknum (pos i), vms)
          ])
        else (do len ← length_of x; r ← find_element x v len 0; pure (r, vms)))

  unfoldable pub all_keys_fun : PrimFn
  all_keys_fun vms argvec = do
    h ← arg argvec 0
    isht ← has_type t_hashtable h
    typeerrif depth tab (not isht) argvec vms (do r ← enumerate_keys h; pure (r, vms))

  -- The copy of the bytes ends with a zero byte.
  unfoldable pub as_sym_fun : PrimFn
  as_sym_fun vms argvec = do
    x ← arg argvec 0
    isbvec ← test (is_bvector x)
    typeerrif depth tab (not isbvec) argvec vms (do
      terminator ← newbvector 1
      cname ← bvector_concat x terminator
      bs ← bytes_of cname
      name ← of_option (c_string (map some bs))
      symbol ← newsym name
      pure (symbol, vms))

  unfoldable pub copy_of_fun : PrimFn
  copy_of_fun vms argvec = do
    x ← arg argvec 0
    isbvec ← test (is_bvector x)
    isvec ← test (is_vector x)
    typeerrif depth tab (not isbvec && not isvec) argvec vms (
        if isbvec
        then (do bs ← bytes_of x; n ← getmem (bvector bs); pure (n, vms))
        else (do len ← length_of x; n ← newvector_noinit len; copy_cells x n len 0; pure (n, vms)))
