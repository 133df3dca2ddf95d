-- ===== src/Vm/Compound.antt =====
-- The primitives on compound values of move/PRIM.compound.c.
pub mod Queries
pub mod Extents
use Prim.Native.String.{String}
use move.Base.{
  ℕ, zero, suc, ◌+◌, ◌-◌, Bool, true, false, not, Option, none, some, List, [], ◌∷◌, ◌++◌, ltb,
  ◌==◌, ◌&&◌, ◌||◌, if◌then◌else◌, ℤ, pos, negsuc, take, drop, get_elem?, map, eq_ℤ, ◌-ℤ◌,
}
use move.Value.{
  Value, null, num, undefined, same, mknum, move_false, bvector, t_hashtable, t_symbol,
}
use move.Heap.{
  Cmd, pure, stop, of_option, ◌>>=◌, ◌>>◌, at, atput, length_of, num_of, is_null, is_num,
  is_bvector, is_vector, is_ovector, test, getmem,
}
use move.Alloc.{newbvector, newvector_noinit, newovector_noinit}
use move.Symbols.{bytes_of, newsym}
use move.Scanner.Words.{c_string}
use move.Hashtable.{hashtable_get, hashtable_put, enumerate_keys}
use move.Vm.Registers.{Vms, copy_cells, i32_of}
use move.Vm.Primitives.{Primtab, PrimFn}
use move.Vm.Apply.{throw, ovector_type}
use move.Vm.Arith.{bvector_concat, vector_concat}

-- The kind T_USERHASHLINK, and the indices into an opaque vector of it.
abbrev pub t_userhashlink : ℕ
t_userhashlink = 11

abbrev us_name : ℕ
us_name = 0

abbrev us_next : ℕ
us_next = 1

abbrev pub us_value : ℕ
us_value = 2

abbrev us_maxslotindex : ℕ
us_maxslotindex = 3

-- ARG(n)
abbrev pub arg : Value → ℕ → Cmd Value
arg argvec n = at argvec (n + 1)

-- `OVECTORP(x) && ((OVECTOR) x)->type == t`
unfoldable pub has_type : ℕ → Value → Cmd Bool
has_type t x = do
  b ← test (is_ovector x)
  if b then (do type ← ovector_type x; pure (type == t)) else pure false

-- The bytes from `first` on, `n` of them.
abbrev pub slice : ℕ → ℕ → List ℕ → List ℕ
slice first n xs = take n (drop first xs)

-- `for (...; k more; i++) ATPUT(result, i, AT(vx, i + shift))`
unfoldable pub copy_shifted : (vx result : Value) → (shift k i : ℕ) → Cmd (Unit {0})
copy_shifted vx result shift zero i = pure tt
copy_shifted vx result shift (suc k) i = do
  v ← at vx (i + shift)
  atput result i v
  copy_shifted vx result shift k (i + 1)

module _ (depth : ℕ) (tab : Primtab) where
  -- vm_raise on a new symbol, and `return undefined`.
  unfoldable pub raise_undefined : String → Value → Vms → Cmd (Value × Vms)
  raise_undefined name argvec vms = do v ← throw depth tab name argvec vms; pure (undefined, v)

  -- TYPEERRIF
  unfoldable pub typeerrif : Bool → Value → Vms → Cmd (Value × Vms) → Cmd (Value × Vms)
  typeerrif c argvec vms body = if c then raise_undefined "type-error" argvec vms else body

  -- The guard of element-ref and element-set passes.
  unfoldable pub indexable : Value → Value → Cmd Bool
  indexable x i = do
    isvec ← test (is_vector x)
    isbvec ← test (is_bvector x)
    isht ← has_type t_hashtable x
    issym ← has_type t_symbol i
    pure (((isvec || isbvec) && is_num i) || (isht && issym))

  -- `NUM(i) < 0 || NUM(i) >= x->length`, with the index when neither holds.
  unfoldable pub in_range : Value → Value → Cmd (Option ℕ)
  in_range x i = do
    n ← num_of i
    len ← length_of x
    elim n [ negsuc m ↦ pure none | pos m ↦ if ltb m len then pure (some m) else pure none ]

  unfoldable pub elt_ref : PrimFn
  elt_ref vms argvec = do
    x ← arg argvec 0
    i ← arg argvec 1
    ok ← indexable x i
    isht ← test (is_ovector x)
    typeerrif (not ok) argvec vms (
        if isht
        then (do
          link ← hashtable_get x i
          if is_null link then pure (undefined, vms) else do v ← at link us_value; pure (v, vms))
        else (do
          r ← in_range x i
          elim r [
            | none ↦ raise_undefined "range-error" argvec vms
            | some m ↦ do
              isvec ← test (is_vector x)
              if isvec then (do v ← at x m; pure (v, vms)) else (do
                bs ← bytes_of x
                b ← of_option (get_elem? bs m)
                res ← getmem (bvector (b ∷ []))
                pure (res, vms))
          ]))

  unfoldable pub elt_set : PrimFn
  elt_set vms argvec = do
    x ← arg argvec 0
    i ← arg argvec 1
    v ← arg argvec 2
    ok ← indexable x i
    isht ← test (is_ovector x)
    typeerrif (not ok) argvec vms (
        if isht
        then (do
          link ← newovector_noinit us_maxslotindex t_userhashlink
          atput link us_name i
          atput link us_next null
          atput link us_value v
          hashtable_put x i link
          pure (v, vms))
        else (do
          r ← in_range x i
          elim r [
            | none ↦ raise_undefined "range-error" argvec vms
            | some m ↦ do
              isvec ← test (is_vector x)
              if isvec then (do atput x m v; pure (v, vms)) else do
                isbvec ← test (is_bvector v)
                if isbvec
                    then (do
                      len ← length_of v
                      if len == 0
                          then raise_undefined "type-error" argvec vms
                          else raise_undefined "mutable-strings-disallowed" argvec vms)
                    else raise_undefined "type-error" argvec vms
          ]))

  unfoldable pub length_fun : PrimFn
  length_fun vms argvec = do
    x ← arg argvec 0
    isbvec ← test (is_bvector x)
    isvec ← test (is_vector x)
    typeerrif (not isbvec && not isvec) argvec vms
        (do len ← length_of x; pure (mknum (pos len), vms))

  unfoldable pub append_fun : PrimFn
  append_fun vms argvec = do
    a ← arg argvec 0
    b ← arg argvec 1
    strings_a ← test (is_bvector a)
    strings_b ← test (is_bvector b)
    vectors_a ← test (is_vector a)
    vectors_b ← test (is_vector b)
    typeerrif (not ((strings_a && strings_b) || (vectors_a && vectors_b))) argvec vms (
        if strings_a
        then (do r ← bvector_concat a b; pure (r, vms))
        else (do r ← vector_concat a b; pure (r, vms)))

  -- The guard and the two numbers of delete and section, as `int`s.
  unfoldable pub with_extent : Value → Vms → (Value → ℤ → ℤ → Cmd (Value × Vms)) → Cmd (Value × Vms)
  with_extent argvec vms body = do
    x ← arg argvec 0
    i ← arg argvec 1
    l ← arg argvec 2
    isbvec ← test (is_bvector x)
    isvec ← test (is_vector x)
    typeerrif (not (isbvec || isvec) || not (is_num i) || not (is_num l)) argvec vms
        (do index ← num_of i; length ← num_of l; body x (i32_of index) (i32_of length))

  -- `if (index < 0 || length < 0 || (index + length) > x->length)`: a sum that is no `int` has no
  -- meaning.
  unfoldable pub extent_within : Value → ℤ → ℤ → Cmd (Option (ℕ × ℕ))
  extent_within x (negsuc n) l = pure none
  extent_within x (pos index) (negsuc n) = pure none
  extent_within x (pos index) (pos length) =
      if ltb (index + length) 0x8000_0000
      then (do
        len ← length_of x
        if ltb len (index + length) then pure none else pure (some (index, length)))
      else stop

  unfoldable pub delete_fun : PrimFn
  delete_fun vms argvec = with_extent argvec vms (λ x i l. do
    r ← extent_within x i l
    elim r [
      | none ↦ raise_undefined "range-error" argvec vms
      | some (index, length) ↦ do
        isbvec ← test (is_bvector x)
        if isbvec
            then (do
              bs ← bytes_of x
              res ← getmem (bvector (take index bs ++ drop (index + length) bs))
              pure (res, vms))
            else (do
              len ← length_of x
              res ← newvector_noinit (len - length)
              copy_cells x res index 0
              copy_shifted x res length (len - length - index) index
              pure (res, vms))
    ])

  unfoldable pub section_fun : PrimFn
  section_fun vms argvec = with_extent argvec vms (λ x i l. do
    len ← length_of x
    r ← extent_within x i (if eq_ℤ l (negsuc 0) then i32_of (pos len -ℤ i) else l)
    elim r [
      | none ↦ raise_undefined "range-error" argvec vms
      | some (index, length) ↦ do
        isbvec ← test (is_bvector x)
        if isbvec
            then (do
              bs ← bytes_of x
              res ← getmem (bvector (slice index length bs))
              pure (res, vms))
            else (do
              res ← newvector_noinit length
              copy_shifted x res index length 0
              pure (res, vms))
    ])
