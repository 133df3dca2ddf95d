-- ===== src/Hashtable.antt =====
-- The chained hash tables of move/hashtable.c: an opaque vector that holds a count and the heads of
-- the chains; a link is any opaque vector with its key in cell 0 and the next link in cell 1.
-- The loops over a chain take a round for each address of the heap, and one more.
pub mod Chain
pub mod Invariant
pub mod Get
pub mod Rebuild
pub mod Put
pub mod Front
pub mod Replace
pub mod Store
pub mod Remove
pub mod Delete
pub mod Lookup
pub mod Fresh
use move.Base.{
  ℕ, zero, suc, ◌+◌, ◌-◌, ◌%◌, Bool, true, false, List, [], ◌∷◌, ◌==◌, if◌then◌else◌, ltb, ℤ, pos,
  negsuc, eq_ℤ, replicate, ◌+ℤ◌,
}
use move.Value.{
  Value, null, num, ref, indeterminate, same, mknum, Body, ovector, vector, t_hashtable,
  hashlink_name, hashlink_next, sy_hash,
}
use move.Alloc.{newovector, newvector_noinit}
use move.Heap.{
  Heap, Cmd, no_fuel, pure, stop, get_heap, ◌>>=◌, ◌>>◌, at, atput, length_of, num_of, getmem,
  is_null,
}

-- newhashtable(len)
unfoldable pub newhashtable : ℕ → Cmd Value
unfolding newovector atput mknum
newhashtable len = do ht ← newovector (len + 1) t_hashtable; atput ht 0 (mknum (pos 0)); pure ht

-- `(NUM(hash) % (length - 1)) + 1`. A division by zero traps. A negative hash has a remainder
-- that is zero or negative; below -1 the unsigned index is far outside of the table.
pub bucket_index : ℤ → ℕ → Cmd ℕ
bucket_index (pos k) n = if n == 0 then stop else pure (k % n + 1)
bucket_index (negsuc k) n =
    if n == 0
    then stop
    else if (k + 1) % n == 0
    then pure 1
    else if (k + 1) % n == 1
    then pure 0
    else stop

-- The index of the chain of a key symbol.
unfoldable pub bucket : Value → Value → Cmd ℕ
unfolding bucket_index at num_of length_of
bucket table keysym = do
  hash ← at keysym sy_hash
  k ← num_of hash
  len ← length_of table
  bucket_index k (len - 1)

-- The `while (value != NULL)` of hashtable_get.
pub get_loop : ℕ → Value → Value → Cmd Value
get_loop zero keysym value = no_fuel
get_loop (suc n) keysym value = if is_null value then pure null else do
  name ← at value hashlink_name
  if same name keysym then pure value else do rest ← at value hashlink_next; get_loop n keysym rest

unfoldable pub hashtable_get : Value → Value → Cmd Value
unfolding bucket get_loop same
hashtable_get table keysym = do
  b ← bucket table keysym
  value ← at table b
  heap ← get_heap
  get_loop (suc heap.fresh) keysym value

-- `prev == NULL` says that the head of the chain is replaced.
pub relink : Value → ℕ → Value → Value → Cmd (Unit {0})
relink table b prev v = if is_null prev then atput table b v else atput prev hashlink_next v

-- The `while (curr != NULL)` of hashtable_put; the result says whether it returned early.
pub put_loop : ℕ → Value → ℕ → Value → Value → (prev curr : Value) → Cmd Bool
put_loop zero table b keysym value prev curr = no_fuel
put_loop (suc n) table b keysym value prev curr = if is_null curr then pure false else do
  name ← at curr hashlink_name
  rest ← at curr hashlink_next
  if same name keysym
      then (do atput value hashlink_next rest; relink table b prev value; pure true)
      else put_loop n table b keysym value curr rest

-- The new link goes to the front of its chain, and the count in cell 0 grows by one.
pub put_front : Value → ℕ → Value → Cmd (Unit {0})
put_front table b value = do
  head ← at table b
  atput value hashlink_next head
  atput table b value
  count ← at table 0
  c ← num_of count
  atput table 0 (mknum (c +ℤ pos 1))

unfoldable pub hashtable_put : Value → Value → Value → Cmd (Unit {0})
unfolding bucket put_loop put_front relink same mknum
hashtable_put table keysym value = do
  b ← bucket table keysym
  curr ← at table b
  heap ← get_heap
  done ← put_loop (suc heap.fresh) table b keysym value null curr
  if done then pure tt else put_front table b value

-- The `while (curr != NULL)` of hashtable_remove.
pub remove_loop : ℕ → Value → ℕ → Value → (prev curr : Value) → Cmd (Unit {0})
remove_loop zero table b keysym prev curr = no_fuel
remove_loop (suc n) table b keysym prev curr = if is_null curr then pure tt else do
  name ← at curr hashlink_name
  rest ← at curr hashlink_next
  if same name keysym
      then (do relink table b prev rest; atput curr hashlink_next null)
      else remove_loop n table b keysym curr rest

unfoldable pub hashtable_remove : Value → Value → Cmd (Unit {0})
unfolding bucket remove_loop relink same
hashtable_remove table keysym = do
  b ← bucket table keysym
  curr ← at table b
  heap ← get_heap
  remove_loop (suc heap.fresh) table b keysym null curr

-- The inner loop of enumerate_keys: writes the names of one chain from index `j` on.
pub keys_loop : ℕ → Value → ℕ → Value → Cmd ℕ
keys_loop zero result j link = no_fuel
keys_loop (suc n) result j link = if is_null link then pure j else do
  name ← at link hashlink_name
  atput result j name
  rest ← at link hashlink_next
  keys_loop n result (j + 1) rest

-- The outer loop, over the `n` chains from index `i` on.
pub chains_loop : ℕ → Value → Value → ℕ → ℕ → Cmd ℕ
chains_loop zero table result i j = pure j
chains_loop (suc n) table result i j = do
  link ← at table i
  heap ← get_heap
  j' ← keys_loop (suc heap.fresh) result j link
  chains_loop n table result (i + 1) j'

nat_of : ℤ → Cmd ℕ
nat_of (pos n) = pure n
nat_of (negsuc n) = pure 0

unfoldable pub enumerate_keys : Value → Cmd Value
unfolding newvector_noinit chains_loop keys_loop nat_of
enumerate_keys table = do
  count ← at table 0
  c ← num_of count
  n ← nat_of c
  result ← newvector_noinit n
  len ← length_of table
  chains_loop (len - 1) table result 1 0
  pure result
