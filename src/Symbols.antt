-- ===== src/Symbols.antt =====
-- Interned symbols: hash_str and newsym of move/object.c. A C string is the list of its bytes
-- before the terminating zero.
pub mod Prefix
use Prim.Native.Nat.{bit_and, bit_xor}
use move.Base.{
  ℕ, zero, suc, ◌+◌, ◌-◌, ◌*◌, ◌/◌, ◌%◌, ◌^◌, Bool, true, false, List, [], ◌∷◌, ◌==◌, ltb, leb,
  ◌&&◌, if◌then◌else◌, pos,
}
use move.Value.{
  Value, null, undefined, t_symbol, sy_name, sy_next, sy_value, sy_hash, mknum, num_mod, bvector,
}
use move.Heap.{Cmd, pure, stop, no_fuel, get_heap, ◌>>=◌, ◌>>◌, at, atput, body_of, is_null}
use move.Alloc.{newovector_noinit, newstring}

abbrev pub symtab_size : ℕ
symtab_size = 2131

-- tolower, in the C locale. A byte above 127 is a negative `char`, sign-extended to 64 bits.
lower : ℕ → ℕ
lower c =
    if ltb c 128
    then (if leb b'A' c && leb c b'Z' then c + 32 else c)
    else 0x1_0000_0000_0000_0000 - 256 + c

-- One round of the loop of hash_str, on a 64-bit `unsigned long`.
unfoldable pub hash_step : ℕ → ℕ → ℕ
unfolding lower
hash_step hash c =
    let shifted = (hash * 16 + lower c) % 0x1_0000_0000_0000_0000 in
    let g = bit_and shifted 0xf000_0000 in
    if g == 0 then shifted else bit_xor (bit_xor shifted (g / 0x100_0000)) g

hash_loop : ℕ → List ℕ → ℕ
hash_loop hash [] = hash
hash_loop hash (c ∷ cs) = hash_loop (hash_step hash c) cs

unfoldable pub hash_str : List ℕ → ℕ
unfolding hash_loop hash_step
hash_str string = hash_loop 0 string

-- `!strncmp(symname->vec, name, symname->length)`: the bytes of the stored name, then the C string.
pub strncmp_eq : List ℕ → List ℕ → Bool
strncmp_eq [] name = true
strncmp_eq (c ∷ cs) [] = c == 0
strncmp_eq (c ∷ cs) (d ∷ ds) = (c == d) && strncmp_eq cs ds

unfoldable pub bytes_of : Value → Cmd (List ℕ)
unfolding body_of
bytes_of x = do b ← body_of x; elim b [ bvector bytes ↦ pure bytes | _ ↦ stop ]

-- The `while (sym != NULL)` of newsym.
pub sym_loop : ℕ → List ℕ → Value → Cmd Value
sym_loop zero name sym = no_fuel
sym_loop (suc n) name sym = if is_null sym then pure null else do
  symname ← at sym sy_name
  bytes ← bytes_of symname
  if strncmp_eq bytes name then pure sym else do rest ← at sym sy_next; sym_loop n name rest

-- A new symbol at the front of chain `b`.
pub intern : List ℕ → ℕ → ℕ → Cmd Value
unfolding mknum
intern name rawhash b = do
  sym ← newovector_noinit 4 t_symbol
  string ← newstring name
  atput sym sy_name string
  heap ← get_heap
  head ← at heap.symtab b
  atput sym sy_next head
  atput sym sy_value undefined
  atput sym sy_hash (mknum (pos rawhash))
  atput heap.symtab b sym
  pure sym

unfoldable pub newsym : List ℕ → Cmd Value
unfolding hash_str sym_loop strncmp_eq intern bytes_of at atput newovector_noinit newstring
newsym name =
    let rawhash = hash_str name % num_mod in
    let b = rawhash % symtab_size in
    do
      heap ← get_heap
      first ← at heap.symtab b
      sym ← sym_loop (suc heap.fresh) name first
      if is_null sym then intern name rawhash b else pure sym
