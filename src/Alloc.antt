-- ===== src/Alloc.antt =====
-- The constructors of move/object.c and the pairs of move/pair.h.
use move.Base.{ℕ, zero, suc, false, List, [], ◌∷◌, replicate, ltb, if◌then◌else◌}
use move.Value.{Value, null, ref, indeterminate, bvector, ovector, vector}
use move.Heap.{Cmd, pure, stop, getmem}

-- The size that getmem is given is an `int`: from these lengths on it is not, and what malloc then
-- gives is too little, or nothing.
abbrev pub max_cells : ℕ
max_cells = 0xfff_fffd

abbrev max_bytes : ℕ
max_bytes = 0x7fff_fff0

-- newvector_noinit(len): the static empty vector, which stands at address 0, or a vector whose
-- cells are not yet filled.
unfoldable pub newvector_noinit : ℕ → Cmd Value
unfolding getmem
newvector_noinit zero = pure (ref 0)
newvector_noinit (suc n) = getmem (vector (replicate (suc n) indeterminate))

unfoldable pub newvector : ℕ → Cmd Value
unfolding getmem
newvector zero = pure (ref 0)
newvector (suc n) = if ltb (suc n) max_cells then getmem (vector (replicate (suc n) null)) else stop

unfoldable pub newovector : ℕ → ℕ → Cmd Value
unfolding getmem
newovector len type =
    if ltb len max_cells then getmem (ovector false type (replicate len null)) else stop

unfoldable pub newovector_noinit : ℕ → ℕ → Cmd Value
unfolding getmem
newovector_noinit len type =
    if ltb len max_cells then getmem (ovector false type (replicate len indeterminate)) else stop

unfoldable pub newbvector : ℕ → Cmd Value
unfolding getmem
newbvector len = if ltb len max_bytes then getmem (bvector (replicate len 0)) else stop

-- newstring(buf), on the bytes before the terminating zero.
unfoldable pub newstring : List ℕ → Cmd Value
unfolding getmem
newstring bytes = getmem (bvector bytes)

-- CONS(v, x, y)
unfoldable pub cons_pair : Value → Value → Cmd Value
unfolding getmem
cons_pair x y = getmem (vector (x ∷ y ∷ []))
