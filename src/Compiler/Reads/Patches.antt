-- ===== src/Compiler/Reads/Patches.antt =====
-- A patch of a byte by itself leaves the code that was generated since.
use move.Base.{
  ℕ, zero, suc, ◌%◌, ◌<◌, ◌≤◌, ◌≡◌, refl, ap, ◌∙◌, inl, inr, Option, none, some, List, [], ◌∷◌,
  ◌++◌, leb, Bool-cases, set, length-set, get_elem?, get_elem?-set_self, get_elem?-set_ne,
  replicate, arith,
}
use move.Value.{Value}
use move.Buffer.{Buffer, buflength, grown, buf_append}
use move.Compiler.Growth.Codes.{take-grown}
use move.Compiler.Reads.{Item, byte, lit, emit}

pub append_room :
    (b : Buffer) (ch : ℕ) → b.pos ≤ buflength b → suc b.pos ≤ buflength (buf_append b ch)
unfolding buf_append
append_room b ch bounded =
    let (same, room) = take-grown b 0 (omega arith) bounded in
    omega (arith, room, length-set (grown b).buf b.pos (some ch))

pub append_pos : (b : Buffer) (ch : ℕ) → (buf_append b ch).pos ≡ suc b.pos
unfolding buf_append
append_pos b ch = refl

-- What is generated stands behind what was, in the buffer.
pub emit_room :
    (xs : List Item) (b : Buffer) (tab : List Value)
    → b.pos ≤ buflength b
    → (b.pos ≤ (emit xs (b, tab)).0.pos)
      × ((emit xs (b, tab)).0.pos ≤ buflength (emit xs (b, tab)).0)
unfolding emit buf_append
emit_room [] b tab bounded = (omega arith, bounded)
emit_room (byte x ∷ xs) b tab bounded =
    let (le, fits) = emit_room xs (buf_append b (x % 256)) tab (append_room b _ bounded) in
    (omega (arith, le), fits)
emit_room (lit v ∷ xs) b tab bounded =
    let (le, fits) = emit_room xs (buf_append b _) _ (append_room b _ bounded) in
    (omega (arith, le), fits)

get-append :
    {A : Type 0} (xs ys : List A) (i : ℕ) {x : A}
    → get_elem? xs i ≡ some x
    → get_elem? (xs ++ ys) i ≡ some x
get-append [] ys i e = absurd (cc)
get-append (a ∷ xs) ys zero e = e
get-append (a ∷ xs) ys (suc i) e = get-append xs ys i e

get-grown :
    (b : Buffer) (i : ℕ) {x : Option ℕ}
    → get_elem? b.buf i ≡ some x
    → get_elem? (grown b).buf i ≡ some x
get-grown b i e = elim (Bool-cases (leb (buflength b) b.pos)) [
  | inl full ↦ rw full (get-append b.buf (replicate 128 none) i e)
  | inr room ↦ rw room e
]

get-buf_append :
    (b : Buffer) (ch i : ℕ) {x : Option ℕ}
    → i < b.pos
    → get_elem? b.buf i ≡ some x
    → get_elem? (buf_append b ch).buf i ≡ some x
unfolding buf_append
get-buf_append b ch i less e =
    get_elem?-set_ne (grown b).buf b.pos i (some ch) (λ q. omega (arith, q)) ∙ get-grown b i e

-- A byte that was generated stays.
get-emit :
    (xs : List Item) (b : Buffer) (tab : List Value) (i : ℕ) {x : Option ℕ}
    → i < b.pos
    → get_elem? b.buf i ≡ some x
    → get_elem? (emit xs (b, tab)).0.buf i ≡ some x
unfolding emit buf_append
get-emit [] b tab i less e = e
get-emit (byte y ∷ xs) b tab i less e =
    get-emit xs (buf_append b (y % 256)) tab i (omega arith) (get-buf_append b (y % 256) i less e)
get-emit (lit v ∷ xs) b tab i less e =
    get-emit xs (buf_append b _) _ i (omega arith) (get-buf_append b _ i less e)

set-same : {A : Type 0} (xs : List A) (i : ℕ) {x : A} → get_elem? xs i ≡ some x → set xs i x ≡ xs
set-same [] i e = absurd (cc)
set-same (a ∷ xs) zero e = ap (λ y. y ∷ xs) (ground (arith, e))
set-same (a ∷ xs) (suc i) e = ap (λ ys. a ∷ ys) (set-same xs i e)

-- A zero byte that was generated is patched with zero.
pub patch-emit :
    (xs : List Item) (b : Buffer) (tab : List Value)
    → b.pos ≤ buflength b
    → set (emit xs (buf_append b 0, tab)).0.buf b.pos (some 0)
      ≡ (emit xs (buf_append b 0, tab)).0.buf
unfolding buf_append
patch-emit xs b tab bounded =
    let (same, room) = take-grown b 0 (omega arith) bounded in
    set-same (emit xs (buf_append b 0, tab)).0.buf b.pos (
      get-emit xs (buf_append b 0) tab b.pos (omega arith)
        (get_elem?-set_self (grown b).buf b.pos (some 0) room))
