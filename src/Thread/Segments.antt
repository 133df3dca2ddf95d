-- ===== src/Thread/Segments.antt =====
-- A doubly linked run of threads as a list.
use move.Base.{ℕ, ◌≡◌, ◌≢◌, refl, ◌∙◌, Option, some, List, [], ◌∷◌, ◌++◌, All, Distinct, arith}
use move.Thread.{Thread, set_thread}

-- The first thread of the list, or what comes behind it.
abbrev pub first_of : List ℕ → Option ℕ → Option ℕ
first_of [] behind = behind
first_of (x ∷ xs) behind = some x

-- The last thread of the list, or what stands in front of it.
abbrev pub last_of : Option ℕ → List ℕ → Option ℕ
last_of front [] = front
last_of front (x ∷ xs) = last_of (some x) xs

-- The threads of the list are linked in this order, with `behind` after the last and the second thread
-- given in front of the first.
pub data Linked (m : ℕ → Option Thread) (behind : Option ℕ) : Option ℕ → List ℕ → Type 0 where
  nothing : {front : Option ℕ} → Linked m behind front []
  link :
      {front : Option ℕ} {x : ℕ} {xs : List ℕ} (r : Thread)
      → m x ≡ some r
      → r.prev_q ≡ front
      → r.next_q ≡ first_of xs behind
      → Linked m behind (some x) xs
      → Linked m behind front (x ∷ xs)

pub Linked-frame :
    {m m' : ℕ → Option Thread} {front behind : Option ℕ} (xs : List ℕ)
    → All (λ x. m' x ≡ m x) xs
    → Linked m behind front xs
    → Linked m' behind front xs
Linked-frame [] same linked = nothing
Linked-frame (x ∷ xs) (e, same) (link r holds prev next linked) =
    link r (e ∙ holds) prev next (Linked-frame xs same linked)

-- A change of one thread leaves the others.
pub others_same :
    (m : ℕ → Option Thread) (t : ℕ) (r : Option Thread) (xs : List ℕ)
    → All (λ x. x ≢ t) xs
    → All (λ x. set_thread t r m x ≡ m x) xs
others_same m t r [] new = tt
others_same m t r (x ∷ xs) (ne, new) = (ground (arith, ne), others_same m t r xs new)

pub set_self : (m : ℕ → Option Thread) (t : ℕ) (r : Option Thread) → set_thread t r m t ≡ r
set_self m t r = ground arith

-- The thread in the middle, and what stands on its two sides.
pub Linked-split :
    {m : ℕ → Option Thread} {front behind : Option ℕ} (xs : List ℕ) (t : ℕ) (ys : List ℕ)
    → Linked m behind front (xs ++ (t ∷ ys))
    → Linked m (some t) front xs
      × ((r : Thread) × (m t ≡ some r)
          × (r.prev_q ≡ last_of front xs)
          × (r.next_q ≡ first_of ys behind))
      × Linked m behind (some t) ys
Linked-split [] t ys (link r holds prev next linked) = (nothing, (r, holds, prev, next), linked)
Linked-split (x ∷ []) t ys (link r holds prev next linked) =
    let (left, middle, right) = Linked-split [] t ys linked in
    (link r holds prev next nothing, middle, right)
Linked-split (x ∷ y ∷ xs) t ys (link r holds prev next linked) =
    let (left, middle, right) = Linked-split (y ∷ xs) t ys linked in
    (link r holds prev next left, middle, right)

-- Two runs that meet are one.
pub Linked-append :
    {m : ℕ → Option Thread} {front behind : Option ℕ} (xs ys : List ℕ)
    → Linked m (first_of ys behind) front xs
    → Linked m behind (last_of front xs) ys
    → Linked m behind front (xs ++ ys)
Linked-append [] ys left right = right
Linked-append (x ∷ []) ys (link r holds prev next left) right = link r holds prev next right
Linked-append (x ∷ y ∷ xs) ys (link r holds prev next left) right =
    link r holds prev next (Linked-append (y ∷ xs) ys left right)

-- The last thread of a run, and the run with another link behind it.
pub last-Linked :
    {m : ℕ → Option Thread} {front behind : Option ℕ} (a : ℕ) (xs : List ℕ)
    → Distinct (a ∷ xs)
    → Linked m behind front (a ∷ xs)
    → (p : ℕ) × (r : Thread) × (last_of front (a ∷ xs) ≡ some p)
      × (m p ≡ some r)
      × ((after : Option ℕ)
          → Linked (set_thread p (some (record r { next_q = after })) m) after front (a ∷ xs))
      × ((P : ℕ → Type 0) → All P (a ∷ xs) → P p)
last-Linked {m} a [] distinct (link r holds prev next linked) = (
  a,
  r,
  refl,
  holds,
  (λ after. link (record r { next_q = after }) (set_self m a _) prev refl nothing),
  λ P (p, all). p,
)
last-Linked {m} a (b ∷ xs) (new, distinct) (link r holds prev next linked) =
    let (p, rp, last, holds', relink, belongs) = last-Linked b xs distinct linked in
    let ne : p ≢ a = belongs (λ q. q ≢ a) new in
    (
      p,
      rp,
      last,
      holds',
      (λ after. link r (ground (arith, ne, holds)) prev next (relink after)),
      λ P (q, all). belongs P all,
    )
