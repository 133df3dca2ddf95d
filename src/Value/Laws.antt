-- ===== src/Value/Laws.antt =====
-- Equality of values, and the wrap-around of MKNUM.
use move.Base.{
  ◌≡◌, ◌≢◌, ◌↔◌, ◌<◌, ◌≤◌, refl, true, arith, ℤ, pos, negsuc, eq_ℤ_iff, pos_part, neg_part,
}
use move.Value.{Value, null, num, singleton, ref, indeterminate, same, mknum, num_half}

pub same_iff : (a b : Value) → a ≢ indeterminate → (same a b ≡ true) ↔ (a ≡ b)
unfolding same
same_iff null null h = ground arith
same_iff (num a) (num b) h = ground (arith, eq_ℤ_iff a b)
same_iff (singleton a) (singleton b) h = ground arith
same_iff (ref a) (ref b) h = ground arith
same_iff indeterminate b h = absurd (h refl)
same_iff a b h = ground arith

-- A number of 62 bits keeps its value.
pub mknum_fits : (a : ℤ) → pos_part a < num_half → neg_part a ≤ num_half → mknum a ≡ num a
unfolding mknum
mknum_fits (pos n) h k = ground arith
mknum_fits (negsuc n) h k = ground arith

pub same→eq : (a b : Value) → same a b ≡ true → a ≡ b
unfolding same
same→eq null null h = refl
same→eq (num a) (num b) h = ground (arith, eq_ℤ_iff a b)
same→eq (singleton a) (singleton b) h = ground arith
same→eq (ref a) (ref b) h = ground arith
same→eq indeterminate b h = absurd (cc)
same→eq a b h = absurd (cc)
