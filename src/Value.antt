-- ===== src/Value.antt =====
-- The tagged values and the object layouts of move/object.h.
pub mod Laws
use move.Base.{
  ℕ, zero, suc, ◌-◌, ◌+◌, ◌*◌, ◌/◌, ◌%◌, ◌^◌, Bool, true, false, List, ℤ, pos, negsuc, eq_ℤ, ◌==◌,
  ltb, if◌then◌else◌, sub_ℕ, pos_part, neg_part,
}

-- An OBJ: NULL, a tagged number, a tagged singleton, or a pointer into the heap.
-- `indeterminate` is what a `_noinit` allocation leaves in a cell.
pub data Value : Type 0 where
  null : Value
  num : ℤ → Value
  singleton : ℕ → Value
  ref : ℕ → Value
  indeterminate : Value

abbrev pub move_true : Value
move_true = singleton 0

abbrev pub move_false : Value
move_false = singleton 1

abbrev pub undefined : Value
undefined = singleton 2

abbrev pub yield_thread : Value
yield_thread = singleton 3

-- `a == b` on two OBJs.
unfoldable pub same : Value → Value → Bool
unfolding eq_ℤ
same null null = true
same (num a) (num b) = eq_ℤ a b
same (singleton a) (singleton b) = a == b
same (ref a) (ref b) = a == b
same _ _ = false

-- A number has 62 bits on a 64-bit machine: MKNUM shifts the two upper bits out.
abbrev pub num_half : ℕ
num_half = 0x2000_0000_0000_0000

abbrev pub num_mod : ℕ
num_mod = 0x4000_0000_0000_0000

-- The signed number of a bit pattern of 62 bits.
abbrev pub of_bits : ℕ → ℤ
of_bits b = if ltb b num_half then pos b else negsuc (num_mod - 1 - b)

-- The bit pattern of 62 bits of a number, as UNUM reads it.
abbrev pub to_bits : ℤ → ℕ
to_bits (pos n) = n % num_mod
to_bits (negsuc n) = num_mod - 1 - n % num_mod

unfoldable pub mknum : ℤ → Value
mknum a = num (of_bits (to_bits a))

pub record Recmutex : Type 0 where
  pub counter : ℕ
  pub owner_threadnum : ℕ

pub record ObjectRec : Type 0 where
  pub finalize : Bool
  pub flags : ℕ
  pub methods : Value
  pub attributes : Value
  pub parents : Value
  pub owner : Value
  pub group : Value
  pub location : Value
  pub contents : Value
  pub lock : Recmutex

-- What a pointer points at, by its kind.
pub data Body : Type 0 where
  object : ObjectRec → Body
  bvector : List ℕ → Body
  ovector : (finalize : Bool) (type : ℕ) → List Value → Body
  vector : List Value → Body

-- Kinds of opaque vectors.
abbrev pub t_hashtable : ℕ
t_hashtable = 1

abbrev pub t_slot : ℕ
t_slot = 2

abbrev pub t_method : ℕ
t_method = 3

abbrev pub t_closure : ℕ
t_closure = 4

abbrev pub t_symbol : ℕ
t_symbol = 5

abbrev pub t_prim : ℕ
t_prim = 6

abbrev pub t_frame : ℕ
t_frame = 7

abbrev pub t_connection : ℕ
t_connection = 9

abbrev pub t_continuation : ℕ
t_continuation = 10

-- Indices into the opaque vectors.
abbrev pub hashlink_name : ℕ
hashlink_name = 0

abbrev pub hashlink_next : ℕ
hashlink_next = 1

abbrev pub sl_flags : ℕ
sl_flags = 2

abbrev pub sl_value : ℕ
sl_value = 3

abbrev pub sl_owner : ℕ
sl_owner = 4

abbrev pub me_name : ℕ
me_name = 0

abbrev pub me_flags : ℕ
me_flags = 2

abbrev pub me_code : ℕ
me_code = 3

abbrev pub me_owner : ℕ
me_owner = 4

abbrev pub me_lits : ℕ
me_lits = 5

abbrev pub me_env : ℕ
me_env = 6

abbrev pub me_argc : ℕ
me_argc = 7

abbrev pub cl_method : ℕ
cl_method = 0

abbrev pub cl_self : ℕ
cl_self = 1

abbrev pub sy_name : ℕ
sy_name = 0

abbrev pub sy_next : ℕ
sy_next = 1

abbrev pub sy_value : ℕ
sy_value = 2

abbrev pub sy_hash : ℕ
sy_hash = 3

abbrev pub pr_number : ℕ
pr_number = 1

abbrev pub cont_frame : ℕ
cont_frame = 0

abbrev pub cont_stack : ℕ
cont_stack = 1

-- Permission bits.
abbrev pub o_c_flag : ℕ
o_c_flag = 0x4000

abbrev pub o_setuid : ℕ
o_setuid = 0x2000

abbrev pub o_privileged : ℕ
o_privileged = 0x1000

abbrev pub o_perms_mask : ℕ
o_perms_mask = 0xfff

abbrev pub o_owner_mask : ℕ
o_owner_mask = 0xf00

abbrev pub o_group_mask : ℕ
o_group_mask = 0xf0

abbrev pub o_world_mask : ℕ
o_world_mask = 0xf

abbrev pub o_all_r : ℕ
o_all_r = 0x111

abbrev pub o_all_w : ℕ
o_all_w = 0x222

abbrev pub o_all_x : ℕ
o_all_x = 0x444
