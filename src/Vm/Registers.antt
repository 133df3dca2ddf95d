-- ===== src/Vm/Registers.antt =====
-- The registers of move/vm.h, the operand stack, and the frames of move/vm.c.
pub mod Copies
pub mod Frames
pub mod Continuations
pub mod Stack
use move.Base.{
  ℕ, zero, suc, ◌+◌, ◌-◌, ◌*◌, ◌%◌, Bool, Option, none, some, List, [], ◌∷◌, ltb, leb, ◌==◌,
  if◌then◌else◌, get_elem?, ℤ, pos, negsuc, ◌+ℤ◌, length,
}
use move.Value.{Value, null, num, mknum, bvector, t_frame, t_continuation, cont_frame, cont_stack}
use move.Heap.{Heap, Cmd, pure, stop, of_option, ◌>>=◌, ◌>>◌, at, atput, body_of, num_of, length_of}
use move.Alloc.{newvector, newvector_noinit, newovector, newovector_noinit}

-- VMstate: the registers that the collector sees, and those of VMregs_C. A positive `state` is the
-- number of cycles left, 0 is VM_STATE_DYING, -1 a daemon, -2 a thread without quota.
pub record Vms : Type 0 where
  pub acc : Value
  pub code : Value
  pub env : Value
  pub lits : Value
  pub self : Value
  pub stack : Value
  pub frame : Value
  pub method : Value
  pub trap_closure : Value
  pub uid : Value
  pub effuid : Value
  pub locked : Value
  pub ip : ℤ
  pub top : ℕ
  pub state : ℤ
  pub locked_count : ℕ

abbrev pub vm_stack_length : ℕ
vm_stack_length = 1024

abbrev pub vm_default_cpu_quota : ℤ
vm_default_cpu_quota = pos 15000

abbrev pub dying : ℤ
dying = pos 0

-- init_vm
unfoldable pub init_vm : Cmd Vms
unfolding newvector
init_vm = do
  stack ← newvector vm_stack_length
  pure (record {
    acc = null;
    code = null;
    env = null;
    lits = null;
    self = null;
    stack = stack;
    frame = null;
    method = null;
    trap_closure = null;
    uid = null;
    effuid = null;
    locked = null;
    ip = pos 0;
    top = 0;
    state = vm_default_cpu_quota;
    locked_count = 0;
  })

-- The registers that `push` and `pop` leave on overflow and underflow: the thread is to die.
abbrev pub overflow_guard : Vms → Vms
overflow_guard vms =
    if leb vm_stack_length vms.top then record vms { top = 0; state = dying } else vms

abbrev pub underflow_guard : Vms → Vms
underflow_guard vms = if vms.top == 0 then record vms { top = 1; state = dying } else vms

unfoldable pub push : Value → Vms → Cmd Vms
push o vms =
    let v = overflow_guard vms in do atput v.stack v.top o; pure (record v { top = v.top + 1 })

unfoldable pub pop : Vms → Cmd (Value × Vms)
pop vms =
    let v = underflow_guard vms in
    do o ← at v.stack (v.top - 1); pure (o, record v { top = v.top - 1 })

-- With an empty stack `peek` reads in front of the vector.
unfoldable pub peek : Vms → Cmd Value
peek vms = if vms.top == 0 then stop else at vms.stack (vms.top - 1)

-- CODEAT(i)
unfoldable pub code_at : Vms → ℤ → Cmd ℕ
unfolding body_of
code_at vms (pos i) = do
  b ← body_of vms.code
  elim b [ bvector bytes ↦ of_option (get_elem? bytes i) | _ ↦ stop ]
code_at vms (negsuc i) = stop

-- `(int16_t) CODE16AT(i)`
unfoldable pub offset_at : Vms → ℤ → Cmd ℤ
unfolding code_at ◌+ℤ◌
offset_at vms i = do
  hi ← code_at vms i
  lo ← code_at vms (i +ℤ pos 1)
  let n = hi * 256 + lo
  pure (if ltb n 0x8000 then pos n else negsuc (0xffff - n))

abbrev pub advance : ℕ → Vms → Vms
advance n vms = record vms { ip = vms.ip +ℤ pos n }

-- The conversions of the instruction pointer, an `int32_t`, to `uint32_t` and back.
abbrev pub u32_of : ℤ → ℕ
u32_of (pos n) = n % 0x1_0000_0000
u32_of (negsuc n) = 0xffff_ffff - n % 0x1_0000_0000

abbrev pub i32_of : ℤ → ℤ
i32_of a = let n = u32_of a in if ltb n 0x8000_0000 then pos n else negsuc (0xffff_ffff - n)

-- fillframe, in the order of the FR_ indices.
abbrev pub frame_slots : Vms → List Value
frame_slots vms =
    vms.code
    ∷ mknum (pos (u32_of vms.ip))
    ∷ vms.self
    ∷ vms.lits
    ∷ vms.env
    ∷ vms.frame
    ∷ vms.method
    ∷ vms.effuid
    ∷ []

unfoldable pub fill_slots : Value → ℕ → List Value → Cmd (Unit {0})
fill_slots f i [] = pure tt
fill_slots f i (v ∷ vs) = do atput f i v; fill_slots f (i + 1) vs

unfoldable pub push_frame : Vms → Cmd Vms
unfolding fill_slots
push_frame vms = do
  newf ← newovector 8 t_frame
  fill_slots newf 0 (frame_slots vms)
  pure (record vms { frame = newf })

unfoldable pub restoreframe : Value → Vms → Cmd Vms
restoreframe f vms = do
  code ← at f 0
  ip ← num_of (← at f 1)
  self ← at f 2
  lits ← at f 3
  env ← at f 4
  frame ← at f 5
  method ← at f 6
  effuid ← at f 7
  pure (record vms {
    code = code;
    ip = i32_of ip;
    self = self;
    lits = lits;
    env = env;
    frame = frame;
    method = method;
    effuid = effuid;
  })

-- The loops that copy `n` cells from index `i` on to the same indices of another vector.
unfoldable pub copy_cells : (from to : Value) → ℕ → ℕ → Cmd (Unit {0})
copy_cells from to zero i = pure tt
copy_cells from to (suc n) i = do v ← at from i; atput to i v; copy_cells from to n (i + 1)

unfoldable pub getcont_from : Vms → Cmd Value
getcont_from vms = do
  cont ← newovector_noinit 2 t_continuation
  atput cont cont_frame vms.frame
  cstk ← newvector_noinit vms.top
  atput cont cont_stack cstk
  copy_cells vms.stack cstk vms.top 0
  pure cont
