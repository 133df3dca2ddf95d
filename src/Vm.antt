-- ===== src/Vm.antt =====
-- The virtual machine of move/vm.c and the bytecodes of move/bytecode.h.
pub mod Bytecode
pub mod Registers
pub mod Primitives
pub mod Apply
pub mod Arith
pub mod Access
pub mod Call
pub mod Compound
pub mod Object
pub mod Exec
