-- ===== src/Lib.antt =====
-- 3-MOVE, a server for a programmable, persistent, multi-user world: an object store with inheritance
-- and permissions, and a virtual machine that runs the compiled methods of the MOVE language.
--
-- The parts, and the files that model them:
-- - Value: the values of move/object.h. A word is NULL, a number of 62 bits, a singleton or a pointer.
--   A pointer leads to an object, a byte vector, an opaque vector or a vector.
-- - Heap, Alloc: a heap is a function from addresses to bodies. A command takes the heap and ends with
--   a value and a heap (`ok`), with undefined behaviour of the C program (`fault`), with the end of the
--   process (`exit`), or without enough fuel (`out_of_fuel`). AT and ATPUT fault out of bounds, on NULL,
--   on tagged values and on the wrong kind of body. getmem (move/gc.c) hands out addresses in order;
--   the constructors of move/object.c and move/pair.h stand on it. Address 0 is the static empty vector.
-- - Hashtable: move/hashtable.c. Symbols: newsym and hash_str of move/object.c.
-- - Objects: init_object, newobject and vector_clone of move/object.c.
-- - Perms: move/perms.h and move/perms.c. Slots: move/slot.c and move/method.c.
-- - Gc: move/gc.c. The mark bits are a function from addresses, the C variables that are roots another.
--   Gc.Mark and Gc.Roots are about the mark phase, Gc.Relink, Gc.Round and Gc.Sweep about the sweep.
-- - Scanner: move/scanner.c. Scanner.Stream has scan_peek and scan_drop, Scanner.Words the escapes, the
--   keywords and the delimiters, and Scanner the states. The lines of scan from the last round of a word,
--   a number or a string on are the functions emit_word and emit_lexeme. Scanner.Input says what
--   is still to come; Scanner.Start, Scanner.Numeral and Scanner.Text are about words, numbers and strings,
--   Scanner.Comment and Scanner.Fuel about the end of the loop.
-- - Thread: move/thread.c. Thread has the table and the queues, Thread.Schedule the operations that
--   start, end, block and wake a thread, Thread.Rounds the two rounds of the main loop. Thread.Segments,
--   Thread.Unlink, Thread.Queues and Thread.Moves are about the doubly linked queues, Thread.Fairness about
--   a round.
-- - Compiler: move/parser.c. Compiler.Code has the code that is generated, the scopes and the literals, as
--   lists that only the compiler refers to; Compiler.Tokens the tokens and the errors; Compiler.Primary,
--   Compiler.Operators, Compiler.Definitions and Compiler.Expr the functions from compile_varref to parse.
--   A function of the compiler returns a result (`done`) or 0 after an error (`rejected`).
--   Compiler.Growth is about what they keep of the code that they are given. Compiler.Grammar has the
--   operator expressions, their tokens and what they mean, and Compiler.Reads what the functions do on
--   tokens that are known: Compiler.Reads.Expr on one of these expressions, Compiler.Reads.Blocks on a
--   block of them.
-- - Buffer: move/buffer.c. Recmutex: move/recmutex.c.
-- - Vm: move/vm.c with the registers of move/vm.h, the instructions of move/bytecode.h and the table of
--   move/prim.c. Vm.Registers has the stack, the frames and continuations; Vm.Primitives the table of
--   primitives; Vm.Apply apply_closure and vm_raise; Vm.Arith, Vm.Access and Vm.Call the cases of the
--   `switch` of run_vm; Vm.Exec the `switch`, the quota and the loop.
-- - Vm.Compound: primitives of move/PRIM.compound.c on strings, vectors and tables. A primitive takes the
--   registers and the argument vector. Vm.Compound.Queries has index-of, all-keys, as-sym and copy-of;
--   Vm.Compound.Extents is about section and delete.
-- - Vm.Object: the primitives of move/PRIM.object.c: Vm.Object.Owners, Vm.Object.Attributes,
--   Vm.Object.Methods, Vm.Object.Places and Vm.Object.Locks; Vm.Object.Install registers them. A primitive
--   that clones takes the number of the current thread; lock and unlock take the threads. Vm.Object.Refusals
--   and Vm.Object.Ancestry are about them.
-- - Base: lists, integers and Boolean tests. Text: string literals. Tests: the theorems at concrete
--   inputs.
--
-- The machine keeps the registers in a record that the commands take and return; the objects, the
-- stack vector and the frames are in the heap. A call pushes a frame, OP_RET restores it; an exception
-- saves a continuation and applies the thread's trap closure. Names of slots and methods are symbols,
-- which the tables of an object lead to; permissions are tested before a slot or a method is used.
--
-- Fuel: the loops along a chain of links, the walk of inheritance and the search of a group take one
-- round for each address that was handed out, and one more. On well-formed tables and on groups that
-- nest no deeper that is enough, as the theorems on them say. apply_closure and vm_raise call one another,
-- at most as deep as their first argument says. run_vm is bounded by its time slice. The calls of mark
-- nest at most as deep as there are addresses. The scanner takes two rounds for each character, and two
-- more, where the last character is a newline. expr_parse and its loops have one fuel, which a level of
-- nesting, a call or a round takes one from.
--
-- Not modelled: waiting for sockets, the saving and loading of threads, barriers, persistence, the
-- connections, the other primitives, and start-up. The safe point of
-- the collector is an argument of the loop of run_vm, and the primitives are entries of the table.
-- The scanner's getter is that of a string connection: bytes, and then the end of the
-- input for ever. Memory that malloc cannot give, and the debug output, are left out. Lengths and sizes of
-- bodies are natural numbers: newvector, newovector and newbvector fault where the size would be no `int`,
-- other bodies are taken to be shorter, and curr_heapsize does not wrap.
pub mod Base
pub mod Compiler
pub mod Value
pub mod Heap
pub mod Alloc
pub mod Hashtable
pub mod Symbols
pub mod Perms
pub mod Buffer
pub mod Recmutex
pub mod Text
pub mod Slots
pub mod Objects
pub mod Gc
pub mod Scanner
pub mod Thread
pub mod Vm
pub mod Tests
