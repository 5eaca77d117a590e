-- ===== src/Lib.antt =====
-- The interpreter of turkeyVM, a Java virtual machine in C for 32-bit targets, with its object heap,
-- the linking of its classes and its containers.
--
-- The program reads class files, links them, and runs bytecode with one C function for each
-- instruction. Each works on the current frame, a block of memory with the local variables of a
-- method below its operand stack.
--
-- * Prelude holds what the other modules share: tests, lists, integers, the outcome of a C function
--   (`Run`), and the patterns of the fixed widths. A value in memory is its bit pattern, a natural
--   number; wrap-around is written out as a remainder.
-- * Words relates patterns to integers: sums, products, shifts, masks.
-- * Frame is the frame of src/interp/stackmanager.h and the operations on it of
--   src/interp/stackmanager.c: `push`, `pop`, `LOAD`, `STORE`, and the macros of
--   src/interp/interp.c that read the code and move in it. Frame/View is the abstract view of a
--   frame as a list of words with the top first, and the invariant `IsFrame`: the stack pointer is
--   between its bounds, the block is as large as `createFrame0` makes it, each cell is a word, and
--   `pc_offset` follows `pc`. `Effect` says of a run that it returns, and what it leaves: the
--   position, the local variables, the stack, and the invariant.
-- * Interp has a function `exe_opc_<name>` for `exe_OPC_<NAME>` of src/interp/interp.c. A child of
--   each module of handlers states what the handlers leave.
-- * Calls has the frames that `createFrame0`, `createFrame` and `createNativeFrame` of
--   src/interp/stackmanager.c make, with the copying of the arguments from the stack of the caller
--   or from the arguments of C, and `parseArgs` of src/classloader/class.c. Calls/Descriptor/Types
--   has the descriptors of the class file format, for which the theorems are stated.
-- * Cast has the tests on classes of src/native/cast.c on a table of classes. They recurse over super
--   classes and interfaces, so each takes a number of steps, with `none` for too few; the depth of
--   the tested class plus one is enough for `isSubClassOf`.
-- * Memory has numbers as bytes, the low one first. Objects is the heap of src/heapManager/alloc.c and
--   alloc.h: an address has an object or none, an object has its header and its bytes. Interp/Array,
--   Interp/Creation and Interp/FieldAccess are the handlers on it; the constant pool, the class loader
--   and the addresses that `malloc` returns are their arguments. Where the making of objects loads a
--   class, the loader takes the heap and returns it as it leaves it.
-- * Classes is the linking of src/classloader/class.c and the search of src/classloader/resolve.c. A
--   class is a value: its block over its super class, which is loaded before it and then no longer
--   changes, so the recursion over super classes is structural. Classes/Prepare and Classes/Link have
--   the two loops over methods, Classes/Dispatch and Classes/Virtual put them together,
--   Classes/Layout and Classes/Fields have the fields.
-- * Lists has src/lib/list.c and src/lib/stack.c on a store of nodes. Lists/Chain says what a list on
--   the store stands for, the addresses and elements of its nodes in order; the other children have
--   the operations on either end, the walks and the removals.
-- * Hash is src/lib/hash.c with the triples of src/lib/triple.c. Its chains are sequences, as Lists
--   shows of them; the search, the growth and the putting of a value have a child each.
-- * Tests holds concrete frames and the theorems at them.
--
-- A function of C that stops the process (`ERROR`, `TODO`, an assertion) or that C leaves undefined
-- is a `halt` of `Run` with its reason. The flag `assert_stack` is a field of the frame; printing is
-- left out. The loops over a descriptor are bounded by its length plus one, since each round takes a
-- character; `none` would be a loop that goes on, and the theorems give `some`. The walks along a
-- list on the store take a number of steps in the same way, for which one more than the nodes is
-- enough. The other loops run as often as a number of the program or the length of a list says, and
-- are recursion on it.
--
-- Not modelled: floating point arithmetic, the invoke instructions but for the choice of the method,
-- the list of frames, the parser of class files and the resolution of constant pool entries, the
-- hash set of src/lib, and all that does input and output. `vmsize` and the other counters that are
-- only printed are left out.
pub mod Prelude
pub mod Frame
pub mod Interp
pub mod Words
pub mod Calls
pub mod Cast
pub mod Memory
pub mod Lists
pub mod Hash
pub mod Objects
pub mod Classes
mod Tests
