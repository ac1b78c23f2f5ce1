-- ===== src/Lib.antt =====
-- Loxis: the lexer, the bytecode format, the object heap, the virtual machine and parts of
-- the collector.
--
-- A Loxis source file goes through a lexer, a parser, a type checker, two intermediate forms and a
-- compiler that writes bytecode (src/cpp/v2); a virtual machine decodes that code and runs it over an
-- object heap, whose objects a collector frees (src/cpp/vm, src/aarc). The models are these parts:
--
-- Lexer: src/cpp/v2/frontend/Lexer.cpp, the way from bytes to tokens. Lexer/Token has the token kinds
--   and the keyword table (`keyword`), Lexer/Cursor the position (`advance`, `peek`, `skipSpace`),
--   Lexer/Scan the scanners of literals, comments, numbers and operators (`literalStr`,
--   `literalChar`), Lexer/Tokenize the loop (`tokenize`). `src` and `pos` are one cursor, which holds
--   what is left to read. A thrown `FrontendError` is an outcome. The loop has one unit of fuel for
--   each byte and one more, since each round but the last reads a byte.
-- Bytecode: src/cpp/ir/OpCode.hpp, src/cpp/backend/Chunk.hpp and src/cpp/backend/Disasm.cpp, and the
--   emitters of src/cpp/v2/backend/MIRCompiler.cpp. Bytecode/Emit writes instructions (`emitU32`,
--   `emitI64`, `emitReg`), Bytecode/Decode reads them (`operandCountFor`, `decodeOperandAt`,
--   `decodeBytecode`). The decoder has one unit of fuel for each byte of code. Code is shorter than
--   2^32 bytes, so that the offset does not wrap.
-- Heap: src/cpp/vm/Heap.hpp. Heap/State is the state, `reserveSlots` and `resetStats`, Heap/Alloc is `alloc` and
--   `freePayload`, Heap/Cells is `storeCell`, `loadCell` and `cellAt`. 32-bit sums are written with
--   their wrap-around. Heap/Owners has the invariant: an owner for each byte of the arena. The
--   invariant is kept as long as the arena and the handles fit 32 bits, which `Fits` states.
-- Vm: src/cpp/vm/VM.hpp and src/cpp/vm/VM.cpp. Vm/Data is the state, the tables of the program, and
--   what the machine calls: a collector (src/cpp/vm/GC.hpp) and the host's floats and text
--   (`find`), which are parameters. Vm/Action is the effect of a step, Vm/Roots holds `setReg`,
--   `setGlobal`, the data stack and `pushCallFrame`, Vm/Unwind `restoreCallFrame`, `throwValue`
--   and `raiseRuntime`, Vm/Exec and its children the opcodes of `execJitInstruction` and
--   `invokeSyscall`, Vm/Run `runJit` and `finishGC`. A run has the instruction limit for fuel,
--   which the source has too; unwinding has one unit for each frame or saved value, and the search
--   for a superclass one for each type and two more. Vm/Keeps and Vm/Stable are the rules by which
--   an invariant goes through the instructions, and Vm/Balance keeps an account of roots beside
--   any collector. Vm/Gc is the reference-counting collector of src/cpp/vm/GC.cpp; its worklist
--   has a unit of fuel for each counted reference and one more.
-- Aarc: src/aarc. Aarc/Cells is the liveness test of src/aarc/core/cell.hpp, Aarc/Detector the
--   finder of strongly connected components of src/aarc/cycle/cycle_detector.hpp (`findComponents`,
--   `visitFrom`, `finishNode`, `release`), as built with AARC_CONSERVATIVE. Its fuel is one round
--   for each slot of the pool and one for each outgoing handle: a round follows a handle or takes a
--   frame away. Its children are the graph it walks, the stacks it keeps, and a file for each way a
--   round changes them. Aarc/RefTable is the forward table of references of
--   src/aarc/arc/ref_table_forward.hpp. Aarc/RootBag is the multiset of roots of
--   src/aarc/core/root_bag.hpp (`add`, `removeOne`, `grow`, `each`), a table with open addressing: a
--   probe has a round for each slot, and `nextPow2` one for each unit of its argument. Aarc/Owners
--   is the registry of owner tokens (`acquire`, `beginClose`, `release`, `state`); its mutex makes
--   each call one step. Aarc/Queue is the queue between one producer and one consumer (`tryPush`,
--   `tryPop`): a thread's load of the other side's index is an event of its own, whose value may be
--   old when it is used, and the access to the slot with the store of the thread's own index is one
--   event. Indices wrap at 2^64; spans are not modelled.
--
-- Not modelled: the parser, the type checker, the intermediate forms, and, of the collectors, the
-- engine and the runtime of src/aarc, the reverse table of references, the local components and the
-- allocation of cells. Of the machine, the system calls for input, files, paths, the environment,
-- the clock, floats and sockets end a run of the model, and a traceback is only the type and message
-- of the exception. Files, processes, locks and text output are outside the model. A file name in a
-- source location is left out, since the lexer only copies it.
pub mod Prelude
pub mod Bytecode
pub mod Heap
pub mod Lexer
pub mod Aarc
pub mod Vm
