-- ===== src/Lib.antt =====
-- riscv64_emulator: an interpreter and JIT for 64-bit RISC-V programs.
--
-- A guest program is loaded into a flat memory with a permission byte for each byte
-- (src/vm/Memory.cpp). Vm (src/vm/Vm.cpp) runs it: each step of the interpreter
-- (src/vm/Interpreter.cpp) fetches a word at the program counter, decodes it
-- (src/vm/Instruction.cpp) and changes the registers (src/vm/RegisterState.hpp, src/vm/Cpu.hpp)
-- and the memory, until a step reports an exit (src/vm/Exit.hpp). The program comes from an ELF
-- file (src/ElfLoader.cpp). The JIT (src/vm/jit) translates basic blocks instead: the machine code
-- of a block is kept in the code buffer (CodeBuffer.cpp), and on AArch64 it keeps guest registers in
-- registers of the host (aarch64/RegisterCache.cpp).
--
-- Files and what they model:
-- Prelude: shared names; Prelude/Result is what a C++ operation ends in (a value, a failed verify
--   or fatal_error of base/Error.hpp, undefined behaviour); Prelude/Word is C++ arithmetic on
--   fixed widths; Prelude/Digits and Prelude/Bits have the laws of the bit operations.
-- Cpu: RegisterState and Cpu; Cpu/Laws has its laws.
-- Instruction: class Instruction; Kinds is InstructionType; Packing the packed form; Fields and
--   Decoder are InstructionDecoder; Encoding is the RISC-V manual's encoder, an independent
--   specification, and Encoding/Decodes compares them; Decoded and Gaps are about the decoder.
-- Memory: class Memory over one raw allocation; Bytes, Accepts, Access, Total, Permissions and
--   Overflow have its laws.
-- Exit: struct Exit. Interpreter: Interpreter::step, with its inner switches in Interpreter/Alu;
--   Values, Steps and Step have its laws; Manual compares its results with the RISC-V manual's,
--   Computed follows them through a whole step, and Division shows where they differ. Loads, Stores
--   (with Accesses) and Jumps are about a whole step of the other instructions.
-- Vm: Vm::run_interpreter; Vm/Interpreted relates it to the steps. Vm/Run is Vm::run around
--   jit::Executor, a class of virtual functions about which nothing is assumed.
-- Display: InstructionDisplay (src/vm/private); Names belongs to it.
-- ElfLoader: the loader over a file in memory; Headers, Segments, Entries, Contents, Loaded and
--   Extent have its laws.
-- Jit/CodeBuffer: CodeBuffer and ExecutableBuffer; Alignment, Laws and Insert have its laws.
-- Jit/Assembler: what the register cache uses of asmlib and of `std::sort`, as parameters.
-- Jit/RegisterCache: RegisterCache; Release has its other operations. Coherence is the invariant;
--   Evicting, Reserving, Locking, Locked and Locks follow it through `lock_registers`, Unlocking,
--   Flushing and Created through the other operations; Replacement is about the slots to give up,
--   and Frame about what locking leaves alone.
-- Jit/A64: what the code generator uses of asmlib, and what the instructions do to the registers.
-- Jit/Aarch64: aarch64/CodeGenerator.cpp with Exit.hpp, Registers.hpp and CodegenContext.hpp, on
--   the code that the register cache appends to. Accesses are the checks of memory accesses,
--   Branches the jumps, Selection the inner switches, Arithmetic and Instructions
--   `generate_instruction`, Blocks the loop over a block. Emitted is what appended instructions do;
--   Computing, Immediates, Additions and Multiplying, with SignedRemainder and Remainders, are
--   about the inner switches; Ready is the invariant between two instructions; Held and Unlocked
--   follow it through an instruction; Registers, Operands, ImmediateCode and Multiplications are
--   the instructions; Conditions compares branches with the interpreter, Masks the permission check
--   with Memory.cpp; Returns is about the loop.
-- Jit/Utilities: memory_access_size_log2 (src/vm/jit/Utilities.cpp).
-- MainProgram: main (src/main.cpp) up to `vm.run`.
-- Tests: concrete runs, and concrete parameters.
--
-- Values of w bits are natural numbers below 2 ^ w, and wrap-around is written `% 2 ^ w`. The
-- by-reference objects of a step are one record, returned anew. `while (true)` runs on fuel; a
-- result that is not `none` does not depend on how much is left. `decode` fall-through cases are
-- passed as arguments. The host is little-endian, as the supported hosts are.
--
-- The assembler library asmlib is a submodule that is not in the repository: the register cache is
-- stated for any assembler whose loads and stores move a register from or to an offset of the guest
-- register table, and for any sort that returns a permutation in order. The code generator is stated
-- for any assembler whose instructions have the effect on the registers that the architecture
-- manual gives; memory accesses, flags other than for a `cset` after a `cmp` of registers, and jumps
-- have none in the model, and nothing is said of an addition or subtraction of an immediate with xzr
-- as an operand, which is the stack pointer there. How fmt prints a number is a parameter of Display.
--
-- The loop over a block has fuel for one round more than the words of the memory, since a fetch past
-- its end ends the block.
--
-- Not modelled: allocation failure, logging, the text formatting of fmt, the code generator for x64
-- (src/vm/jit/x64), the trampolines, which emit machine code through asmlib, and the executors.
pub mod Prelude
pub mod Cpu
pub mod Instruction
pub mod Memory
pub mod Exit
pub mod Interpreter
pub mod Vm
pub mod ElfLoader
pub mod Display
pub mod Jit
pub mod MainProgram
pub mod Tests
