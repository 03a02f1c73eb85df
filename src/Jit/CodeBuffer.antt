-- ===== src/Jit/CodeBuffer.antt =====
-- src/vm/jit/CodeBuffer.cpp and ExecutableBuffer.cpp: one buffer for all generated code, and a
-- table from the blocks of guest code (four bytes each) to offsets in the buffer, where 0 stands
-- for a block without code. Code is placed by its offset from the start of the buffer.
pub mod Alignment
pub mod Laws
pub mod Insert
use riscv64_emulator.Prelude.{
  ℕ, ◌+◌, ◌-◌, ◌/◌, ◌^◌, Bool, not, List, length, get_or, Option, none, some, ltb, leb, ◌==◌,
  if◌then◌else◌, bit_and,
}
use riscv64_emulator.Prelude.Word.{u32, u64}
use riscv64_emulator.Prelude.Result.{
  Result, ok, undefined_behaviour, ◌>>=◌, ◌>>◌, verify, out_of_executable_memory,
  writing_out_of_bounds, guest_address_misaligned,
}
use riscv64_emulator.Memory.{overwrite}

-- class ExecutableBuffer: a mapping of pages. That the operating system refuses it, the
-- protection of the pages and the instruction cache are not modelled.
pub record ExecutableBuffer : Type 0 where
  pub size : ℕ
  pub memory : ℕ → ℕ

-- `ExecutableBuffer::write`; the end is computed in 64 bits.
unfoldable pub write : ExecutableBuffer → ℕ → List ℕ → Result ExecutableBuffer
write buffer offset bytes = do
  verify (leb (u64 (offset + length bytes)) buffer.size) writing_out_of_bounds
  if leb (offset + length bytes) buffer.size
      then ok (record buffer {
        memory = overwrite buffer.memory offset (length bytes) (λ k. get_or bytes k 0);
      })
      else undefined_behaviour

-- class CodeBuffer, less the flags, the dump file and the mutex, which makes each operation one
-- step.
pub record CodeBuffer : Type 0 where
  pub block_to_offset : ℕ → ℕ
  pub max_blocks : ℕ
  pub executable_buffer : ExecutableBuffer
  pub next_free_offset : ℕ

unfoldable pub create : ℕ → ℕ → CodeBuffer
create size max_executable_guest_address = record {
  block_to_offset = λ _. 0;
  max_blocks = u64 (max_executable_guest_address + 4 - 1) / 4;
  executable_buffer = record { size = size; memory = λ _. 0 };
  next_free_offset = 16;
}

-- `(next_free_offset + code_alignment - 1) & ~(code_alignment - 1)`.
unfoldable pub align : ℕ → ℕ
align offset = bit_and (u64 (offset + 16 - 1)) (2 ^ 64 - 2 ^ 4)

unfoldable pub allocate_executable_memory : CodeBuffer → List ℕ → Result (ℕ × CodeBuffer)
allocate_executable_memory b code = do
  let start_offset = align b.next_free_offset
  let end_offset = u64 (start_offset + length code)
  verify (leb end_offset b.executable_buffer.size) out_of_executable_memory
  buffer ← write b.executable_buffer start_offset code
  ok (u32 start_offset, record b { executable_buffer = buffer; next_free_offset = end_offset })

-- `get`: the offset of the code; the table is read without a test of the index.
unfoldable pub get : CodeBuffer → ℕ → Result (Option ℕ)
get b guest_address =
    if not (bit_and guest_address 3 == 0)
    then ok none
    else if ltb (guest_address / 4) b.max_blocks
    then (let offset = b.block_to_offset (guest_address / 4) in
        ok (if offset == 0 then none else some offset))
    else undefined_behaviour

-- The rest of `insert`, after the search.
unfoldable pub insert_new : CodeBuffer → ℕ → List ℕ → Option ℕ → Result (ℕ × CodeBuffer)
insert_new b guest_address code (some p) = ok (p, b)
insert_new b guest_address code none = do
  (offset, b') ← allocate_executable_memory b code
  ok (
    offset,
    record b' {
      block_to_offset = λ k. if k == guest_address / 4 then offset else b'.block_to_offset k;
    },
  )

unfoldable pub insert : CodeBuffer → ℕ → List ℕ → Result (ℕ × CodeBuffer)
insert b guest_address code = do
  verify (bit_and guest_address 3 == 0) guest_address_misaligned
  found ← get b guest_address
  insert_new b guest_address code found

unfoldable pub insert_standalone : CodeBuffer → List ℕ → Result (ℕ × CodeBuffer)
insert_standalone b code = allocate_executable_memory b code
