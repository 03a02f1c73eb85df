-- ===== src/Tests/Buffers.antt =====
-- The code buffer.
use riscv64_emulator.Prelude.{ℕ, ◌+◌, ◌%◌, ◌/◌, ◌≤◌, ◌<◌, ◌≡◌, ◌≢◌, arith, List, [], ◌∷◌, length}
use riscv64_emulator.Prelude.Result.{ok, fatal, out_of_executable_memory}
use riscv64_emulator.Jit.CodeBuffer.{CodeBuffer, align, create, insert}
use riscv64_emulator.Jit.CodeBuffer.Laws.{IsValid, create-IsValid, Holds}
use riscv64_emulator.Jit.CodeBuffer.Insert.{insert-Holds}

abbrev buffer : CodeBuffer
buffer = create 64 32

buffer-IsValid : IsValid buffer
buffer-IsValid = create-IsValid 64 32 (omega arith) (omega arith)

abbrev code : List ℕ
code = 0xc3 ∷ 0x90 ∷ []

insert-Holds_example :
    (buffer.block_to_offset (8 / 4) ≢ 0
      → insert buffer 8 code ≡ ok (buffer.block_to_offset (8 / 4), buffer))
    × (buffer.block_to_offset (8 / 4) ≡ 0
        → align buffer.next_free_offset + length code ≤ buffer.executable_buffer.size
        → (b' : CodeBuffer) × (insert buffer 8 code ≡ ok (align buffer.next_free_offset, b'))
          × IsValid b'
          × (align buffer.next_free_offset % 16 ≡ 0)
          × Holds b' 8 (align buffer.next_free_offset) code
          × ((a o : ℕ) (c : List ℕ)
              → Holds buffer a o c
              → Holds b' a o c × (o + length c ≤ align buffer.next_free_offset)))
    × (buffer.block_to_offset (8 / 4) ≡ 0
        → buffer.executable_buffer.size < align buffer.next_free_offset + length code
        → insert buffer 8 code ≡ fatal out_of_executable_memory)
insert-Holds_example = insert-Holds buffer 8 code buffer-IsValid (omega arith) (omega arith) inside
  where
    inside : 8 / 4 < buffer.max_blocks
    inside = unfold create in omega arith
