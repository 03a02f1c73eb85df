-- ===== src/Jit/CodeBuffer/Alignment.antt =====
-- Where the next code goes: `allocate_executable_memory` of src/vm/jit/CodeBuffer.cpp.
use riscv64_emulator.Prelude.{
  ℕ, ◌+◌, ◌-◌, ◌*◌, ◌/◌, ◌%◌, ◌^◌, ◌≤◌, ◌<◌, ◌≡◌, ap, ◌∙◌, arith, List, length, get_or, bit_and,
}
use riscv64_emulator.Prelude.Bits.{bit_and_mask, bit_and_high}
use riscv64_emulator.Prelude.Word.{u64}
use riscv64_emulator.Prelude.Result.{ok, fatal, out_of_executable_memory}
use riscv64_emulator.Memory.{overwrite}
use riscv64_emulator.Jit.CodeBuffer.{CodeBuffer, write, align, allocate_executable_memory}

pub align_lem :
    (offset : ℕ)
    → offset < 2 ^ 63
    → (offset ≤ align offset) × (align offset < offset + 16) × (align offset % 16 ≡ 0)
unfolding align
align_lem offset h =
    let mask : bit_and (u64 (offset + 16 - 1)) ((2 ^ 60 - 1) * 2 ^ 4)
        ≡ u64 (offset + 16 - 1) / 2 ^ 4 % 2 ^ 60 * 2 ^ 4 =
      bit_and_high 4 (u64 (offset + 16 - 1)) (2 ^ 60 - 1)
      ∙ ap (λ (t : ℕ). t * 2 ^ 4) (bit_and_mask 60 (u64 (offset + 16 - 1) / 2 ^ 4)) in
    omega (arith, mask)

-- The buffer after the code is placed.
abbrev pub placed : CodeBuffer → List ℕ → CodeBuffer
placed b code =
    let buffer = b.executable_buffer in
    record b {
      executable_buffer = record buffer {
        memory =
            overwrite buffer.memory (align b.next_free_offset) (length code) (λ k. get_or code k 0);
      };
      next_free_offset = align b.next_free_offset + length code;
    }

module _ (b : CodeBuffer) (code : List ℕ) (free : b.next_free_offset ≤ b.executable_buffer.size)
    (small : b.executable_buffer.size < 2 ^ 32) (short : length code < 2 ^ 63) where
  pub allocate_fits :
      align b.next_free_offset + length code ≤ b.executable_buffer.size
      → allocate_executable_memory b code ≡ ok (align b.next_free_offset, placed b code)
  unfolding allocate_executable_memory write
  allocate_fits fits = ground (arith, align_lem b.next_free_offset)

  pub allocate_full :
      b.executable_buffer.size < align b.next_free_offset + length code
      → allocate_executable_memory b code ≡ fatal out_of_executable_memory
  unfolding allocate_executable_memory write
  allocate_full full = ground (arith, align_lem b.next_free_offset)
