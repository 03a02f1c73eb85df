-- ===== src/Jit/CodeBuffer/Insert.antt =====
-- `insert` of src/vm/jit/CodeBuffer.cpp, on every branch.
use riscv64_emulator.Prelude.{
  ℕ, ◌+◌, ◌/◌, ◌%◌, ◌^◌, ◌≤◌, ◌<◌, ◌≡◌, ◌≢◌, ◌∙◌, arith, List, length, bit_and,
}
use native.Mathlib.Decide.{ℕ_discrete}
use riscv64_emulator.Prelude.Result.{ok, fatal, out_of_executable_memory}
use riscv64_emulator.Jit.CodeBuffer.{CodeBuffer, align, insert}
use riscv64_emulator.Jit.CodeBuffer.Laws.{
  IsValid, Holds, start_range, placed_bytes, placed_below, with_block, insert_found, insert_absent,
  insert_fits, insert_full,
}

module _ (b : CodeBuffer) (code : List ℕ) (v : IsValid b) (short : length code < 2 ^ 63)
    (address : ℕ) where
  with_block-Holds :
      bit_and address 3 ≡ 0
      → address / 4 < b.max_blocks
      → Holds (with_block b code v short address) address (align b.next_free_offset) code
  with_block-Holds aligned inside = record {
    aligned = aligned;
    inside = inside;
    entry = ground arith;
    starts = omega (arith, start_range b code v short, v.starts);
    ends = omega arith;
    bytes = placed_bytes b code v short;
  }

  -- An address with code is another block than one without.
  keeps-Holds :
      (a o : ℕ) (c : List ℕ)
      → b.block_to_offset (address / 4) ≡ 0
      → Holds b a o c
      → Holds (with_block b code v short address) a o c
  keeps-Holds a o c absent h = record {
    aligned = h.aligned;
    inside = h.inside;
    entry = elim (ℕ_discrete (a / 4) (address / 4)) [
      | yes same ↦
          let e : b.block_to_offset (a / 4) ≡ 0 = rw same absent in
          absurd (omega (arith, h.entry, h.starts, e))
      | no other ↦ ground (arith, h.entry)
    ];
    starts = h.starts;
    ends = omega (arith, h.ends, start_range b code v short);
    bytes = λ i lt. placed_below b code v short (o + i) (omega (arith, h.ends)) ∙ h.bytes i lt;
  }

-- For an aligned address whose block is in the table, `insert` returns the code that the block
-- has already and changes nothing; where the block has none, it places the code at a multiple of
-- 16 behind all other code and enters it, and every address that had code has it still, at the
-- same offset and with the same bytes; where the code does not fit the buffer, it fails.
pub insert-Holds :
    (b : CodeBuffer) (address : ℕ) (code : List ℕ)
    → IsValid b
    → length code < 2 ^ 63
    → bit_and address 3 ≡ 0
    → address / 4 < b.max_blocks
    → (b.block_to_offset (address / 4) ≢ 0
        → insert b address code ≡ ok (b.block_to_offset (address / 4), b))
      × (b.block_to_offset (address / 4) ≡ 0
          → align b.next_free_offset + length code ≤ b.executable_buffer.size
          → (b' : CodeBuffer) × (insert b address code ≡ ok (align b.next_free_offset, b'))
            × IsValid b'
            × (align b.next_free_offset % 16 ≡ 0)
            × Holds b' address (align b.next_free_offset) code
            × ((a o : ℕ) (c : List ℕ)
                → Holds b a o c
                → Holds b' a o c × (o + length c ≤ align b.next_free_offset)))
      × (b.block_to_offset (address / 4) ≡ 0
          → b.executable_buffer.size < align b.next_free_offset + length code
          → insert b address code ≡ fatal out_of_executable_memory)
insert-Holds b address code v short aligned inside = (
  insert_found b code v short address aligned inside,
  λ absent fits. (
    with_block b code v short address,
    insert_absent b code v short address aligned inside absent
        ∙ insert_fits b code v short address fits,
    record {
      starts = omega (arith, start_range b code v short, v.starts);
      free = fits;
      small = v.small;
    },
    (start_range b code v short).2,
    with_block-Holds b code v short address aligned inside,
    λ a o c h. (
      keeps-Holds b code v short address a o c absent h,
      omega (arith, h.ends, start_range b code v short),
    ),
  ),
  λ absent full.
      insert_absent b code v short address aligned inside absent
      ∙ insert_full b code v short address full,
)
