-- ===== src/Jit/CodeBuffer/Laws.antt =====
-- The code buffer (src/vm/jit/CodeBuffer.cpp) as a map from guest addresses to code that stays
-- where it is.
use riscv64_emulator.Prelude.{
  ℕ, ◌+◌, ◌-◌, ◌/◌, ◌%◌, ◌^◌, ◌≤◌, ◌<◌, ◌≡◌, ◌≢◌, inl, ap, arith, List, length, get_or, ◌==◌,
  if◌then◌else◌, bit_and, some, none,
}
use riscv64_emulator.Prelude.Result.{ok, fatal, out_of_executable_memory}
use riscv64_emulator.Memory.Bytes.{overwrite_outside}
use riscv64_emulator.Jit.CodeBuffer.{CodeBuffer, create, align, get, insert_new, insert}
use riscv64_emulator.Jit.CodeBuffer.Alignment.{align_lem, placed, allocate_fits, allocate_full}

pub record IsValid (b : CodeBuffer) : Type 0 where
  pub starts : 16 ≤ b.next_free_offset
  pub free : b.next_free_offset ≤ b.executable_buffer.size
  pub small : b.executable_buffer.size < 2 ^ 32

pub create-IsValid : (size limit : ℕ) → 16 ≤ size → size < 2 ^ 32 → IsValid (create size limit)
unfolding create
create-IsValid size limit lo hi = omega arith

-- The code of the guest address is at the offset.
pub record Holds (b : CodeBuffer) (address offset : ℕ) (code : List ℕ) : Type 0 where
  pub aligned : bit_and address 3 ≡ 0
  pub inside : address / 4 < b.max_blocks
  pub entry : b.block_to_offset (address / 4) ≡ offset
  pub starts : 16 ≤ offset
  pub ends : offset + length code ≤ b.next_free_offset
  pub bytes : (i : ℕ) → i < length code → b.executable_buffer.memory (offset + i) ≡ get_or code i 0

pub get-Holds :
    (b : CodeBuffer) (address offset : ℕ) (code : List ℕ)
    → Holds b address offset code
    → get b address ≡ ok (some offset)
unfolding get
get-Holds b address offset code h = ground (arith, h.aligned, h.inside, h.entry, h.starts)

module _ (b : CodeBuffer) (code : List ℕ) (v : IsValid b) (short : length code < 2 ^ 63) where
  pub start_range :
      (b.next_free_offset ≤ align b.next_free_offset)
      × (align b.next_free_offset < b.next_free_offset + 16)
      × (align b.next_free_offset % 16 ≡ 0)
  start_range = align_lem b.next_free_offset (omega (arith, v.free, v.small))

  pub placed_bytes :
      (i : ℕ)
      → i < length code
      → (placed b code).executable_buffer.memory (align b.next_free_offset + i) ≡ get_or code i 0
  placed_bytes i lt =
      let e : align b.next_free_offset + i - align b.next_free_offset ≡ i = omega arith in
      ground (arith, ap (λ (k : ℕ). get_or code k 0) e)

  -- Code that is there stays there, whatever the table says of other blocks.
  pub placed_below :
      (j : ℕ)
      → j < b.next_free_offset
      → (placed b code).executable_buffer.memory j ≡ b.executable_buffer.memory j
  placed_below j lt =
      overwrite_outside b.executable_buffer.memory (align b.next_free_offset) (length code)
        (λ k. get_or code k 0) j (inl (omega (arith, start_range)))

  pub placed-IsValid :
      align b.next_free_offset + length code ≤ b.executable_buffer.size → IsValid (placed b code)
  placed-IsValid fits = record {
    starts = omega (arith, start_range, v.starts);
    free = fits;
    small = v.small;
  }

  -- The buffer after new code for a guest address.
  abbrev pub with_block : ℕ → CodeBuffer
  with_block address =
      let p = placed b code in
      record p {
        block_to_offset =
            λ k. if k == address / 4 then align b.next_free_offset else b.block_to_offset k;
      }

  pub insert_found :
      (address : ℕ)
      → bit_and address 3 ≡ 0
      → address / 4 < b.max_blocks
      → b.block_to_offset (address / 4) ≢ 0
      → insert b address code ≡ ok (b.block_to_offset (address / 4), b)
  unfolding insert get insert_new
  insert_found address aligned inside present = ground arith

  pub insert_absent :
      (address : ℕ)
      → bit_and address 3 ≡ 0
      → address / 4 < b.max_blocks
      → b.block_to_offset (address / 4) ≡ 0
      → insert b address code ≡ insert_new b address code none
  unfolding insert get
  insert_absent address aligned inside absent = ground arith

  pub insert_fits :
      (address : ℕ)
      → align b.next_free_offset + length code ≤ b.executable_buffer.size
      → insert_new b address code none ≡ ok (align b.next_free_offset, with_block address)
  unfolding insert_new
  insert_fits address fits = rw (allocate_fits b code v.free v.small short fits)

  pub insert_full :
      (address : ℕ)
      → b.executable_buffer.size < align b.next_free_offset + length code
      → insert_new b address code none ≡ fatal out_of_executable_memory
  unfolding insert_new
  insert_full address full = rw (allocate_full b code v.free v.small short full)
