-- ===== src/ElfLoader.antt =====
-- src/ElfLoader.cpp: an ELF image is copied into the guest memory.
pub mod Headers
pub mod Segments
pub mod Entries
pub mod Contents
pub mod Loaded
pub mod Extent
use riscv64_emulator.Prelude.{
  ℕ, zero, suc, ◌+◌, ◌-◌, ◌*◌, ◌^◌, Bool, true, false, not, List, [], ◌∷◌, length, Option, none,
  some, ltb, leb, ◌==◌, if◌then◌else◌, bit_and, bit_or,
}
use riscv64_emulator.Prelude.Lists.{take, drop}
use riscv64_emulator.Prelude.Word.{u32, u64}
use riscv64_emulator.Prelude.Result.{
  Result, ok, undefined_behaviour, ◌>>=◌, ◌>>◌, verify, reading_out_of_bounds, invalid_elf_magic,
  not_64_bit, not_little_endian, not_executable_file, unexpected_phe_size, no_entrypoint,
  image_base_zero, image_base_not_aligned, writing_segment_failed, setting_permissions_failed,
}
use riscv64_emulator.Memory.{
  Memory, Flags, flag_read, flag_write, flag_execute, from_bytes, write_unchecked, set_permissions,
}

-- class BinaryFileView holds a span of bytes.
abbrev pub View : Type 0
View = List ℕ

-- The bytes from `offset` on. The language leaves it undefined to leave the span.
abbrev pub subspan : View → ℕ → ℕ → Result View
subspan data_ offset n =
    if leb (offset + n) (length data_) then ok (take n (drop offset data_)) else undefined_behaviour

-- `BinaryFileView::slice`; the end is computed in 64 bits.
unfoldable pub slice : View → ℕ → ℕ → Result View
slice view offset n = do
  verify (leb (u64 (offset + n)) (length view)) reading_out_of_bounds
  subspan view offset n

-- `BinaryFileView::read<T>` with sizeof(T) = n.
unfoldable pub read : View → ℕ → ℕ → Result ℕ
read view offset n = do
  verify (leb (u64 (offset + n)) (length view)) reading_out_of_bounds
  bytes ← subspan view offset n
  ok (from_bytes bytes)

pub record Image : Type 0 where
  pub base : ℕ
  pub size : ℕ
  pub entrypoint : ℕ

-- The fields of the file header that `load` uses, all checks passed.
pub record Header : Type 0 where
  pub entrypoint : ℕ
  pub ph_offset : ℕ
  pub phe_count : ℕ

unfoldable pub read_header : View → Result Header
read_header elf = do
  magic ← read elf 0x00 4
  verify (magic == 0x464c457f) invalid_elf_magic
  bits ← read elf 0x04 1
  verify (bits == 2) not_64_bit
  order ← read elf 0x05 1
  verify (order == 1) not_little_endian
  kind ← read elf 0x10 2
  verify (kind == 2) not_executable_file
  entrypoint ← read elf 0x18 8
  ph_offset ← read elf 0x20 8
  phe_size ← read elf 0x36 2
  phe_count ← read elf 0x38 2
  verify (phe_size == 0x38) unexpected_phe_size
  verify (not (entrypoint == 0)) no_entrypoint
  ok (record { entrypoint = entrypoint; ph_offset = ph_offset; phe_count = phe_count })

-- The memory and the variables that the loop changes.
pub record Progress : Type 0 where
  pub memory : Memory
  pub base_address : ℕ
  pub end_address : ℕ

-- The fields of a program header.
pub record Segment : Type 0 where
  pub flags : ℕ
  pub file_offset : ℕ
  pub memory_address : ℕ
  pub file_size : ℕ
  pub memory_size : ℕ

unfoldable pub read_segment : View → Result Segment
read_segment ph = do
  flags ← read ph 0x04 4
  file_offset ← read ph 0x08 8
  memory_address ← read ph 0x10 8
  file_size ← read ph 0x20 8
  memory_size ← read ph 0x28 8
  ok (record {
    flags = flags;
    file_offset = file_offset;
    memory_address = memory_address;
    file_size = file_size;
    memory_size = memory_size;
  })

-- `if (base_address == 0) …`
unfoldable pub choose_base : ℕ → ℕ → Result ℕ
choose_base base_address memory_address =
    if base_address == 0
    then (do
      verify (not (memory_address == 0)) image_base_zero
      verify (bit_and memory_address 0xfff == 0) image_base_not_aligned
      ok memory_address)
    else ok base_address

abbrev pub min_of : ℕ → ℕ → ℕ
min_of a b = if ltb b a then b else a

abbrev pub max_of : ℕ → ℕ → ℕ
max_of a b = if ltb a b then b else a

unfoldable pub permissions_of : ℕ → Flags
permissions_of flags =
    let p = if not (bit_and flags 1 == 0) then bit_or flag_read flag_execute else flag_read in
    if not (bit_and flags 2 == 0) then bit_or p flag_write else p

-- `if (segment_data_size > 0) …`
unfoldable pub copy_segment : Memory → ℕ → View → Result Memory
copy_segment m address segment_data =
    if ltb 0 (length segment_data)
    then (do
      (success, m') ← write_unchecked m address segment_data
      verify success writing_segment_failed
      ok m')
    else ok m

-- `if (memory_size > 0) …`
unfoldable pub protect_segment : Memory → Segment → Result Memory
protect_segment m s =
    if ltb 0 s.memory_size
    then (do
      (success, m') ← set_permissions m s.memory_address s.memory_size (permissions_of s.flags)
      verify success setting_permissions_failed
      ok m')
    else ok m

unfoldable pub load_segment : View → Segment → Progress → Result Progress
load_segment elf s p = do
  base ← choose_base p.base_address s.memory_address
  segment_data ← slice elf s.file_offset (min_of s.file_size s.memory_size)
  written ← copy_segment p.memory s.memory_address segment_data
  protected ← protect_segment written s
  ok (record {
    memory = protected;
    base_address = base;
    end_address = max_of p.end_address (u64 (s.memory_address + s.memory_size));
  })

-- The body of the loop: program headers that are not loadable are skipped.
unfoldable pub load_entry : View → ℕ → ℕ → Progress → Result Progress
load_entry elf ph_offset i p = do
  ph ← slice elf (u64 (ph_offset + u32 (i * 0x38))) 0x38
  type ← read ph 0x00 4
  if type == 1 then (do s ← read_segment ph; load_segment elf s p) else ok p

-- The loop from program header `i` on, with `left` headers to go.
unfoldable pub load_entries : View → ℕ → ℕ → ℕ → Progress → Result Progress
load_entries elf ph_offset zero i p = ok p
load_entries elf ph_offset (suc left) i p = do
  p' ← load_entry elf ph_offset i p
  load_entries elf ph_offset left (i + 1) p'

unfoldable pub image_of : ℕ → Progress → Image
image_of entrypoint p =
    let size = u64 (p.end_address + 2 ^ 64 - p.base_address) in
    record {
      base = p.base_address;
      size = bit_and (u64 (size + 0xfff)) (2 ^ 64 - 2 ^ 12);
      entrypoint = entrypoint;
    }

unfoldable pub load : View → Memory → Result (Image × Memory)
load binary m = do
  h ← read_header binary
  p ←
      load_entries binary h.ph_offset h.phe_count 0
        (record { memory = m; base_address = 0; end_address = 0 })
  ok (image_of h.entrypoint p, p.memory)
