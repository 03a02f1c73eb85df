-- ===== src/ElfLoader/Entries.antt =====
-- The loop over the program headers (src/ElfLoader.cpp): what each round does.
use riscv64_emulator.Prelude.{
  ℕ, zero, suc, ◌+◌, ◌≤◌, ◌<◌, ◌≡◌, ◌∙◌, arith, List, [], ◌∷◌, length, leb, All,
}
use riscv64_emulator.Prelude.Lists.{take, drop}
use riscv64_emulator.Prelude.Word.{u64}
use riscv64_emulator.Prelude.Result.{ok, >>=-eq-ok, verify-eq-ok, reading_out_of_bounds}
use riscv64_emulator.Memory.{Memory}
use riscv64_emulator.Memory.Accepts.{IsValid}
use riscv64_emulator.ElfLoader.{
  View, Segment, Progress, slice, subspan, choose_base, min_of, max_of, permissions_of,
  copy_segment, protect_segment, load_segment,
}
use riscv64_emulator.ElfLoader.Segments.{
  Copies, Protects, copy_segment-Copies, protect_segment-Protects,
}

-- The bytes of the file that a segment is filled with, and their number.
abbrev pub data_size : Segment → ℕ
data_size s = min_of s.file_size s.memory_size

abbrev pub data_of : View → Segment → List ℕ
data_of elf s = take (data_size s) (drop s.file_offset elf)

slice-eq-ok :
    (view data_ : View) (offset n : ℕ)
    → slice view offset n ≡ ok data_
    → (offset + n ≤ length view) × (data_ ≡ take n (drop offset view))
unfolding slice
slice-eq-ok view data_ offset n e =
    let inner =
      (verify-eq-ok (leb (u64 (offset + n)) (length view)) reading_out_of_bounds
        (subspan view offset n) e).1 in
    (ground (arith, inner), ground (arith, inner))

take-bytes : (xs : List ℕ) (n : ℕ) → All (λ b. b < 256) xs → All (λ b. b < 256) (take n xs)
take-bytes [] n h = h
take-bytes (x ∷ xs) zero h = tt
take-bytes (x ∷ xs) (suc n) h = (h.0, take-bytes xs n h.1)

take-drop-bytes :
    (xs : List ℕ) (k n : ℕ) → All (λ b. b < 256) xs → All (λ b. b < 256) (take n (drop k xs))
take-drop-bytes [] k n h = h
take-drop-bytes (x ∷ xs) zero n h = take-bytes (x ∷ xs) n h
take-drop-bytes (x ∷ xs) (suc k) n h = take-drop-bytes xs k n h.1

-- A segment was loaded: its data copied, its permissions set, the base chosen, the end moved.
pub record LoadsSegment (elf : View) (s : Segment) (p p' : Progress) : Type 0 where
  pub file_inside : s.file_offset + data_size s ≤ length elf
  pub middle : Memory
  pub copies : Copies p.memory middle s.memory_address (data_of elf s)
  pub protects : Protects middle p'.memory s.memory_address s.memory_size (permissions_of s.flags)
  pub base_chosen : choose_base p.base_address s.memory_address ≡ ok p'.base_address
  pub end_moved : p'.end_address ≡ max_of p.end_address (u64 (s.memory_address + s.memory_size))

pub load_segment-LoadsSegment :
    (elf : View) (s : Segment) (p p' : Progress)
    → IsValid p.memory
    → All (λ b. b < 256) elf
    → load_segment elf s p ≡ ok p'
    → LoadsSegment elf s p p'
unfolding load_segment
load_segment-LoadsSegment elf s p p' v small e =
    let (base, e0, r0) = >>=-eq-ok (choose_base p.base_address s.memory_address) _ e in
    let (bytes, e1, r1) =
      >>=-eq-ok (slice elf s.file_offset (min_of s.file_size s.memory_size)) _ r0 in
    let (written, e2, r2) = >>=-eq-ok (copy_segment p.memory s.memory_address bytes) _ r1 in
    let (protected, e3, r3) = >>=-eq-ok (protect_segment written s) _ r2 in
    let sliced = slice-eq-ok elf bytes s.file_offset (data_size s) e1 in
    let copied =
      copy_segment-Copies p.memory written s.memory_address (data_of elf s) v
        (take-drop-bytes elf s.file_offset (data_size s) small) (rw sliced.1 at e2) in
    let same : protected ≡ p'.memory = cc in
    record {
      file_inside = sliced.0;
      middle = written;
      copies = copied;
      protects = rw (← same) (protect_segment-Protects written protected s copied.valid e3);
      base_chosen = e0 ∙ cc;
      end_moved = cc;
    }
