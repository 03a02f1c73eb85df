-- ===== src/ElfLoader/Loaded.antt =====
-- A loaded image (src/ElfLoader.cpp): the segments are in the memory.
use riscv64_emulator.Prelude.{
  ℕ, zero, suc, ◌+◌, ◌*◌, ◌/◌, bit_and, ◌%◌, ◌^◌, ◌≤◌, ◌<◌, ◌≡◌, ◌⊎◌, inl, refl, ap, ◌∙◌, subst,
  arith, List, [], ◌∷◌, length, ◌==◌, if◌then◌else◌, get_or, some, All,
}
use native.Mathlib.Decide.{ℕ_discrete}
use riscv64_emulator.Prelude.Bits.{bit_and_mask, bit_and_high}
use riscv64_emulator.Prelude.Lists.{take, drop}
use riscv64_emulator.Prelude.Result.{ok, >>=-eq-ok}
use riscv64_emulator.Memory.{Memory, permissions_base}
use riscv64_emulator.Memory.Accepts.{IsValid}
use riscv64_emulator.ElfLoader.{
  View, Segment, Progress, Header, Image, read_header, permissions_of, load_entry, load_entries,
  load,
}
use riscv64_emulator.ElfLoader.Entries.{data_size, data_of, LoadsSegment, load_segment-LoadsSegment}
use riscv64_emulator.ElfLoader.Contents.{
  entry, Keeps, load_entry-entry, load_entry-Keeps, load_entries-Keeps, length-data_of,
}

get_or-take : (xs : List ℕ) (n i : ℕ) → i < n → get_or (take n xs) i 0 ≡ get_or xs i 0
get_or-take [] n i h = refl
get_or-take (x ∷ xs) zero i h = absurd (omega arith)
get_or-take (x ∷ xs) (suc n) zero h = refl
get_or-take (x ∷ xs) (suc n) (suc i) h = get_or-take xs n i (omega arith)

get_or-data :
    (xs : List ℕ) (k n i : ℕ) → i < n → get_or (take n (drop k xs)) i 0 ≡ get_or xs (k + i) 0
get_or-data [] k n i h = refl
get_or-data (x ∷ xs) zero n i h =
    get_or-take (x ∷ xs) n i h ∙ ap (λ (j : ℕ). get_or (x ∷ xs) j 0) (omega arith)
get_or-data (x ∷ xs) (suc k) n i h =
    let e : suc k + i ≡ suc (k + i) = omega arith in rw e (get_or-data xs k n i h)

-- No later header, below `count`, describes a segment with data, or with permissions, at byte j.
abbrev pub NotReplaced : View → ℕ → ℕ → ℕ → ℕ → Type 0
NotReplaced elf ph_offset k count j =
    (later : ℕ) (s : Segment)
    → k < later
    → later < count
    → entry elf ph_offset later ≡ ok (some s)
    → (j < s.memory_address) ⊎ (s.memory_address + data_size s ≤ j)

abbrev pub NotReprotected : View → ℕ → ℕ → ℕ → ℕ → Type 0
NotReprotected elf ph_offset k count j =
    (later : ℕ) (s : Segment)
    → k < later
    → later < count
    → entry elf ph_offset later ≡ ok (some s)
    → (j < s.memory_address) ⊎ (s.memory_address + s.memory_size ≤ j)

-- The permissions of a segment, from the bits of its flags: bit 0 is PF_X and bit 1 is PF_W. The
-- bits of a permission are 1 to read, 2 to write and 4 to execute; loaded memory can always be read.
abbrev pub segment_permissions : ℕ → ℕ
segment_permissions flags =
    1 + (if flags / 2 % 2 == 1 then 2 else 0) + (if flags % 2 == 1 then 4 else 0)

permissions_of-segment : (flags : ℕ) → permissions_of flags % 2 ^ 8 ≡ segment_permissions flags
unfolding permissions_of
permissions_of-segment flags =
    let high : bit_and flags 2 ≡ bit_and (flags / 2) 1 * 2 = bit_and_high 1 flags 1 in
    ground (arith, bit_and_mask 1 flags, high, bit_and_mask 1 (flags / 2))

-- Segment `s` of header `k` is in the memory.
pub record IsLoaded (elf : View) (ph_offset k count : ℕ) (s : Segment) (m : Memory) : Type 0 where
  pub file_inside : s.file_offset + data_size s ≤ length elf
  pub data_inside : 0 < data_size s → s.memory_address + data_size s ≤ m.size
  pub inside : 0 < s.memory_size → s.memory_address + s.memory_size ≤ m.size
  pub contents :
      (n : ℕ)
      → n < data_size s
      → NotReplaced elf ph_offset k count (s.memory_address + n)
      → m.raw (s.memory_address + n) ≡ get_or elf (s.file_offset + n) 0
  pub permissions :
      (n : ℕ)
      → n < s.memory_size
      → NotReprotected elf ph_offset k count (s.memory_address + n)
      → m.raw (permissions_base m + s.memory_address + n) ≡ segment_permissions s.flags

module _ (elf : View) (ph_offset : ℕ) (k : ℕ) (s : Segment) where
  first-IsLoaded :
      (left : ℕ) (p q p' : Progress)
      → IsValid p.memory
      → LoadsSegment elf s p q
      → Keeps elf ph_offset (k + 1) left q.memory p'.memory
      → IsLoaded elf ph_offset k (k + suc left) s p'.memory
  first-IsLoaded left p q p' v loads kept = record {
    file_inside = loads.file_inside;
    data_inside = λ filled. omega (arith, loads.copies.inside (rw len filled), len, sizes);
    inside = λ filled.
        omega (arith, loads.protects.inside filled, kept.same_size, loads.protects.same_size);
    contents = λ n h later.
        let stays : s.memory_address + n < q.memory.size =
          omega (arith, loads.copies.inside (omega (arith, len)), len, sizes, kept.same_size) in
        kept.contents (s.memory_address + n) stays
          (λ i t lo hi e. later i t (omega arith) (omega arith) e)
        ∙ loads.protects.others (s.memory_address + n) (
            inl (
              omega (
                arith,
                v.fits,
                loads.copies.same_blocks,
                loads.copies.inside (omega (arith, len)),
                len,
              )))
        ∙ loads.copies.contents n (omega (arith, len))
        ∙ get_or-data elf s.file_offset (data_size s) n h;
    permissions = λ n h later.
        let to_q : permissions_base p'.memory + s.memory_address + n
            ≡ permissions_base q.memory + (s.memory_address + n) =
          omega (arith, kept.same_blocks) in
        let to_middle : permissions_base q.memory + (s.memory_address + n)
            ≡ permissions_base loads.middle + s.memory_address + n =
          omega (arith, loads.protects.same_blocks) in
        ap (λ (j : ℕ). p'.memory.raw j) to_q
        ∙ kept.permissions (s.memory_address + n)
            (omega (arith, loads.protects.inside (omega arith), loads.protects.same_size))
            (λ i t lo hi e. later i t (omega arith) (omega arith) e)
        ∙ ap (λ (j : ℕ). q.memory.raw j) to_middle
        ∙ loads.protects.permissions n h
        ∙ permissions_of-segment s.flags;
  }
    where
      len : length (data_of elf s) ≡ data_size s
      len = length-data_of elf s loads.file_inside

      sizes : p'.memory.size ≡ p.memory.size
      sizes = kept.same_size ∙ loads.protects.same_size ∙ loads.copies.same_size

module _ (elf : View) (small : All (λ b. b < 256) elf) (ph_offset : ℕ) (k : ℕ) (s : Segment)
    (found : entry elf ph_offset k ≡ ok (some s)) where
  -- The round of header `k`, and those behind it.
  from_round :
      (left : ℕ) (p q p' : Progress)
      → IsValid p.memory
      → load_entry elf ph_offset k p ≡ ok q
      → load_entries elf ph_offset left (k + 1) q ≡ ok p'
      → IsLoaded elf ph_offset k (k + suc left) s p'.memory
  from_round left p q p' v first rest =
      let loads =
        load_segment-LoadsSegment elf s p q v small (rw found at (rw load_entry-entry at first)) in
      first-IsLoaded elf ph_offset k s left p q p' v loads
        (load_entries-Keeps elf small ph_offset left (k + 1) q p' loads.protects.valid rest)

  load_entries-IsLoaded :
      (left i count : ℕ) (p p' : Progress)
      → IsValid p.memory
      → i + left ≡ count
      → i ≤ k
      → k < count
      → load_entries elf ph_offset left i p ≡ ok p'
      → IsLoaded elf ph_offset k count s p'.memory
  unfolding load_entries
  load_entries-IsLoaded zero i count p p' v total lo hi e = absurd (omega arith)
  load_entries-IsLoaded (suc left) i count p p' v total lo hi e =
      let (q, first, rest) = >>=-eq-ok (load_entry elf ph_offset i p) _ e in
      elim (ℕ_discrete i k) [
        | yes here ↦
            let all : k + suc left ≡ count = omega arith in
            subst (λ c. IsLoaded elf ph_offset k c s p'.memory) all
              (from_round left p q p' v (rw here at first) (rw here at rest))
        | no later ↦
            load_entries-IsLoaded left (i + 1) count q p'
              (load_entry-Keeps elf small ph_offset i p q v first).valid (omega arith) (omega arith)
              hi rest
      ]

-- After a load that succeeds, the segment of every loadable program header lies in the file and
-- in the memory; a byte of its data that no later segment's data covers is the byte of the file,
-- and a byte of its range that no later segment's range covers can be read, and
-- written and executed just if bits 1 and 0 of the segment's flags say so.
pub load-IsLoaded :
    (elf : View) (m m' : Memory) (image : Image) (h : Header) (k : ℕ) (s : Segment)
    → IsValid m
    → All (λ b. b < 256) elf
    → load elf m ≡ ok (image, m')
    → read_header elf ≡ ok h
    → k < h.phe_count
    → entry elf h.ph_offset k ≡ ok (some s)
    → IsLoaded elf h.ph_offset k h.phe_count s m'
unfolding load
load-IsLoaded elf m m' image h k s v small e header lt found =
    let (p, loaded, r) =
      >>=-eq-ok
        (load_entries elf h.ph_offset h.phe_count 0
          (record { memory = m; base_address = 0; end_address = 0 }))
        _ (rw header at e) in
    let same : p.memory ≡ m' = cc in
    subst (IsLoaded elf h.ph_offset k h.phe_count s) same (
      load_entries-IsLoaded elf small h.ph_offset k s found h.phe_count 0 h.phe_count
        (record { memory = m; base_address = 0; end_address = 0 }) p v (omega arith) (omega arith)
        lt loaded)

-- A load that succeeds keeps the size of the memory and its validity, and changes no byte, and no
-- permissions, apart from the data, and the ranges, of the loadable segments.
pub load-Keeps :
    (elf : View) (m m' : Memory) (image : Image) (h : Header)
    → IsValid m
    → All (λ b. b < 256) elf
    → load elf m ≡ ok (image, m')
    → read_header elf ≡ ok h
    → Keeps elf h.ph_offset 0 h.phe_count m m'
unfolding load
load-Keeps elf m m' image h v small e header =
    let (p, loaded, r) =
      >>=-eq-ok
        (load_entries elf h.ph_offset h.phe_count 0
          (record { memory = m; base_address = 0; end_address = 0 }))
        _ (rw header at e) in
    let same : p.memory ≡ m' = cc in
    subst (Keeps elf h.ph_offset 0 h.phe_count m) same (
      load_entries-Keeps elf small h.ph_offset h.phe_count 0
        (record { memory = m; base_address = 0; end_address = 0 }) p v loaded)
