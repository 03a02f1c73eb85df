-- ===== src/ElfLoader/Extent.antt =====
-- The image that `ElfLoader::load` reports (src/ElfLoader.cpp): its base, size and entrypoint.
use riscv64_emulator.Prelude.{
  ℕ, zero, suc, ◌+◌, ◌-◌, ◌*◌, ◌/◌, ◌%◌, ◌^◌, ◌≤◌, ◌<◌, ◌≡◌, ◌≢◌, ◌⊎◌, refl, ap, ◌∙◌, subst, arith,
  some, none, Option, bit_and, All,
}
use native.Mathlib.Decide.{ℕ_discrete}
use riscv64_emulator.Prelude.Bits.{bit_and_mask, bit_and_high}
use riscv64_emulator.Prelude.Word.{u64}
use riscv64_emulator.Prelude.Result.{Result, ok, >>=-eq-ok}
use riscv64_emulator.Memory.{Memory}
use riscv64_emulator.Memory.Accepts.{IsValid}
use riscv64_emulator.ElfLoader.{
  View, Segment, Progress, Header, Image, read_header, choose_base, max_of, load_entry,
  load_entries, load, image_of,
}
use riscv64_emulator.ElfLoader.Entries.{LoadsSegment, load_segment-LoadsSegment}
use riscv64_emulator.ElfLoader.Contents.{entry, round, load_entry-entry}

choose_base-eq-ok :
    (base address chosen : ℕ)
    → choose_base base address ≡ ok chosen
    → ((base ≡ 0) × (chosen ≡ address) × (address ≢ 0) × (address % 4096 ≡ 0))
      ⊎ ((base ≢ 0) × (chosen ≡ base))
unfolding choose_base
choose_base-eq-ok base address chosen e = ground (arith, bit_and_mask 12 address)

-- `(size + 0xfff) & ~0xfff` rounds up to a multiple of 4096.
image_of-size :
    (entrypoint : ℕ) (p : Progress)
    → p.base_address ≤ p.end_address
    → p.end_address < 2 ^ 63
    → ((image_of entrypoint p).size % 4096 ≡ 0)
      × (p.end_address ≤ p.base_address + (image_of entrypoint p).size)
unfolding image_of
image_of-size entrypoint p h small =
    let total = u64 (u64 (p.end_address + 2 ^ 64 - p.base_address) + 0xfff) in
    let mask : bit_and total ((2 ^ 52 - 1) * 2 ^ 12) ≡ total / 2 ^ 12 % 2 ^ 52 * 2 ^ 12 =
      bit_and_high 12 total (2 ^ 52 - 1)
      ∙ ap (λ (t : ℕ). t * 2 ^ 12) (bit_and_mask 52 (total / 2 ^ 12)) in
    omega (arith, mask)

read_header-entrypoint : (elf : View) (h : Header) → read_header elf ≡ ok h → h.entrypoint ≢ 0
unfolding read_header
read_header-entrypoint elf h e = ground arith

-- The variables of the loop, for a memory of the given size.
record IsPlaced (size : ℕ) (p : Progress) : Type 0 where
  valid : IsValid p.memory
  same_size : p.memory.size ≡ size
  base_le_end : p.base_address ≤ p.end_address
  end_le_size : p.end_address ≤ size
  base_aligned : p.base_address % 4096 ≡ 0

-- Every loadable segment of the image takes up memory.
abbrev pub AllFilled : View → ℕ → ℕ → Type 0
AllFilled elf ph_offset count =
    (k : ℕ) (s : Segment) → k < count → entry elf ph_offset k ≡ ok (some s) → 0 < s.memory_size

-- The end of segment `s` was noted, and the base is set.
abbrev pub IsCovered : Segment → ℕ → ℕ → Type 0
IsCovered s base end = (s.memory_address + s.memory_size ≤ end) × (base ≢ 0)

module _ (size : ℕ) (elf : View) (small : All (λ b. b < 256) elf) (p p' : Progress) (s : Segment)
    (placed : IsPlaced size p) (filled : 0 < s.memory_size) (loads : LoadsSegment elf s p p') where
  segment_fits : s.memory_address + s.memory_size ≤ size
  segment_fits =
      omega (arith, loads.protects.inside filled, loads.copies.same_size, placed.same_size)

  size_lt : size < 2 ^ 63
  size_lt = omega (arith, placed.valid.fits, placed.valid.host_size, placed.same_size)

  end_moved : p'.end_address ≡ max_of p.end_address (s.memory_address + s.memory_size)
  end_moved =
      let exact : u64 (s.memory_address + s.memory_size) ≡ s.memory_address + s.memory_size =
        omega (arith, segment_fits, size_lt) in
      loads.end_moved ∙ ap (max_of p.end_address) exact

  segment-IsPlaced : IsPlaced size p'
  segment-IsPlaced = record {
    valid = loads.protects.valid;
    same_size = loads.protects.same_size ∙ loads.copies.same_size ∙ placed.same_size;
    base_le_end = ground (
      arith,
      end_moved,
      choose_base-eq-ok p.base_address s.memory_address p'.base_address loads.base_chosen,
      placed.base_le_end,
    );
    end_le_size = ground (arith, end_moved, segment_fits, placed.end_le_size);
    base_aligned = ground (
      arith,
      choose_base-eq-ok p.base_address s.memory_address p'.base_address loads.base_chosen,
      placed.base_aligned,
    );
  }

  segment-IsCovered :
      (p.end_address ≤ p'.end_address)
      × IsCovered s p'.base_address p'.end_address
      × (p.base_address ≢ 0 → p'.base_address ≡ p.base_address)
      × (p.base_address ≡ 0 → p'.base_address ≡ s.memory_address)
  segment-IsCovered = (
    ground (arith, end_moved),
    (
      ground (arith, end_moved),
      ground (
        arith,
        choose_base-eq-ok p.base_address s.memory_address p'.base_address loads.base_chosen,
      ),
    ),
    λ h. ground (
      arith,
      choose_base-eq-ok p.base_address s.memory_address p'.base_address loads.base_chosen,
    ),
    λ h. ground (
      arith,
      choose_base-eq-ok p.base_address s.memory_address p'.base_address loads.base_chosen,
    ),
  )

-- Header k describes the first loadable segment from header i on.
abbrev pub IsFirst : View → ℕ → ℕ → ℕ → Segment → Type 0
IsFirst elf ph_offset i k s =
    (entry elf ph_offset k ≡ ok (some s))
    × ((earlier : ℕ) → i ≤ earlier → earlier < k → entry elf ph_offset earlier ≡ ok none)

-- What rounds i, i + 1, … establish.
record Extends (size : ℕ) (elf : View) (ph_offset i left : ℕ) (p p' : Progress) : Type 0 where
  placed : IsPlaced size p'
  grows : p.end_address ≤ p'.end_address
  keeps_base : p.base_address ≢ 0 → p'.base_address ≡ p.base_address
  first :
      (k : ℕ) (s : Segment)
      → p.base_address ≡ 0
      → i ≤ k
      → k < i + left
      → IsFirst elf ph_offset i k s
      → p'.base_address ≡ s.memory_address
  covers :
      (k : ℕ) (s : Segment)
      → i ≤ k
      → k < i + left
      → entry elf ph_offset k ≡ ok (some s)
      → IsCovered s p'.base_address p'.end_address

module _ (size : ℕ) (elf : View) (small : All (λ b. b < 256) elf) (ph_offset count : ℕ)
    (all_filled : AllFilled elf ph_offset count) where
  round-Extends :
      (i : ℕ) (p p' : Progress) (o : Option Segment)
      → i < count
      → IsPlaced size p
      → entry elf ph_offset i ≡ ok o
      → round elf p o ≡ ok p'
      → Extends size elf ph_offset i 1 p p'
  round-Extends i p p' none lt placed e r =
      let same : p ≡ p' = cc in
      subst (Extends size elf ph_offset i 1 p) same (record {
        placed = placed;
        grows = omega arith;
        keeps_base = λ h. refl;
        first = λ k s zero_base lo hi f.
            let here : k ≡ i = omega arith in
            let found' : entry elf ph_offset i ≡ ok (some s) = rw here at f.0 in cc;
        covers = λ k s lo hi found.
            let here : k ≡ i = omega arith in
            let found' : entry elf ph_offset i ≡ ok (some s) = rw here at found in cc;
      })
  round-Extends i p p' (some s) lt placed e r =
      let loads = load_segment-LoadsSegment elf s p p' placed.valid small r in
      let covered = segment-IsCovered size elf small p p' s placed (all_filled i s lt e) loads in
      record {
        placed = segment-IsPlaced size elf small p p' s placed (all_filled i s lt e) loads;
        grows = covered.0;
        keeps_base = covered.2;
        first = λ k t zero_base lo hi f.
            let here : k ≡ i = omega arith in
            let found' : entry elf ph_offset i ≡ ok (some t) = rw here at f.0 in
            let same : s ≡ t = cc in
            subst (λ (x : Segment). p'.base_address ≡ x.memory_address) same (covered.3 zero_base);
        covers = λ k t lo hi found.
            let here : k ≡ i = omega arith in
            let found' : entry elf ph_offset i ≡ ok (some t) = rw here at found in
            let same : s ≡ t = cc in
            subst (λ x. IsCovered x p'.base_address p'.end_address) same covered.1;
      }

  load_entries-Extends :
      (left i : ℕ) (p p' : Progress)
      → i + left ≤ count
      → IsPlaced size p
      → load_entries elf ph_offset left i p ≡ ok p'
      → Extends size elf ph_offset i left p p'
  unfolding load_entries
  load_entries-Extends zero i p p' lt placed e =
      let same : p ≡ p' = cc in
      subst (Extends size elf ph_offset i 0 p) same (record {
        placed = placed;
        grows = omega arith;
        keeps_base = λ h. refl;
        first = λ k s zero_base lo hi f. absurd (omega arith);
        covers = λ k s lo hi found. absurd (omega arith);
      })
  load_entries-Extends (suc left) i p p' lt placed e =
      let (q, first, rest) = >>=-eq-ok (load_entry elf ph_offset i p) _ e in
      let (o, found, r) =
        >>=-eq-ok (entry elf ph_offset i) (round elf p) (rw load_entry-entry at first) in
      let one = round-Extends i p q o (omega arith) placed found r in
      let others = load_entries-Extends left (i + 1) q p' (omega arith) one.placed rest in
      record {
        placed = others.placed;
        grows = omega (arith, one.grows, others.grows);
        keeps_base = λ h.
            let same = one.keeps_base h in
            others.keeps_base (λ none_yet. h (omega (arith, same, none_yet))) ∙ same;
        first = λ k s zero_base lo hi f. elim (ℕ_discrete k i) [
          | yes here ↦
              let own = one.first k s zero_base lo (omega arith) f in
              let set = (one.covers k s lo (omega arith) f.0).1 in others.keeps_base set ∙ own
          | no later ↦
              let skipped : entry elf ph_offset i ≡ ok none = f.1 i (omega arith) (omega arith) in
              let same_option : o ≡ none = cc in
              let same_progress : p ≡ q =
                let same_result : ◌≡◌ {A = Result Progress} (ok p) (ok q) = rw same_option at r in
                cc in
              others.first k s (rw (← same_progress) zero_base) (omega arith) (omega arith)
                (f.0, λ earlier from to. f.1 earlier (omega arith) to)
        ];
        covers = λ k s lo hi e'. elim (ℕ_discrete k i) [
          | yes here ↦
              let covered = one.covers k s lo (omega arith) e' in
              (
                omega (arith, covered.0, others.grows),
                λ none_yet. covered.1 (omega (arith, others.keeps_base covered.1, none_yet)),
              )
          | no later ↦ others.covers k s (omega arith) (omega arith) e'
        ];
      }

image_of-fields :
    (entrypoint : ℕ) (p : Progress)
    → ((image_of entrypoint p).base ≡ p.base_address)
      × ((image_of entrypoint p).entrypoint ≡ entrypoint)
unfolding image_of
image_of-fields entrypoint p = (refl, refl)

-- What the theorem below says of an image.
abbrev Describes : View → Header → Image → Type 0
Describes elf h image =
    (image.entrypoint ≡ h.entrypoint)
    × (image.entrypoint ≢ 0)
    × (image.base % 4096 ≡ 0)
    × (image.size % 4096 ≡ 0)
    × ((k : ℕ) (s : Segment)
        → k < h.phe_count
        → entry elf h.ph_offset k ≡ ok (some s)
        → IsCovered s image.base (image.base + image.size))
    × ((k : ℕ) (s : Segment)
        → k < h.phe_count
        → IsFirst elf h.ph_offset 0 k s
        → image.base ≡ s.memory_address)

Extends-Describes :
    (elf : View) (m : Memory) (h : Header) (p p' : Progress)
    → IsValid m
    → h.entrypoint ≢ 0
    → p.base_address ≡ 0
    → Extends m.size elf h.ph_offset 0 h.phe_count p p'
    → Describes elf h (image_of h.entrypoint p')
Extends-Describes elf m h p p' v start zero_base ext =
    let fields = image_of-fields h.entrypoint p' in
    let size =
      image_of-size h.entrypoint p' ext.placed.base_le_end
        (omega (arith, ext.placed.end_le_size, v.fits, v.host_size)) in
    (
      fields.1,
      λ e. start (omega (arith, fields.1, e)),
      omega (arith, fields.0, ext.placed.base_aligned),
      size.0,
      λ k s lt found.
          let covered = ext.covers k s (omega arith) (omega arith) found in
          (
            omega (arith, covered.0, size.1, fields.0),
            λ none_yet. covered.1 (omega (arith, fields.0, none_yet)),
          ),
      λ k s lt f. fields.0 ∙ ext.first k s zero_base (omega arith) (omega arith) f,
    )

-- If every loadable segment takes up memory, a load that succeeds reports an entrypoint other than
-- 0, that of the header, a base that is a multiple of 4096, and a size that is one too; every
-- loadable segment ends at or below the end of the image, and the base is not 0 if there is one; it
-- is the address of the first loadable segment, in the order of the headers.
pub load-extent :
    (elf : View) (m m' : Memory) (image : Image) (h : Header)
    → IsValid m
    → All (λ b. b < 256) elf
    → load elf m ≡ ok (image, m')
    → read_header elf ≡ ok h
    → AllFilled elf h.ph_offset h.phe_count
    → (image.entrypoint ≡ h.entrypoint)
      × (image.entrypoint ≢ 0)
      × (image.base % 4096 ≡ 0)
      × (image.size % 4096 ≡ 0)
      × ((k : ℕ) (s : Segment)
          → k < h.phe_count
          → entry elf h.ph_offset k ≡ ok (some s)
          → IsCovered s image.base (image.base + image.size))
      × ((k : ℕ) (s : Segment)
          → k < h.phe_count
          → IsFirst elf h.ph_offset 0 k s
          → image.base ≡ s.memory_address)
unfolding load
load-extent elf m m' image h v small e header all_filled =
    let start : Progress = record { memory = m; base_address = 0; end_address = 0 } in
    let (p, loaded, r) =
      >>=-eq-ok (load_entries elf h.ph_offset h.phe_count 0 start) _ (rw header at e) in
    let ext =
      load_entries-Extends m.size elf small h.ph_offset h.phe_count all_filled h.phe_count 0 start p
        (omega arith)
        (record {
          valid = v;
          same_size = refl;
          base_le_end = omega arith;
          end_le_size = omega arith;
          base_aligned = omega arith;
        })
        loaded in
    let same : image_of h.entrypoint p ≡ image = cc in
    subst (Describes elf h) same
      (Extends-Describes elf m h start p v (read_header-entrypoint elf h header) refl ext)
