-- ===== src/ElfLoader/Contents.antt =====
-- What the guest memory holds after the whole image is loaded (src/ElfLoader.cpp).
use riscv64_emulator.Prelude.{
  ℕ, zero, suc, ◌+◌, ◌*◌, ◌≤◌, ◌<◌, ◌≡◌, ◌⊎◌, inl, refl, ◌∙◌, subst, arith, length, some, none,
  Option, ◌==◌, if◌then◌else◌, All,
}
use riscv64_emulator.Prelude.Lists.{length-take-drop}
use riscv64_emulator.Prelude.Word.{u32, u64}
use riscv64_emulator.Prelude.Result.{Result, ok, ◌>>=◌, >>=-eq-ok}
use riscv64_emulator.Memory.{Memory, permissions_base}
use riscv64_emulator.Memory.Accepts.{IsValid}
use riscv64_emulator.ElfLoader.{
  View, Segment, Progress, slice, read, read_segment, load_segment, load_entry, load_entries,
}
use riscv64_emulator.ElfLoader.Entries.{data_size, data_of, LoadsSegment, load_segment-LoadsSegment}

-- The segment that program header `i` describes, if it is loadable.
unfoldable pub entry : View → ℕ → ℕ → Result (Option Segment)
entry elf ph_offset i = do
  ph ← slice elf (u64 (ph_offset + u32 (i * 0x38))) 0x38
  type ← read ph 0x00 4
  if type == 1 then (do s ← read_segment ph; ok (some s)) else ok none

-- A round of the loop, after its header is read.
abbrev pub round : View → Progress → Option Segment → Result Progress
round elf p none = ok p
round elf p (some s) = load_segment elf s p

pub load_entry-entry :
    (elf : View) (ph_offset i : ℕ) (p : Progress)
    → load_entry elf ph_offset i p ≡ (entry elf ph_offset i >>= round elf p)
unfolding load_entry entry
load_entry-entry elf ph_offset i p = ground arith

-- A byte apart from the data of every loadable segment of the headers i, i + 1, …, and a byte
-- apart from what they protect.
abbrev pub Apart : View → ℕ → ℕ → ℕ → ℕ → Type 0
Apart elf ph_offset i left j =
    (k : ℕ) (s : Segment)
    → i ≤ k
    → k < i + left
    → entry elf ph_offset k ≡ ok (some s)
    → (j < s.memory_address) ⊎ (s.memory_address + data_size s ≤ j)

abbrev pub Unprotected : View → ℕ → ℕ → ℕ → ℕ → Type 0
Unprotected elf ph_offset i left j =
    (k : ℕ) (s : Segment)
    → i ≤ k
    → k < i + left
    → entry elf ph_offset k ≡ ok (some s)
    → (j < s.memory_address) ⊎ (s.memory_address + s.memory_size ≤ j)

-- From one round to another the memory keeps its size, and the bytes that are apart.
pub record Keeps (elf : View) (ph_offset i left : ℕ) (m m' : Memory) : Type 0 where
  pub valid : IsValid m'
  pub same_size : m'.size ≡ m.size
  pub same_blocks : m'.block_count ≡ m.block_count
  pub contents : (j : ℕ) → j < m.size → Apart elf ph_offset i left j → m'.raw j ≡ m.raw j
  pub permissions :
      (j : ℕ)
      → j < m.size
      → Unprotected elf ph_offset i left j
      → m'.raw (permissions_base m + j) ≡ m.raw (permissions_base m + j)

pub length-data_of :
    (elf : View) (s : Segment)
    → s.file_offset + data_size s ≤ length elf
    → length (data_of elf s) ≡ data_size s
length-data_of elf s h = length-take-drop elf s.file_offset (data_size s) h

module _ (elf : View) (s : Segment) (p p' : Progress) (v : IsValid p.memory)
    (loads : LoadsSegment elf s p p') where
  len : length (data_of elf s) ≡ data_size s
  len = length-data_of elf s loads.file_inside

  segment-contents :
      (j : ℕ)
      → j < p.memory.size
      → (j < s.memory_address) ⊎ (s.memory_address + data_size s ≤ j)
      → p'.memory.raw j ≡ p.memory.raw j
  segment-contents j h apart =
      loads.protects.others j (inl (omega (arith, v.fits, loads.copies.same_blocks)))
      ∙ loads.copies.others j (rw len apart)

  segment-permissions :
      (j : ℕ)
      → j < p.memory.size
      → (j < s.memory_address) ⊎ (s.memory_address + s.memory_size ≤ j)
      → p'.memory.raw (permissions_base p.memory + j) ≡ p.memory.raw (permissions_base p.memory + j)
  segment-permissions j h apart =
      loads.protects.others (permissions_base p.memory + j)
        (ground (arith, loads.copies.same_blocks))
      ∙ loads.copies.others (permissions_base p.memory + j)
          (ground (arith, loads.copies.inside, v.fits))

module _ (elf : View) (small : All (λ b. b < 256) elf) (ph_offset : ℕ) where
  round-Keeps :
      (i : ℕ) (p p' : Progress) (o : Option Segment)
      → IsValid p.memory
      → entry elf ph_offset i ≡ ok o
      → round elf p o ≡ ok p'
      → Keeps elf ph_offset i 1 p.memory p'.memory
  round-Keeps i p p' none v e r =
      let same : p ≡ p' = cc in
      subst (λ x. Keeps elf ph_offset i 1 p.memory x.memory) same
        (record {
          valid = v;
          same_size = refl;
          same_blocks = refl;
          contents = λ j h apart. refl;
          permissions = λ j h apart. refl;
        })
  round-Keeps i p p' (some s) v e r =
      let loads = load_segment-LoadsSegment elf s p p' v small r in
      record {
        valid = loads.protects.valid;
        same_size = loads.protects.same_size ∙ loads.copies.same_size;
        same_blocks = loads.protects.same_blocks ∙ loads.copies.same_blocks;
        contents = λ j h apart.
            segment-contents elf s p p' v loads j h (apart i s (omega arith) (omega arith) e);
        permissions = λ j h apart.
            segment-permissions elf s p p' v loads j h (apart i s (omega arith) (omega arith) e);
      }

  pub load_entry-Keeps :
      (i : ℕ) (p p' : Progress)
      → IsValid p.memory
      → load_entry elf ph_offset i p ≡ ok p'
      → Keeps elf ph_offset i 1 p.memory p'.memory
  load_entry-Keeps i p p' v e =
      let (o, found, r) =
        >>=-eq-ok (entry elf ph_offset i) (round elf p) (rw load_entry-entry at e) in
      round-Keeps i p p' o v found r

  Keeps-trans :
      (i left : ℕ) (a b c : Memory)
      → Keeps elf ph_offset i 1 a b
      → Keeps elf ph_offset (i + 1) left b c
      → Keeps elf ph_offset i (suc left) a c
  Keeps-trans i left a b c first rest = record {
    valid = rest.valid;
    same_size = rest.same_size ∙ first.same_size;
    same_blocks = rest.same_blocks ∙ first.same_blocks;
    contents = λ j h apart.
        rest.contents j (omega (arith, first.same_size))
          (λ k s lo hi e. apart k s (omega arith) (omega arith) e)
        ∙ first.contents j h (λ k s lo hi e. apart k s lo (omega arith) e);
    permissions = λ j h apart.
        let base : permissions_base b ≡ permissions_base a = omega (arith, first.same_blocks) in
        (rw base at (
          rest.permissions j (omega (arith, first.same_size))
            (λ k s lo hi e. apart k s (omega arith) (omega arith) e)))
        ∙ first.permissions j h (λ k s lo hi e. apart k s lo (omega arith) e);
  }

  pub load_entries-Keeps :
      (left i : ℕ) (p p' : Progress)
      → IsValid p.memory
      → load_entries elf ph_offset left i p ≡ ok p'
      → Keeps elf ph_offset i left p.memory p'.memory
  unfolding load_entries
  load_entries-Keeps zero i p p' v e =
      let same : p ≡ p' = cc in
      subst (λ x. Keeps elf ph_offset i 0 p.memory x.memory) same
        (record {
          valid = v;
          same_size = refl;
          same_blocks = refl;
          contents = λ j h apart. refl;
          permissions = λ j h apart. refl;
        })
  load_entries-Keeps (suc left) i p p' v e =
      let (q, first, rest) = >>=-eq-ok (load_entry elf ph_offset i p) _ e in
      let kept = load_entry-Keeps i p q v first in
      Keeps-trans i left p.memory q.memory p'.memory kept
        (load_entries-Keeps left (i + 1) q p' kept.valid rest)
