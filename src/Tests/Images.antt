-- ===== src/Tests/Images.antt =====
-- Loading a small ELF image.
use riscv64_emulator.Prelude.{
  ℕ, ◌+◌, ◌-◌, ◌%◌, ◌≡◌, ◌≢◌, ◌^◌, ◌≤◌, ◌<◌, refl, arith, List, ◌++◌, All, some, length,
}
use riscv64_emulator.Prelude.Lists.{take, drop}
use riscv64_emulator.Prelude.Result.{Result, ok, fatal, undefined_behaviour, reading_out_of_bounds}
use riscv64_emulator.Memory.{
  Memory, create, write_unchecked, set_permissions, copy_in, fill, out_of_range, to_bytes,
  from_bytes,
}
use riscv64_emulator.Memory.Accepts as MemoryAccepts
use riscv64_emulator.Memory.Accepts.{create-IsValid}
use riscv64_emulator.ElfLoader.{
  Header, Image, Segment, read, slice, read_header, read_segment, choose_base, permissions_of,
  copy_segment, protect_segment, load_segment, load_entry, load_entries, image_of, load,
}
use riscv64_emulator.ElfLoader.Headers.{read_cases}
use riscv64_emulator.ElfLoader.Contents.{entry, Keeps}
use riscv64_emulator.ElfLoader.Loaded.{IsLoaded, load-IsLoaded, load-Keeps}
use riscv64_emulator.ElfLoader.Extent.{AllFilled, IsCovered, IsFirst, load-extent}

-- One segment of four bytes, in eight bytes of memory at 0x1000 that may be read and executed.
abbrev pub file : List ℕ
file =
    to_bytes 4 0x464c457f
    ++ (to_bytes 12 0x0102
        ++ (to_bytes 8 2
            ++ (to_bytes 8 0x1000
                ++ (to_bytes 8 0x40
                    ++ (to_bytes 14 0
                        ++ (to_bytes 2 0x38
                            ++ (to_bytes 8 1
                                ++ (to_bytes 4 1
                                    ++ (to_bytes 4 5
                                        ++ (to_bytes 8 0x78
                                            ++ (to_bytes 8 0x1000
                                                ++ (to_bytes 8 0
                                                    ++ (to_bytes 8 4
                                                        ++ (to_bytes 8 8
                                                            ++ (to_bytes 8 0
                                                            ++ to_bytes 4 0x73)))))))))))))))

abbrev guest : Memory
guest = create 0x2000

abbrev result_of : Result (Image × Memory) → Image × Memory
result_of (ok r) = r
result_of (fatal m) = (record { base = 0; size = 0; entrypoint = 0 }, guest)
result_of undefined_behaviour = (record { base = 0; size = 0; entrypoint = 0 }, guest)

abbrev image : Image
image = (result_of (load file guest)).0

abbrev loaded : Memory
loaded = (result_of (load file guest)).1

loads : load file guest ≡ ok (image, loaded)
unfolding load load_entries load_entry load_segment choose_base copy_segment protect_segment
    read_header read_segment read slice create write_unchecked set_permissions copy_in fill
    out_of_range image_of permissions_of
loads = refl

abbrev header : Header
header = record { entrypoint = 0x1000; ph_offset = 0x40; phe_count = 1 }

has_header : read_header file ≡ ok header
unfolding read_header read
has_header = refl

abbrev segment : Segment
segment = record {
  flags = 5;
  file_offset = 0x78;
  memory_address = 0x1000;
  file_size = 4;
  memory_size = 8;
}

has_segment : entry file 0x40 0 ≡ ok (some segment)
unfolding entry slice read read_segment
has_segment = refl

pub bytes : All (λ b. b < 256) file
bytes = omega arith

guest-IsValid : MemoryAccepts.IsValid guest
guest-IsValid = create-IsValid 0x2000 (omega arith)

load-IsLoaded_example : IsLoaded file 0x40 0 1 segment loaded
load-IsLoaded_example =
    load-IsLoaded file guest loaded image header 0 segment guest-IsValid bytes loads has_header
      (omega arith) has_segment

load-Keeps_example : Keeps file 0x40 0 1 guest loaded
load-Keeps_example = load-Keeps file guest loaded image header guest-IsValid bytes loads has_header

read_cases_example :
    ((2 ^ 64 - 4) + 8 ≤ length file
      → read file (2 ^ 64 - 4) 8 ≡ ok (from_bytes (take 8 (drop (2 ^ 64 - 4) file))))
    × (length file < (2 ^ 64 - 4) + 8
        → (2 ^ 64 - 4) + 8 < 2 ^ 64
        → read file (2 ^ 64 - 4) 8 ≡ fatal reading_out_of_bounds)
    × (2 ^ 64 ≤ (2 ^ 64 - 4) + 8 → 8 ≤ length file → read file (2 ^ 64 - 4) 8 ≡ undefined_behaviour)
read_cases_example = read_cases file (2 ^ 64 - 4) 8 (omega arith) (omega arith) (omega arith)

AllFilled-file : AllFilled file 0x40 1
AllFilled-file k s lt found =
    let first : k ≡ 0 = omega arith in
    let here : entry file 0x40 0 ≡ ok (some s) = rw first at found in
    let same : segment ≡ s = cc has_segment in rw (← same) (omega arith)

load-extent_example :
    (image.entrypoint ≡ 0x1000)
    × (image.entrypoint ≢ 0)
    × (image.base % 4096 ≡ 0)
    × (image.size % 4096 ≡ 0)
    × ((k : ℕ) (s : Segment)
        → k < 1
        → entry file 0x40 k ≡ ok (some s)
        → IsCovered s image.base (image.base + image.size))
    × ((k : ℕ) (s : Segment) → k < 1 → IsFirst file 0x40 0 k s → image.base ≡ s.memory_address)
load-extent_example =
    load-extent file guest loaded image header guest-IsValid bytes loads has_header AllFilled-file
