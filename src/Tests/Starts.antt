-- ===== src/Tests/Starts.antt =====
-- Starting the small ELF image, whose first instruction lies at its base.
use riscv64_emulator.Prelude.{◌+◌, ◌-◌, ◌^◌, ◌≡◌, refl, arith}
use riscv64_emulator.Prelude.Word.{u64}
use riscv64_emulator.Prelude.Result.{Result, ok, fatal, undefined_behaviour}
use riscv64_emulator.Cpu.{initial, reg, pc, sp}
use riscv64_emulator.Memory.{
  create, write_unchecked, set_permissions, copy_in, fill, out_of_range, permissions_base,
  flag_read, flag_write,
}
use riscv64_emulator.Exit.{no_exit}
use riscv64_emulator.Interpreter.{State}
use riscv64_emulator.Interpreter.Steps.{IsValid}
use riscv64_emulator.ElfLoader.{
  Image, read, slice, read_header, read_segment, choose_base, permissions_of, copy_segment,
  protect_segment, load_segment, load_entry, load_entries, image_of, load,
}
use riscv64_emulator.MainProgram.{prepare, prepare-starts}
use riscv64_emulator.Tests.Images.{file, bytes}

abbrev result_of : Result (Image × State) → Image × State
result_of (ok r) = r
result_of (fatal m) = (
  record { base = 0; size = 0; entrypoint = 0 },
  record { memory = create 0; cpu = initial; exit = no_exit },
)
result_of undefined_behaviour = (
  record { base = 0; size = 0; entrypoint = 0 },
  record { memory = create 0; cpu = initial; exit = no_exit },
)

abbrev prepared : Image × State
prepared = result_of (prepare file)

prepares : prepare file ≡ ok (prepared.0, prepared.1)
unfolding prepare load load_entries load_entry load_segment choose_base copy_segment protect_segment
    read_header read_segment read slice create write_unchecked set_permissions copy_in fill
    out_of_range image_of permissions_of
prepares = refl

prepared-image : (prepared.0.base ≡ 0x1000) × (prepared.0.entrypoint ≡ 0x1000)
unfolding prepare load load_entries load_entry load_segment choose_base copy_segment protect_segment
    read_header read_segment read slice create write_unchecked set_permissions copy_in fill
    out_of_range image_of permissions_of
prepared-image = (refl, refl)

prepare-starts_example :
    IsValid prepared.1
    × (pc prepared.1.cpu ≡ prepared.0.entrypoint)
    × (reg prepared.1.cpu sp ≡ u64 (prepared.0.base + 2 ^ 64 - 8))
    × (prepared.1.memory.raw (permissions_base prepared.1.memory + 0x1000) ≡ flag_read + flag_write)
prepare-starts_example =
    prepare-starts file prepared.0 prepared.1 0x1000 bytes prepares
      (omega (arith, prepared-image.1)) (omega (arith, prepared-image.0)) (omega arith)
      (omega (arith, prepared-image.0))
