-- ===== src/MainProgram.antt =====
-- src/main.cpp: what the program sets up before it runs the virtual machine.
use riscv64_emulator.Prelude.{
  ℕ, ◌+◌, ◌-◌, ◌*◌, ◌^◌, ◌≤◌, ◌<◌, ◌≡◌, refl, ap, ◌∙◌, sym, subst, arith, Bool, true, All,
}
use riscv64_emulator.Prelude.Word.{u64}
use riscv64_emulator.Prelude.Result.{Result, ok, ◌>>=◌, >>=-eq-ok}
use riscv64_emulator.Cpu.{Cpu, initial, set_reg, reg, pc, sp, pc_reg}
use riscv64_emulator.Cpu.Laws.{set_reg-IsValid, initial-IsValid, pc-set_reg_self}
use riscv64_emulator.Memory.{
  Memory, create, set_permissions, flag_read, flag_write, permissions_base,
}
use riscv64_emulator.Memory.Accepts.{create-IsValid}
use riscv64_emulator.Memory.Accepts as MemoryAccepts
use riscv64_emulator.Memory.Permissions.{protected, set_permissions_lem, protected-IsValid}
use riscv64_emulator.Exit.{no_exit}
use riscv64_emulator.Interpreter.{State}
use riscv64_emulator.Interpreter.Steps.{IsValid}
use riscv64_emulator.ElfLoader.{View, Image, Header, read_header, load}
use riscv64_emulator.ElfLoader.Loaded.{load-Keeps}

abbrev pub memory_size : ℕ
memory_size = 32 * 1024 * 1024

-- `cpu.set_reg(Sp, image.base - 8)` and `cpu.set_reg(Pc, image.entrypoint)`.
abbrev pub first_cpu : Image → Cpu
first_cpu image =
    set_reg (set_reg initial sp (u64 (image.base + 2 ^ 64 - 8))) pc_reg image.entrypoint

-- `main` as far as `vm.run(cpu)`; the result of `set_permissions` is not used.
unfoldable pub prepare : View → Result (Image × State)
prepare elf = do
  (image, loaded) ← load elf (create memory_size)
  (success, memory) ← set_permissions loaded 0x10 image.base (flag_read + flag_write)
  ok (image, record { memory = memory; cpu = first_cpu image; exit = no_exit })

module _ (image : Image) (loaded : Memory) (same_size : loaded.size ≡ memory_size)
    (valid : MemoryAccepts.IsValid loaded) (fits : image.base + 16 ≤ memory_size) where
  abbrev ready : State
  ready = record {
    memory = protected loaded 16 image.base 3;
    cpu = first_cpu image;
    exit = no_exit;
  }

  inside : 16 + image.base ≤ loaded.size
  inside = omega (arith, same_size, fits)

  ready-IsValid : image.entrypoint < 2 ^ 64 → IsValid ready
  ready-IsValid small = record {
    valid_memory = protected-IsValid loaded valid 16 image.base 3 inside;
    valid_cpu =
        set_reg-IsValid _ pc_reg image.entrypoint
          (set_reg-IsValid initial sp (u64 (image.base + 2 ^ 64 - 8)) initial-IsValid (omega arith))
          small;
  }

  ready-sp : reg ready.cpu sp ≡ u64 (image.base + 2 ^ 64 - 8)
  unfolding reg set_reg
  ready-sp = ground arith

  ready-permissions :
      (j : ℕ)
      → 16 ≤ j
      → j < 16 + image.base
      → ready.memory.raw (permissions_base ready.memory + j) ≡ 3
  ready-permissions j lo hi = ground arith

created_size : (create memory_size).size ≡ memory_size
unfolding create
created_size = refl

load-header :
    (elf : View) (m : Memory) (r : Image × Memory)
    → load elf m ≡ ok r
    → (h : Header) × (read_header elf ≡ ok h)
unfolding load
load-header elf m r e = let (h, found, rest) = >>=-eq-ok (read_header elf) _ e in (h, found)

-- When the program to run is loaded, and it lies 16 bytes or more before the end of the memory, the
-- virtual machine starts in a valid state, at the entrypoint and with the stack 8 bytes below the
-- image; bytes 16 up to 16 bytes into the image may be read and written but not executed.
pub prepare-starts :
    (elf : View) (image : Image) (s : State) (j : ℕ)
    → All (λ b. b < 256) elf
    → prepare elf ≡ ok (image, s)
    → image.entrypoint < 2 ^ 64
    → image.base + 16 ≤ memory_size
    → 16 ≤ j
    → j < 16 + image.base
    → IsValid s
      × (pc s.cpu ≡ image.entrypoint)
      × (reg s.cpu sp ≡ u64 (image.base + 2 ^ 64 - 8))
      × (s.memory.raw (permissions_base s.memory + j) ≡ flag_read + flag_write)
unfolding prepare
prepare-starts elf image s j small e fits64 fits lo hi =
    let ((image', loaded), e1, e2) = >>=-eq-ok (load elf (create memory_size)) _ e in
    let ((success, memory), e3, e4) = >>=-eq-ok (set_permissions loaded 16 image'.base 3) _ e2 in
    let (h, header) = load-header elf (create memory_size) (image', loaded) e1 in
    let kept =
      load-Keeps elf (create memory_size) loaded image' h (create-IsValid memory_size (omega arith))
        small e1 header in
    let same_image : image' ≡ image = cc in
    let size : loaded.size ≡ memory_size = kept.same_size ∙ created_size in
    let fits' : image'.base + 16 ≤ memory_size = rw same_image fits in
    let set =
      set_permissions_lem loaded kept.valid 16 image'.base 3
        (inside image' loaded size kept.valid fits') in
    let written : ◌≡◌ {A = Result (Bool × Memory)} (ok (success, memory))
        (ok (true, protected loaded 16 image'.base 3)) =
      sym e3 ∙ set in
    let same_memory : memory ≡ protected loaded 16 image'.base 3 = cc in
    let same_state : ready image' loaded size kept.valid fits' ≡ s =
      let last : ◌≡◌ {A = State}
          (record { memory = memory; cpu = first_cpu image'; exit = no_exit }) s =
        cc in
      ap (λ x. record { memory = x; cpu = first_cpu image'; exit = no_exit }) (sym same_memory)
      ∙ last in
    subst
      (λ x.
        IsValid x
        × (pc x.cpu ≡ image.entrypoint)
        × (reg x.cpu sp ≡ u64 (image.base + 2 ^ 64 - 8))
        × (x.memory.raw (permissions_base x.memory + j) ≡ flag_read + flag_write))
      same_state
      (
        ready-IsValid image' loaded size kept.valid fits' (rw same_image fits64),
        pc-set_reg_self _ _ ∙ ap (λ x. x.entrypoint) same_image,
        ready-sp image' loaded size kept.valid fits'
            ∙ ap (λ (x : Image). u64 (x.base + 2 ^ 64 - 8)) same_image,
        ready-permissions image' loaded size kept.valid fits' j lo (rw same_image hi),
      )
