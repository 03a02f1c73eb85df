-- ===== src/Cpu.antt =====
-- src/vm/RegisterState.hpp, src/vm/Register.hpp and src/vm/Cpu.hpp: 33 registers of 64 bits,
-- number 0 hard-wired to zero and number 32 the program counter.
pub mod Laws
use riscv64_emulator.Prelude.{ℕ, ◌==◌, if◌then◌else◌}

-- enum class Register: a register is its number.
abbrev pub Register : Type 0
Register = ℕ

abbrev pub zero_reg : Register
zero_reg = 0

abbrev pub sp : Register
sp = 2

abbrev pub pc_reg : Register
pc_reg = 32

-- class RegisterState, and class Cpu, which holds one.
pub record Cpu : Type 0 where
  pub registers : ℕ → ℕ

-- `RegisterState() = default` zeroes the table.
unfoldable pub initial : Cpu
initial = record { registers = λ _. 0 }

unfoldable pub reg : Cpu → Register → ℕ
reg cpu r = cpu.registers r

unfoldable pub set_reg : Cpu → Register → ℕ → Cpu
set_reg cpu r value =
    if r == zero_reg
    then cpu
    else record { registers = λ q. if q == r then value else cpu.registers q }

unfoldable pub pc : Cpu → ℕ
unfolding reg
pc cpu = reg cpu pc_reg
