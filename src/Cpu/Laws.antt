-- ===== src/Cpu/Laws.antt =====
-- The register file: reads after writes, and what every state satisfies.
use riscv64_emulator.Prelude.{ℕ, ◌^◌, ◌<◌, ◌≡◌, ◌&&◌, not, arith, ◌==◌, if◌then◌else◌}
use riscv64_emulator.Cpu.{Register, zero_reg, pc_reg, Cpu, initial, reg, set_reg, pc}

-- Register zero reads as 0, and every register holds 64 bits.
pub record IsValid (cpu : Cpu) : Type 0 where
  pub zero_is_zero : reg cpu zero_reg ≡ 0
  pub is_64_bit : (r : Register) → reg cpu r < 2 ^ 64

-- A read after a write gives the value written, except that writes to register zero are dropped.
pub reg-set_reg :
    (cpu : Cpu) (r q : Register) (value : ℕ)
    → reg (set_reg cpu r value) q ≡ (if q == r && not (r == zero_reg) then value else reg cpu q)
unfolding reg set_reg
reg-set_reg cpu r q value = ground arith

pub set_reg-IsValid :
    (cpu : Cpu) (r : Register) (value : ℕ)
    → IsValid cpu
    → value < 2 ^ 64
    → IsValid (set_reg cpu r value)
set_reg-IsValid cpu r value v h = record {
  zero_is_zero = ground (arith, reg-set_reg cpu r zero_reg value, v.zero_is_zero);
  is_64_bit = λ q. ground (arith, reg-set_reg cpu r q value, v.is_64_bit q);
}

pub initial-IsValid : IsValid initial
unfolding initial reg
initial-IsValid = record { zero_is_zero = omega arith; is_64_bit = λ r. omega arith }

pub pc-set_reg_self : (cpu : Cpu) (value : ℕ) → pc (set_reg cpu pc_reg value) ≡ value
unfolding pc set_reg
pc-set_reg_self cpu value = ground arith
