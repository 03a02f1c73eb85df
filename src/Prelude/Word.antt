-- ===== src/Prelude/Word.antt =====
-- Fixed-width integers as C++ has them: a w-bit value is its bit pattern, below 2 ^ w.
use Prim.Native.Nat.{ℕ, zero, suc, ◌+◌, ◌-◌, ◌*◌, ◌/◌, ◌%◌, ◌^◌}
use mathlib.Core.Bool.{Bool, true, false, ◌&&◌}
use riscv64_emulator.Prelude.Tests.{ltb, ◌==◌, if◌then◌else◌}
use riscv64_emulator.Prelude.Result.{Result, ok, undefined_behaviour}

abbrev pub u8 : ℕ → ℕ
u8 n = n % 2 ^ 8

abbrev pub u32 : ℕ → ℕ
u32 n = n % 2 ^ 32

abbrev pub u64 : ℕ → ℕ
u64 n = n % 2 ^ 64

-- `x >> k` of an unsigned value.
abbrev pub shr : ℕ → ℕ → ℕ
shr x k = x / 2 ^ k

-- `x << k` of a uint32_t and of a uint64_t.
abbrev pub shl32 : ℕ → ℕ → ℕ
shl32 x k = u32 (x * 2 ^ k)

abbrev pub shl64 : ℕ → ℕ → ℕ
shl64 x k = u64 (x * 2 ^ k)

-- `x >> k` of a signed w-bit value: the bits that come in are copies of the sign.
abbrev pub sar : ℕ → ℕ → ℕ → ℕ
sar w x k = if ltb x (2 ^ (w - 1)) then x / 2 ^ k else 2 ^ w - 1 - (2 ^ w - 1 - x) / 2 ^ k

-- A w-bit signed value converted to uint64_t.
abbrev pub sign_extend : ℕ → ℕ → ℕ
sign_extend w x = if ltb x (2 ^ (w - 1)) then x else x + 2 ^ 64 - 2 ^ w

-- The integer that a bit pattern stands for; `negsuc n` is -(n + 1).
pub data ℤ : Type 0 where
  pos : ℕ → ℤ
  negsuc : ℕ → ℤ

abbrev pub signed : ℕ → ℕ → ℤ
signed w x = if ltb x (2 ^ (w - 1)) then pos x else negsuc (2 ^ w - 1 - x)

-- The w-bit pattern of an integer.
abbrev pub to_word : ℕ → ℤ → ℕ
to_word w (pos n) = n % 2 ^ w
to_word w (negsuc n) = 2 ^ w - 1 - n % 2 ^ w

abbrev pub ltℤ : ℤ → ℤ → Bool
ltℤ (pos a) (pos b) = ltb a b
ltℤ (pos a) (negsuc b) = false
ltℤ (negsuc a) (pos b) = true
ltℤ (negsuc a) (negsuc b) = ltb b a

abbrev pub negate : ℕ → ℤ
negate zero = pos 0
negate (suc n) = negsuc n

-- `a / b` and `a % b` on integers, towards zero, for `b` other than 0.
abbrev pub quot : ℤ → ℤ → ℤ
quot (pos a) (pos b) = pos (a / b)
quot (pos a) (negsuc b) = negate (a / suc b)
quot (negsuc a) (pos b) = negate (suc a / b)
quot (negsuc a) (negsuc b) = pos (suc a / suc b)

abbrev pub rem : ℤ → ℤ → ℤ
rem (pos a) (pos b) = pos (a % b)
rem (pos a) (negsuc b) = pos (a % suc b)
rem (negsuc a) (pos b) = negate (suc a % b)
rem (negsuc a) (negsuc b) = negate (suc a % suc b)

-- C++ leaves a division by zero undefined, and the quotient that does not fit its type.
abbrev pub overflows : ℕ → ℕ → ℕ → Bool
overflows w a b = (a == 2 ^ (w - 1)) && (b == 2 ^ w - 1)

abbrev pub unsigned_div : ℕ → ℕ → Result ℕ
unsigned_div a b = if b == 0 then undefined_behaviour else ok (a / b)

abbrev pub unsigned_rem : ℕ → ℕ → Result ℕ
unsigned_rem a b = if b == 0 then undefined_behaviour else ok (a % b)

abbrev pub signed_div : ℕ → ℕ → ℕ → Result ℕ
signed_div w a b =
    if b == 0
    then undefined_behaviour
    else if overflows w a b
    then undefined_behaviour
    else ok (to_word w (quot (signed w a) (signed w b)))

abbrev pub signed_rem : ℕ → ℕ → ℕ → Result ℕ
signed_rem w a b =
    if b == 0
    then undefined_behaviour
    else if overflows w a b
    then undefined_behaviour
    else ok (to_word w (rem (signed w a) (signed w b)))
