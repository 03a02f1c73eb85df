-- ===== src/Jit/Aarch64/Multiplying.antt =====
-- Multiplications and divisions of src/vm/jit/aarch64/CodeGenerator.cpp.
use native.Mathlib.Nat.{mul_comm, mod-eq_of_lt, mod-lt, one-le-pow}
use riscv64_emulator.Prelude.{
  ℕ, ◌+◌, ◌-◌, ◌*◌, ◌/◌, ◌%◌, ◌^◌, ◌<◌, ◌≡◌, ◌≢◌, inl, inr, refl, ap, ◌∙◌, arith, ◌==◌,
  if◌then◌else◌, Bool-cases,
}
use riscv64_emulator.Prelude.Word.{ℤ, u32, sign_extend, signed, to_word, pos, negsuc, quot, rem}
use riscv64_emulator.Instruction.Kinds.{InstructionType as IT}
use riscv64_emulator.Interpreter.Values.{IsMultiply}
use riscv64_emulator.Jit.Assembler.{A64R}
use riscv64_emulator.Jit.RegisterCache.{update}
use riscv64_emulator.Jit.A64.{read}
use riscv64_emulator.Jit.Aarch64.{a_reg}
use riscv64_emulator.Jit.Aarch64.Computing.{read-update, Computes}
use riscv64_emulator.Jit.Aarch64.Remainders.{add-mod_self, rem_pos-pos}
use riscv64_emulator.Jit.Aarch64.Selection.{multiply_calls}
use riscv64_emulator.Jit.Aarch64.SignedRemainder.{div-le, mod-le, rem-signed}

-- The value of a multiplication or division. Where the manual has a quotient of all ones for a zero
-- divisor, it is 0.
abbrev pub signed_quotient : ℕ → ℕ → ℕ → ℕ
signed_quotient w a b = if b == 0 then 0 else to_word w (quot (signed w a) (signed w b))

abbrev pub signed_remainder : ℕ → ℕ → ℕ → ℕ
signed_remainder w a b = if b == 0 then a else to_word w (rem (signed w a) (signed w b))

abbrev pub multiplied : IT → ℕ → ℕ → ℕ
multiplied IT.mul a b = a * b % 2 ^ 64
multiplied IT.mulw a b = sign_extend 32 (u32 a * u32 b % 2 ^ 32)
multiplied IT.div a b = signed_quotient 64 a b
multiplied IT.divw a b = sign_extend 32 (signed_quotient 32 (u32 a) (u32 b))
multiplied IT.divu a b = if b == 0 then 0 else a / b
multiplied IT.divuw a b = sign_extend 32 (if u32 b == 0 then 0 else u32 a / u32 b)
multiplied IT.rem a b = signed_remainder 64 a b
multiplied IT.remw a b = sign_extend 32 (signed_remainder 32 (u32 a) (u32 b))
multiplied IT.remu a b = if b == 0 then a else a % b
multiplied IT.remuw a b = sign_extend 32 (if u32 b == 0 then u32 a else u32 a % u32 b)
multiplied _ a b = 0

nothing_left : (w a b : ℕ) → a < 2 ^ w → (a + 2 ^ w - (0 * b) % 2 ^ w) % 2 ^ w ≡ a
nothing_left w a b ha =
    let none_taken : 0 * b % 2 ^ w ≡ 0 =
      ap (λ (t : ℕ). t % 2 ^ w) (mul_comm 0 b ∙ (omega arith)) ∙ mod-eq_of_lt (omega arith) in
    rw none_taken (ap (λ (t : ℕ). t % 2 ^ w) (omega arith) ∙ add-mod_self a (2 ^ w) ha)

-- What msub leaves after sdiv and after udiv.
signed_left :
    (w a b : ℕ)
    → a < 2 ^ w
    → b < 2 ^ w
    → (a + 2 ^ w - (signed_quotient w a b * b) % 2 ^ w) % 2 ^ w ≡ signed_remainder w a b
signed_left w a b ha hb = elim (Bool-cases (b == 0)) [
  | inl z ↦ rw z (nothing_left w a b ha)
  | inr nz ↦ rw nz (rem-signed w a b ha hb (ground arith))
]

unsigned_left :
    (w a b : ℕ)
    → a < 2 ^ w
    → b < 2 ^ w
    → (a + 2 ^ w - ((if b == 0 then 0 else a / b) * b) % 2 ^ w) % 2 ^ w
      ≡ (if b == 0 then a else a % b)
unsigned_left w a b ha hb = elim (Bool-cases (b == 0)) [
  | inl z ↦ rw z (nothing_left w a b ha)
  | inr nz ↦ rw nz (rem_pos-pos (2 ^ w) a b ha (omega arith) (ground arith))
]

-- The remainder goes through X8, which is no operand.
left_result :
    (d : ℕ) (x y : A64R) (registers : ℕ → ℕ) (n q v : ℕ) (f : ℕ → ℕ → ℕ)
    → x ≢ a_reg
    → y ≢ a_reg
    → n ≢ 8
    → f (read registers y) (read registers x) ≡ v
    → update
        (update registers 8 q)
        d
        (f (read (update registers 8 q) y) (read (update registers 8 q) x))
        n
      ≡ update registers d v n
left_result d x y registers n q v f nx ny ne e =
    rw (read-update x nx registers q, read-update y ny registers q, e) (ground arith)

left_result32 :
    (d : ℕ) (x y : A64R) (registers : ℕ → ℕ) (n q v : ℕ) (f : ℕ → ℕ → ℕ)
    → x ≢ a_reg
    → y ≢ a_reg
    → n ≢ 8
    → f (read registers y) (read registers x) ≡ v
    → v < 2 ^ 32
    → (let r = update registers 8 q in
        let s = update r d (f (read r y) (read r x)) in
        update s d (sign_extend 32 (u32 (s d))) n ≡ update registers d (sign_extend 32 v) n)
left_result32 d x y registers n q v f nx ny ne e hv =
    rw (read-update x nx registers q, read-update y ny registers q, e) (ground arith)

to_word-lt : (w : ℕ) (z : ℤ) → to_word w z < 2 ^ w
to_word-lt w (pos n) = mod-lt n (omega (arith, one-le-pow w 2))
to_word-lt w (negsuc n) = omega (arith, one-le-pow w 2)

signed_quotient-lt : (w a b : ℕ) → signed_quotient w a b < 2 ^ w
signed_quotient-lt w a b =
    ground (arith, to_word-lt w (quot (signed w a) (signed w b)), one-le-pow w 2)

signed_remainder-lt : (w a b : ℕ) → a < 2 ^ w → signed_remainder w a b < 2 ^ w
signed_remainder-lt w a b ha = ground (arith, to_word-lt w (rem (signed w a) (signed w b)))

-- The inner switch for multiplications and divisions.
pub multiply_calls-Computes :
    (t : IT) → IsMultiply t → Computes (λ dest x y. multiply_calls dest x y t) (multiplied t)
unfolding multiply_calls
multiply_calls-Computes IT.mul h d x y nx ny =
    (_, refl, record { plain = (tt, tt); result = λ registers n hx hy ne. ground arith })
multiply_calls-Computes IT.mulw h d x y nx ny =
    (_, refl, record { plain = (tt, (tt, tt)); result = λ registers n hx hy ne. ground arith })
multiply_calls-Computes IT.div h d x y nx ny =
    (_, refl, record { plain = (tt, tt); result = λ registers n hx hy ne. ground arith })
multiply_calls-Computes IT.divw h d x y nx ny =
    (_, refl, record { plain = (tt, (tt, tt)); result = λ registers n hx hy ne. ground arith })
multiply_calls-Computes IT.divu h d x y nx ny =
    (_, refl, record { plain = (tt, tt); result = λ registers n hx hy ne. ground arith })
multiply_calls-Computes IT.divuw h d x y nx ny =
    (_, refl, record { plain = (tt, (tt, tt)); result = λ registers n hx hy ne. ground arith })
multiply_calls-Computes IT.rem h d x y nx ny = (
  _,
  refl,
  record {
    plain = (tt, (tt, tt));
    result = λ registers n hx hy ne.
        left_result d x y registers n (signed_quotient 64 (read registers x) (read registers y))
          (signed_remainder 64 (read registers x) (read registers y))
          (λ b a.
            (a + 2 ^ 64 - ((signed_quotient 64 (read registers x) (read registers y)) * b) % 2 ^ 64)
            % 2 ^ 64)
          nx ny ne (signed_left 64 (read registers x) (read registers y) hx hy);
  },
)
multiply_calls-Computes IT.remu h d x y nx ny = (
  _,
  refl,
  record {
    plain = (tt, (tt, tt));
    result = λ registers n hx hy ne.
        left_result d x y registers n
          (if (read registers y) == 0 then 0 else (read registers x) / (read registers y))
          (if (read registers y) == 0
            then (read registers x)
            else (read registers x) % (read registers y))
          (λ b a.
            (a
              + 2 ^ 64
              - ((if (read registers y) == 0 then 0 else (read registers x) / (read registers y))
                  * b)
                % 2 ^ 64)
            % 2 ^ 64)
          nx ny ne (unsigned_left 64 (read registers x) (read registers y) hx hy);
  },
)
multiply_calls-Computes IT.remw h d x y nx ny = (
  _,
  refl,
  record {
    plain = (tt, (tt, (tt, tt)));
    result = λ registers n hx hy ne.
        let low : u32 (signed_quotient 32 (u32 (read registers x)) (u32 (read registers y)))
            ≡ signed_quotient 32 (u32 (read registers x)) (u32 (read registers y)) =
          mod-eq_of_lt (signed_quotient-lt 32 (u32 (read registers x)) (u32 (read registers y))) in
        left_result32 d x y registers n
          (signed_quotient 32 (u32 (read registers x)) (u32 (read registers y)))
          (signed_remainder 32 (u32 (read registers x)) (u32 (read registers y)))
          (λ b a.
            (u32 a
              + 2 ^ 32
              - u32 (
                  u32 (signed_quotient 32 (u32 (read registers x)) (u32 (read registers y)))
                  * u32 b))
            % 2 ^ 32)
          nx ny ne
          (rw low (
            signed_left 32 (u32 (read registers x)) (u32 (read registers y)) (omega arith)
              (omega arith)))
          (signed_remainder-lt 32 (u32 (read registers x)) (u32 (read registers y)) (omega arith));
  },
)
multiply_calls-Computes IT.remuw h d x y nx ny = (
  _,
  refl,
  record {
    plain = (tt, (tt, (tt, tt)));
    result = λ registers n hx hy ne.
        let low : u32 (
              if (u32 (read registers y)) == 0
              then 0
              else (u32 (read registers x)) / (u32 (read registers y)))
            ≡ (if (u32 (read registers y)) == 0
                then 0
                else (u32 (read registers x)) / (u32 (read registers y))) =
          mod-eq_of_lt (ground (arith, div-le (u32 (read registers x)) (u32 (read registers y)))) in
        left_result32 d x y registers n
          (if (u32 (read registers y)) == 0
            then 0
            else (u32 (read registers x)) / (u32 (read registers y)))
          (if (u32 (read registers y)) == 0
            then (u32 (read registers x))
            else (u32 (read registers x)) % (u32 (read registers y)))
          (λ b a.
            (u32 a
              + 2 ^ 32
              - u32 (
                  u32 (
                    if (u32 (read registers y)) == 0
                    then 0
                    else (u32 (read registers x)) / (u32 (read registers y)))
                  * u32 b))
            % 2 ^ 32)
          nx ny ne
          (rw low (
            unsigned_left 32 (u32 (read registers x)) (u32 (read registers y)) (omega arith)
              (omega arith)))
          (ground (arith, mod-le (u32 (read registers x)) (u32 (read registers y))));
  },
)
multiply_calls-Computes _ h d x y nx ny = absurd h
