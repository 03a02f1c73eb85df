-- ===== src/Jit/Aarch64/SignedRemainder.antt =====
-- Signed remainders by msub (src/vm/jit/aarch64/CodeGenerator.cpp), against remainders on integers.
use native.Mathlib.Nat.{mod-eq_of_lt, one-le-pow}
use riscv64_emulator.Prelude.{
  ℕ, zero, suc, ◌+◌, ◌-◌, ◌*◌, ◌/◌, ◌%◌, ◌^◌, ◌≤◌, ◌<◌, ◌≡◌, ◌≢◌, refl, ap, ◌∙◌, sym, arith, Bool,
  true, false, ltb, if◌then◌else◌,
}
use riscv64_emulator.Prelude.Word.{signed, to_word, pos, negsuc, negate, quot, rem}
use riscv64_emulator.Jit.Aarch64.Remainders.{
  mod_self, rem_pos-pos, rem_pos-neg, rem_neg-pos, rem_neg-neg,
}

pub div-le : (a b : ℕ) → a / b ≤ a
div-le a b = grind arith

pub mod-le : (a b : ℕ) → a % b ≤ a
mod-le a b = grind arith

minus_zero : (a : ℕ) → a - 0 ≡ a
minus_zero a = omega arith

to_word-negate : (w k : ℕ) → k ≤ 2 ^ w → to_word w (negate k) ≡ (2 ^ w - k) % 2 ^ w
to_word-negate w zero h =
    let p : 1 ≤ 2 ^ w = omega (arith, one-le-pow w 2) in
    mod-eq_of_lt p ∙ sym (mod_self (2 ^ w) p) ∙ ap (λ (t : ℕ). t % 2 ^ w) (sym (minus_zero (2 ^ w)))
to_word-negate w (suc k) h =
    let low : k % 2 ^ w ≡ k = mod-eq_of_lt h in
    let all : (2 ^ w - suc k) % 2 ^ w ≡ 2 ^ w - suc k = mod-eq_of_lt (omega arith) in
    rw (low, all) (omega arith)

small-mod : (x m w : ℕ) → x < w → 0 < m → x % m % w ≡ x % m
small-mod x m w hx hm = mod-eq_of_lt (omega (arith, mod-le x m))

small-div : (x m w : ℕ) → x < w → x / m % w ≡ x / m
small-div x m w hx = mod-eq_of_lt (omega (arith, div-le x m))

pub rem-signed :
    (w a b : ℕ)
    → a < 2 ^ w
    → b < 2 ^ w
    → b ≢ 0
    → (a + 2 ^ w - (to_word w (quot (signed w a) (signed w b)) * b) % 2 ^ w) % 2 ^ w
      ≡ to_word w (rem (signed w a) (signed w b))
rem-signed w a b ha hb nz =
    go (ltb a (2 ^ (w - 1))) (ltb b (2 ^ (w - 1))) (λ e. ground (arith, one-le-pow (w - 1) 2))
  where
    go :
        (s t : Bool)
        → (s ≡ false → 0 < a)
        → (let x = if s then pos a else negsuc (2 ^ w - 1 - a) in
            let y = if t then pos b else negsuc (2 ^ w - 1 - b) in
            (a + 2 ^ w - (to_word w (quot x y) * b) % 2 ^ w) % 2 ^ w ≡ to_word w (rem x y))
    go true true p =
        rw (small-div a b (2 ^ w) ha, small-mod a b (2 ^ w) ha (omega arith))
          (rem_pos-pos (2 ^ w) a b ha (omega arith) (omega arith))
    go true false p =
        let m = suc (2 ^ w - 1 - b) in
        let pattern_b : b ≡ 2 ^ w - m = omega arith in
        rw
          (
            to_word-negate w (a / m) (omega (arith, div-le a m)),
            small-mod a m (2 ^ w) ha (omega arith),
          )
          (ap (λ (t : ℕ). (a + 2 ^ w - (2 ^ w - a / m) % 2 ^ w * t % 2 ^ w) % 2 ^ w) pattern_b
            ∙ rem_pos-neg (2 ^ w) a m ha (omega arith) (omega arith))
    go false true p =
        let x = suc (2 ^ w - 1 - a) in
        let hx : x < 2 ^ w = omega (arith, p refl) in
        let pattern_a : a ≡ 2 ^ w - x = omega arith in
        rw
          (
            to_word-negate w (x / b) (omega (arith, div-le x b)),
            to_word-negate w (x % b) (omega (arith, mod-le x b)),
          )
          (ap (λ (t : ℕ). (t + 2 ^ w - (2 ^ w - x / b) % 2 ^ w * b % 2 ^ w) % 2 ^ w) pattern_a
            ∙ rem_neg-pos (2 ^ w) x b hx (omega arith) (omega arith))
    go false false p =
        let x = suc (2 ^ w - 1 - a) in
        let m = suc (2 ^ w - 1 - b) in
        let hx : x < 2 ^ w = omega (arith, p refl) in
        let pattern_a : a ≡ 2 ^ w - x = omega arith in
        let pattern_b : b ≡ 2 ^ w - m = omega arith in
        rw (small-div x m (2 ^ w) hx, to_word-negate w (x % m) (omega (arith, mod-le x m)))
          (ap (λ (t : ℕ). (t + 2 ^ w - x / m * b % 2 ^ w) % 2 ^ w) pattern_a
            ∙ ap (λ (t : ℕ). (2 ^ w - x + 2 ^ w - x / m * t % 2 ^ w) % 2 ^ w) pattern_b
            ∙ rem_neg-neg (2 ^ w) x m hx (omega arith) (omega arith))
