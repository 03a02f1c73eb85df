-- ===== src/Jit/Aarch64/Remainders.antt =====
-- The remainder that msub leaves after a division (src/vm/jit/aarch64/CodeGenerator.cpp), with
-- negative numbers as their patterns below W.
use native.Mathlib.Nat.{
  div-add-mod', mod-eq_of_lt, mod-eq-sub-mod, mul-add-mod_self_left, mul_comm, add-mul,
}
use riscv64_emulator.Prelude.{
  ℕ, zero, suc, ◌+◌, ◌-◌, ◌*◌, ◌/◌, ◌%◌, ◌≤◌, ◌<◌, ◌≡◌, ap, ◌∙◌, sym, arith,
}

-- A negative factor makes the product negative.
neg-mul : (w k m : ℕ) → k ≤ w → k * m ≤ w → ((w - k) * m) % w ≡ (w - k * m) % w
neg-mul w k zero hk h = grind (arith, mul_comm k 0, mul_comm (w - k) 0)
neg-mul w k (suc m) hk h =
    let all : (w - k) * suc m + k * suc m ≡ w * suc m =
      sym (add-mul (w - k) k (suc m)) ∙ ap (λ (t : ℕ). t * suc m) (omega arith) in
    let split : (w - k) * suc m ≡ w * m + (w - k * suc m) = omega arith in
    ap (λ (t : ℕ). t % w) split ∙ mul-add-mod_self_left w m (w - k * suc m)

pub add-mod_self : (r w : ℕ) → r < w → (r + w) % w ≡ r
add-mod_self r w h =
    mod-eq-sub-mod (omega arith) ∙ ap (λ (t : ℕ). t % w) (omega arith) ∙ mod-eq_of_lt h

pub mod_self : (w : ℕ) → 0 < w → w % w ≡ 0
mod_self w h = ap (λ (t : ℕ). t % w) (omega arith) ∙ add-mod_self 0 w h

neg-neg_mul : (d k m : ℕ) → (d + m) * (d + k) ≡ (d + k + m) * d + k * m
neg-neg_mul d k m = grind (
  arith,
  add-mul d m (d + k),
  mul_comm m (d + k),
  add-mul d k m,
  mul_comm d (d + k),
  add-mul d k d,
  add-mul (d + k) m d,
  mul_comm d m,
)

-- What is left of x after a part p of it is taken away, as patterns.
rest-pos : (w p r : ℕ) → p + r < w → (p + r + w - p % w) % w ≡ r
rest-pos w p r h =
    let e : p % w ≡ p = mod-eq_of_lt (omega arith) in
    rw e (ap (λ (t : ℕ). t % w) (omega arith) ∙ add-mod_self r w (omega arith))

rest-neg : (w p r : ℕ) → p + r < w → (w - (p + r) + w - (w - p) % w) % w ≡ (w - r) % w
rest-neg w zero r h =
    let e : (w - 0) % w ≡ 0 = ap (λ (t : ℕ). t % w) (omega arith) ∙ mod_self w (omega arith) in
    rw e (mod-eq-sub-mod (omega arith) ∙ ap (λ (t : ℕ). t % w) (omega arith))
rest-neg w (suc p) r h =
    let e : (w - suc p) % w ≡ w - suc p = mod-eq_of_lt (omega arith) in
    rw e (ap (λ (t : ℕ). t % w) (omega arith))

-- The patterns' products.
sum-le_product : (k m : ℕ) → suc k + suc m ≤ suc k * suc m + 1
sum-le_product k m = grind (arith, add-mul k 1 (suc m), mul_comm k (suc m), add-mul m 1 k)

neg-neg_product : (w k m : ℕ) → k * m < w → 0 < m → m ≤ w → ((w - k) % w * (w - m)) % w ≡ k * m % w
neg-neg_product w zero m small pm hm =
    let e : (w - 0) % w ≡ 0 = ap (λ (t : ℕ). t % w) (omega arith) ∙ mod_self w (omega arith) in
    rw e (ap (λ (t : ℕ). t % w) (mul_comm 0 (w - m) ∙ (omega arith) ∙ mul_comm m 0))
neg-neg_product w (suc k) zero small pm hm = absurd (omega arith)
neg-neg_product w (suc k) (suc m) small pm hm =
    let below = sum-le_product k m in
    let e : (w - suc k) % w ≡ w - suc k = mod-eq_of_lt (omega arith) in
    let d = w - suc k - suc m in
    let whole : d + suc k + suc m ≡ w = omega arith in
    let left : w - suc k ≡ d + suc m = omega arith in
    let right : w - suc m ≡ d + suc k = omega arith in
    rw e (
      ap (λ (t : ℕ). t % w)
        (ap (λ (t : ℕ). t * (w - suc m)) left
          ∙ ap (λ (t : ℕ). (d + suc m) * t) right
          ∙ neg-neg_mul d (suc k) (suc m)
          ∙ ap (λ (t : ℕ). t * d + suc k * suc m) whole)
      ∙ mul-add-mod_self_left w d (suc k * suc m))

neg-pos_product : (w k m : ℕ) → k * m < w → 0 < m → k < w → ((w - k) % w * m) % w ≡ (w - k * m) % w
neg-pos_product w zero m small pm hk =
    let e : (w - 0) % w ≡ 0 = ap (λ (t : ℕ). t % w) (omega arith) ∙ mod_self w (omega arith) in
    rw e (
      ap (λ (t : ℕ). t % w) (mul_comm 0 m)
      ∙ (omega arith)
      ∙ sym (mod_self w (omega arith))
      ∙ ap (λ (t : ℕ). t % w) (omega (arith, mul_comm 0 m)))
neg-pos_product w (suc k) m small pm hk =
    let e : (w - suc k) % w ≡ w - suc k = mod-eq_of_lt (omega arith) in
    rw e (neg-mul w (suc k) m (omega arith) (omega arith))

-- The four signs; x is the dividend's magnitude and m the divisor's.
module _ (w x m : ℕ) (hx : x < w) (hm : m ≤ w) (pos_m : 0 < m) where
  whole : x / m * m + x % m ≡ x
  whole = div-add-mod' x m

  quotient-le : x / m ≤ x
  quotient-le = grind arith

  pub rem_pos-pos : (x + w - (x / m * m) % w) % w ≡ x % m
  rem_pos-pos =
      ap (λ (t : ℕ). (t + w - (x / m * m) % w) % w) (sym whole)
      ∙ rest-pos w (x / m * m) (x % m) (omega (arith, whole))

  pub rem_pos-neg : (x + w - ((w - x / m) % w * (w - m)) % w) % w ≡ x % m
  rem_pos-neg =
      ap (λ (t : ℕ). (x + w - t) % w) (neg-neg_product w (x / m) m (omega (arith, whole)) pos_m hm)
      ∙ rem_pos-pos

  negative : (w - x + w - (w - x / m * m) % w) % w ≡ (w - x % m) % w
  negative =
      ap (λ (t : ℕ). (w - t + w - (w - x / m * m) % w) % w) (sym whole)
      ∙ rest-neg w (x / m * m) (x % m) (omega (arith, whole))

  pub rem_neg-pos : (w - x + w - ((w - x / m) % w * m) % w) % w ≡ (w - x % m) % w
  rem_neg-pos =
      ap (λ (t : ℕ). (w - x + w - t) % w)
        (neg-pos_product w (x / m) m (omega (arith, whole)) pos_m (omega (arith, quotient-le)))
      ∙ negative

  pub rem_neg-neg : (w - x + w - (x / m * (w - m)) % w) % w ≡ (w - x % m) % w
  rem_neg-neg =
      ap (λ (t : ℕ). (w - x + w - t % w) % w) (mul_comm (x / m) (w - m))
      ∙ ap (λ (t : ℕ). (w - x + w - t) % w)
          (neg-mul w m (x / m) hm (omega (arith, whole, mul_comm m (x / m))))
      ∙ ap (λ (t : ℕ). (w - x + w - (w - t) % w) % w) (mul_comm m (x / m))
      ∙ negative
