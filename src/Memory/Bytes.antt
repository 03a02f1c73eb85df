-- ===== src/Memory/Bytes.antt =====
-- Runs of bytes: memcpy as overwriting, and numbers as little-endian byte lists.
use native.Mathlib.Nat.{pow-suc, div-add-mod, mul_comm, div-div-eq-div-mul}
use riscv64_emulator.Prelude.{
  ℕ, zero, suc, ◌+◌, ◌-◌, ◌*◌, ◌/◌, ◌%◌, ◌^◌, ◌≤◌, ◌<◌, ◌≡◌, ◌⊎◌, refl, sym, ap, ◌∙◌, arith, List,
  [], ◌∷◌, length, get_or, All,
}
use riscv64_emulator.Memory.{bytes_at, overwrite, from_bytes, to_bytes}

pub bytes_at_ext :
    (f g : ℕ → ℕ) (start n : ℕ)
    → ((i : ℕ) → i < n → f (start + i) ≡ g (start + i))
    → bytes_at f start n ≡ bytes_at g start n
bytes_at_ext f g start zero h = refl
bytes_at_ext f g start (suc n) h =
    let first : start + 0 ≡ start = omega arith in
    let head : f start ≡ g start = rw first at (h 0 (omega arith)) in
    rw (
      head,
      bytes_at_ext f g (start + 1) n (λ i lt.
          let e : start + 1 + i ≡ start + suc i = omega arith in rw e (h (suc i) (omega arith))),
    )

pub bytes_at_of :
    (f : ℕ → ℕ) (bytes : List ℕ) (start : ℕ)
    → ((i : ℕ) → i < length bytes → f (start + i) ≡ get_or bytes i 0)
    → bytes_at f start (length bytes) ≡ bytes
bytes_at_of f [] start h = refl
bytes_at_of f (x ∷ xs) start h =
    let first : start + 0 ≡ start = omega arith in
    let head : f start ≡ x = rw first at (h 0 (omega arith)) in
    rw (
      head,
      bytes_at_of f xs (start + 1) (λ i lt.
          let e : start + 1 + i ≡ start + suc i = omega arith in rw e (h (suc i) (omega arith))),
    )

-- Reading back what was copied in.
pub bytes_at-overwrite :
    (raw : ℕ → ℕ) (start : ℕ) (bytes : List ℕ)
    → bytes_at (overwrite raw start (length bytes) (λ k. get_or bytes k 0)) start (length bytes)
      ≡ bytes
bytes_at-overwrite raw start bytes = bytes_at_of _ bytes start (λ i lt.
    let e : start + i - start ≡ i = omega arith in
    ground (arith, ap (λ (k : ℕ). get_or bytes k 0) e))

pub overwrite_outside :
    (raw : ℕ → ℕ) (start n : ℕ) (new : ℕ → ℕ) (j : ℕ)
    → (j < start) ⊎ (start + n ≤ j)
    → overwrite raw start n new j ≡ raw j
overwrite_outside raw start n new j h = ground arith

pub length-to_bytes : (n v : ℕ) → length (to_bytes n v) ≡ n
length-to_bytes zero v = refl
length-to_bytes (suc n) v = ap suc (length-to_bytes n (v / 256))

pub to_bytes-All : (n v : ℕ) → All (λ b. b < 256) (to_bytes n v)
to_bytes-All zero v = tt
to_bytes-All (suc n) v = (omega arith, to_bytes-All n (v / 256))

pub get_or-lt : (bytes : List ℕ) (i : ℕ) → All (λ b. b < 256) bytes → get_or bytes i 0 < 256
get_or-lt [] i h = omega arith
get_or-lt (x ∷ xs) zero h = h.0
get_or-lt (x ∷ xs) (suc i) h = get_or-lt xs i h.1

pub div-pow256 : (v n : ℕ) → v / 256 ^ suc n ≡ v / 256 / 256 ^ n
div-pow256 v n =
    rw (ap (λ (t : ℕ). v / t) (pow-suc 256 n ∙ mul_comm (256 ^ n) 256))
      (sym (div-div-eq-div-mul v 256 (256 ^ n)))

mod-pow256 : (v n : ℕ) → v % 256 ^ suc n ≡ v % 256 + v / 256 % 256 ^ n * 256
mod-pow256 v n = omega (
  arith,
  div-add-mod v (256 ^ suc n),
  div-add-mod (v / 256) (256 ^ n),
  ap (λ (t : ℕ). t * (v / 256 / 256 ^ n)) (pow-suc 256 n),
  ap (λ (t : ℕ). 256 ^ suc n * t) (div-pow256 v n),
)

pub from_bytes-to_bytes : (n v : ℕ) → from_bytes (to_bytes n v) ≡ v % 256 ^ n
from_bytes-to_bytes zero v = omega arith
from_bytes-to_bytes (suc n) v = omega (arith, mod-pow256 v n, from_bytes-to_bytes n (v / 256))

pub from_bytes-lt :
    (raw : ℕ → ℕ)
    → ((j : ℕ) → raw j < 256)
    → (start n : ℕ) → from_bytes (bytes_at raw start n) < 256 ^ n
from_bytes-lt raw small start zero = omega arith
from_bytes-lt raw small start (suc n) =
    omega (arith, small start, from_bytes-lt raw small (start + 1) n, pow-suc 256 n)
