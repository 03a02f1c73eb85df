-- ===== src/Jit/Aarch64/Masks.antt =====
-- src/vm/jit/aarch64/CodeGenerator.cpp: the permission check of generated code, against the loop of
-- `verify_permissions` of src/vm/Memory.cpp.
use native.Mathlib.Nat.{pow-suc}
use riscv64_emulator.Prelude.{
  ℕ, zero, suc, ◌+◌, ◌*◌, ◌/◌, ◌^◌, ◌≤◌, ◌<◌, ◌≡◌, refl, ap, arith, Bool, true, false, ◌&&◌, ltb,
  ◌==◌, if◌then◌else◌, bit_and,
}
use riscv64_emulator.Prelude.Bits.{bit_and-le}
use riscv64_emulator.Prelude.Digits.{bit_and_step}
use riscv64_emulator.Prelude.Word.{u32}
use riscv64_emulator.Prelude.Result.{Result, ok}
use riscv64_emulator.Memory.{
  Memory, Flags, flag_read, flag_write, bytes_at, from_bytes, raw_size, permissions_loop,
}
use riscv64_emulator.Memory.Bytes.{from_bytes-lt}
use riscv64_emulator.Jit.A64.{Width, w32, w64, and_, result_of}
use riscv64_emulator.Jit.Aarch64.Accesses.{permission_mask, repeat_flags}

mul-pow_suc : (q k : ℕ) → q * 2 ^ suc k ≡ 2 * (q * 2 ^ k)
mul-pow_suc q k = omega (arith, ap (λ (t : ℕ). q * t) (pow-suc 2 k))

half_fields : (k x q : ℕ) → (x + q * 2 ^ suc k) / 2 ≡ x / 2 + q * 2 ^ k
half_fields k x q = omega (arith, mul-pow_suc q k)

-- Low and high digits are combined apart.
bit_and_fields :
    (k x y q r : ℕ)
    → x < 2 ^ k
    → y < 2 ^ k
    → bit_and (x + q * 2 ^ k) (y + r * 2 ^ k) ≡ bit_and x y + bit_and q r * 2 ^ k
bit_and_fields zero x y q r hx hy =
    let zx : x ≡ 0 = omega arith in
    let zy : y ≡ 0 = omega arith in
    let eq : x + q * 2 ^ 0 ≡ q = omega arith in
    let er : y + r * 2 ^ 0 ≡ r = omega arith in rw (eq, er) (omega (arith, bit_and-le x y))
bit_and_fields (suc k) x y q r hx hy = omega (
  arith,
  bit_and_step (x + q * 2 ^ suc k) (y + r * 2 ^ suc k),
  bit_and_step x y,
  mul-pow_suc q k,
  mul-pow_suc r k,
  mul-pow_suc (bit_and q r) k,
  ap (λ (t : ℕ). bit_and t ((y + r * 2 ^ suc k) / 2)) (half_fields k x q),
  ap (λ (t : ℕ). bit_and (x / 2 + q * 2 ^ k) t) (half_fields k y r),
  bit_and_fields k (x / 2) (y / 2) q r (omega (arith, pow-suc 2 k)) (omega (arith, pow-suc 2 k)),
)

-- The flags in each of n bytes.
abbrev repeated : ℕ → ℕ → ℕ
repeated zero f = 0
repeated (suc n) f = f + repeated n f * 256

bytes-cons :
    (x q f r : ℕ)
    → x < 256
    → f < 256
    → (bit_and (x + q * 256) (f + r * 256) == (f + r * 256))
      ≡ (bit_and x f == f && bit_and q r == r)
bytes-cons x q f r hx hf =
    let e = bit_and_fields 8 x f q r (omega arith) (omega arith) in
    let small = bit_and-le x f in rw e (ground arith)

-- The loop returns whether the permissions, as a number, have the mask's bits.
permissions_loop-mask :
    (m : Memory) (f n p : ℕ)
    → ((j : ℕ) → m.raw j < 256)
    → f < 256
    → p + n ≤ raw_size m
    → permissions_loop m f n p
      ≡ ok (bit_and (from_bytes (bytes_at m.raw p n)) (repeated n f) == repeated n f)
unfolding permissions_loop
permissions_loop-mask m f zero p small hf inside = refl
permissions_loop-mask m f (suc n) p small hf inside =
    let rest = permissions_loop-mask m f n (p + 1) small hf (omega arith) in
    let here : ltb p (raw_size m) ≡ true = ground arith in
    rw
      (
        here,
        rest,
        bytes-cons (m.raw p) (from_bytes (bytes_at m.raw (p + 1) n)) f (repeated n f) (small p) hf,
      )
      (go (bit_and (m.raw p) f == f) _)
  where
    go : (b c : Bool) → ◌≡◌ {A = Result Bool} (if b then ok c else ok false) (ok (b && c))
    go true c = refl
    go false c = refl

-- Four bytes fit a W register.
word_loop :
    (m : Memory) (f p : ℕ)
    → ((j : ℕ) → m.raw j < 256)
    → f < 256
    → p + 4 ≤ raw_size m
    → permissions_loop m f 4 p
      ≡ ok (bit_and (u32 (from_bytes (bytes_at m.raw p 4))) (repeated 4 f) == repeated 4 f)
word_loop m f p small hf inside =
    let fits : u32 (from_bytes (bytes_at m.raw p 4)) ≡ from_bytes (bytes_at m.raw p 4) =
      omega (arith, from_bytes-lt m.raw small p 4) in
    rw fits (permissions_loop-mask m f 4 p small hf inside)

-- What `cmp` reads of a register.
abbrev pub low : Width → ℕ → ℕ
low w64 x = x
low w32 x = u32 x

abbrev pub flag_of : Bool → Flags
flag_of write = if write then flag_write else flag_read

-- For an access of 1, 2, 4 or 8 bytes, to read or to write, whose permissions lie in the allocation:
-- there is a mask, and the comparison of the generated code, of the permissions under the mask with
-- the mask, in the width chosen, succeeds exactly when the loop over the bytes accepts every byte.
pub permission_mask-permissions_loop :
    (m : Memory) (write : Bool) (size_log2 p : ℕ)
    → ((j : ℕ) → m.raw j < 256)
    → size_log2 < 4
    → p + 2 ^ size_log2 ≤ raw_size m
    → (mask : ℕ) × (width : Width) × (permission_mask (flag_of write) size_log2 ≡ ok (mask, width))
      × (permissions_loop m (flag_of write) (2 ^ size_log2) p
          ≡ ok (
              result_of width and_ (from_bytes (bytes_at m.raw p (2 ^ size_log2))) mask
              == low width mask))
unfolding permission_mask repeat_flags
permission_mask-permissions_loop m true zero p small hs inside =
    (2, w64, refl, permissions_loop-mask m 2 1 p small (omega arith) inside)
permission_mask-permissions_loop m true (suc zero) p small hs inside =
    (514, w64, refl, permissions_loop-mask m 2 2 p small (omega arith) inside)
permission_mask-permissions_loop m true (suc (suc zero)) p small hs inside =
    (144680345676153346, w32, refl, word_loop m 2 p small (omega arith) inside)
permission_mask-permissions_loop m true (suc (suc (suc zero))) p small hs inside =
    (144680345676153346, w64, refl, permissions_loop-mask m 2 8 p small (omega arith) inside)
permission_mask-permissions_loop m false zero p small hs inside =
    (1, w64, refl, permissions_loop-mask m 1 1 p small (omega arith) inside)
permission_mask-permissions_loop m false (suc zero) p small hs inside =
    (257, w64, refl, permissions_loop-mask m 1 2 p small (omega arith) inside)
permission_mask-permissions_loop m false (suc (suc zero)) p small hs inside =
    (72340172838076673, w32, refl, word_loop m 1 p small (omega arith) inside)
permission_mask-permissions_loop m false (suc (suc (suc zero))) p small hs inside =
    (72340172838076673, w64, refl, permissions_loop-mask m 1 8 p small (omega arith) inside)
permission_mask-permissions_loop m write (suc (suc (suc (suc k)))) p small hs inside =
    absurd (omega arith)
