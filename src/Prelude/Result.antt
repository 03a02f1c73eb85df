-- ===== src/Prelude/Result.antt =====
-- What a C++ operation ends in: a value, a failed `verify` / `fatal_error` (base/Error.hpp, which
-- never returns), or behaviour that the language leaves undefined.
use mathlib.Core.Bool.{Bool, true, false}
use mathlib.Core.Path.{◌≡◌, refl}

-- The message given to `verify` or `fatal_error`.
pub data Message : Type 0 where
  entered_unreachable_code multiply_high_not_supported vmexit_not_filled : Message
  reading_out_of_bounds invalid_elf_magic not_64_bit not_little_endian not_executable_file : Message
  unexpected_phe_size no_entrypoint image_base_zero image_base_not_aligned : Message
  writing_segment_failed setting_permissions_failed : Message
  out_of_executable_memory writing_out_of_bounds guest_address_misaligned : Message
  invalid_platform_register register_number_too_large register_does_not_fit static_vector_full :
      Message
  register_cache_full not_enough_available_slots not_part_of_cache register_locked : Message
  same_register unknown_instruction : Message

pub data Result {ℓ} (A : Type ℓ) : Type ℓ where
  ok : A → Result A
  fatal : Message → Result A
  undefined_behaviour : Result A

-- A failed `verify` and undefined behaviour end the whole operation.
infixl 5 ◌>>=◌
abbrev pub ◌>>=◌ {ℓ κ} : {B : Type κ} {A : Type ℓ} → Result A → (A → Result B) → Result B
undefined_behaviour >>= next = undefined_behaviour
fatal message >>= next = fatal message
ok value >>= next = next value

infixl 5 ◌>>◌
abbrev pub ◌>>◌ {ℓ} : {B : Type ℓ} → Result (Unit {0}) → Result B → Result B
undefined_behaviour >> rest = undefined_behaviour
fatal message >> rest = fatal message
ok _ >> rest = rest

-- `verify(value, message)`.
abbrev pub verify : Bool → Message → Result (Unit {0})
verify true m = ok tt
verify false m = fatal m

-- A chain that succeeds has a first part that does.
pub >>=-eq-ok {ℓ κ} :
    {B : Type κ} {A : Type ℓ} (first : Result A) (next : A → Result B) {value : B}
    → (first >>= next) ≡ ok value
    → (between : A) × (first ≡ ok between) × (next between ≡ ok value)
>>=-eq-ok undefined_behaviour next succeeds = cc
>>=-eq-ok (fatal message) next succeeds = cc
>>=-eq-ok (ok between) next succeeds = (between, refl, succeeds)

pub verify-eq-ok {ℓ} :
    {B : Type ℓ} (test : Bool) (m : Message) (rest : Result B) {b : B}
    → (verify test m >> rest) ≡ ok b
    → (test ≡ true) × (rest ≡ ok b)
verify-eq-ok true m rest h = (refl, h)
verify-eq-ok false m rest h = cc
