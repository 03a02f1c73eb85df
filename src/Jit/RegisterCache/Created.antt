-- ===== src/Jit/RegisterCache/Created.antt =====
-- The constructor of src/vm/jit/aarch64/RegisterCache.cpp.
use riscv64_emulator.Prelude.{
  ℕ, zero, suc, ◌+◌, ◌≤◌, ◌<◌, ◌≡◌, ◌≢◌, inl, inr, refl, ap, ◌∙◌, arith, true, false, ◌&&◌, ◌∷◌,
  some, none, ltb, leb, ◌==◌, if◌then◌else◌, Bool-cases,
}
use riscv64_emulator.Prelude.Result.{ok}
use riscv64_emulator.Jit.Assembler.{xreg, Assembler, count}
use riscv64_emulator.Jit.RegisterCache.{RegisterCache, host, update, empty_slot}
use riscv64_emulator.Jit.RegisterCache.Release.{add_slots, create}
use riscv64_emulator.Jit.RegisterCache.Coherence.{Tracks, host_injective}
use riscv64_emulator.Jit.RegisterCache.Unlocking.{KnowsHosts, host_lt}

-- One round of the constructor's loop.
added : (asm : Assembler) → ℕ → RegisterCache asm → RegisterCache asm
added asm i c = record c {
  platform_register_to_slot =
      update c.platform_register_to_slot (asm.number (xreg (host i))) (some i);
  free_slots = i ∷ c.free_slots;
}

-- The host registers of the slots below n are known.
abbrev KnowsBelow : {asm : Assembler} → ℕ → RegisterCache asm → Type 0
KnowsBelow {asm} n c =
    (j : ℕ) → j < n → c.platform_register_to_slot (asm.number (xreg (host j))) ≡ some j

-- What the rounds for the slots from i on do.
record Added (asm : Assembler) (left i : ℕ) (c c' : RegisterCache asm) : Type 0 where
  code : c'.as_code ≡ c.as_code
  slots : c'.slots ≡ c.slots
  mapping : c'.register_to_slot ≡ c.register_to_slot
  free :
      (j : ℕ)
      → count j c'.free_slots
        ≡ count j c.free_slots + (if leb i j && ltb j (i + left) then 1 else 0)
  knows : KnowsBelow (i + left) c'

module _ (asm : Assembler) where
  number-differs :
      (i j : ℕ) → i < 17 → j < 17 → j ≢ i → asm.number (xreg (host j)) ≢ asm.number (xreg (host i))
  number-differs i j hi hj differ e =
      let same : xreg (host j) ≡ xreg (host i) = asm.number_injective _ _ e in
      let hosts : host j ≡ host i = cc in differ (host_injective j i hj hi hosts)

  added-KnowsBelow :
      (i : ℕ) (c : RegisterCache asm) → i < 17 → KnowsBelow i c → KnowsBelow (i + 1) (added asm i c)
  unfolding added
  added-KnowsBelow i c h knows j below = elim (Bool-cases (j == i)) [
    | inl hit ↦
        let same : j ≡ i = ground arith in ground (arith, ap (λ k. asm.number (xreg (host k))) same)
    | inr differ ↦ ground (arith, number-differs i j h, knows j)
  ]

  add_slots-Added :
      (left i : ℕ) (c : RegisterCache asm)
      → i + left ≤ 17
      → KnowsBelow i c
      → (c' : RegisterCache asm) × (add_slots asm left i c ≡ ok c') × Added asm left i c c'
  unfolding add_slots added
  add_slots-Added zero i c h knows = (
    c,
    refl,
    record {
      code = refl;
      slots = refl;
      mapping = refl;
      free = λ j. ground arith;
      knows = λ j below. knows j (omega arith);
    },
  )
  add_slots-Added (suc left) i c h knows =
      let (c', e, a) =
        add_slots-Added left (i + 1) (added asm i c) (omega arith)
          (added-KnowsBelow i c (omega arith) knows) in
      let fits : ltb (asm.number (xreg (host i))) 32 ≡ true =
        ground (arith, asm.number_lt (host i) (host_lt i (omega arith))) in
      (
        c',
        rw fits e,
        record {
          code = a.code;
          slots = a.slots;
          mapping = a.mapping;
          free = λ j. ground (arith, a.free j);
          knows = λ j below. a.knows j (omega arith);
        },
      )

-- The constructor succeeds and emits nothing; every slot of the new cache is on the free list
-- once, holds no register and is not locked, no register is mapped to a slot, and every host register
-- is known.
pub create-Tracks :
    (asm : Assembler) (as_code : asm.Code) (guest : ℕ → ℕ)
    → ((r : ℕ) → asm.table as_code r ≡ guest r)
    → (c : RegisterCache asm) × (create asm as_code ≡ ok c)
      × Tracks asm (λ _. false) c guest
      × KnowsHosts c
      × (c.as_code ≡ as_code)
      × ((i : ℕ) → i < 17 → count i c.free_slots ≡ 1)
      × ((i : ℕ) → c.slots i ≡ empty_slot)
      × ((r : ℕ) → c.register_to_slot r ≡ none)
unfolding create
create-Tracks asm as_code guest start =
    let (c, e, a) = add_slots-Added asm 17 0 _ (omega arith) (λ j h. absurd (omega arith)) in
    (
      c,
      e,
      record {
        slot_mapped = λ i h busy. absurd (busy (ap (λ s. (s i).reg) a.slots));
        mapped_slot = λ r i m. let e2 = ap (λ f. f r) a.mapping in absurd (ground arith);
        free_empty = λ i h. let e2 = ap (λ s. (s i).reg) a.slots in ground (arith, a.free i);
        free_once = λ i. ground (arith, a.free i);
        empty_clean = λ i h. ap (λ s. (s i).dirty) a.slots;
        absent = λ r small busy h. ap (λ k. asm.table k r) a.code ∙ start r;
        clean = λ r i m h. ap (λ k. asm.table k r) a.code ∙ start r;
        cached = λ r i m h. let e2 = ap (λ f. f r) a.mapping in absurd (ground arith);
        written = λ r i m h. refl;
      },
      λ j h. a.knows j (omega arith),
      a.code,
      λ i h. ground (arith, a.free i),
      λ i. ap (λ s. s i) a.slots,
      λ r. ap (λ f. f r) a.mapping,
    )
