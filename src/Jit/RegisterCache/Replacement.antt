-- ===== src/Jit/RegisterCache/Replacement.antt =====
-- Which slots `free_cache_slots` of src/vm/jit/aarch64/RegisterCache.cpp gives up.
use riscv64_emulator.Prelude.{
  ℕ, zero, suc, ◌+◌, ◌≤◌, ◌<◌, ◌≡◌, ◌≢◌, inl, inr, arith, ap, false, List, [], ◌∷◌, length, leb,
  ◌==◌, ◌&&◌, not, if◌then◌else◌, Bool-cases,
}
use riscv64_emulator.Prelude.Result.{ok, >>=-eq-ok, verify-eq-ok, not_enough_available_slots}
use riscv64_emulator.Jit.Assembler.{Assembler, Sort, Sorted, Least, count}
use riscv64_emulator.Jit.RegisterCache.{
  RegisterCache, Slot, cache_size, available_slots, evict_slot, evict, free_cache_slots,
}
use riscv64_emulator.Jit.RegisterCache.Reserving.{available-range}
use riscv64_emulator.Jit.RegisterCache.Evicting.{evicted, evict_slot-evicted}

Least-count :
    (key : ℕ → ℕ) (a b : ℕ) (bs : List ℕ) → Least key a bs → 0 < count b bs → key a ≤ key b
Least-count key a b [] l h = absurd (omega arith)
Least-count key a b (d ∷ bs) l h = elim (Bool-cases (b == d)) [
  | inl same ↦ let eq : b ≡ d = ground arith in rw eq l.0
  | inr differ ↦ Least-count key a b bs l.1 (ground arith)
]

-- A slot is listed if and only if it may be evicted.
available-listed :
    (asm : Assembler) (slots : ℕ → Slot) (left i j : ℕ)
    → (0 < count j (available_slots asm slots left i)
        → ((slots j).locked ≡ false) × ((slots j).reg ≢ 0))
      × (i ≤ j
          → j < i + left
          → (slots j).locked ≡ false
          → (slots j).reg ≢ 0
          → 0 < count j (available_slots asm slots left i))
unfolding available_slots
available-listed asm slots zero i j =
    (λ listed. absurd (omega arith), λ lo hi. absurd (omega arith))
available-listed asm slots (suc left) i j =
    ground (arith, available-listed asm slots left (i + 1) j)

module _ (asm : Assembler) where
  -- Eviction gives no slot a register.
  evict-empty :
      (n : ℕ) (order : List ℕ) (c c' : RegisterCache asm) (j : ℕ)
      → evict asm n order c ≡ ok c'
      → (c'.slots j).reg ≢ 0
      → (c.slots j).reg ≢ 0
  unfolding evict
  evict-empty zero order c c' j e busy = let same : c ≡ c' = cc in rw same busy
  evict-empty (suc n) [] c c' j e busy = cc
  evict-empty (suc n) (k ∷ order) c c' j e busy =
      let (d, first, rest) = >>=-eq-ok (evict_slot asm c k) _ e in
      let same : evicted asm c k ≡ d = evict_slot-evicted asm c k d first in
      let later = evict-empty n order (evicted asm c k) c' j (rw (← same) at rest) busy in
      ground (arith, later)

  evict-oldest :
      (key : ℕ → ℕ) (n : ℕ) (order : List ℕ) (c c' : RegisterCache asm) (i j : ℕ)
      → Sorted key order
      → evict asm n order c ≡ ok c'
      → (c.slots i).reg ≢ 0
      → (c'.slots i).reg ≡ 0
      → 0 < count j order
      → (c'.slots j).reg ≢ 0
      → (0 < count i order) × (key i ≤ key j)
  unfolding evict
  evict-oldest key zero order c c' i j s e busy gone listed kept =
      let same : c ≡ c' = cc in absurd (busy (rw same gone))
  evict-oldest key (suc n) [] c c' i j s e busy gone listed kept = cc
  evict-oldest key (suc n) (k ∷ order) c c' i j s e busy gone listed kept =
      let (d, first, rest) = >>=-eq-ok (evict_slot asm c k) _ e in
      let same : evicted asm c k ≡ d = evict_slot-evicted asm c k d first in
      let rest' : evict asm n order (evicted asm c k) ≡ ok c' = rw (← same) at rest in
      let later = evict-empty n order (evicted asm c k) c' j rest' kept in
      let behind : 0 < count j order = ground (arith, later) in
      elim (Bool-cases (i == k)) [
        | inl this ↦
            let eq : i ≡ k = ground arith in
            let le : key k ≤ key j = Least-count key k j order s.0 behind in
            (ground arith, omega (arith, le, ap key eq))
        | inr other ↦
            let tail =
              evict-oldest key n order (evicted asm c k) c' i j s.1 rest' (ground arith) gone behind
                kept in
            (ground (arith, tail.0), tail.1)
      ]

  evict-length :
      (n : ℕ) (order : List ℕ) (c c' : RegisterCache asm)
      → evict asm n order c ≡ ok c'
      → length c'.free_slots ≡ n + length c.free_slots
  unfolding evict
  evict-length zero order c c' e = let same : c ≡ c' = cc in rw same (ground arith)
  evict-length (suc n) [] c c' e = cc
  evict-length (suc n) (k ∷ order) c c' e =
      let (d, first, rest) = >>=-eq-ok (evict_slot asm c k) _ e in
      let same : evicted asm c k ≡ d = evict_slot-evicted asm c k d first in
      ground (arith, evict-length n order (evicted asm c k) c' (rw (← same) at rest))

  -- Only slots of the order lose their register.
  evict-listed :
      (n : ℕ) (order : List ℕ) (c c' : RegisterCache asm) (i : ℕ)
      → evict asm n order c ≡ ok c'
      → (c.slots i).reg ≢ 0
      → (c'.slots i).reg ≡ 0
      → 0 < count i order
  unfolding evict
  evict-listed zero order c c' i e busy gone =
      let same : c ≡ c' = cc in absurd (busy (rw same gone))
  evict-listed (suc n) [] c c' i e busy gone = cc
  evict-listed (suc n) (k ∷ order) c c' i e busy gone =
      let (d, first, rest) = >>=-eq-ok (evict_slot asm c k) _ e in
      let same : evicted asm c k ≡ d = evict_slot-evicted asm c k d first in
      let later = evict-listed n order (evicted asm c k) c' i (rw (← same) at rest) in
      ground (arith, later)

  -- Each evicted slot is then listed free once more, and no other slot is.
  evict-count :
      (n : ℕ) (order : List ℕ) (c c' : RegisterCache asm)
      → ((i : ℕ) → count i order ≤ 1)
      → ((i : ℕ) → 0 < count i order → (c.slots i).reg ≢ 0)
      → evict asm n order c ≡ ok c'
      → (i : ℕ)
      → count i c'.free_slots
        ≡ count i c.free_slots
          + (if not ((c.slots i).reg == 0) && (c'.slots i).reg == 0 then 1 else 0)
  unfolding evict
  evict-count zero order c c' once busy e i = let same : c ≡ c' = cc in rw same (ground arith)
  evict-count (suc n) [] c c' once busy e i = cc
  evict-count (suc n) (k ∷ order) c c' once busy e i =
      let (d, first, rest) = >>=-eq-ok (evict_slot asm c k) _ e in
      let same : evicted asm c k ≡ d = evict_slot-evicted asm c k d first in
      let rest' : evict asm n order (evicted asm c k) ≡ ok c' = rw (← same) at rest in
      let later =
        evict-count n order (evicted asm c k) c' (λ j. ground (arith, once j))
          (λ j listed. ground (arith, once j, busy j)) rest' i in
      let stays = evict-empty n order (evicted asm c k) c' i rest' in
      ground (arith, later, stays, busy i)

-- When `free_cache_slots` succeeds, it has freed as many slots as it was asked for: the free list is
-- longer by that many, and it has a slot once more than before just if the slot held a register and
-- holds none now. Those slots were not locked, and none of them was used later than an unlocked slot
-- that still holds a register.
pub free_cache_slots-oldest :
    (asm : Assembler) (std : Sort) (n : ℕ) (c c' : RegisterCache asm)
    → free_cache_slots asm std n c ≡ ok c'
    → (length c'.free_slots ≡ n + length c.free_slots)
      × ((i : ℕ)
          → count i c'.free_slots
            ≡ count i c.free_slots
              + (if not ((c.slots i).reg == 0) && (c'.slots i).reg == 0 then 1 else 0))
      × ((i : ℕ) → (c.slots i).reg ≢ 0 → (c'.slots i).reg ≡ 0 → (c.slots i).locked ≡ false)
      × ((i j : ℕ)
          → (c.slots i).reg ≢ 0
          → (c'.slots i).reg ≡ 0
          → j < 17
          → (c.slots j).locked ≡ false
          → (c'.slots j).reg ≢ 0
          → (c.slots i).last_use ≤ (c.slots j).last_use)
unfolding free_cache_slots
free_cache_slots-oldest asm std n c c' e =
    let ran = (verify-eq-ok (leb n (length available)) not_enough_available_slots _ e).1 in
    (
      evict-length asm n order c c' ran,
      evict-count asm n order c c'
          (λ i. rw (counted i) (available-range asm c.slots 17 0 i (omega arith)).1)
          (λ i listed.
            ((available-range asm c.slots 17 0 i (omega arith)).0 (rw (counted i) at listed)).2)
          ran,
      λ i busy gone.
          ((available-listed asm c.slots 17 0 i).0
            (rw (counted i) at (evict-listed asm n order c c' i ran busy gone))).0,
      λ i j busy gone range unlocked kept.
          let still = evict-empty asm n order c c' j ran kept in
          let listed =
            (available-listed asm c.slots 17 0 j).1 (omega arith) (omega arith) unlocked still in
          (evict-oldest asm key n order c c' i j (std.sort_ordered key available) ran busy gone
            (rw (counted j) listed) kept).1,
    )
  where
    available : List ℕ
    available = available_slots asm c.slots cache_size 0

    key : ℕ → ℕ
    key k = (c.slots k).last_use

    order : List ℕ
    order = std.sort key available

    counted : (i : ℕ) → count i order ≡ count i available
    counted i = std.sort_count key available i
