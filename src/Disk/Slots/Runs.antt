-- ===== src/Disk/Slots/Runs.antt =====
-- Runs of slots: testing, marking and freeing them.
use my_os.Base.{
  ℕ, zero, suc, ◌+◌, ◌/◌, ◌%◌, ◌^◌, ◌≤◌, ◌<◌, ◌≡◌, refl, arith, true, ◌==◌, ltb, leb, ◌&&◌,
  if◌then◌else◌, Bool, Bool-cases, inl, inr,
}
use my_os.Base.Bits.{bit, bit_and-pow_test}
use my_os.Base.Masks.{bit-set, bit-clear, clear-byte}
use my_os.Disk.Slots.{
  is_slot_free, disk_mark_used, disk_mark_free, run_is_free, mark_slots_used, mark_slots_free,
  are_slots_free,
}

-- 1 where a slot is in use, 0 where it is free.
unfoldable pub used : (ℕ → ℕ) → ℕ → ℕ
used b slot = bit (b (slot / 8)) (slot % 8)

-- The slots from `start` on, `count` of them.
abbrev pub in_run : (start count k : ℕ) → Bool
in_run start count k = leb start k && ltb k (start + count)

pub is_slot_free-used : (b : ℕ → ℕ) (slot : ℕ) → is_slot_free b slot ≡ true → used b slot ≡ 0
unfolding is_slot_free used
is_slot_free-used b slot e = ground (arith, bit_and-pow_test (b (slot / 8)) (slot % 8))

pub run_is_free-used :
    (n : ℕ) (b : ℕ → ℕ) (slot k : ℕ)
    → slot + n < 2 ^ 32
    → run_is_free n b slot ≡ true
    → slot ≤ k
    → k < slot + n
    → used b k ≡ 0
unfolding run_is_free
run_is_free-used zero b slot k fits e lo hi = absurd (omega arith)
run_is_free-used (suc n) b slot k fits e lo hi =
    let on : (slot + 1) % 2 ^ 32 ≡ slot + 1 = omega arith in
    elim (Bool-cases (slot == k)) [
      | inl here ↦ ground (arith, is_slot_free-used b slot)
      | inr later ↦
          run_is_free-used n b (slot + 1) k (omega arith) (ground arith) (ground arith)
            (omega arith)
    ]

used-is_slot_free : (b : ℕ → ℕ) (slot : ℕ) → used b slot ≡ 0 → is_slot_free b slot ≡ true
unfolding is_slot_free used
used-is_slot_free b slot e = ground (arith, bit_and-pow_test (b (slot / 8)) (slot % 8))

pub used-run_is_free :
    (n : ℕ) (b : ℕ → ℕ) (slot : ℕ)
    → slot + n < 2 ^ 32
    → ((k : ℕ) → slot ≤ k → k < slot + n → used b k ≡ 0)
    → run_is_free n b slot ≡ true
unfolding run_is_free
used-run_is_free zero b slot fits free = refl
used-run_is_free (suc n) b slot fits free =
    let on : (slot + 1) % 2 ^ 32 ≡ slot + 1 = omega arith in
    rw (on, used-is_slot_free b slot (free slot (omega arith) (omega arith)))
      (used-run_is_free n b (slot + 1) (omega arith)
        (λ k lo hi. free k (omega arith) (omega arith)))

-- What `are_slots_free` tests, where the run does not reach past 2 ^ 32.
pub are_slots_free-used :
    (b : ℕ → ℕ) (start count : ℕ)
    → start + count < 2 ^ 32
    → are_slots_free b start count ≡ true
    → (start + count ≤ 800000) × ((k : ℕ) → start ≤ k → k < start + count → used b k ≡ 0)
unfolding are_slots_free
are_slots_free-used b start count fits e =
    (ground arith, λ k lo hi. run_is_free-used count b start k fits (ground arith) lo hi)

pub used-are_slots_free :
    (b : ℕ → ℕ) (start count : ℕ)
    → 0 < count
    → start + count ≤ 800000
    → ((k : ℕ) → start ≤ k → k < start + count → used b k ≡ 0)
    → (is_slot_free b start && are_slots_free b start count) ≡ true
unfolding are_slots_free
used-are_slots_free b start count some_of fits free = ground (
  arith,
  used-run_is_free count b start (omega arith) free,
  used-is_slot_free b start (free start (omega arith) (omega arith)),
)

pub used-disk_mark_used :
    (b : ℕ → ℕ) (a k : ℕ) → used (disk_mark_used b a) k ≡ (if a == k then 1 else used b k)
unfolding used disk_mark_used
used-disk_mark_used b a k = ground (arith, bit-set (b (a / 8)) (a % 8) (k % 8))

pub used-mark_slots_used :
    (n start : ℕ) (b : ℕ → ℕ) (k : ℕ)
    → start + n < 2 ^ 32
    → used (mark_slots_used n start b) k ≡ (if in_run start n k then 1 else used b k)
unfolding mark_slots_used
used-mark_slots_used zero start b k fits = ground arith
used-mark_slots_used (suc n) start b k fits =
    let on : (start + 1) % 2 ^ 32 ≡ start + 1 = omega arith in
    rw on (
      ground (
        arith,
        used-mark_slots_used n (start + 1) (disk_mark_used b start) k (omega arith),
        used-disk_mark_used b start k,
      ))

pub used-disk_mark_free :
    (b : ℕ → ℕ) (a k : ℕ)
    → ((i : ℕ) → b i < 256)
    → used (disk_mark_free b a) k ≡ (if a == k then 0 else used b k)
unfolding used disk_mark_free
used-disk_mark_free b a k bytes =
    ground (arith, bytes (a / 8), bit-clear (b (a / 8)) (a % 8) (k % 8))

pub bytes-disk_mark_free :
    (b : ℕ → ℕ) (a : ℕ) → ((i : ℕ) → b i < 256) → (i : ℕ) → disk_mark_free b a i < 256
unfolding disk_mark_free
bytes-disk_mark_free b a bytes i =
    ground (arith, bytes i, clear-byte (b (a / 8)) (a % 8), bytes (a / 8))

pub used-mark_slots_free :
    (n start : ℕ) (b : ℕ → ℕ) (k : ℕ)
    → ((i : ℕ) → b i < 256)
    → start + n < 2 ^ 32
    → used (mark_slots_free n start b) k ≡ (if in_run start n k then 0 else used b k)
unfolding mark_slots_free
used-mark_slots_free zero start b k bytes fits = ground arith
used-mark_slots_free (suc n) start b k bytes fits =
    let on : (start + 1) % 2 ^ 32 ≡ start + 1 = omega arith in
    rw on (
      ground (
        arith,
        used-mark_slots_free n (start + 1) (disk_mark_free b start) k
            (bytes-disk_mark_free b start bytes) (omega arith),
        used-disk_mark_free b start k bytes,
      ))
