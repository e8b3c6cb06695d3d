-- ===== src/Disk/Slots/Search.antt =====
-- The search loops of `disk_alloc_slots`.
use my_os.Base.{
  ℕ, zero, suc, ◌+◌, ◌*◌, ◌%◌, ◌^◌, ◌≤◌, ◌<◌, ◌≡◌, arith, true, false, ◌&&◌, none, some,
  Option-cases, inl, inr,
}
use my_os.Disk.Slots.{is_slot_free, are_slots_free, find_in_byte, find_run}

pub find_in_byte-some :
    (n : ℕ) (b : ℕ → ℕ) (num i j slot : ℕ)
    → i * 8 + j + n < 2 ^ 32
    → find_in_byte n b num i j ≡ some slot
    → (i * 8 + j ≤ slot) × (slot < i * 8 + j + n) × (are_slots_free b slot num ≡ true)
unfolding find_in_byte
find_in_byte-some zero b num i j slot fits e = absurd (ground arith)
find_in_byte-some (suc n) b num i j slot fits e =
    let here : (i * 8 + j) % 2 ^ 32 ≡ i * 8 + j = omega arith in
    ground (arith, find_in_byte-some n b num i (j + 1) slot)

pub find_in_byte-none :
    (n : ℕ) (b : ℕ → ℕ) (num i j k : ℕ)
    → i * 8 + j + n < 2 ^ 32
    → find_in_byte n b num i j ≡ none
    → i * 8 + j ≤ k
    → k < i * 8 + j + n
    → (is_slot_free b k && are_slots_free b k num) ≡ false
unfolding find_in_byte
find_in_byte-none zero b num i j k fits e lo hi = absurd (omega arith)
find_in_byte-none (suc n) b num i j k fits e lo hi =
    let here : (i * 8 + j) % 2 ^ 32 ≡ i * 8 + j = omega arith in
    ground (arith, find_in_byte-none n b num i (j + 1) k)

pub find_run-some :
    (n : ℕ) (b : ℕ → ℕ) (num i slot : ℕ)
    → (i + n) * 8 < 2 ^ 32
    → find_run n b num i ≡ some slot
    → (slot < (i + n) * 8) × (are_slots_free b slot num ≡ true)
unfolding find_run
find_run-some zero b num i slot fits e = absurd (ground arith)
find_run-some (suc n) b num i slot fits e = elim (Option-cases (find_in_byte 8 b num i 0)) [
  | inl on ↦ ground (arith, find_run-some n b num (i + 1) slot)
  | inr (k, here) ↦ ground (arith, find_in_byte-some 8 b num i 0 k)
]

pub find_run-none :
    (n : ℕ) (b : ℕ → ℕ) (num i k : ℕ)
    → (i + n) * 8 < 2 ^ 32
    → find_run n b num i ≡ none
    → i * 8 ≤ k
    → k < (i + n) * 8
    → (is_slot_free b k && are_slots_free b k num) ≡ false
unfolding find_run
find_run-none zero b num i k fits e lo hi = absurd (omega arith)
find_run-none (suc n) b num i k fits e lo hi = elim (Option-cases (find_in_byte 8 b num i 0)) [
  | inl on ↦ ground (arith, find_in_byte-none 8 b num i 0 k, find_run-none n b num (i + 1) k)
  | inr (m, here) ↦ absurd (ground arith)
]
