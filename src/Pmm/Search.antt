-- ===== src/Pmm/Search.antt =====
-- The search loops of `pmm_alloc_frame`.
use my_os.Base.{
  ℕ, zero, suc, ◌+◌, ◌*◌, ◌/◌, ◌%◌, ◌≤◌, ◌<◌, ◌≡◌, refl, inl, inr, none, some, arith, ◌==◌,
  Bool-cases, Option-cases, ==_iff, sym, ◌∙◌, ◌⊎◌,
}
use my_os.Base.Bits.{bit, bit-le, bit_and-pow_test}
use my_os.Pmm.{Pmm, find_offset, find_frame}
use my_os.Pmm.Frames.{used}

pub find_offset-some :
    (n byte j k : ℕ) → find_offset n byte j ≡ some k → (j ≤ k) × (k < j + n) × (bit byte k ≡ 0)
unfolding find_offset
find_offset-some zero byte j k e = absurd (ground arith)
find_offset-some (suc n) byte j k e =
    ground (arith, bit_and-pow_test byte j, find_offset-some n byte (j + 1) k)

pub find_offset-none :
    (n byte j k : ℕ) → find_offset n byte j ≡ none → j ≤ k → k < j + n → bit byte k ≡ 1
unfolding find_offset
find_offset-none zero byte j k e lo hi = absurd (omega arith)
find_offset-none (suc n) byte j k e lo hi =
    ground (arith, bit_and-pow_test byte j, bit-le byte j, find_offset-none n byte (j + 1) k)

full_byte : (j : ℕ) → j < 8 → bit 0xFF j ≡ 1
unfolding find_offset
full_byte j h = find_offset-none 8 0xFF 0 j refl (omega arith) (omega arith)

-- One step of the outer loop, with what it has learnt of the byte.
find_frame_step :
    (n : ℕ) (s : Pmm) (i : ℕ)
    → ((j : ℕ) × (find_frame (suc n) s i ≡ some (i, j)) × (j < 8) × (bit (s.bitmap i) j ≡ 0))
      ⊎ ((find_frame (suc n) s i ≡ find_frame n s (i + 1))
          × ((j : ℕ) → j < 8 → bit (s.bitmap i) j ≡ 1))
unfolding find_frame
find_frame_step n s i = elim (Bool-cases (s.bitmap i == 0xFF)) [
  | inl full ↦ inr (ground arith, λ j h. rw ((==_iff (s.bitmap i) 0xFF).0 full) (full_byte j h))
  | inr room ↦ elim (Option-cases (find_offset 8 (s.bitmap i) 0)) [
    | inl used_up ↦ inr (
      ground arith,
      λ j h. find_offset-none 8 (s.bitmap i) 0 j used_up (omega arith) (omega arith),
    )
    | inr (j, found) ↦ inl (
      j,
      ground arith,
      ground (arith, find_offset-some 8 (s.bitmap i) 0 j),
      ground (arith, find_offset-some 8 (s.bitmap i) 0 j),
    )
  ]
]

-- A frame that the search returns lies in the range searched, and is free.
pub find_frame-some :
    (n : ℕ) (s : Pmm) (i k j : ℕ)
    → find_frame n s i ≡ some (k, j)
    → (i ≤ k) × (k < i + n) × (j < 8) × (bit (s.bitmap k) j ≡ 0)
unfolding find_frame
find_frame-some zero s i k j e = absurd (ground arith)
find_frame-some (suc n) s i k j e = elim (find_frame_step n s i) [
  | inl (j', here, lt, free) ↦ ground arith
  | inr (on, full) ↦ ground (arith, find_frame-some n s (i + 1) k j)
]

-- A search that returns nothing has seen every frame of its range in use.
pub find_frame-none :
    (n : ℕ) (s : Pmm) (i f : ℕ)
    → find_frame n s i ≡ none
    → i * 8 ≤ f
    → f < (i + n) * 8
    → used s f ≡ 1
unfolding used
find_frame-none zero s i f e lo hi = absurd (omega arith)
find_frame-none (suc n) s i f e lo hi = elim (find_frame_step n s i) [
  | inl (j', here, lt, free) ↦ absurd (ground arith)
  | inr (on, full) ↦ elim (Bool-cases (f / 8 == i)) [
    | inl here ↦ rw ((==_iff (f / 8) i).0 here) (full (f % 8) (omega arith))
    | inr later ↦ find_frame-none n s (i + 1) f (sym on ∙ e) (ground arith) (omega arith)
  ]
]
