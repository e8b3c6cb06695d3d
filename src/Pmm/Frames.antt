-- ===== src/Pmm/Frames.antt =====
-- The frames that the bitmap of memory/pmm.c marks, and the allocator's invariant.
use my_os.Base.{ℕ, ◌+◌, ◌*◌, ◌/◌, ◌%◌, ◌≤◌, ◌<◌, ◌≡◌, true, arith, ◌==◌, if◌then◌else◌}
use my_os.Base.Bits.{bit}
use my_os.Base.Masks.{bit-set, bit-clear, set-byte, clear-byte}
use my_os.Pmm.{Pmm, bitmap_size, has_last_free, pmm_mark_used, pmm_mark_free, calc_frame_addr}

-- 1 where frame number `f` is in use, 0 where it is free.
unfoldable pub used : Pmm → ℕ → ℕ
used s f = bit (s.bitmap (f / 8)) (f % 8)

pub record IsValid (s : Pmm) : Type 0 where
  pub bytes : (i : ℕ) → s.bitmap i < 256
  pub next_low : 1 ≤ s.last_alloc_index
  pub next_high : s.last_alloc_index < bitmap_size
  -- A remembered frame lies in the bitmap and is free.
  pub index_in : has_last_free s ≡ true → s.last_free_frame.index < bitmap_size
  pub offset_in : has_last_free s ≡ true → s.last_free_frame.offset < 8
  pub remembered :
      has_last_free s ≡ true → used s (s.last_free_frame.index * 8 + s.last_free_frame.offset) ≡ 0

pub used-mark_used :
    (s : Pmm) (a f : ℕ) → used (pmm_mark_used s a) f ≡ (if a / 4096 == f then 1 else used s f)
unfolding used pmm_mark_used
used-mark_used s a f = ground (arith, bit-set (s.bitmap (a / 4096 / 8)) (a / 4096 % 8) (f % 8))

pub used-mark_free :
    (s : Pmm) (a f : ℕ)
    → ((i : ℕ) → s.bitmap i < 256)
    → used (pmm_mark_free s a) f ≡ (if a / 4096 == f then 0 else used s f)
unfolding used pmm_mark_free
used-mark_free s a f bytes =
    ground (arith, bytes (a / 4096 / 8), bit-clear (s.bitmap (a / 4096 / 8)) (a / 4096 % 8) (f % 8))

pub bytes-mark_used :
    (s : Pmm) (a : ℕ) → ((i : ℕ) → s.bitmap i < 256) → (i : ℕ) → (pmm_mark_used s a).bitmap i < 256
unfolding pmm_mark_used
bytes-mark_used s a bytes i =
    ground (arith, bytes i, set-byte (s.bitmap (a / 4096 / 8)) (a / 4096 % 8), bytes (a / 4096 / 8))

pub bytes-mark_free :
    (s : Pmm) (a : ℕ) → ((i : ℕ) → s.bitmap i < 256) → (i : ℕ) → (pmm_mark_free s a).bitmap i < 256
unfolding pmm_mark_free
bytes-mark_free s a bytes i =
    ground (arith, bytes i, clear-byte (s.bitmap (a / 4096 / 8)) (a / 4096 % 8))

-- The address of a frame in the bitmap does not wrap, and leads back to the frame.
pub frame-calc_frame_addr :
    (i j : ℕ)
    → i < bitmap_size
    → j < 8
    → (calc_frame_addr i j ≡ (i * 8 + j) * 4096) × (calc_frame_addr i j / 4096 ≡ i * 8 + j)
unfolding calc_frame_addr
frame-calc_frame_addr i j hi hj = (omega arith, omega arith)
