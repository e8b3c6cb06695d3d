-- ===== src/Pmm/Alloc.antt =====
-- What `pmm_alloc_frame` hands out.
use my_os.Base.{
  ℕ, ◌-◌, ◌*◌, ◌/◌, ◌%◌, ◌≤◌, ◌<◌, ◌≡◌, refl, ◌⊎◌, inl, inr, true, false, arith, ◌==◌,
  if◌then◌else◌, Bool-cases, Option-cases, ltb, ltb→lt, ltb→le,
}
use my_os.Base.Bits.{bit}
use my_os.Pmm.{
  Pmm, bitmap_size, no_frame_available, no_last_free, has_last_free, calc_frame_addr, pmm_mark_used,
  find_frame, take_frame, reuse_last_free, next_fit, pmm_alloc_frame,
}
use my_os.Pmm.Frames.{used, IsValid, used-mark_used, bytes-mark_used, frame-calc_frame_addr}
use my_os.Pmm.Search.{find_frame-some, find_frame-none}

-- The step from `s` to `s'` hands out the frame at address `a`, and changes no other frame.
pub record Allocated (s : Pmm) (a : ℕ) (s' : Pmm) : Type 0 where
  pub aligned : a % 4096 ≡ 0
  pub in_range : a / 4096 < bitmap_size * 8
  pub was_free : used s (a / 4096) ≡ 0
  pub marks : (f : ℕ) → used s' f ≡ (if a / 4096 == f then 1 else used s f)
  pub valid : IsValid s'

-- No frame outside the first index of the bitmap is free.
abbrev pub Exhausted : Pmm → Type 0
Exhausted s = (f : ℕ) → 8 ≤ f → f < bitmap_size * 8 → used s f ≡ 1

pub forgetful-IsValid :
    (t : Pmm)
    → ((i : ℕ) → t.bitmap i < 256)
    → 1 ≤ t.last_alloc_index
    → t.last_alloc_index < bitmap_size
    → has_last_free t ≡ false
    → IsValid t
forgetful-IsValid t bytes lo hi no_last = record {
  bytes = bytes;
  next_low = lo;
  next_high = hi;
  index_in = λ h. cc;
  offset_in = λ h. cc;
  remembered = λ h. cc;
}

module _ {s : Pmm} (v : IsValid s) where
  take_frame-Allocated :
      (i j : ℕ)
      → has_last_free s ≡ false
      → 1 ≤ i
      → i < bitmap_size
      → j < 8
      → bit (s.bitmap i) j ≡ 0
      → Allocated s (take_frame s i j).0 (take_frame s i j).1
  unfolding take_frame used has_last_free
  take_frame-Allocated i j no_last lo hi hj free =
      let a = calc_frame_addr i j in
      let e = frame-calc_frame_addr i j hi hj in
      record {
        aligned = omega (arith, e);
        in_range = omega (arith, e);
        was_free =
            let p : calc_frame_addr i j / 4096 / 8 ≡ i = omega (arith, e) in
            let q : calc_frame_addr i j / 4096 % 8 ≡ j = omega (arith, e) in rw (p, q) free;
        marks = λ f. used-mark_used s a f;
        valid =
            forgetful-IsValid (record (pmm_mark_used s a) { last_alloc_index = i })
              (bytes-mark_used s a v.bytes) lo hi no_last;
      }

  reuse-Allocated : has_last_free s ≡ true → Allocated s (reuse_last_free s).0 (reuse_last_free s).1
  unfolding reuse_last_free used has_last_free
  reuse-Allocated last =
      let i = s.last_free_frame.index in
      let j = s.last_free_frame.offset in
      let a = calc_frame_addr i j in
      let e = frame-calc_frame_addr i j (v.index_in last) (v.offset_in last) in
      record {
        aligned = omega (arith, e);
        in_range = omega (arith, e, v.index_in last, v.offset_in last);
        was_free = rw e.1 (v.remembered last);
        marks = λ f. used-mark_used s a f;
        valid =
            forgetful-IsValid (record (pmm_mark_used s a) { last_free_frame = no_last_free })
              (bytes-mark_used s a v.bytes) v.next_low v.next_high refl;
      }

  next_fit-Allocated :
      has_last_free s ≡ false
      → Allocated s (next_fit s).0 (next_fit s).1
        ⊎ ((next_fit s ≡ (no_frame_available, s)) × Exhausted s)
  unfolding next_fit
  next_fit-Allocated no_last =
      elim (Option-cases (find_frame (bitmap_size - s.last_alloc_index) s s.last_alloc_index)) [
        | inr ((i, j), found) ↦
            let (lo, hi, small, free) = find_frame-some _ s s.last_alloc_index i j found in
            inl (
              rw (found, next_fit)
                (take_frame-Allocated i j no_last (omega (arith, v.next_low))
                  (omega (arith, v.next_high)) small free))
        | inl above ↦ elim (Option-cases (find_frame (s.last_alloc_index - 1) s 1)) [
          | inr ((i, j), found) ↦
              let (lo, hi, small, free) = find_frame-some _ s 1 i j found in
              inl (
                rw (above, found, next_fit)
                  (take_frame-Allocated i j no_last lo (omega (arith, v.next_low, v.next_high))
                    small free))
          | inl below ↦ inr (
            rw (above, below, next_fit),
            λ f lo hi. elim (Bool-cases (ltb f (s.last_alloc_index * 8))) [
              | inl low ↦ find_frame-none _ s 1 f below lo (omega (arith, ltb→lt f _ low))
              | inr high ↦
                  find_frame-none _ s s.last_alloc_index f above (omega (arith, ltb→le f _ high))
                    (omega (arith, v.next_high))
            ],
          )
        ]
      ]

  -- From a valid state `pmm_alloc_frame` either hands out a free, aligned frame of the bitmap, which
  -- it marks while it changes no other frame and stays valid, or it returns
  -- PMM_NO_FRAME_AVAILABLE and changes nothing, and then no frame outside the first eight is free.
  pub alloc_frame-Allocated :
      Allocated s (pmm_alloc_frame s).0 (pmm_alloc_frame s).1
      ⊎ ((pmm_alloc_frame s ≡ (no_frame_available, s)) × Exhausted s)
  unfolding pmm_alloc_frame
  alloc_frame-Allocated = elim (Bool-cases (has_last_free s)) [
    | inl last ↦ inl (rw (last, pmm_alloc_frame) (reuse-Allocated last))
    | inr no_last ↦ rw (no_last, pmm_alloc_frame) (next_fit-Allocated no_last)
  ]
