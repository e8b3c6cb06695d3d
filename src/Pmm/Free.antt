-- ===== src/Pmm/Free.antt =====
-- `pmm_free_frame` and `pmm_is_frame_free`, and what the next allocation gives.
use my_os.Base.{
  ℕ, ◌+◌, ◌*◌, ◌/◌, ◌%◌, ◌^◌, ◌<◌, ◌≡◌, ◌⊎◌, inl, inr, none, some, arith, ◌==◌, if◌then◌else◌,
  Bool-cases, ==_iff,
}
use my_os.Base.Bits.{bit_and-pow_test}
use my_os.Pmm.{
  Pmm, calc_frame_addr, pmm_mark_free, pmm_alloc_frame, pmm_free_frame, pmm_is_frame_free,
  get_bitmap_index, get_bitmap_offset,
}
use my_os.Pmm.Frames.{used, IsValid, used-mark_free, bytes-mark_free}

-- The step from `s` to `s'` gives the frame at address `a` back, and changes no other frame.
pub record Released (s : Pmm) (a : ℕ) (s' : Pmm) : Type 0 where
  pub marks : (f : ℕ) → used s' f ≡ (if a / 4096 == f then 0 else used s f)
  pub valid : IsValid s'
  pub next : (pmm_alloc_frame s').0 ≡ a

abbrev freed : Pmm → ℕ → Pmm
freed s a = record (pmm_mark_free s a) {
  last_free_frame = record { index = get_bitmap_index a; offset = get_bitmap_offset a };
}

freed-Released :
    {s : Pmm} (v : IsValid s) (a : ℕ) → a < 2 ^ 32 → a % 4096 ≡ 0 → Released s a (freed s a)
unfolding pmm_free_frame pmm_alloc_frame used calc_frame_addr
freed-Released {s} v a lt al = record {
  marks = λ f. used-mark_free s a f v.bytes;
  valid = record {
    bytes = bytes-mark_free s a v.bytes;
    next_low = v.next_low;
    next_high = v.next_high;
    index_in = λ h. omega arith;
    offset_in = λ h. omega arith;
    remembered = λ h. ground (arith, used-mark_free s a (a / 4096 / 8 * 8 + a / 4096 % 8) v.bytes);
  };
  next = ground arith;
}

-- Of a valid address `pmm_free_frame` frees that frame alone, keeps the allocator valid, and the
-- next `pmm_alloc_frame` returns that very address. Of any other address its assertion fails.
pub free_frame-Released :
    {s : Pmm} (v : IsValid s) (a : ℕ)
    → a < 2 ^ 32
    → ((a % 4096 ≡ 0) × (s' : Pmm) × (pmm_free_frame s a ≡ some s') × Released s a s')
      ⊎ ((0 < a % 4096) × (pmm_free_frame s a ≡ none))
unfolding pmm_free_frame
free_frame-Released {s} v a lt = elim (Bool-cases (a % 4096 == 0)) [
  | inl e ↦
      let al : a % 4096 ≡ 0 = (==_iff _ 0).0 e in
      inl (al, freed s a, ground arith, freed-Released v a lt al)
  | inr ne ↦ inr (ground arith, ground arith)
]

-- `pmm_is_frame_free` reads a valid address's own bit, and fails its assertion on an address that
-- is not a multiple of PMM_BLOCK_SIZE.
pub is_frame_free-eq :
    (s : Pmm) (a : ℕ)
    → a < 2 ^ 32
    → pmm_is_frame_free s a ≡ (if a % 4096 == 0 then some (used s (a / 4096) == 0) else none)
unfolding pmm_is_frame_free used
is_frame_free-eq s a lt = ground (arith, bit_and-pow_test (s.bitmap (a / 4096 / 8)) (a / 4096 % 8))
