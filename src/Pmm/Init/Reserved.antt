-- ===== src/Pmm/Init/Reserved.antt =====
-- Which frames `pmm_init` reserves.
use my_os.Base.{
  bit_and, ℕ, zero, suc, ◌+◌, ◌-◌, ◌*◌, ◌/◌, ◌%◌, ◌^◌, ◌≤◌, ◌<◌, ◌≡◌, refl, Bool, ◌&&◌, ◌||◌, arith,
  ltb, leb, ◌==◌, if◌then◌else◌,
}
use my_os.Base.Align.{bit_and-page}
use my_os.Base.Masks.{update}
use my_os.Pmm.{Pmm, word, bitmap_size, block_size, aligned_to_physical_page, pmm_mark_used}
use my_os.Pmm.Frames.{used, used-mark_used}
use my_os.Base.Bits.{bit-zero}
use my_os.Pmm.Init.{
  Symbols, kernel_frames, kernel_heap_size, vga_address, clear_bitmap, mark_up, mark_down, pmm_init,
}

clear_bitmap-eq :
    (n i : ℕ) (m : ℕ → ℕ) (k : ℕ)
    → clear_bitmap n i m k ≡ (if leb i k && ltb k (i + n) then 0 else m k)
unfolding clear_bitmap
clear_bitmap-eq zero i m k = ground arith
clear_bitmap-eq (suc n) i m k = ground (arith, clear_bitmap-eq n (i + 1) (update m i 0) k)

-- Frame `f` is one of the `n` frames from frame `b` on.
abbrev pub within : ℕ → ℕ → ℕ → Bool
within b n f = leb b f && ltb f (b + n)

used-mark_up :
    (n start i : ℕ) (s : Pmm) (f : ℕ)
    → start + (i + n) * 4096 ≤ 2 ^ 32
    → used (mark_up n start i s) f ≡ (if within (start / 4096 + i) n f then 1 else used s f)
unfolding mark_up
used-mark_up zero start i s f fits = ground arith
used-mark_up (suc n) start i s f fits = ground (
  arith,
  used-mark_up n start (i + 1) (pmm_mark_used s (word (start + i * block_size))) f,
  used-mark_used s (word (start + i * block_size)) f,
)

used-mark_down :
    (n top i : ℕ) (s : Pmm) (f : ℕ)
    → top < 2 ^ 32
    → (i + n) * 4096 ≤ top + 1
    → used (mark_down n top i s) f
      ≡ (if ltb (top / 4096) (f + i + n) && leb (f + i) (top / 4096) then 1 else used s f)
unfolding mark_down
used-mark_down zero top i s f lt fits = ground arith
used-mark_down (suc n) top i s f lt fits = ground (
  arith,
  used-mark_down n top (i + 1) (pmm_mark_used s (word (top + 2 ^ 32 - word (i * block_size)))) f,
  used-mark_used s (word (top + 2 ^ 32 - word (i * block_size))) f,
)

pub aligned_heap :
    (top : ℕ) → top + 4096 < 2 ^ 32 → (aligned_to_physical_page top ≡ (top + 4095) / 4096 * 4096)
unfolding aligned_to_physical_page
aligned_heap top h =
    let e : aligned_to_physical_page top ≡ bit_and (word (top + 4096 - 1)) 0xFFFFF000 = refl in
    omega (arith, e, bit_and-page (word (top + 4096 - 1)) (omega arith))

-- No address that `pmm_init` computes wraps.
pub record Fits (k : Symbols) : Type 0 where
  pub ordered : k.kernel_start ≤ k.kernel_end
  pub kernel_fits : k.kernel_end + 4095 < 2 ^ 32
  pub start_aligned : k.kernel_start % 4096 ≡ 0
  pub stack_fits : k.kernel_stack_pages_amount * 4096 ≤ k.kernel_stack_top + 1
  pub heap_fits : k.kernel_stack_top + 4096 + kernel_heap_size < 2 ^ 32

-- The frames of the kernel's image, of its stack (downwards from the top), of its heap (from the
-- page after the top) and of the VGA buffer.
unfoldable pub reserved : Symbols → ℕ → Bool
reserved k f =
    (leb k.kernel_start (f * 4096) && ltb (f * 4096) k.kernel_end)
    || (leb f (k.kernel_stack_top / 4096)
        && ltb (k.kernel_stack_top / 4096) (f + k.kernel_stack_pages_amount))
    || within ((k.kernel_stack_top + 4095) / 4096) 108 f
    || (f == 0xB8)

used-cleared :
    (s : Pmm) (f : ℕ)
    → f < bitmap_size * 8
    → used (record s { bitmap = clear_bitmap bitmap_size 0 s.bitmap }) f ≡ 0
unfolding used
used-cleared s f h =
    ground (arith, clear_bitmap-eq bitmap_size 0 s.bitmap (f / 8), bit-zero (f % 8))

-- After `pmm_init` exactly the reserved frames of the bitmap are in use, whatever it held before,
-- if no address that the function computes wraps and the image starts at a page.
pub used-pmm_init :
    (k : Symbols) (s : Pmm) (f : ℕ)
    → Fits k
    → f < bitmap_size * 8
    → used (pmm_init k s).0 f ≡ (if reserved k f then 1 else 0)
unfolding pmm_init reserved
used-pmm_init k s f fits h =
    let s1 : Pmm = record s { bitmap = clear_bitmap bitmap_size 0 s.bitmap } in
    let s2 : Pmm = mark_up (kernel_frames k) k.kernel_start 0 s1 in
    let s3 : Pmm = mark_down k.kernel_stack_pages_amount k.kernel_stack_top 0 s2 in
    let heap : ℕ = aligned_to_physical_page k.kernel_stack_top in
    let s4 : Pmm = mark_up (kernel_heap_size / block_size) heap 0 s3 in
    let e1 : used s1 f ≡ 0 = used-cleared s f h in
    let e2 : used s2 f
        ≡ (if within (k.kernel_start / 4096 + 0) (kernel_frames k) f then 1 else used s1 f) =
      used-mark_up (kernel_frames k) k.kernel_start 0 s1 f
        (omega (arith, fits.ordered, fits.kernel_fits, fits.start_aligned)) in
    let e3 =
      used-mark_down k.kernel_stack_pages_amount k.kernel_stack_top 0 s2 f
        (omega (arith, fits.heap_fits)) (omega (arith, fits.stack_fits)) in
    let e4 =
      used-mark_up 108 heap 0 s3 f
        (omega (arith, fits.heap_fits, aligned_heap k.kernel_stack_top)) in
    let e5 = used-mark_used s4 vga_address f in
    ground (
      arith,
      e1,
      e2,
      e3,
      e4,
      e5,
      fits.ordered,
      fits.kernel_fits,
      fits.start_aligned,
      fits.stack_fits,
      fits.heap_fits,
      aligned_heap k.kernel_stack_top,
    )
