-- ===== src/Pmm/Init.antt =====
-- `pmm_init` of memory/pmm.c. The symbols of linker.ld and start.asm are parameters. The function
-- also sets KERNEL_BASE_HEAP_ADDR, which is returned beside the allocator.
pub mod Reserved
use my_os.Base.{
  ℕ, zero, suc, ◌+◌, ◌-◌, ◌*◌, ◌/◌, ◌%◌, ◌^◌, ◌≤◌, ◌<◌, ◌≡◌, refl, ◌⊎◌, inl, inr, Bool, true, false,
  ◌&&◌, ◌||◌, not, arith, ltb, leb, ◌==◌, if◌then◌else◌, Bool-cases, ==_iff,
}
use my_os.Base.Masks.{update}
use my_os.Pmm.{
  Pmm, word, bitmap_size, block_size, aligned_to_physical_page, has_last_free, pmm_mark_used,
}
use my_os.Pmm.Frames.{used, IsValid, used-mark_used, bytes-mark_used}
use my_os.Base.Bits.{bit-zero}

pub record Symbols : Type 0 where
  pub kernel_start : ℕ
  pub kernel_end : ℕ
  pub kernel_stack_top : ℕ
  pub kernel_stack_pages_amount : ℕ

-- memory/kmalloc.h: PMM_BLOCK_SIZE * (NUM_CACHES + EXTRA_BLOCKS)
abbrev pub kernel_heap_size : ℕ
kernel_heap_size = 4096 * (8 + 100)

-- drivers/screen.h
abbrev pub vga_address : ℕ
vga_address = 0xB8000

-- `for (i; rounds left; i++) pmm_bitmap[i] = 0;`
unfoldable pub clear_bitmap : (rounds : ℕ) → ℕ → (ℕ → ℕ) → ℕ → ℕ
clear_bitmap zero i bitmap = bitmap
clear_bitmap (suc n) i bitmap = clear_bitmap n (i + 1) (update bitmap i 0)

-- `for (i; rounds left; i++) pmm_mark_used(start + i * PMM_BLOCK_SIZE);`
unfoldable pub mark_up : (rounds : ℕ) → ℕ → ℕ → Pmm → Pmm
mark_up zero start i s = s
mark_up (suc n) start i s =
    mark_up n start (i + 1) (pmm_mark_used s (word (start + i * block_size)))

-- `for (i; rounds left; i++) pmm_mark_used(top - i * PMM_BLOCK_SIZE);`
unfoldable pub mark_down : (rounds : ℕ) → ℕ → ℕ → Pmm → Pmm
mark_down zero top i s = s
mark_down (suc n) top i s =
    mark_down n top (i + 1) (pmm_mark_used s (word (top + 2 ^ 32 - word (i * block_size))))

abbrev pub kernel_frames : Symbols → ℕ
kernel_frames k = word (word (k.kernel_end + 2 ^ 32 - k.kernel_start) + block_size - 1) / block_size

unfoldable pub pmm_init : Symbols → Pmm → Pmm × ℕ
pmm_init k s =
    let s1 = record s { bitmap = clear_bitmap bitmap_size 0 s.bitmap } in
    let s2 = mark_up (kernel_frames k) k.kernel_start 0 s1 in
    let s3 = mark_down k.kernel_stack_pages_amount k.kernel_stack_top 0 s2 in
    let heap = aligned_to_physical_page k.kernel_stack_top in
    let s4 = mark_up (kernel_heap_size / block_size) heap 0 s3 in
    (pmm_mark_used s4 vga_address, heap)
