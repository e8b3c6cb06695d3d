-- ===== src/Pmm.antt =====
-- memory/pmm.c and memory/pmm.h: the physical frame allocator. The bitmap is a function from its
-- indices to bytes; a `size_t` or an address is a number below 2 ^ 32. `none` is a failed `assert`,
-- after which the machine is halted.
pub mod Frames
pub mod Search
pub mod Alloc
pub mod Free
pub mod Owners
pub mod Init
mod Tests
use my_os.Base.{
  ℕ, zero, suc, ◌+◌, ◌-◌, ◌*◌, ◌/◌, ◌%◌, ◌^◌, bit_and, bit_or, Bool, true, false, not, ◌&&◌, Option,
  none, some, ltb, ◌==◌, if◌then◌else◌,
}
use my_os.Base.Masks.{update, clear_bit}

abbrev pub word : ℕ → ℕ
word n = n % 2 ^ 32

abbrev pub memory_size : ℕ
memory_size = 0x100000000

abbrev pub block_size : ℕ
block_size = 4096

abbrev pub bitmap_size : ℕ
bitmap_size = 131072

abbrev pub no_frame_available : ℕ
no_frame_available = 0

-- `(addr + PMM_BLOCK_SIZE - 1) & ~(PMM_BLOCK_SIZE - 1)`
unfoldable pub aligned_to_physical_page : ℕ → ℕ
aligned_to_physical_page addr = bit_and (word (addr + block_size - 1)) (2 ^ 32 - block_size)

-- `last_free_frame`, by its bit patterns: -1 is 2 ^ 32 - 1 in `index` and 255 in `offset`.
pub record LastFreeFrame : Type 0 where
  pub index : ℕ
  pub offset : ℕ

abbrev pub no_last_free : LastFreeFrame
no_last_free = record { index = 2 ^ 32 - 1; offset = 255 }

pub record Pmm : Type 0 where
  pub bitmap : ℕ → ℕ
  pub last_free_frame : LastFreeFrame
  pub last_alloc_index : ℕ

abbrev pub bit_mask : ℕ → ℕ
bit_mask offset = 2 ^ offset

unfoldable pub calc_frame_addr : ℕ → ℕ → ℕ
calc_frame_addr index offset = word (index * 8 * block_size + offset * block_size)

unfoldable pub get_bitmap_index : ℕ → ℕ
get_bitmap_index frame_addr = frame_addr / block_size / 8

unfoldable pub get_bitmap_offset : ℕ → ℕ
get_bitmap_offset frame_addr = frame_addr / block_size % 8

unfoldable pub is_valid_frame_addr : ℕ → Bool
is_valid_frame_addr frame_addr = ltb frame_addr memory_size && (frame_addr % block_size == 0)

unfoldable pub pmm_mark_used : Pmm → ℕ → Pmm
unfolding get_bitmap_index get_bitmap_offset
pmm_mark_used s frame_addr =
    let i = get_bitmap_index frame_addr in
    record s {
      bitmap = update s.bitmap i (bit_or (s.bitmap i) (bit_mask (get_bitmap_offset frame_addr)));
    }

unfoldable pub pmm_mark_free : Pmm → ℕ → Pmm
unfolding get_bitmap_index get_bitmap_offset
pmm_mark_free s frame_addr =
    let i = get_bitmap_index frame_addr in
    record s { bitmap = update s.bitmap i (clear_bit (s.bitmap i) (get_bitmap_offset frame_addr)) }

unfoldable pub is_full : Pmm → ℕ → Bool
is_full s index = s.bitmap index == 0xFF

-- The inner loop, `j` up to 8: the first clear bit.
unfoldable pub find_offset : (rounds : ℕ) → ℕ → ℕ → Option ℕ
find_offset zero byte j = none
find_offset (suc n) byte j =
    let rest = find_offset n byte (j + 1) in if bit_and byte (bit_mask j) == 0 then some j else rest

-- The outer loop over `rounds` indices from `i` on.
unfoldable pub find_frame : (rounds : ℕ) → Pmm → ℕ → Option (ℕ × ℕ)
unfolding is_full find_offset
find_frame zero s i = none
find_frame (suc n) s i = elim (is_full s i) [
  | true ↦ find_frame n s (i + 1)
  | false ↦ elim (find_offset 8 (s.bitmap i) 0) [
    | some j ↦ some (i, j)
    | none ↦ find_frame n s (i + 1)
  ]
]

-- The body of the loops where a clear bit is found.
unfoldable pub take_frame : Pmm → ℕ → ℕ → ℕ × Pmm
unfolding calc_frame_addr pmm_mark_used
take_frame s i j =
    let frame_addr = calc_frame_addr i j in
    (frame_addr, record (pmm_mark_used s frame_addr) { last_alloc_index = i })

unfoldable pub has_last_free : Pmm → Bool
has_last_free s =
    not (s.last_free_frame.index == 2 ^ 32 - 1) && not (s.last_free_frame.offset == 255)

unfoldable pub reuse_last_free : Pmm → ℕ × Pmm
unfolding calc_frame_addr pmm_mark_used
reuse_last_free s =
    let frame_addr = calc_frame_addr s.last_free_frame.index s.last_free_frame.offset in
    (frame_addr, record (pmm_mark_used s frame_addr) { last_free_frame = no_last_free })

unfoldable pub next_fit : Pmm → ℕ × Pmm
unfolding find_frame take_frame
next_fit s = elim (find_frame (bitmap_size - s.last_alloc_index) s s.last_alloc_index) [
  | some (i, j) ↦ take_frame s i j
  | none ↦ elim (find_frame (s.last_alloc_index - 1) s 1) [
    | some (i, j) ↦ take_frame s i j
    | none ↦ (no_frame_available, s)
  ]
]

unfoldable pub pmm_alloc_frame : Pmm → ℕ × Pmm
unfolding has_last_free reuse_last_free next_fit
pmm_alloc_frame s = if has_last_free s then reuse_last_free s else next_fit s

unfoldable pub pmm_free_frame : Pmm → ℕ → Option Pmm
unfolding is_valid_frame_addr pmm_mark_free get_bitmap_index get_bitmap_offset
pmm_free_frame s frame_addr =
    if is_valid_frame_addr frame_addr
    then some (record (pmm_mark_free s frame_addr) {
      last_free_frame = record {
        index = get_bitmap_index frame_addr;
        offset = get_bitmap_offset frame_addr;
      };
    })
    else none

unfoldable pub pmm_is_frame_free : Pmm → ℕ → Option Bool
unfolding is_valid_frame_addr get_bitmap_index get_bitmap_offset
pmm_is_frame_free s frame_addr =
    if is_valid_frame_addr frame_addr
    then some (
        bit_and (s.bitmap (get_bitmap_index frame_addr)) (bit_mask (get_bitmap_offset frame_addr))
        == 0)
    else none
