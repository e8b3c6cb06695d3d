-- ===== src/Disk/Slots.antt =====
-- The swap slots of drivers/disk.c: a bitmap, and a next-fit search for a run of free slots.
use my_os.Base.{
  ℕ, zero, suc, ◌+◌, ◌-◌, ◌*◌, ◌/◌, ◌%◌, ◌^◌, bit_and, bit_or, Bool, true, false, not, ◌&&◌, Option,
  none, some, ltb, leb, ◌==◌, if◌then◌else◌,
}
use my_os.Base.Masks.{update, clear_bit}
pub mod Runs
pub mod Search
pub mod Alloc

abbrev pub disk_bitmap_size : ℕ
disk_bitmap_size = 100000

abbrev pub disk_no_slot_available : ℕ
disk_no_slot_available = 2 ^ 32 - 1

pub record Slots : Type 0 where
  pub disk_bitmap : ℕ → ℕ
  pub last_alloc_index : ℕ

unfoldable pub is_slot_free : (ℕ → ℕ) → ℕ → Bool
is_slot_free b slot = bit_and (b (slot / 8)) (2 ^ (slot % 8)) == 0

unfoldable pub disk_mark_used : (ℕ → ℕ) → ℕ → ℕ → ℕ
disk_mark_used b slot = update b (slot / 8) (bit_or (b (slot / 8)) (2 ^ (slot % 8)))

-- The loop of `are_slots_free`, from slot `slot` on.
unfoldable pub run_is_free : (rounds : ℕ) → (ℕ → ℕ) → ℕ → Bool
unfolding is_slot_free
run_is_free zero b slot = true
run_is_free (suc n) b slot =
    let rest = run_is_free n b ((slot + 1) % 2 ^ 32) in if is_slot_free b slot then rest else false

unfoldable pub are_slots_free : (ℕ → ℕ) → (start count : ℕ) → Bool
unfolding run_is_free
are_slots_free b start count =
    if ltb (disk_bitmap_size * 8) ((start + count) % 2 ^ 32)
    then false
    else run_is_free count b start

unfoldable pub mark_slots_used : (count : ℕ) → (start : ℕ) → (ℕ → ℕ) → ℕ → ℕ
unfolding disk_mark_used
mark_slots_used zero start b = b
mark_slots_used (suc n) start b = mark_slots_used n ((start + 1) % 2 ^ 32) (disk_mark_used b start)

unfoldable pub disk_mark_free : (ℕ → ℕ) → ℕ → ℕ → ℕ
disk_mark_free b slot = update b (slot / 8) (clear_bit (b (slot / 8)) (slot % 8))

unfoldable pub disk_free_slot : ℕ → Slots → Slots
unfolding disk_mark_free
disk_free_slot slot s = record s { disk_bitmap = disk_mark_free s.disk_bitmap slot }

-- The loop of `disk_free_slots`, from slot `slot` on.
unfoldable pub mark_slots_free : (rounds : ℕ) → ℕ → (ℕ → ℕ) → ℕ → ℕ
unfolding disk_mark_free
mark_slots_free zero slot b = b
mark_slots_free (suc n) slot b = mark_slots_free n ((slot + 1) % 2 ^ 32) (disk_mark_free b slot)

unfoldable pub disk_free_slots : (slot slots_num : ℕ) → Slots → Slots
unfolding mark_slots_free
disk_free_slots slot slots_num s =
    if leb (disk_bitmap_size * 8) ((slot + slots_num) % 2 ^ 32)
    then s
    else record s { disk_bitmap = mark_slots_free slots_num slot s.disk_bitmap }

-- The inner loop of the search, over the bits of byte `i` from `j` on.
unfoldable pub find_in_byte : (rounds : ℕ) → (ℕ → ℕ) → (slots_num i j : ℕ) → Option ℕ
unfolding is_slot_free are_slots_free
find_in_byte zero b slots_num i j = none
find_in_byte (suc n) b slots_num i j =
    let slot = (i * 8 + j) % 2 ^ 32 in
    elim (is_slot_free b slot && are_slots_free b slot slots_num) [
      | true ↦ some slot
      | false ↦ find_in_byte n b slots_num i (j + 1)
    ]

-- The outer loop, over `rounds` bytes from `i` on.
unfoldable pub find_run : (rounds : ℕ) → (ℕ → ℕ) → (slots_num i : ℕ) → Option ℕ
unfolding find_in_byte
find_run zero b slots_num i = none
find_run (suc n) b slots_num i = elim (find_in_byte 8 b slots_num i 0) [
  | some slot ↦ some slot
  | none ↦ find_run n b slots_num (i + 1)
]

-- What both loops do with the run they find.
unfoldable pub take_run : (slots_num slot : ℕ) → Slots → ℕ × Slots
unfolding mark_slots_used
take_run slots_num slot s = (
  slot,
  record {
    disk_bitmap = mark_slots_used slots_num slot s.disk_bitmap;
    last_alloc_index = (slot + slots_num) % 2 ^ 32 / 8;
  },
)

unfoldable pub disk_alloc_slots : (slots_num : ℕ) → Slots → ℕ × Slots
unfolding find_run take_run
disk_alloc_slots slots_num s =
    if slots_num == 0
    then (disk_no_slot_available, s)
    else elim (find_run (disk_bitmap_size - s.last_alloc_index) s.disk_bitmap slots_num
        s.last_alloc_index) [
          | some slot ↦ take_run slots_num slot s
          | none ↦ elim (find_run s.last_alloc_index s.disk_bitmap slots_num 0) [
            | some slot ↦ take_run slots_num slot s
            | none ↦ (disk_no_slot_available, s)
          ]
        ]
