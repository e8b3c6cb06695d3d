-- ===== src/Vmm/Entries.antt =====
-- Page entries, and the parts of a virtual address, in memory/vmm.c: numbers of 32 bits.
pub mod Flags
use my_os.Base.{ℕ, ◌+◌, ◌-◌, ◌*◌, ◌/◌, ◌%◌, ◌^◌, bit_and, bit_or, Bool, not, ◌==◌}
use my_os.Base.Bits.{bit_not}
use my_os.Pmm.{word}

abbrev pub page_size : ℕ
page_size = 4096

abbrev pub tables_per_dir : ℕ
tables_per_dir = 1024

abbrev pub page_table_size : ℕ
page_table_size = 1024

abbrev pub present : ℕ
present = 0x1

abbrev pub page_writeable : ℕ
page_writeable = 0x2

abbrev pub page_user : ℕ
page_user = 0x4

abbrev pub global : ℕ
global = 0x100

abbrev pub swapped : ℕ
swapped = 0x200

abbrev pub empty_user_page_dir_flags : ℕ
empty_user_page_dir_flags = bit_or page_writeable page_user

abbrev pub kernel_page_flags : ℕ
kernel_page_flags = bit_or (bit_or page_writeable present) global

abbrev pub recursive_page_table_index : ℕ
recursive_page_table_index = 1023

unfoldable pub align_to_page : ℕ → ℕ
align_to_page addr = bit_and (word (addr + page_size - 1)) (2 ^ 32 - page_size)

unfoldable pub get_directory_index : ℕ → ℕ
get_directory_index vir_addr = vir_addr / 2 ^ 22

unfoldable pub get_table_index : ℕ → ℕ
get_table_index vir_addr = bit_and (vir_addr / 2 ^ 12) 0x03FF

unfoldable pub get_page_table_vir_addr : ℕ → ℕ
get_page_table_vir_addr pd_index = bit_or (recursive_page_table_index * 2 ^ 22) (pd_index * 2 ^ 12)

unfoldable pub get_frame_addr : ℕ → ℕ
get_frame_addr entry = bit_and entry 0xFFFFF000

unfoldable pub is_page_present : ℕ → Bool
is_page_present entry = not (bit_and entry present == 0)

-- `~0xFFFFF000` is 0xFFF.
unfoldable pub page_entry_set_frame : (e frame_addr : ℕ) → ℕ
page_entry_set_frame e frame_addr = bit_or (bit_and e 0xFFF) frame_addr

unfoldable pub page_entry_add_attrib : (e attrib : ℕ) → ℕ
page_entry_add_attrib e attrib = bit_or e attrib

unfoldable pub page_entry_remove_attrib : (e attrib : ℕ) → ℕ
page_entry_remove_attrib e attrib = bit_and e (bit_not 32 attrib)

unfoldable pub is_swapped : ℕ → Bool
is_swapped e = not (bit_and e swapped == 0)

unfoldable pub is_page_present_error : ℕ → Bool
is_page_present_error error_code = not (bit_and error_code 0x1 == 0)

unfoldable pub is_page_write_error : ℕ → Bool
is_page_write_error error_code = not (bit_and error_code 0x2 == 0)

unfoldable pub is_page_user_error : ℕ → Bool
is_page_user_error error_code = not (bit_and error_code 0x4 == 0)

unfoldable pub get_frame_offset : ℕ → ℕ
get_frame_offset vir_addr = bit_and (vir_addr % 2 ^ 16) 0xFFF
