-- ===== src/Vmm/State.antt =====
-- The state of memory/vmm.c, and the memory that it sees. The physical memory holds the directories and
-- page tables, as a function from addresses to 32-bit words; loads and stores go through the processor's
-- translation once paging is on. The caches of that translation (flush_tlb, flush_page) are left out, and
-- so are faults: an access is translated whether or not the entries are present.
pub mod Walk
use my_os.Base.{
  ℕ, zero, suc, ◌+◌, ◌-◌, ◌*◌, ◌/◌, ◌%◌, ◌^◌, Bool, true, false, not, List, Option, none, some,
  ◌==◌, if◌then◌else◌,
}
use my_os.Base.Masks.{update}
use my_os.Pmm.{Pmm, word}
use my_os.Disk.Slots.{Slots, disk_alloc_slots, disk_free_slots}
use my_os.Vmm.Entries.{
  get_frame_addr, get_directory_index, get_table_index, get_frame_offset, get_page_table_vir_addr,
}

-- A node of the queue of pages that may be swapped out.
pub record FifoNode : Type 0 where
  pub vir_addr : ℕ
  pub next : ℕ

pub record Fifo : Type 0 where
  pub nodes : ℕ → FifoNode
  pub head : ℕ
  pub tail : ℕ
  pub count : ℕ

pub record Vmm (S : Type 0) : Type 0 where
  pub memory : ℕ → ℕ
  pub current_directory : ℕ
  -- The register with the physical address of the directory in use.
  pub cr3 : ℕ
  pub paging_enabled : Bool
  pub fifo : Fifo
  pub pmm : Pmm
  pub slots : Slots
  -- disk_get_current_disk_logical_sector_size()
  pub sector_size : ℕ
  pub outside : S

-- What memory/vmm.c uses of the heap and of the disk, on a state of theirs: the pointer that kmalloc
-- returns, and the loops that transfer a page until all of it has gone.
pub record Outside (S : Type 0) : Type 0 where
  pub kmalloc : (size : ℕ) → S → ℕ × S
  pub kfree : (ptr : ℕ) → S → S
  pub write_page : (disk_slot addr : ℕ) → S → S
  pub read_page : (disk_slot addr : ℕ) → S → S

-- How the processor translates an address: through the directory and the page table.
unfoldable pub walk : (memory : ℕ → ℕ) → (cr3 vir_addr : ℕ) → ℕ
unfolding get_frame_addr get_directory_index get_table_index get_frame_offset
walk memory cr3 vir_addr =
    let table = get_frame_addr (memory (cr3 + 4 * get_directory_index vir_addr)) in
    get_frame_addr (memory (table + 4 * get_table_index vir_addr)) + get_frame_offset vir_addr

unfoldable pub get_page_table_addr : (paging_enabled : Bool) → (entry pd_index : ℕ) → ℕ
unfolding get_page_table_vir_addr get_frame_addr
get_page_table_addr paging_enabled entry pd_index =
    if paging_enabled then get_page_table_vir_addr pd_index else get_frame_addr entry

-- 4096 / sector_size, rounded up, as a byte.
unfoldable pub slots_for_page : (sector_size : ℕ) → ℕ
slots_for_page sector_size = (4096 / sector_size + (if 4096 % sector_size == 0 then 0 else 1)) % 256

module _ {S : Type 0} where
  unfoldable pub place : Vmm S → (addr : ℕ) → ℕ
  unfolding walk
  place s addr = if s.paging_enabled then walk s.memory s.cr3 addr else addr

  unfoldable pub load : (addr : ℕ) → Vmm S → ℕ
  unfolding place
  load addr s = s.memory (place s addr)

  unfoldable pub store : (addr value : ℕ) → Vmm S → Vmm S
  unfolding place
  store addr value s = record s { memory = update s.memory (place s addr) value }

  -- memset of `rounds` words to 0, from `addr` on.
  unfoldable pub clear_words : (rounds : ℕ) → (addr : ℕ) → Vmm S → Vmm S
  unfolding store
  clear_words zero addr s = s
  clear_words (suc n) addr s = clear_words n (addr + 4) (store addr 0 s)

  unfoldable pub disk_alloc_slots_for_page : Vmm S → ℕ × Vmm S
  unfolding slots_for_page disk_alloc_slots
  disk_alloc_slots_for_page s =
      let (slot, slots) = disk_alloc_slots (slots_for_page s.sector_size) s.slots in
      (slot, record s { slots = slots })

  unfoldable pub disk_free_slots_for_page : (start_slot : ℕ) → Vmm S → Vmm S
  unfolding slots_for_page disk_free_slots
  disk_free_slots_for_page start_slot s = record s {
    slots = disk_free_slots start_slot (slots_for_page s.sector_size) s.slots;
  }
