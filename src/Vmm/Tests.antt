-- ===== src/Vmm/Tests.antt =====
-- The theorems on vmm.c at an address space with paging on and one page table.
use my_os.Base.{
  ℕ, ◌+◌, ◌*◌, ◌/◌, ◌%◌, ◌^◌, ◌<◌, ◌≡◌, refl, arith, true, false, not, ◌&&◌, some, none, [], ◌∷◌,
  ◌==◌, if◌then◌else◌, Bool-cases, inl, inr,
}
use my_os.Pmm.{Pmm, no_last_free}
use my_os.Disk.Slots.{disk_free_slots}
use my_os.Vmm.Entries.{get_frame_addr, is_page_present, is_swapped, get_page_table_vir_addr}
use my_os.Vmm.State.{Vmm, Fifo, Outside, walk, load, place, slots_for_page}
use my_os.Vmm.State.Walk.{IsCurrent, walk-window}
use my_os.Vmm.Fifo.{enqueue_page}
use my_os.Vmm.Fifo.Queue.{IsFifo, pages, enqueue_page-appends}
use my_os.Vmm.Swap.{read_in, write_out}
use my_os.Vmm.Swap.Slots.{read_in-reads_frame, write_out-loses_slot}
use my_os.Vmm.Contexts.{set_flags}
use my_os.Vmm.Contexts.Init.{set_flags-one_table}
use my_os.Vmm.Entries.{tables_per_dir}
use my_os.Vmm.Map.{find_table, vmm_calc_phys_addr}
use my_os.Vmm.Map.Writes.{entry_of}
use my_os.Vmm.Map.Translate.{vmm_calc_phys_addr-walk}

abbrev one_page : Fifo
one_page = record {
  nodes = λ a. record { vir_addr = 0x5000; next = 0 };
  head = 64;
  tail = 64;
  count = 1;
}

enqueue_page-appends_example :
    IsFifo (enqueue_page 96 0x6000 one_page) (64 ∷ 96 ∷ [])
    × (pages (enqueue_page 96 0x6000 one_page).nodes (64 ∷ 96 ∷ []) ≡ 0x5000 ∷ 0x6000 ∷ [])
enqueue_page-appends_example =
    enqueue_page-appends one_page (64 ∷ []) 96 0x6000 (refl, refl, (refl, refl)) (tt, tt) refl
      (refl, tt)

-- The directory at 0x1000, its table at 0x2000, and page 5 of the first 4 MB in frame 0x7000.
abbrev words : ℕ → ℕ
words a =
    if a == 0x1FFC
    then 0x1003
    else if a == 0x1000
    then 0x2003
    else if a == 0x2014
    then 0x7003
    else 0

abbrev machine : Vmm ℕ
machine = record {
  memory = words;
  current_directory = 0xFFFFF000;
  cr3 = 0x1000;
  paging_enabled = true;
  fifo = one_page;
  pmm = record { bitmap = λ i. 0; last_free_frame = no_last_free; last_alloc_index = 0 };
  slots = record { disk_bitmap = λ i. 0; last_alloc_index = 0 };
  sector_size = 512;
  outside = 0;
}

abbrev counting : Outside ℕ
counting = record {
  kmalloc = λ size n. (0, n);
  kfree = λ ptr n. n;
  write_page = λ slot addr n. n;
  read_page = λ slot addr n. n + slot;
}

words-fits : (a : ℕ) → words a < 2 ^ 32
words-fits a = ground arith

machine-IsCurrent : IsCurrent machine 0xFFFFF000
unfolding place get_page_table_vir_addr get_frame_addr
machine-IsCurrent = record {
  real = refl;
  reach = λ i h. walk-window words 0x1000 1023 i (omega arith) h refl;
  self = record { fits = words-fits; frame = refl; window = λ on. refl };
}

other_entries :
    (k : ℕ)
    → k < 1024
    → (k == 0) ≡ false
    → (0x2000 == get_frame_addr (words (0x1000 + 4 * k))) ≡ false
unfolding get_frame_addr
other_entries k h other = elim (Bool-cases (k == 1023)) [
  | inl last ↦ let e : words (0x1000 + 4 * k) ≡ 0x1003 = ground arith in rw e refl
  | inr early ↦ let e : words (0x1000 + 4 * k) ≡ 0 = ground arith in rw e refl
]

vmm_calc_phys_addr-walk_example : vmm_calc_phys_addr counting 1 0x5123 machine ≡ (
    if is_page_present (words (0x1000 + 4 * (0x5123 / 4194304)))
      && is_page_present (words (entry_of machine 0x5123))
    then some (walk words 0x1000 0x5123, machine)
    else none)
unfolding is_swapped
vmm_calc_phys_addr-walk_example =
    vmm_calc_phys_addr-walk counting 1 machine 0x5123 machine-IsCurrent (omega arith) refl

read_in-reads_frame_example :
    ((read_in counting 0xFFC00014 0x9000 machine).outside ≡ 0x9000)
    × ((read_in counting 0xFFC00014 0x9000 machine).slots
        ≡ disk_free_slots 0x9000 (slots_for_page 512) machine.slots)
unfolding place walk
read_in-reads_frame_example =
    read_in-reads_frame counting machine 0xFFC00014 0x2014 0x9000 refl refl (omega arith) refl

abbrev at_boot : Vmm ℕ
at_boot = record machine { memory = λ a. 0; paging_enabled = false }

-- The entry of the page at 0x5000, which goes to slot 4097.
write_out-loses_slot_example :
    let s' = write_out counting 0xFFC00014 4097 machine in
    (s'.outside ≡ counting.write_page 4097 (get_frame_addr (words 0x2014)) 0)
    × (get_frame_addr (load 0xFFC00014 s') ≡ 4097 / 4096 * 4096)
    × (is_page_present (load 0xFFC00014 s') ≡ not (4097 % 2 == 0))
unfolding place walk
write_out-loses_slot_example =
    write_out-loses_slot counting machine 0xFFC00014 0x2014 4097 refl (λ v. refl)
      (words-fits 0x2014) (omega arith)

set_flags-one_table_example :
    find_table counting 1
      ((0x1000 + 4 * 768) % 2 ^ 32)
      768
      (set_flags tables_per_dir 0x1000 0 at_boot)
    ≡ some (0, set_flags tables_per_dir 0x1000 0 at_boot)
set_flags-one_table_example =
    set_flags-one_table counting 1 0x1000 768 at_boot refl (omega arith) (λ i h. refl) (omega arith)
