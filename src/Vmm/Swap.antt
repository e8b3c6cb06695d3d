-- ===== src/Vmm/Swap.antt =====
-- Swapping and allocation of pages in memory/vmm.c. An entry is given by its address. Finding an entry
-- can swap its page table in, which can swap another page out, which finds an entry again: `fuel` bounds
-- the calls that are nested so. The result `none` is a panic, a failed assertion, or too little fuel.
pub mod Slots
use my_os.Base.{
  ℕ, zero, suc, ◌+◌, ◌-◌, ◌*◌, ◌/◌, ◌%◌, ◌^◌, bit_and, Bool, true, false, not, Option, none, some,
  ◌==◌, if◌then◌else◌,
}
use my_os.Pmm.{word, pmm_alloc_frame, pmm_free_frame, no_frame_available}
use my_os.Disk.Slots.{disk_no_slot_available}
use my_os.Vmm.Entries.{
  get_directory_index, get_table_index, get_page_table_vir_addr, get_frame_addr, is_page_present,
  is_swapped, page_entry_set_frame, page_entry_add_attrib, page_entry_remove_attrib, present,
  swapped,
}
use my_os.Vmm.State.{
  Vmm, Outside, load, store, get_page_table_addr, disk_alloc_slots_for_page,
  disk_free_slots_for_page,
}
use my_os.Vmm.Fifo.{page_enqueue, page_fifo_dequeue}

-- What the three functions before `vmm_swap_in_page` take it as.
abbrev pub SwapIn : Type 0 → Type 0
SwapIn S = (e vir_addr : ℕ) → Vmm S → Option (Bool × Vmm S)

module _ {S : Type 0} where
  -- `*e = change(*e);`
  unfoldable pub modify : (e : ℕ) → (ℕ → ℕ) → Vmm S → Vmm S
  unfolding load store
  modify e change s = store e (change (load e s)) s

  -- The address of the entry of the directory in use for an address.
  unfoldable pub directory_entry : Vmm S → (vir_addr : ℕ) → ℕ
  unfolding get_directory_index
  directory_entry s vir_addr = word (s.current_directory + 4 * get_directory_index vir_addr)

  -- The end of `vmm_get_page_entry`, where the table is not swapped.
  unfoldable pub entry_in_table : (vir_addr : ℕ) → Vmm S → Option (ℕ × Vmm S)
  unfolding load get_page_table_addr directory_entry get_table_index is_page_present
  entry_in_table vir_addr s =
      let pd_entry = load (directory_entry s vir_addr) s in
      let table = get_page_table_addr s.paging_enabled pd_entry (get_directory_index vir_addr) in
      if is_page_present pd_entry
      then some (word (table + 4 * get_table_index vir_addr), s)
      else none

  unfoldable pub get_page_entry_with : SwapIn S → (vir_addr : ℕ) → Vmm S → Option (ℕ × Vmm S)
  unfolding load directory_entry entry_in_table is_swapped
  get_page_entry_with swap_in vir_addr s =
      let e = directory_entry s vir_addr in
      elim (s.current_directory == 0) [
        | true ↦ none
        | false ↦ elim (is_swapped (load e s)) [
          | false ↦ entry_in_table vir_addr s
          | true ↦ elim (swap_in e (get_page_table_vir_addr (get_directory_index vir_addr)) s) [
            | none ↦ none
            | some (false, s') ↦ none
            | some (true, s') ↦ entry_in_table vir_addr s'
          ]
        ]
      ]

module _ {S : Type 0} (others : Outside S) where
  -- What `vmm_swap_out_page` does with a present entry once it has a slot.
  unfoldable pub write_out : (e disk_slot : ℕ) → Vmm S → Vmm S
  unfolding modify load page_entry_add_attrib page_entry_remove_attrib page_entry_set_frame
      get_frame_addr
  write_out e disk_slot s =
      let s = record s {
        outside = others.write_page disk_slot (get_frame_addr (load e s)) s.outside;
      } in
      let s = modify e (λ v. page_entry_add_attrib v swapped) s in
      let s = modify e (λ v. page_entry_remove_attrib v present) s in
      modify e (λ v. page_entry_set_frame v disk_slot) s

  unfoldable pub swap_out_page_with : SwapIn S → (vir_addr : ℕ) → Vmm S → Option (Bool × Vmm S)
  unfolding get_page_entry_with disk_alloc_slots_for_page write_out load is_page_present
  swap_out_page_with swap_in vir_addr s = elim (get_page_entry_with swap_in vir_addr s) [
    | none ↦ none
    | some (e, s1) ↦ some (
        let (disk_slot, s2) = disk_alloc_slots_for_page s1 in
        if not (is_page_present (load e s1))
        then (false, s1)
        else if disk_slot == disk_no_slot_available
        then (false, s2)
        else (true, write_out e disk_slot s2))
  ]

  unfoldable pub swap_out_some_page_with : SwapIn S → Vmm S → Option (Bool × Vmm S)
  unfolding page_fifo_dequeue swap_out_page_with
  swap_out_some_page_with swap_in s =
      let (vir_addr, s') = page_fifo_dequeue others s in
      if vir_addr == 0 then some (false, s') else swap_out_page_with swap_in vir_addr s'

  -- How `vmm_swap_in_page` and `vmm_alloc_permanent_page` begin: a frame, if need be after a page has
  -- been swapped out; 0 where there is none.
  unfoldable pub alloc_frame_with : SwapIn S → Vmm S → Option (ℕ × Vmm S)
  unfolding pmm_alloc_frame swap_out_some_page_with
  alloc_frame_with swap_in s =
      let (frame_addr, pmm) = pmm_alloc_frame s.pmm in
      elim (frame_addr == no_frame_available) [
        | false ↦ some (frame_addr, record s { pmm = pmm })
        | true ↦ elim (swap_out_some_page_with swap_in (record s { pmm = pmm })) [
          | none ↦ none
          | some (false, s') ↦ some (no_frame_available, s')
          | some (true, s') ↦
              some
                (let (frame', pmm') = pmm_alloc_frame s'.pmm in (frame', record s' { pmm = pmm' }))
        ]
      ]

  -- What `vmm_swap_in_page` does once it has a frame.
  unfoldable pub read_in : (e frame_addr : ℕ) → Vmm S → Vmm S
  unfolding modify load page_entry_add_attrib page_entry_remove_attrib page_entry_set_frame
      get_frame_addr disk_free_slots_for_page
  read_in e frame_addr s =
      let s = modify e (λ v. page_entry_set_frame v frame_addr) s in
      let disk_slot = get_frame_addr (load e s) in
      let s = record s { outside = others.read_page disk_slot frame_addr s.outside } in
      let s = disk_free_slots_for_page disk_slot s in
      let s = modify e (λ v. page_entry_add_attrib v present) s in
      modify e (λ v. page_entry_remove_attrib v swapped) s

  unfoldable pub vmm_swap_in_page : (fuel : ℕ) → (e vir_addr : ℕ) → Vmm S → Option (Bool × Vmm S)
  unfolding alloc_frame_with read_in
  vmm_swap_in_page zero e vir_addr s = none
  vmm_swap_in_page (suc f) e vir_addr s = elim (alloc_frame_with (vmm_swap_in_page f) s) [
    | none ↦ none
    | some (frame_addr, s') ↦
        some (
          if frame_addr == no_frame_available then (false, s') else (true, read_in e frame_addr s'))
  ]

  unfoldable pub vmm_get_page_entry : (fuel : ℕ) → (vir_addr : ℕ) → Vmm S → Option (ℕ × Vmm S)
  unfolding get_page_entry_with vmm_swap_in_page
  vmm_get_page_entry fuel vir_addr s = get_page_entry_with (vmm_swap_in_page fuel) vir_addr s

  unfoldable pub vmm_swap_out_page : (fuel : ℕ) → (vir_addr : ℕ) → Vmm S → Option (Bool × Vmm S)
  unfolding swap_out_page_with vmm_swap_in_page
  vmm_swap_out_page fuel vir_addr s = swap_out_page_with (vmm_swap_in_page fuel) vir_addr s

  unfoldable pub vmm_swap_out_some_page : (fuel : ℕ) → Vmm S → Option (Bool × Vmm S)
  unfolding swap_out_some_page_with vmm_swap_in_page
  vmm_swap_out_some_page fuel s = swap_out_some_page_with (vmm_swap_in_page fuel) s

  unfoldable pub vmm_alloc_permanent_page : (fuel : ℕ) → (e : ℕ) → Vmm S → Option (Bool × Vmm S)
  unfolding alloc_frame_with vmm_swap_in_page modify page_entry_set_frame page_entry_add_attrib
  vmm_alloc_permanent_page fuel e s = elim (alloc_frame_with (vmm_swap_in_page fuel) s) [
    | none ↦ none
    | some (frame_addr, s') ↦ some (
        if frame_addr == no_frame_available then (false, s') else (
          true,
          modify e (λ v. page_entry_add_attrib v present)
              (modify e (λ v. page_entry_set_frame v frame_addr) s'),
        ))
  ]

  unfoldable pub vmm_alloc_page : (fuel : ℕ) → (e vir_addr : ℕ) → Vmm S → Option (Bool × Vmm S)
  unfolding vmm_alloc_permanent_page page_enqueue pmm_free_frame modify load
  vmm_alloc_page fuel e vir_addr s = elim (vmm_alloc_permanent_page fuel e s) [
    | none ↦ none
    | some (false, s') ↦ some (false, s')
    | some (true, s') ↦
        let (queued, s'') = page_enqueue others vir_addr s' in
        elim queued [
          | true ↦ some (true, s'')
          | false ↦ elim (pmm_free_frame s''.pmm (get_frame_addr (load e s''))) [
            | none ↦ none
            | some pmm ↦ some (
              false,
              modify e (λ v. page_entry_remove_attrib v present) (record s'' { pmm = pmm }),
            )
          ]
        ]
  ]

module _ {S : Type 0} where
  unfoldable pub vmm_free_page : (e : ℕ) → Vmm S → Option (Vmm S)
  unfolding load store pmm_free_frame
  vmm_free_page e s = elim (pmm_free_frame s.pmm (bit_and (load e s) 0xFFFFF000)) [
    | none ↦ none
    | some pmm ↦ some (store e 0 (record s { pmm = pmm }))
  ]
