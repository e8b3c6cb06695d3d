-- ===== src/Vmm/Map.antt =====
-- Mapping, unmapping and translating addresses in memory/vmm.c, and the page fault handler. `fuel` is
-- that of Vmm/Swap; the result `none` is a panic, a failed assertion, or too little fuel.
pub mod Writes
pub mod Translate
pub mod Unmap
use my_os.Base.{
  ℕ, zero, suc, ◌+◌, ◌-◌, ◌*◌, ◌/◌, ◌%◌, ◌^◌, bit_or, Bool, true, false, not, Option, none, some,
  ◌==◌, if◌then◌else◌,
}
use my_os.Pmm.{word, pmm_free_frame}
use my_os.Vmm.Entries.{
  get_directory_index, get_table_index, get_page_table_vir_addr, get_frame_addr, get_frame_offset,
  is_page_present, is_swapped, is_page_present_error, is_page_user_error, page_entry_set_frame,
  page_entry_add_attrib, present, page_writeable,
}
use my_os.Vmm.State.{
  Vmm, Outside, load, store, get_page_table_addr, clear_words, disk_free_slots_for_page,
}
use my_os.Vmm.Swap.{
  modify, vmm_swap_in_page, vmm_get_page_entry, vmm_alloc_permanent_page, vmm_alloc_page,
}

module _ {S : Type 0} where
  -- The page table of an entry of a directory, given by its address.
  unfoldable pub table_at : (e pd_index : ℕ) → Vmm S → ℕ
  unfolding load get_page_table_addr
  table_at e pd_index s = get_page_table_addr s.paging_enabled (load e s) pd_index

  -- The end of `vmm_map_page`.
  unfoldable pub map_in_table : (table vir_addr phys_addr flags : ℕ) → Vmm S → Vmm S
  unfolding modify get_table_index page_entry_set_frame page_entry_add_attrib
  map_in_table table vir_addr phys_addr flags s =
      let e = word (table + 4 * get_table_index vir_addr) in
      modify e (λ v. page_entry_add_attrib v (bit_or flags present))
        (modify e (λ v. page_entry_set_frame v phys_addr) s)

module _ {S : Type 0} (others : Outside S) where
  -- The case of `vmm_map_page` in which there is no table yet.
  unfoldable pub new_table : (fuel : ℕ) → (e pd_index : ℕ) → Vmm S → Option (ℕ × Vmm S)
  unfolding vmm_alloc_page vmm_alloc_permanent_page modify table_at clear_words
  new_table fuel e pd_index s =
      elim (if s.paging_enabled
        then vmm_alloc_page others fuel e (get_page_table_vir_addr pd_index) s
        else vmm_alloc_permanent_page others fuel e s) [
          | none ↦ none
          | some (false, s') ↦ none
          | some (true, s') ↦ some (
              let s'' = modify e (λ v. page_entry_add_attrib v page_writeable) s' in
              let table = table_at e pd_index s'' in (table, clear_words 1024 table s''))
        ]

  -- The three cases of `vmm_map_page`: the table, and the state.
  unfoldable pub find_table : (fuel : ℕ) → (e pd_index : ℕ) → Vmm S → Option (ℕ × Vmm S)
  unfolding load is_page_present is_swapped table_at vmm_swap_in_page new_table
  find_table fuel e pd_index s = elim (is_page_present (load e s)) [
    | true ↦ some (table_at e pd_index s, s)
    | false ↦ elim (is_swapped (load e s)) [
      | true ↦ elim (vmm_swap_in_page others fuel e (get_page_table_vir_addr pd_index) s) [
        | none ↦ none
        | some (false, s') ↦ none
        | some (true, s') ↦ some (table_at e pd_index s', s')
      ]
      | false ↦ new_table fuel e pd_index s
    ]
  ]

  unfoldable pub vmm_map_page :
      (fuel : ℕ) → (page_dir vir_addr phys_addr flags : ℕ) → Vmm S → Option (Vmm S)
  unfolding find_table map_in_table get_directory_index
  vmm_map_page fuel page_dir vir_addr phys_addr flags s =
      let pd_index = get_directory_index vir_addr in
      elim (page_dir == 0) [
        | true ↦ none
        | false ↦ elim (find_table fuel (word (page_dir + 4 * pd_index)) pd_index s) [
          | none ↦ none
          | some (table, s') ↦ some (map_in_table table vir_addr phys_addr flags s')
        ]
      ]

  -- The assertion is that of `vmm_map_page` once more.
  unfoldable pub vmm_map_page_to_curr_dir :
      (fuel : ℕ) → (vir_addr frame_addr flags : ℕ) → Vmm S → Option (Vmm S)
  unfolding vmm_map_page
  vmm_map_page_to_curr_dir fuel vir_addr frame_addr flags s =
      vmm_map_page fuel s.current_directory vir_addr frame_addr flags s

  unfoldable pub vmm_unmap_page : (fuel : ℕ) → (vir_addr : ℕ) → Vmm S → Option (Vmm S)
  unfolding vmm_get_page_entry load store pmm_free_frame disk_free_slots_for_page is_page_present
      is_swapped
  vmm_unmap_page fuel vir_addr s = elim (vmm_get_page_entry others fuel vir_addr s) [
    | none ↦ none
    | some (e, s') ↦ elim (is_page_present (load e s')) [
      | true ↦ elim (pmm_free_frame s'.pmm (get_frame_addr (load e s'))) [
        | none ↦ none
        | some pmm ↦ some (store e 0 (record s' { pmm = pmm }))
      ]
      | false ↦ some (
          if is_swapped (load e s')
          then store e 0 (disk_free_slots_for_page (get_frame_addr (load e s')) s')
          else s')
    ]
  ]

  unfoldable pub vmm_calc_phys_addr : (fuel : ℕ) → (vir_addr : ℕ) → Vmm S → Option (ℕ × Vmm S)
  unfolding vmm_get_page_entry load is_page_present get_frame_addr get_frame_offset
  vmm_calc_phys_addr fuel vir_addr s = elim (vmm_get_page_entry others fuel vir_addr s) [
    | none ↦ none
    | some (e, s') ↦
        (if is_page_present (load e s')
          then some (word (get_frame_addr (load e s') + get_frame_offset vir_addr), s')
          else none)
  ]

  -- `fault_addr` is what the processor left in cr2. There is no copy on write, so a fault on a present
  -- page is a fault of permissions.
  unfoldable pub page_fault_handler :
      (fuel : ℕ) → (fault_addr error_code : ℕ) → Vmm S → Option (Vmm S)
  unfolding vmm_get_page_entry load is_swapped is_page_present_error is_page_user_error
      vmm_swap_in_page vmm_alloc_page
  page_fault_handler fuel fault_addr error_code s =
      elim (vmm_get_page_entry others fuel fault_addr s) [
        | none ↦ none
        | some (e, s') ↦ elim (is_page_present_error error_code) [
          | true ↦ (if is_page_user_error error_code then some s' else none)
          | false ↦
              elim (if is_swapped (load e s')
                then vmm_swap_in_page others fuel e fault_addr s'
                else vmm_alloc_page others fuel e fault_addr s') [
                  | none ↦ none
                  | some (false, s'') ↦ none
                  | some (true, s'') ↦ some s''
                ]
        ]
      ]
