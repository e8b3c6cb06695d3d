-- ===== src/Vmm/Contexts.antt =====
-- Address spaces in memory/vmm.c: page directories, contexts, and `vmm_init`. A context is its two
-- members; the pointer to it is given where it is freed. `fuel` is that of Vmm/Swap; the result `none` of
-- a state is a panic, a failed assertion, or too little fuel.
pub mod Init
use my_os.Base.{
  ℕ, zero, suc, ◌+◌, ◌-◌, ◌*◌, ◌/◌, ◌%◌, ◌^◌, bit_or, Bool, true, false, Option, none, some, ◌==◌,
  if◌then◌else◌,
}
use my_os.Pmm.{word, pmm_free_frame}
use my_os.Pmm.Init.{Symbols, kernel_frames, kernel_heap_size, vga_address}
use my_os.Vmm.Entries.{
  align_to_page, get_frame_addr, is_page_present, is_swapped, page_entry_add_attrib,
  kernel_page_flags, recursive_page_table_index, present, page_writeable, page_size, tables_per_dir,
  page_table_size,
}
use my_os.Vmm.State.{
  Vmm, Outside, load, store, clear_words, get_page_table_addr, disk_free_slots_for_page,
}
use my_os.Vmm.Swap.{modify}
use my_os.Vmm.Map.{vmm_calc_phys_addr, vmm_map_page_to_curr_dir}

pub record VmContext : Type 0 where
  pub page_dir : ℕ
  pub page_dir_phys_addr : ℕ

module _ {S : Type 0} where
  unfoldable pub vmm_switch_vm_context : Option VmContext → Vmm S → Option (Vmm S)
  vmm_switch_vm_context none s = none
  vmm_switch_vm_context (some c) s =
      some (record s { current_directory = c.page_dir; cr3 = c.page_dir_phys_addr })

  -- The inner loop of `vmm_destroy_page_directory`, over the entries of a table from number `j` on.
  unfoldable pub free_table : (rounds : ℕ) → (table j : ℕ) → Vmm S → Option (Vmm S)
  unfolding load is_page_present get_frame_addr pmm_free_frame
  free_table zero table j s = some s
  free_table (suc n) table j s =
      let v = load (word (table + 4 * j)) s in
      elim (is_page_present v) [
        | false ↦ free_table n table (j + 1) s
        | true ↦ elim (pmm_free_frame s.pmm (get_frame_addr v)) [
          | none ↦ none
          | some pmm ↦ free_table n table (j + 1) (record s { pmm = pmm })
        ]
      ]

  -- The body of its outer loop where the table is present.
  unfoldable pub free_present : (page_dir i : ℕ) → Vmm S → Option (Vmm S)
  unfolding load free_table get_page_table_addr get_frame_addr pmm_free_frame
  free_present page_dir i s =
      let e = word (page_dir + 4 * i) in
      elim (free_table page_table_size (get_page_table_addr s.paging_enabled (load e s) i) 0 s) [
        | none ↦ none
        | some s' ↦ elim (pmm_free_frame s'.pmm (get_frame_addr (load e s'))) [
          | none ↦ none
          | some pmm ↦ some (record s' { pmm = pmm })
        ]
      ]

  unfoldable pub free_tables : (rounds : ℕ) → (page_dir i : ℕ) → Vmm S → Option (Vmm S)
  unfolding load is_page_present is_swapped free_present disk_free_slots_for_page get_frame_addr
  free_tables zero page_dir i s = some s
  free_tables (suc n) page_dir i s =
      let e = word (page_dir + 4 * i) in
      elim (if is_page_present (load e s) then free_present page_dir i s else some s) [
        | none ↦ none
        | some s' ↦ free_tables n page_dir (i + 1) (
            if is_swapped (load e s')
            then disk_free_slots_for_page (get_frame_addr (load e s')) s'
            else s')
      ]

  -- The loop of `vmm_create_vm_context` that copies the entries from number `i` on.
  unfoldable pub copy_entries : (rounds : ℕ) → (to from i : ℕ) → Vmm S → Vmm S
  unfolding load store
  copy_entries zero to from i s = s
  copy_entries (suc n) to from i s =
      copy_entries n to from (i + 1) (store (word (to + 4 * i)) (load (word (from + 4 * i)) s) s)

  -- The loop of `vmm_init` that sets the flags of the directory's entries from number `i` on.
  unfoldable pub set_flags : (rounds : ℕ) → (page_dir i : ℕ) → Vmm S → Vmm S
  unfolding modify page_entry_add_attrib
  set_flags zero page_dir i s = s
  set_flags (suc n) page_dir i s =
      set_flags n page_dir (i + 1)
        (modify (word (page_dir + 4 * i)) (λ v. page_entry_add_attrib v kernel_page_flags) s)

module _ {S : Type 0} (others : Outside S) where
  -- The directory, 0 where there is no memory for it.
  unfoldable pub vmm_create_empty_page_directory : Vmm S → ℕ × Vmm S
  unfolding clear_words
  vmm_create_empty_page_directory s =
      let (page_dir, outside) = others.kmalloc 4096 s.outside in
      let s' = record s { outside = outside } in
      if page_dir == 0 then (0, s') else (page_dir, clear_words 1024 page_dir s')

  unfoldable pub vmm_destroy_page_directory : (page_dir : ℕ) → Vmm S → Option (Vmm S)
  unfolding free_tables
  vmm_destroy_page_directory page_dir s = elim (free_tables tables_per_dir page_dir 0 s) [
    | none ↦ none
    | some s' ↦ some (record s' { outside = others.kfree page_dir s'.outside })
  ]

  -- The context and the pointer to it; a context of `none` is NULL. A directory of NULL is not caught.
  unfoldable pub vmm_create_vm_context :
      (fuel : ℕ) → (page_dir : ℕ) → Vmm S → Option (Option VmContext × ℕ × Vmm S)
  unfolding vmm_create_empty_page_directory copy_entries vmm_calc_phys_addr store
  vmm_create_vm_context fuel page_dir s =
      let (vm_context, outside) = others.kmalloc 8 s.outside in
      let s1 = record s { outside = outside } in
      let (new_dir, s2) = vmm_create_empty_page_directory s1 in
      let s3 = copy_entries (tables_per_dir - 1) new_dir page_dir 0 s2 in
      elim (vm_context == 0) [
        | true ↦ some (none, 0, s1)
        | false ↦ elim (vmm_calc_phys_addr others fuel new_dir s3) [
          | none ↦ none
          | some (phys, s4) ↦ some (
            some (record { page_dir = new_dir; page_dir_phys_addr = phys }),
            vm_context,
            store (word (new_dir + 4 * recursive_page_table_index)) (bit_or phys kernel_page_flags)
                s4,
          )
        ]
      ]

  unfoldable pub vmm_destroy_vm_context : (vm_context : ℕ) → VmContext → Vmm S → Option (Vmm S)
  unfolding vmm_destroy_page_directory
  vmm_destroy_vm_context vm_context c s = elim (vmm_destroy_page_directory c.page_dir s) [
    | none ↦ none
    | some s' ↦ some (record s' { outside = others.kfree vm_context s'.outside })
  ]

  -- The loops of `vmm_init` that map addresses to themselves: `rounds` pages from number `i` on, upwards
  -- from `start`, and downwards from `top`.
  unfoldable pub map_up : (fuel rounds : ℕ) → (start i : ℕ) → Vmm S → Option (Vmm S)
  unfolding vmm_map_page_to_curr_dir
  map_up fuel zero start i s = some s
  map_up fuel (suc n) start i s =
      let addr = word (start + i * page_size) in
      elim (vmm_map_page_to_curr_dir others fuel addr addr kernel_page_flags s) [
        | none ↦ none
        | some s' ↦ map_up fuel n start (i + 1) s'
      ]

  unfoldable pub map_down : (fuel rounds : ℕ) → (top i : ℕ) → Vmm S → Option (Vmm S)
  unfolding vmm_map_page_to_curr_dir
  map_down fuel zero top i s = some s
  map_down fuel (suc n) top i s =
      let addr = word (top + 2 ^ 32 - word (i * page_size)) in
      elim (vmm_map_page_to_curr_dir others fuel addr addr kernel_page_flags s) [
        | none ↦ none
        | some s' ↦ map_down fuel n top (i + 1) s'
      ]

  -- `kernel_directory` is the address of the static directory; with KERNEL_BASE_HEAP_ADDR.
  unfoldable pub vmm_init :
      (fuel : ℕ) → Symbols → (kernel_directory : ℕ) → Vmm S → Option (ℕ × Vmm S)
  unfolding set_flags map_up map_down vmm_map_page_to_curr_dir store align_to_page
  vmm_init fuel k kernel_directory s =
      let s1 =
        set_flags tables_per_dir kernel_directory 0
          (record s { current_directory = kernel_directory }) in
      let base = align_to_page k.kernel_stack_top in
      elim (map_up fuel (kernel_frames k) k.kernel_start 0 s1) [
        | none ↦ none
        | some s2 ↦
            let s3 =
              store (word (kernel_directory + 4 * recursive_page_table_index))
                (bit_or kernel_directory kernel_page_flags) s2 in
            elim (map_down fuel k.kernel_stack_pages_amount k.kernel_stack_top 0 s3) [
              | none ↦ none
              | some s4 ↦ elim (map_up fuel (kernel_heap_size / page_size) base 0 s4) [
                | none ↦ none
                | some s5 ↦
                    elim (vmm_map_page_to_curr_dir others fuel vga_address vga_address
                      (bit_or present page_writeable) s5) [
                        | none ↦ none
                        | some s6 ↦
                            some (base, record s6 { cr3 = kernel_directory; paging_enabled = true })
                      ]
              ]
            ]
      ]
