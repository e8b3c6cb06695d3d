-- ===== src/Kmalloc/Entry.antt =====
-- kmalloc, kfree and init_kmalloc of memory/kmalloc.c. `fuel` bounds the walks over the slabs of a cache
-- and over the large allocations. The result `none` is a panic, a failed assertion, or too little fuel;
-- a NULL result is the pointer 0.
pub mod Free
pub mod Room
use my_os.Base.{
  ℕ, zero, suc, ◌+◌, ◌-◌, ◌*◌, ◌/◌, ◌%◌, ◌^◌, bit_and, Bool, true, false, ◌||◌, Option, none, some,
  get_or, ltb, leb, ◌==◌, if◌then◌else◌,
}
use my_os.Base.Masks.{update}
use my_os.Pmm.{word, aligned_to_physical_page, no_frame_available}
use my_os.Pmm.Init.{kernel_heap_size}
use my_os.Kmalloc.Slab.{slab_free}
use my_os.Kmalloc.Caches.{
  KernelHeap, Paging, num_caches, max_cache_size, object_sizes, get_cache, create_slab,
  alloc_from_cache,
}
use my_os.Kmalloc.Large.{
  size_of, fill_large_alloc, insert_large_alloc, unlink_large_alloc, get_large_alloc_by_ptr,
}

-- The test of `kfree` that sends a pointer to the large allocations.
unfoldable pub is_outside : (base ptr : ℕ) → Bool
is_outside base ptr = ltb ptr base || ltb (word (base + kernel_heap_size)) ptr

module _ {S : Type 0} (vmm : Paging S) where
  -- The small case of `kmalloc`.
  unfoldable pub kmalloc_small : (fuel size : ℕ) → KernelHeap S → Option (ℕ × KernelHeap S)
  unfolding get_cache alloc_from_cache
  kmalloc_small fuel size h = elim (get_cache size) [
    | none ↦ none
    | some cache ↦ alloc_from_cache vmm fuel cache h
  ]

  -- `rounds` pages from number `i` on are unmapped.
  unfoldable pub unmap_pages : (rounds : ℕ) → (addr i : ℕ) → S → Option S
  unmap_pages zero addr i s = some s
  unmap_pages (suc n) addr i s = elim (vmm.unmap_page (word (addr + i * 4096)) s) [
    | none ↦ none
    | some s' ↦ unmap_pages n addr (i + 1) s'
  ]

  -- The loop of `kmalloc_large`: whether each page got a frame.
  unfoldable pub map_pages : (rounds : ℕ) → (addr i : ℕ) → S → Option (Bool × S)
  unfolding unmap_pages
  map_pages zero addr i s = some (true, s)
  map_pages (suc n) addr i s =
      let (frame, s') = vmm.alloc_frame s in
      elim (frame == no_frame_available) [
        | true ↦ elim (unmap_pages i addr 0 s') [ none ↦ none | some s'' ↦ some (false, s'') ]
        | false ↦ elim (vmm.map_page_to_curr_dir (word (addr + i * 4096)) frame 0x2 s') [
          | none ↦ none
          | some s'' ↦ map_pages n addr (i + 1) s''
        ]
      ]

  -- `insert_large_alloc(create_large_alloc(size, ptr))`; the node itself is a small object.
  unfoldable pub record_large_alloc : (fuel size ptr : ℕ) → KernelHeap S → Option (KernelHeap S)
  unfolding kmalloc_small fill_large_alloc insert_large_alloc
  record_large_alloc fuel size ptr h = elim (kmalloc_small fuel 16 h) [
    | none ↦ none
    | some (alloc, h') ↦ elim (alloc == 0) [
      | true ↦ none
      | false ↦
          let (head, m) =
            insert_large_alloc alloc h'.large_allocations
              (fill_large_alloc alloc size ptr h'.memory) in
          some (record h' { memory = m; large_allocations = head })
    ]
  ]

  unfoldable pub kmalloc_large : (fuel size : ℕ) → KernelHeap S → Option (ℕ × KernelHeap S)
  unfolding map_pages record_large_alloc aligned_to_physical_page
  kmalloc_large fuel size h =
      let aligned_size = aligned_to_physical_page size in
      let ptr = h.current_large_heap_addr in
      elim (map_pages (aligned_size / 4096) ptr 0 h.paging) [
        | none ↦ none
        | some (false, s) ↦ some (0, record h { paging = s })
        | some (true, s) ↦
            elim (record_large_alloc fuel size ptr
              (record h { paging = s; current_large_heap_addr = word (ptr + aligned_size) })) [
                | none ↦ none
                | some h' ↦ some (ptr, h')
              ]
      ]

  unfoldable pub kmalloc : (fuel size : ℕ) → KernelHeap S → Option (ℕ × KernelHeap S)
  unfolding kmalloc_large kmalloc_small
  kmalloc fuel size h =
      if ltb max_cache_size size then kmalloc_large fuel size h else kmalloc_small fuel size h

  -- `nested` bounds the calls of `kfree` for the nodes of large allocations.
  unfoldable pub kfree : (nested fuel : ℕ) → (ptr : ℕ) → KernelHeap S → Option (KernelHeap S)
  unfolding is_outside get_large_alloc_by_ptr unmap_pages unlink_large_alloc slab_free
  kfree zero fuel ptr h = none
  kfree (suc n) fuel ptr h = elim (ptr == 0) [
    | true ↦ some h
    | false ↦ elim (is_outside h.base ptr) [
      | false ↦ some (record h { memory = slab_free (bit_and ptr 0xFFFFF000) ptr h.memory })
      | true ↦ elim (get_large_alloc_by_ptr fuel ptr h.large_allocations h.memory) [
        | none ↦ none
        | some alloc ↦ elim (alloc == 0) [
          | true ↦ some h
          | false ↦
              elim (unmap_pages (aligned_to_physical_page (h.memory (size_of alloc)) / 4096) ptr 0
                h.paging) [
                  | none ↦ none
                  | some s ↦
                      let (head, m) = unlink_large_alloc alloc h.large_allocations h.memory in
                      kfree n fuel alloc
                        (record h { memory = m; large_allocations = head; paging = s })
                ]
        ]
      ]
    ]
  ]

  -- The loop of `init_kmalloc`, over the caches from number `i` on.
  unfoldable pub create_slabs : (rounds : ℕ) → (i : ℕ) → KernelHeap S → Option (KernelHeap S)
  unfolding create_slab
  create_slabs zero i h = some h
  create_slabs (suc n) i h = elim (create_slab vmm (get_or object_sizes i 0) h) [
    | none ↦ none
    | some (slab, h') ↦ elim (slab == 0) [
      | true ↦ none
      | false ↦ create_slabs n (i + 1) (record h' { slabs = update h'.slabs i slab })
    ]
  ]

  unfoldable pub init_kmalloc : KernelHeap S → Option (KernelHeap S)
  unfolding create_slabs
  init_kmalloc h = create_slabs num_caches 0 (record h {
    current_heap_addr = h.base;
    current_large_heap_addr = word (h.base + kernel_heap_size);
  })
