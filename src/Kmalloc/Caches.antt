-- ===== src/Kmalloc/Caches.antt =====
-- The caches of memory/kmalloc.c: for each size a list of slabs.
pub mod Search
pub mod Sizes
pub mod Take
use my_os.Base.{
  ℕ, zero, suc, ◌+◌, ◌-◌, ◌*◌, ◌/◌, ◌%◌, ◌^◌, Bool, true, false, Option, none, some, List, [], ◌∷◌,
  get_or, ltb, leb, ◌==◌, if◌then◌else◌,
}
use my_os.Base.Masks.{update}
use my_os.Pmm.{word}
use my_os.Pmm.Init.{kernel_heap_size}
use my_os.Kmalloc.Slab.{object_size_of, offset_of, next_of, init_slab, alloc_from_slab}

-- What the heap uses of memory/vmm.c and memory/pmm.c, on a state of theirs; `none` is a panic. They do not
-- touch the heap here: that vmm.c, where it needs a page table, calls kmalloc for its queue of pages is
-- not followed.
pub record Paging (S : Type 0) : Type 0 where
  pub map_page_to_curr_dir : (vir_addr frame_addr flags : ℕ) → S → Option S
  pub unmap_page : (vir_addr : ℕ) → S → Option S
  pub alloc_frame : S → ℕ × S

pub record KernelHeap (S : Type 0) : Type 0 where
  pub memory : ℕ → ℕ
  -- KERNEL_BASE_HEAP_ADDR
  pub base : ℕ
  pub current_heap_addr : ℕ
  pub current_large_heap_addr : ℕ
  -- caches[i].slabs
  pub slabs : ℕ → ℕ
  pub large_allocations : ℕ
  pub paging : S

abbrev pub num_caches : ℕ
num_caches = 8

abbrev pub max_cache_size : ℕ
max_cache_size = 2048

-- caches[i].object_size
abbrev pub object_sizes : List ℕ
object_sizes = 16 ∷ 32 ∷ 64 ∷ 128 ∷ 256 ∷ 512 ∷ 1024 ∷ 2048 ∷ []

-- The loop of `get_cache`, over the caches from number `i` on; the cache is given by its number.
unfoldable pub get_cache_from : List ℕ → (i size : ℕ) → Option ℕ
get_cache_from [] i size = none
get_cache_from (object_size ∷ sizes) i size =
    let rest = get_cache_from sizes (i + 1) size in if leb size object_size then some i else rest

unfoldable pub get_cache : (size : ℕ) → Option ℕ
unfolding get_cache_from
get_cache size = get_cache_from object_sizes 0 size

unfoldable pub convert_to_vir_addr : (base addr : ℕ) → ℕ
convert_to_vir_addr base addr = word (addr + base)

-- What `create_slab` writes into the new page.
unfoldable pub format_slab : (slab object_size : ℕ) → (ℕ → ℕ) → ℕ → ℕ
unfolding init_slab
format_slab slab object_size m = init_slab slab object_size (
    update (update (update m (object_size_of slab) object_size) (offset_of slab) 0) (next_of slab)
      0)

-- The loop of `alloc_from_cache` over the slabs from `slab` on: the object, 0 where all are full;
-- `none`: out of fuel.
unfoldable pub find_in_slabs : (fuel : ℕ) → (slab : ℕ) → (ℕ → ℕ) → Option (ℕ × (ℕ → ℕ))
unfolding alloc_from_slab
find_in_slabs zero slab m = none
find_in_slabs (suc f) slab m =
    let (res, m') = alloc_from_slab slab m in
    elim (slab == 0) [
      | true ↦ some (0, m)
      | false ↦ elim (res == 0) [
        | false ↦ some (res, m')
        | true ↦ find_in_slabs f (m' (next_of slab)) m'
      ]
    ]

module _ {S : Type 0} (vmm : Paging S) where
  -- The slab; `none` is the failed assertion, or a panic below.
  unfoldable pub create_slab : (object_size : ℕ) → KernelHeap S → Option (ℕ × KernelHeap S)
  unfolding convert_to_vir_addr format_slab
  create_slab object_size h =
      let phys = h.current_heap_addr in
      let slab = convert_to_vir_addr h.base phys in
      if leb phys (word (h.base + kernel_heap_size))
      then elim (vmm.map_page_to_curr_dir slab phys 0x2 h.paging) [
        | none ↦ none
        | some paging ↦ some (
          slab,
          record h {
            memory = format_slab slab object_size h.memory;
            current_heap_addr = word (phys + 4096);
            paging = paging;
          },
        )
      ]
      else none

  -- Where no slab has an object left: a new slab in front of the others, and its first object; 0 where
  -- the new slab is at address 0.
  unfoldable pub alloc_from_new_slab : (cache : ℕ) → KernelHeap S → Option (ℕ × KernelHeap S)
  unfolding create_slab alloc_from_slab
  alloc_from_new_slab cache h = elim (create_slab (get_or object_sizes cache 0) h) [
    | none ↦ none
    | some (slab, h') ↦ some (
        let m = update h'.memory (next_of slab) (h'.slabs cache) in
        let (object, m') = alloc_from_slab slab m in
        if slab == 0
        then (0, h')
        else (object, record h' { memory = m'; slabs = update h'.slabs cache slab }))
  ]

  unfoldable pub alloc_from_cache :
      (fuel : ℕ) → (cache : ℕ) → KernelHeap S → Option (ℕ × KernelHeap S)
  unfolding find_in_slabs alloc_from_new_slab
  alloc_from_cache fuel cache h = elim (find_in_slabs fuel (h.slabs cache) h.memory) [
    | none ↦ none
    | some (res, m) ↦ elim (res == 0) [
      | false ↦ some (res, record h { memory = m })
      | true ↦ alloc_from_new_slab cache (record h { memory = m })
    ]
  ]
