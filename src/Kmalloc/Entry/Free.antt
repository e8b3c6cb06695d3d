-- ===== src/Kmalloc/Entry/Free.antt =====
-- What the addresses of the slabs mean for `kfree`.
use my_os.Base.{ℕ, suc, ◌+◌, ◌*◌, ◌^◌, ◌≤◌, ◌<◌, ◌≡◌, true, some, arith}
use my_os.Pmm.Init.{kernel_heap_size}
use my_os.Kmalloc.Caches.{KernelHeap, Paging, convert_to_vir_addr, create_slab}
use my_os.Kmalloc.Entry.{kfree, is_outside}
use my_os.Kmalloc.Large.{get_large_alloc_by_ptr}

-- Where the heap does not reach the end of the address space and its base lies past the heap's size, a
-- slab that `create_slab` makes stands at the base plus an address that contains the base already: all
-- of its page is outside the range in which `kfree` looks for slabs.
pub create_slab-is_outside :
    {S : Type 0}
    → (vmm : Paging S) (h h' : KernelHeap S) (object_size slab k : ℕ) → kernel_heap_size < h.base
    → 2 * h.base + 2 * kernel_heap_size < 2 ^ 32
    → h.base ≤ h.current_heap_addr
    → create_slab vmm object_size h ≡ some (slab, h')
    → k < 4096
    → is_outside h.base (slab + k) ≡ true
unfolding create_slab convert_to_vir_addr is_outside
create_slab-is_outside h h' object_size slab k past fits above made inside = ground arith

-- `kfree` of an address outside that range that is no large allocation changes nothing: the object is
-- never handed out again.
pub kfree-leaks :
    {S : Type 0}
    → (vmm : Paging S) (nested fuel ptr : ℕ) (h : KernelHeap S) → is_outside h.base ptr ≡ true
    → get_large_alloc_by_ptr fuel ptr h.large_allocations h.memory ≡ some 0
    → kfree vmm (suc nested) fuel ptr h ≡ some h
unfolding kfree
kfree-leaks vmm nested fuel ptr h outside missing = ground arith

-- So an object of a slab that `create_slab` made, with the heap placed as above, is never free again:
-- `kfree` of it, at any later time with the same base and with no large allocation there, changes
-- nothing.
pub kfree-leaks_objects :
    {S : Type 0}
    → (vmm : Paging S) (h h' later : KernelHeap S) (object_size slab k nested fuel : ℕ)
    → kernel_heap_size < h.base
    → 2 * h.base + 2 * kernel_heap_size < 2 ^ 32
    → h.base ≤ h.current_heap_addr
    → create_slab vmm object_size h ≡ some (slab, h')
    → k < 4096
    → later.base ≡ h.base
    → get_large_alloc_by_ptr fuel (slab + k) later.large_allocations later.memory ≡ some 0
    → kfree vmm (suc nested) fuel (slab + k) later ≡ some later
kfree-leaks_objects vmm h h' later object_size slab k nested fuel past fits above made inside same
      missing =
    kfree-leaks vmm nested fuel (slab + k) later
      (rw same (create_slab-is_outside vmm h h' object_size slab k past fits above made inside))
      missing
