-- ===== src/Kmalloc/Caches/Take.antt =====
-- Taking an object of a cache, from a slab that it has or from a new one.
use my_os.Base.{ℕ, ◌+◌, ◌-◌, ◌/◌, ◌≤◌, ◌<◌, ◌≡◌, refl, true, ◌&&◌, get_or, leb, ltb, arith}
use my_os.Base.Table.{all_below, true_of_all_below}
use my_os.Kmalloc.Slab.{data_size}
use my_os.Kmalloc.Slab.FreeList.{IsSlab}
use my_os.Kmalloc.Slab.Init.{objects_from}
use my_os.Kmalloc.Caches.{KernelHeap, object_sizes}

pub object_sizes_bounds :
    (i : ℕ) → i < 8 → (0 < get_or object_sizes i 0) × (get_or object_sizes i 0 ≤ data_size)
unfolding all_below
object_sizes_bounds i h =
    let t : (ltb 0 (get_or object_sizes i 0) && leb (get_or object_sizes i 0) data_size) ≡ true =
      true_of_all_below 8
        (λ k. ltb 0 (get_or object_sizes k 0) && leb (get_or object_sizes k 0) data_size) i refl
        h in
    ground arith

-- The first object of a new slab, whose other objects are free and which stands in front of the others.
pub record TookNew {S : Type 0} (h : KernelHeap S) (cache slab object : ℕ) (h' : KernelHeap S)
    : Type 0 where
  pub first : object ≡ slab + 20
  pub now : IsSlab h'.memory slab (get_or object_sizes cache 0) (
      objects_from slab
        (get_or object_sizes cache 0)
        (data_size / get_or object_sizes cache 0 - 1)
        1)
  pub in_front : h'.slabs cache ≡ slab
  pub linked : h'.memory (slab + 16) ≡ h.slabs cache
