-- ===== src/Kmalloc/Entry/Room.antt =====
-- That a small allocation of memory/kmalloc.c has room for what was asked for.
use my_os.Base.{ℕ, ◌+◌, ◌≤◌, ◌<◌, List, All, length, get_or}
use my_os.Kmalloc.Slab.FreeList.{IsSlab}
use my_os.Kmalloc.Caches.{KernelHeap, object_sizes}
use my_os.Kmalloc.Caches.Search.{SlabRun}

-- The slabs of every cache are well formed lists, with `free` the free objects of each slab, and the walk
-- over them has fuel enough.
pub record IsHeap {S : Type 0} (h : KernelHeap S) (fuel : ℕ) (slabs : ℕ → List ℕ)
    (free : ℕ → List ℕ) : Type 0 where
  pub enough : (k : ℕ) → k < 8 → length (slabs k) < fuel
  pub linked : (k : ℕ) → k < 8 → SlabRun h.memory (h.slabs k) (slabs k)
  pub formed :
      (k : ℕ) → k < 8 → All (λ s. IsSlab h.memory s (get_or object_sizes k 0) (free s)) (slabs k)

-- `size` bytes from `object` on lie in the data of the slab's page.
abbrev pub HasRoom : (slab object size : ℕ) → Type 0
HasRoom slab object size = (slab + 20 ≤ object) × (object + size ≤ slab + 4096)
