-- ===== src/Kmalloc/Slab.antt =====
-- The slabs of memory/kmalloc.c: pages that keep their free objects in a list through the objects
-- themselves. The memory is a function from addresses to 32-bit words; an address inside one page does
-- not wrap.
pub mod Chain
pub mod FreeList
pub mod Init
use my_os.Base.{ℕ, zero, suc, ◌+◌, ◌-◌, ◌*◌, ◌/◌, ◌%◌, ◌^◌, Bool, ◌==◌, if◌then◌else◌}
use my_os.Base.Masks.{update}

-- The places of the members of `struct slab`.
abbrev pub object_size_of : ℕ → ℕ
object_size_of slab = slab

abbrev pub free_list_of : ℕ → ℕ
free_list_of slab = slab + 4

abbrev pub offset_of : ℕ → ℕ
offset_of slab = slab + 8

abbrev pub free_count_of : ℕ → ℕ
free_count_of slab = slab + 12

abbrev pub next_of : ℕ → ℕ
next_of slab = slab + 16

abbrev pub data_of : ℕ → ℕ
data_of slab = slab + 20

-- sizeof(slab->data)
abbrev pub data_size : ℕ
data_size = 4096 - 4 - 4 - 2 * 4 - 4

-- The loop of `init_slab`, from object `i` on, and the end of the list after it.
unfoldable pub link_objects : (rounds : ℕ) → (slab object_size i current : ℕ) → (ℕ → ℕ) → ℕ → ℕ
link_objects zero slab object_size i current m = update m current 0
link_objects (suc n) slab object_size i current m =
    let next_obj = data_of slab + i * object_size in
    link_objects n slab object_size (i + 1) next_obj (update m current next_obj)

unfoldable pub init_slab : (slab object_size : ℕ) → (ℕ → ℕ) → ℕ → ℕ
unfolding link_objects
init_slab slab object_size m =
    let num_objects = data_size / object_size in
    link_objects (num_objects - 1) slab object_size 1 (data_of slab)
      (update (update m (free_count_of slab) num_objects) (free_list_of slab) (data_of slab))

-- The object, 0 where there is none, and the memory.
unfoldable pub alloc_from_slab : (slab : ℕ) → (ℕ → ℕ) → ℕ × (ℕ → ℕ)
alloc_from_slab slab m =
    let object = m (free_list_of slab) in
    let m' = update m (free_list_of slab) (m object) in
    if m (free_count_of slab) == 0
    then (0, m)
    else (object, update m' (free_count_of slab) (m' (free_count_of slab) - 1))

unfoldable pub slab_free : (slab object : ℕ) → (ℕ → ℕ) → ℕ → ℕ
slab_free slab object m =
    let m1 = update m object (m (free_list_of slab)) in
    let m2 = update m1 (free_list_of slab) object in
    update m2 (free_count_of slab) ((m2 (free_count_of slab) + 1) % 2 ^ 32)
