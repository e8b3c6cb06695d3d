-- ===== src/Kmalloc/Tests.antt =====
-- The theorems on kmalloc.c at a slab of three objects and at a heap that starts at 2 MB.
use mathlib.Core.Path.{subst}
use my_os.Base.{
  sym, ℕ, ◌+◌, ◌≡◌, ◌⊎◌, refl, arith, false, some, List, [], ◌∷◌, All, ◌==◌, if◌then◌else◌,
}
use my_os.Kmalloc.Slab.{init_slab, alloc_from_slab, slab_free}
use my_os.Kmalloc.Slab.FreeList.{IsSlab, alloc_from_slab-pops, slab_free-pushes}
use my_os.Kmalloc.Slab.Init.{objects_from, init_slab-IsSlab}
use my_os.Kmalloc.Caches.{Paging, KernelHeap, create_slab, format_slab, convert_to_vir_addr}
use my_os.Kmalloc.Large.{get_large_alloc_by_ptr}
use my_os.Kmalloc.Large.Links.{Links, Has, get_large_alloc_by_ptr-ends}
use my_os.Kmalloc.Entry.{kfree}
use my_os.Kmalloc.Entry.Free.{kfree-leaks_objects}

abbrev fresh : ℕ → ℕ
fresh = init_slab 8192 1024 (λ a. 0)

abbrev three_objects : List ℕ
three_objects = 8212 ∷ 9236 ∷ 10260 ∷ []

fresh-IsSlab : IsSlab fresh 8192 1024 three_objects
unfolding objects_from
fresh-IsSlab = (init_slab-IsSlab 8192 1024 (λ a. 0) (omega arith) (omega arith)).0

-- The last two objects.
fresh-rest : IsSlab (alloc_from_slab 8192 fresh).1 8192 1024 (9236 ∷ 10260 ∷ [])
fresh-rest =
    let (m', popped, now, frame) =
      alloc_from_slab-pops fresh 8192 1024 8212 (9236 ∷ 10260 ∷ []) fresh-IsSlab in
    subst (λ p. IsSlab p.1 8192 1024 (9236 ∷ 10260 ∷ [])) (sym popped) now

slab_free-pushes_example :
    IsSlab (slab_free 8192 8212 (alloc_from_slab 8192 fresh).1) 8192 1024 three_objects
    × ((a : ℕ)
        → (a == 8196) ≡ false
        → (a == 8204) ≡ false
        → (a == 8212) ≡ false
        → slab_free 8192 8212 (alloc_from_slab 8192 fresh).1 a ≡ (alloc_from_slab 8192 fresh).1 a)
slab_free-pushes_example =
    slab_free-pushes (alloc_from_slab 8192 fresh).1 8192 1024 8212 (9236 ∷ 10260 ∷ []) fresh-rest
      (0, omega arith, refl) (refl, (refl, tt)) (omega arith)

abbrev always : Paging ℕ
always = record {
  map_page_to_curr_dir = λ vir_addr frame_addr flags s. some s;
  unmap_page = λ vir_addr s. some s;
  alloc_frame = λ s. (s, s + 4096);
}

-- Its cache of objects of 1024 bytes has the fresh slab.
abbrev small_heap : KernelHeap ℕ
small_heap = record {
  memory = fresh;
  base = 0x200000;
  current_heap_addr = 0x200000;
  current_large_heap_addr = 0x26C000;
  slabs = λ i. if i == 6 then 8192 else 0;
  large_allocations = 0;
  paging = 0;
}

-- Only the cache of 1024 bytes has a slab.
abbrev one_slab : ℕ → List ℕ
one_slab k = if k == 6 then 8192 ∷ [] else []

-- Two nodes, for 0x500000 and 0x600000.
abbrev two_nodes : ℕ → ℕ
two_nodes a =
    if a == 4104
    then 8192
    else if a == 8204
    then 4096
    else if a == 4100
    then 0x500000
    else if a == 8196
    then 0x600000
    else 0

linked : Links two_nodes 0 4096 (4096 ∷ 8192 ∷ [])
linked = (refl, refl, refl, (refl, refl, refl, refl))

get_large_alloc_by_ptr-ends_example :
    ((n : ℕ) × (get_large_alloc_by_ptr 3 0x600000 4096 two_nodes ≡ some n)
      × Has two_nodes 0x600000 n (4096 ∷ 8192 ∷ []))
    ⊎ ((get_large_alloc_by_ptr 3 0x600000 4096 two_nodes ≡ some 0)
        × All (λ (n : ℕ). (two_nodes (n + 4) == 0x600000) ≡ false) (4096 ∷ 8192 ∷ []))
get_large_alloc_by_ptr-ends_example =
    get_large_alloc_by_ptr-ends 3 0x600000 two_nodes 0 4096 (4096 ∷ 8192 ∷ []) (omega arith) linked

-- A second slab is made, at 0x400000.
abbrev with_slab : KernelHeap ℕ
with_slab = record small_heap {
  memory = format_slab 0x400000 1024 fresh;
  current_heap_addr = 0x201000;
}

second_slab : create_slab always 1024 small_heap ≡ some (0x400000, with_slab)
unfolding create_slab convert_to_vir_addr
second_slab = refl

none_large : get_large_alloc_by_ptr 1 (0x400000 + 20) 0 with_slab.memory ≡ some 0
unfolding get_large_alloc_by_ptr
none_large = refl

kfree-leaks_objects_example : kfree always 1 1 (0x400000 + 20) with_slab ≡ some with_slab
kfree-leaks_objects_example =
    kfree-leaks_objects always small_heap with_slab with_slab 1024 0x400000 20 0 1 (omega arith)
      (omega arith) (omega arith) second_slab (omega arith) refl none_large
