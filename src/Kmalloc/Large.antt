-- ===== src/Kmalloc/Large.antt =====
-- The list of large allocations in memory/kmalloc.c: nodes with their size, pointer, next and previous
-- node, in a memory from addresses to words.
pub mod Links
use my_os.Base.{ℕ, zero, suc, ◌+◌, Bool, true, false, Option, none, some, ◌==◌, if◌then◌else◌}
use my_os.Base.Masks.{update}

-- The places of the members of `large_alloc_t`.
abbrev pub size_of : ℕ → ℕ
size_of alloc = alloc

abbrev pub ptr_of : ℕ → ℕ
ptr_of alloc = alloc + 4

abbrev pub next_of : ℕ → ℕ
next_of alloc = alloc + 8

abbrev pub prev_of : ℕ → ℕ
prev_of alloc = alloc + 12

-- What `create_large_alloc` stores in the node that it allocated.
unfoldable pub fill_large_alloc : (alloc size ptr : ℕ) → (ℕ → ℕ) → ℕ → ℕ
fill_large_alloc alloc size ptr m =
    update (update (update (update m (size_of alloc) size) (ptr_of alloc) ptr) (next_of alloc) 0)
      (prev_of alloc) 0

-- With the new `large_allocations`.
unfoldable pub insert_large_alloc : (alloc large_allocations : ℕ) → (ℕ → ℕ) → ℕ × (ℕ → ℕ)
insert_large_alloc alloc large_allocations m = if large_allocations == 0 then (alloc, m) else (
  alloc,
  update (update m (prev_of large_allocations) alloc) (next_of alloc) large_allocations,
)

-- The node is unlinked and cleared; `large_alloc_destroy` follows. With the new `large_allocations`.
unfoldable pub unlink_large_alloc : (alloc large_allocations : ℕ) → (ℕ → ℕ) → ℕ × (ℕ → ℕ)
unlink_large_alloc alloc large_allocations m =
    let prev = m (prev_of alloc) in
    let head = if prev == 0 then m (next_of alloc) else large_allocations in
    let m1 = if prev == 0 then m else update m (next_of prev) (m (next_of alloc)) in
    let next = m1 (next_of alloc) in
    let m2 = if next == 0 then m1 else update m1 (prev_of next) (m1 (prev_of alloc)) in
    (head, update (update (update m2 (next_of alloc) 0) (prev_of alloc) 0) (ptr_of alloc) 0)

-- The loop from node `current` on: the node, 0 where there is none; `none`: out of fuel.
unfoldable pub get_large_alloc_by_ptr : (fuel : ℕ) → (ptr current : ℕ) → (ℕ → ℕ) → Option ℕ
get_large_alloc_by_ptr zero ptr current m = none
get_large_alloc_by_ptr (suc f) ptr current m = elim (current == 0) [
  | true ↦ some 0
  | false ↦ elim (m (ptr_of current) == ptr) [
    | true ↦ some current
    | false ↦ get_large_alloc_by_ptr f ptr (m (next_of current)) m
  ]
]
