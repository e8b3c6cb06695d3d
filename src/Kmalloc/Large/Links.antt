-- ===== src/Kmalloc/Large/Links.antt =====
-- The doubly linked list of large allocations.
use my_os.Base.{
  ℕ, zero, suc, ◌+◌, ◌<◌, ◌≡◌, refl, ◌∙◌, true, false, ◌==◌, ◌||◌, ◌&&◌, ◌⊎◌, leb, ltb, List, [],
  ◌∷◌, All, length, some, arith, Bool-cases, inl, inr,
}
use my_os.Base.Masks.{update}
use my_os.Kmalloc.Large.{
  fill_large_alloc, insert_large_alloc, unlink_large_alloc, get_large_alloc_by_ptr,
}

-- From `head`, whose previous node is `prev`, the memory links exactly `ns` in both directions.
abbrev pub Links : (ℕ → ℕ) → (prev head : ℕ) → List ℕ → Type 0
Links m prev head [] = head ≡ 0
Links m prev head (n ∷ ns) =
    (head ≡ n) × ((n == 0) ≡ false) × (m (n + 12) ≡ prev) × Links m n (m (n + 8)) ns

-- The sixteen bytes of the nodes `a` and `b` do not meet.
abbrev pub Apart : ℕ → ℕ → Type 0
Apart a b = (leb (a + 16) b || leb (b + 16) a) ≡ true

abbrev pub AllApart : List ℕ → Type 0
AllApart [] = Unit
AllApart (n ∷ ns) = All (λ t. Apart n t) ns × AllApart ns

Links-frame :
    (m m' : ℕ → ℕ) (prev head : ℕ) (ns : List ℕ)
    → All (λ n. (m' (n + 8) ≡ m (n + 8)) × (m' (n + 12) ≡ m (n + 12))) ns
    → Links m prev head ns
    → Links m' prev head ns
Links-frame m m' prev head [] same l = l
Links-frame m m' prev head (n ∷ ns) ((p, q), same) (here, real, back, rest) =
    (here, real, q ∙ back, rw p (Links-frame m m' n (m (n + 8)) ns same rest))

-- Only what stands apart from the nodes is written.
Apart-same :
    (m m' : ℕ → ℕ) (a : ℕ) (ns : List ℕ)
    → ((k : ℕ) → (leb a k && ltb k (a + 16)) ≡ false → m' k ≡ m k)
    → All (λ t. Apart a t) ns
    → All (λ n. (m' (n + 8) ≡ m (n + 8)) × (m' (n + 12) ≡ m (n + 12))) ns
Apart-same m m' a [] frame far = tt
Apart-same m m' a (n ∷ ns) frame (f, far) =
    ((frame (n + 8) (ground arith), frame (n + 12) (ground arith)), Apart-same m m' a ns frame far)

-- The same where the previous pointer of a node `b` is written too.
Apart-same_both :
    (m m' : ℕ → ℕ) (a b : ℕ) (ns : List ℕ)
    → ((k : ℕ) → (leb a k && ltb k (a + 16)) ≡ false → (b + 12 == k) ≡ false → m' k ≡ m k)
    → All (λ t. Apart a t) ns
    → All (λ t. Apart b t) ns
    → All (λ n. (m' (n + 8) ≡ m (n + 8)) × (m' (n + 12) ≡ m (n + 12))) ns
Apart-same_both m m' a b [] frame far far' = tt
Apart-same_both m m' a b (n ∷ ns) frame (f, far) (g, far') = (
  (frame (n + 8) (ground arith) (ground arith), frame (n + 12) (ground arith) (ground arith)),
  Apart-same_both m m' a b ns frame far far',
)

-- A new node that stands apart from those in the list becomes its first: the list stays linked in both
-- directions, and the node has the size and the pointer.
pub insert_large_alloc-Links :
    (m : ℕ → ℕ) (node size ptr head : ℕ) (ns : List ℕ)
    → Links m 0 head ns
    → AllApart (node ∷ ns)
    → (node == 0) ≡ false
    → (m' : ℕ → ℕ) × (insert_large_alloc node head (fill_large_alloc node size ptr m) ≡ (node, m'))
      × Links m' 0 node (node ∷ ns)
      × (m' node ≡ size)
      × (m' (node + 4) ≡ ptr)
unfolding insert_large_alloc fill_large_alloc
insert_large_alloc-Links m node size ptr head [] l far real = (
  fill_large_alloc node size ptr m,
  rw (l, insert_large_alloc) refl,
  (refl, real, ground arith, ground arith),
  ground arith,
  ground arith,
)
insert_large_alloc-Links m node size ptr head (t ∷ ts) (here, some_node, back, rest)
      (far, (far_t, _)) real =
    let mf = fill_large_alloc node size ptr m in
    let m' = update (update mf (t + 12) node) (node + 8) t in
    let link : m' (node + 8) ≡ t = ground arith in
    let next : m' (t + 8) ≡ m (t + 8) = ground (arith, far.0) in
    (
      m',
      rw (here, some_node, insert_large_alloc) refl,
      (
        refl,
        real,
        ground (arith, far.0),
        rw link (
          refl,
          some_node,
          ground (arith, far.0),
          rw next (
              Links-frame m m' t (m (t + 8)) ts
                (Apart-same_both m m' node t ts (λ k p q. ground arith) far.1 far_t) rest),
        ),
      ),
      ground (arith, far.0),
      ground (arith, far.0),
    )

-- Unlinking the first node leaves exactly the others linked, from the new head on.
pub unlink_large_alloc-Links :
    (m : ℕ → ℕ) (node : ℕ) (ns : List ℕ)
    → Links m 0 node (node ∷ ns)
    → AllApart (node ∷ ns)
    → Links (unlink_large_alloc node node m).1 0 (unlink_large_alloc node node m).0 ns
unfolding unlink_large_alloc
unlink_large_alloc-Links m node [] (_, real, back, rest) far = ground arith
unlink_large_alloc-Links m node (t ∷ ts) (_, real, back, (here, some_node, back_t, rest))
      (far, (far_t, _)) =
    let r = unlink_large_alloc node node m in
    let next : r.1 (t + 8) ≡ m (t + 8) = ground (arith, far.0) in
    (
      ground arith,
      some_node,
      ground (arith, far.0),
      rw next (
          Links-frame m r.1 t (m (t + 8)) ts
            (Apart-same_both m r.1 node t ts (λ k p q. ground arith) far.1 far_t) rest),
    )

abbrev pub Has : (m : ℕ → ℕ) (ptr n : ℕ) → List ℕ → Type 0
Has m ptr n [] = ⊥
Has m ptr n (t ∷ ts) = ((n ≡ t) × (m (t + 4) ≡ ptr)) ⊎ Has m ptr n ts

-- With more fuel than nodes the search ends: it returns a node of the list that has the pointer, or
-- NULL, and then no node has it.
pub get_large_alloc_by_ptr-ends :
    (fuel ptr : ℕ) (m : ℕ → ℕ) (prev head : ℕ) (ns : List ℕ)
    → length ns < fuel
    → Links m prev head ns
    → ((n : ℕ) × (get_large_alloc_by_ptr fuel ptr head m ≡ some n) × Has m ptr n ns)
      ⊎ ((get_large_alloc_by_ptr fuel ptr head m ≡ some 0)
          × All (λ n. (m (n + 4) == ptr) ≡ false) ns)
unfolding get_large_alloc_by_ptr
get_large_alloc_by_ptr-ends zero ptr m prev head ns enough l = absurd (omega arith)
get_large_alloc_by_ptr-ends (suc f) ptr m prev head [] enough l =
    inr (rw (l, get_large_alloc_by_ptr) refl, tt)
get_large_alloc_by_ptr-ends (suc f) ptr m prev head (n ∷ ns) enough (here, real, back, rest) =
    rw here (elim (Bool-cases (m (n + 4) == ptr)) [
      | inl found ↦ inl (n, rw (real, found, get_large_alloc_by_ptr) refl, inl (refl, ground arith))
      | inr other ↦ elim (get_large_alloc_by_ptr-ends f ptr m n (m (n + 8)) ns (omega arith) rest) [
        | inl (k, at, has) ↦ inl (k, rw (real, other, get_large_alloc_by_ptr) at, inr has)
        | inr (missing, all) ↦ inr (rw (real, other, get_large_alloc_by_ptr) missing, (other, all))
      ]
    ])
