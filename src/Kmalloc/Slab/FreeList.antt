-- ===== src/Kmalloc/Slab/FreeList.antt =====
-- A slab as the list of its free objects: allocation takes the first, freeing puts one in front.
use my_os.Base.{
  ℕ, ◌+◌, ◌-◌, ◌*◌, ◌/◌, ◌%◌, ◌^◌, ◌≤◌, ◌<◌, ◌≡◌, refl, ap, ◌∙◌, true, false, ◌==◌, List, [], ◌∷◌,
  All, length, arith,
}
use my_os.Base.Masks.{update}
use my_os.Kmalloc.Slab.{alloc_from_slab, slab_free, data_size}
use my_os.Kmalloc.Slab.Chain.{Chain, NotIn, Distinct, Chain-frame, All-map}

-- The objects of a slab lie one after the other in its data.
abbrev pub IsObject : (slab size x : ℕ) → Type 0
IsObject slab size x = (i : ℕ) × (i < data_size / size) × (x ≡ slab + 20 + i * size)

-- `xs` are the free objects, in the order in which they are handed out.
pub record IsSlab (m : ℕ → ℕ) (slab size : ℕ) (xs : List ℕ) : Type 0 where
  pub counted : m (slab + 12) ≡ length xs
  pub small : length xs < 4096
  pub chain : Chain m (m (slab + 4)) xs
  pub distinct : Distinct xs
  pub objects : All (λ x. IsObject slab size x) xs

past_header : (slab size x : ℕ) → IsObject slab size x → slab + 20 ≤ x
past_header slab size x (i, lt, e) = omega arith

-- A memory that differs in the header only holds the same list.
header-frame :
    (m m' : ℕ → ℕ) (slab size head : ℕ) (xs : List ℕ)
    → ((a : ℕ) → slab + 20 ≤ a → m' a ≡ m a)
    → All (λ x. IsObject slab size x) xs
    → Chain m head xs
    → Chain m' head xs
header-frame m m' slab size head xs same objects chain =
    Chain-frame m m' head xs (All-map (λ x o. same x (past_header slab size x o)) xs objects) chain

-- `alloc_from_slab` hands out the first free object and keeps the others free; it writes nothing but
-- the list's head and the count.
pub alloc_from_slab-pops :
    (m : ℕ → ℕ) (slab size x : ℕ) (xs : List ℕ)
    → IsSlab m slab size (x ∷ xs)
    → (m' : ℕ → ℕ) × (alloc_from_slab slab m ≡ (x, m'))
      × IsSlab m' slab size xs
      × ((a : ℕ) → (a == slab + 4) ≡ false → (a == slab + 12) ≡ false → m' a ≡ m a)
unfolding alloc_from_slab
alloc_from_slab-pops m slab size x xs s =
    let m1 = update m (slab + 4) (m x) in
    let m' = update m1 (slab + 12) (m1 (slab + 12) - 1) in
    let some_left : (m (slab + 12) == 0) ≡ false = ground (arith, s.counted) in
    (
      m',
      rw (some_left, alloc_from_slab)
          (ap
            (λ h. (
              h,
              update (update m (slab + 4) (m h)) (slab + 12)
                  (update m (slab + 4) (m h) (slab + 12) - 1),
            ))
            s.chain.0),
      record {
        counted = ground (arith, s.counted);
        small = omega (arith, s.small);
        chain =
            let at : m' (slab + 4) ≡ m x = ground arith in
            rw at
              (header-frame m m' slab size (m x) xs (λ a h. ground arith) s.objects.1 s.chain.2);
        distinct = s.distinct.1;
        objects = s.objects.1;
      },
      λ a p q. ground arith,
    )

pub alloc_from_slab-empty :
    (m : ℕ → ℕ) (slab size : ℕ) → IsSlab m slab size [] → alloc_from_slab slab m ≡ (0, m)
unfolding alloc_from_slab
alloc_from_slab-empty m slab size s =
    let e : (m (slab + 12) == 0) ≡ true = ground (arith, s.counted) in rw (e, alloc_from_slab) refl

-- `slab_free` of an object that is not free puts it in front of the free ones, and writes nothing but
-- the header and the object's first word.
pub slab_free-pushes :
    (m : ℕ → ℕ) (slab size x : ℕ) (xs : List ℕ)
    → IsSlab m slab size xs
    → IsObject slab size x
    → NotIn x xs
    → length xs + 1 < 4096
    → IsSlab (slab_free slab x m) slab size (x ∷ xs)
      × ((a : ℕ)
          → (a == slab + 4) ≡ false
          → (a == slab + 12) ≡ false
          → (a == x) ≡ false
          → slab_free slab x m a ≡ m a)
unfolding slab_free
slab_free-pushes m slab size x xs s o new fits =
    let above = past_header slab size x o in
    let m1 = update m x (m (slab + 4)) in
    let m2 = update m1 (slab + 4) x in
    let m' = update m2 (slab + 12) ((m2 (slab + 12) + 1) % 2 ^ 32) in
    let link : m' x ≡ m (slab + 4) = ground (arith, above) in
    (
      record {
        counted = ground (arith, s.counted, above);
        small = omega (arith, fits);
        chain = (
          ground arith,
          ground (arith, above),
          rw link (
              Chain-frame m m' (m (slab + 4)) xs
                (same_at xs new s.objects (λ a h d. ground (arith, above))) s.chain),
        );
        distinct = (new, s.distinct);
        objects = (o, s.objects);
      },
      λ a h c y. ground arith,
    )
  where
    same_at :
        {m' : ℕ → ℕ} (ys : List ℕ)
        → NotIn x ys
        → All (λ y. IsObject slab size y) ys
        → ((a : ℕ) → slab + 20 ≤ a → (x == a) ≡ false → m' a ≡ m a)
        → All (λ y. m' y ≡ m y) ys
    same_at [] n os f = tt
    same_at (y ∷ ys) (d, n) (p, os) f = (f y (past_header slab size y p) d, same_at ys n os f)

-- A memory that differs elsewhere than in the list head, the count and the data keeps the slab.
pub IsSlab-frame :
    (m m' : ℕ → ℕ) (slab size : ℕ) (xs : List ℕ)
    → m' (slab + 4) ≡ m (slab + 4)
    → m' (slab + 12) ≡ m (slab + 12)
    → ((a : ℕ) → slab + 20 ≤ a → m' a ≡ m a)
    → IsSlab m slab size xs
    → IsSlab m' slab size xs
IsSlab-frame m m' slab size xs head count same s = record {
  counted = count ∙ s.counted;
  small = s.small;
  chain = rw head (header-frame m m' slab size (m (slab + 4)) xs same s.objects s.chain);
  distinct = s.distinct;
  objects = s.objects;
}
