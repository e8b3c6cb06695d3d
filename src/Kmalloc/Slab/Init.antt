-- ===== src/Kmalloc/Slab/Init.antt =====
-- A new slab: all of its objects are free, in the order of their addresses.
use native.Mathlib.Nat.{add-mul, le-div_iff_mul-le, div-le_self}
use mathlib.Core.Path.{subst}
use my_os.Base.{
  ℕ, zero, suc, ◌+◌, ◌-◌, ◌*◌, ◌/◌, ◌≤◌, ◌<◌, ◌≡◌, refl, ap, ◌∙◌, sym, List, [], ◌∷◌, All, length,
  arith,
}
use my_os.Base.Masks.{update}
use my_os.Kmalloc.Slab.{link_objects, init_slab, data_size}
use my_os.Kmalloc.Slab.Chain.{Chain, NotIn, Distinct, Chain-from}
use my_os.Kmalloc.Slab.FreeList.{IsObject, IsSlab}

-- `n` objects of `size` bytes from number `i` on.
unfoldable pub objects_from : (slab size n i : ℕ) → List ℕ
objects_from slab size zero i = []
objects_from slab size (suc n) i = (slab + 20 + i * size) ∷ objects_from slab size n (i + 1)

next_place : (i size : ℕ) → (i + 1) * size ≡ i * size + size
next_place i size = omega (arith, add-mul i 1 size)

link_objects-links :
    (n slab size k i cur : ℕ) (m : ℕ → ℕ)
    → 0 < size
    → i ≡ k + 1
    → cur ≡ slab + 20 + k * size
    → Chain (link_objects n slab size i cur m) cur (objects_from slab size (suc n) k)
      × ((a : ℕ) → a < cur → link_objects n slab size i cur m a ≡ m a)
unfolding link_objects objects_from
link_objects-links zero slab size k i cur m pos next place =
    ((place, ground arith, ground arith), λ a lt. ground arith)
link_objects-links (suc n) slab size k i cur m pos next place =
    let on : ℕ = slab + 20 + i * size in
    let far : on ≡ cur + size = rw (next, place) (omega (arith, next_place k size)) in
    let m1 = update m cur on in
    let ih =
      link_objects-links n slab size (k + 1) (i + 1) on m1 pos (omega arith) (rw next refl) in
    let m' = link_objects n slab size (i + 1) on m1 in
    let at : m' cur ≡ on = ih.1 cur (omega (arith, far)) ∙ ground arith in
    let here : m' (slab + 20 + k * size) ≡ on = ap m' (sym place) ∙ at in
    (
      (
        place,
        ground arith,
        Chain-from m' (m' (slab + 20 + k * size)) on (objects_from slab size (suc n) (k + 1)) here
            ih.0,
      ),
      λ a lt. ih.1 a (omega (arith, far)) ∙ ground arith,
    )

length-objects_from : (slab size n i : ℕ) → length (objects_from slab size n i) ≡ n
unfolding objects_from
length-objects_from slab size zero i = refl
length-objects_from slab size (suc n) i = ap suc (length-objects_from slab size n (i + 1))

below-NotIn :
    (slab size n i x : ℕ) → x < slab + 20 + i * size → NotIn x (objects_from slab size n i)
unfolding objects_from
below-NotIn slab size zero i x lt = tt
below-NotIn slab size (suc n) i x lt =
    (ground arith, below-NotIn slab size n (i + 1) x (omega (arith, next_place i size)))

objects_from-Distinct : (slab size n i : ℕ) → 0 < size → Distinct (objects_from slab size n i)
unfolding objects_from
objects_from-Distinct slab size zero i pos = tt
objects_from-Distinct slab size (suc n) i pos = (
  below-NotIn slab size n (i + 1) (slab + 20 + i * size) (omega (arith, next_place i size)),
  objects_from-Distinct slab size n (i + 1) pos,
)

objects_from-IsObject :
    (slab size n i : ℕ)
    → i + n ≤ data_size / size
    → All (λ x. IsObject slab size x) (objects_from slab size n i)
unfolding objects_from
objects_from-IsObject slab size zero i fits = tt
objects_from-IsObject slab size (suc n) i fits =
    ((i, omega arith, refl), objects_from-IsObject slab size n (i + 1) (omega arith))

-- `init_slab` of a size that fits into a page makes all objects of the slab free, and there is at least
-- one.
pub init_slab-IsSlab :
    (slab size : ℕ) (m : ℕ → ℕ)
    → 0 < size
    → size ≤ data_size
    → IsSlab (init_slab slab size m) slab size (objects_from slab size (data_size / size) 0)
      × (0 < data_size / size)
unfolding init_slab
init_slab-IsSlab slab size m pos fits =
    let q = data_size / size in
    let some_of : 1 ≤ q = (le-div_iff_mul-le pos).1 (omega (arith, fits)) in
    let at_most : q ≤ data_size = div-le_self data_size size in
    let m0 = update (update m (slab + 12) q) (slab + 4) (slab + 20) in
    let linked = link_objects-links (q - 1) slab size 0 1 (slab + 20) m0 pos refl (omega arith) in
    let m' = init_slab slab size m in
    let count : suc (q - 1) ≡ q = omega (arith, some_of) in
    let head : m' (slab + 4) ≡ slab + 20 = linked.1 (slab + 4) (omega arith) ∙ ground arith in
    let many : m' (slab + 12) ≡ q = linked.1 (slab + 12) (omega arith) ∙ ground arith in
    (
      record {
        counted = many ∙ sym (length-objects_from slab size q 0);
        small = omega (arith, length-objects_from slab size q 0, at_most);
        chain =
            Chain-from m' (m' (slab + 4)) (slab + 20) (objects_from slab size q 0) head
              (subst (λ n. Chain m' (slab + 20) (objects_from slab size n 0)) count linked.0);
        distinct = objects_from-Distinct slab size q 0 pos;
        objects = objects_from-IsObject slab size q 0 (omega arith);
      },
      some_of,
    )
