-- ===== src/Kmalloc/Caches/Search.antt =====
-- Taking an object from the slabs of a cache.
use my_os.Base.{
  ℕ, zero, suc, ◌+◌, ◌<◌, ◌≡◌, ◌⊎◌, inl, inr, refl, false, ◌==◌, List, [], ◌∷◌, All, length, some,
  arith,
}
use my_os.Kmalloc.Slab.FreeList.{IsSlab, alloc_from_slab-pops, alloc_from_slab-empty}
use my_os.Kmalloc.Caches.{find_in_slabs}

-- From `head` the slabs of a cache follow one another.
abbrev pub SlabRun : (ℕ → ℕ) → (head : ℕ) → List ℕ → Type 0
SlabRun m head [] = head ≡ 0
SlabRun m head (s ∷ ss) = (head ≡ s) × ((s == 0) ≡ false) × SlabRun m (m (s + 16)) ss

abbrev pub In : ℕ → List ℕ → Type 0
In x [] = ⊥
In x (y ∷ ys) = (x ≡ y) ⊎ In x ys

-- The object is the first free one of one of the slabs, whose other free objects stay free, and the
-- memory changes in that slab's list head and count only.
pub record Took (m : ℕ → ℕ) (ss : List ℕ) (size : ℕ) (free : ℕ → List ℕ) (object : ℕ) (m' : ℕ → ℕ)
    : Type 0 where
  pub slab : ℕ
  pub others : List ℕ
  pub of_cache : In slab ss
  pub was_free : free slab ≡ object ∷ others
  pub now : IsSlab m' slab size others
  pub frame : (a : ℕ) → (a == slab + 4) ≡ false → (a == slab + 12) ≡ false → m' a ≡ m a

-- What the search may come to.
abbrev pub Outcome :
    (fuel head : ℕ) → (m : ℕ → ℕ) → List ℕ → (size : ℕ) → (free : ℕ → List ℕ) → Type 0
Outcome fuel head m ss size free =
    ((object : ℕ) × (m' : ℕ → ℕ) × (find_in_slabs fuel head m ≡ some (object, m'))
      × ((object == 0) ≡ false)
      × Took m ss size free object m')
    ⊎ ((find_in_slabs fuel head m ≡ some (0, m)) × All (λ s. free s ≡ []) ss)

-- The search through well-formed slabs, with more fuel than slabs, takes the first free object of a slab
-- of the cache, or finds that no slab has one and changes nothing.
pub find_in_slabs-takes :
    (fuel : ℕ) (ss : List ℕ) (m : ℕ → ℕ) (head size : ℕ) (free : ℕ → List ℕ)
    → length ss < fuel
    → SlabRun m head ss
    → All (λ s. IsSlab m s size (free s)) ss
    → Outcome fuel head m ss size free
unfolding find_in_slabs
find_in_slabs-takes zero ss m head size free enough slabs wf = absurd (omega arith)
find_in_slabs-takes (suc f) [] m head size free enough slabs wf =
    inr (rw (slabs, find_in_slabs) refl, tt)
find_in_slabs-takes (suc f) (s ∷ ss) m head size free enough (here, real, rest) (w, wf) = rw here (
    at_slab (find_in_slabs-takes f ss m (m (s + 16)) size free (omega arith) rest wf) (free s) refl
      w)
  where
    at_slab :
        Outcome f (m (s + 16)) m ss size free
        → (xs : List ℕ) → free s ≡ xs
        → IsSlab m s size xs
        → Outcome (suc f) s m (s ∷ ss) size free
    at_slab ih [] e w =
        let full = alloc_from_slab-empty m s size w in
        elim ih [
          | inl (object, m', found, something, t) ↦ inl (
            object,
            m',
            rw (real, full, find_in_slabs) (rw full found),
            something,
            record {
              slab = t.slab;
              others = t.others;
              of_cache = inr t.of_cache;
              was_free = t.was_free;
              now = t.now;
              frame = t.frame;
            },
          )
          | inr (missing, all) ↦ inr (rw (real, full, find_in_slabs) (rw full missing), (e, all))
        ]
    at_slab ih (x ∷ xs) e w =
        let (m', popped, now, frame) = alloc_from_slab-pops m s size x xs w in
        inl (
          x,
          m',
          rw (real, popped, w.chain.1, find_in_slabs) (rw popped refl),
          w.chain.1,
          record {
            slab = s;
            others = xs;
            of_cache = inl refl;
            was_free = e;
            now = now;
            frame = frame;
          },
        )
