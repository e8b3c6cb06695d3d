-- ===== src/Kmalloc/Caches/Sizes.antt =====
-- The cache that a size goes to.
use my_os.Base.{
  ℕ, zero, suc, ◌+◌, ◌≤◌, ◌<◌, ◌≡◌, ◌⊎◌, inl, inr, refl, false, List, [], ◌∷◌, length, get_or, none,
  some, leb, arith, Bool-cases,
}
use my_os.Kmalloc.Caches.{get_cache_from, get_cache, object_sizes}

-- Element `k` is the first that is not below `size`.
pub record IsFirstFit (sizes : List ℕ) (size k : ℕ) : Type 0 where
  pub inside : k < length sizes
  pub fits : size ≤ get_or sizes k 0
  pub earlier : (j : ℕ) → j < k → get_or sizes j 0 < size

get_cache_from-finds :
    (sizes : List ℕ) (i size : ℕ)
    → ((k : ℕ) × (get_cache_from sizes i size ≡ some (i + k)) × IsFirstFit sizes size k)
      ⊎ ((get_cache_from sizes i size ≡ none)
          × ((j : ℕ) → j < length sizes → get_or sizes j 0 < size))
unfolding get_cache_from
get_cache_from-finds [] i size = inr (refl, λ j h. absurd (omega arith))
get_cache_from-finds (s ∷ sizes) i size = elim (Bool-cases (leb size s)) [
  | inl fits ↦ inl (
    0,
    ground arith,
    record { inside = omega arith; fits = ground arith; earlier = λ j h. absurd (omega arith) },
  )
  | inr short ↦ elim (get_cache_from-finds sizes (i + 1) size) [
    | inl (k, found, first) ↦ inl (
      suc k,
      ground arith,
      record {
        inside = omega (arith, first.inside);
        fits = first.fits;
        earlier = later_too short first.earlier;
      },
    )
    | inr (missing, all) ↦ inr (ground arith, later_too short all)
  ]
]
  where
    later_too :
        {n : ℕ}
        → leb size s ≡ false
        → ((j : ℕ) → j < n → get_or sizes j 0 < size)
        → (j : ℕ) → j < suc n
        → get_or (s ∷ sizes) j 0 < size
    later_too short all zero h = ground arith
    later_too short all (suc j) h = all j (omega arith)

-- `get_cache` of a size up to 2048 is the cache of the smallest objects that are large enough, and of a
-- larger size there is none.
pub get_cache-fits :
    (size : ℕ)
    → ((k : ℕ) × (get_cache size ≡ some k) × (k < 8) × IsFirstFit object_sizes size k)
      ⊎ ((get_cache size ≡ none) × (2048 < size))
unfolding get_cache
get_cache-fits size = elim (get_cache_from-finds object_sizes 0 size) [
  | inl (k, found, first) ↦
      inl (k, let e : 0 + k ≡ k = omega arith in rw (← e) found, first.inside, first)
  | inr (missing, all) ↦ inr (missing, all 7 (omega arith))
]
