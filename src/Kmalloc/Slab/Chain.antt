-- ===== src/Kmalloc/Slab/Chain.antt =====
-- Lists that run through the memory: each word at an element's address leads to the next.
use mathlib.Core.Path.{subst}
use my_os.Base.{ℕ, ◌≡◌, sym, false, ◌==◌, List, [], ◌∷◌, All}

-- From `head` the memory leads through exactly `xs`, and ends in NULL.
abbrev pub Chain : (ℕ → ℕ) → (head : ℕ) → List ℕ → Type 0
Chain m head [] = head ≡ 0
Chain m head (x ∷ xs) = (head ≡ x) × ((x == 0) ≡ false) × Chain m (m x) xs

abbrev pub NotIn : ℕ → List ℕ → Type 0
NotIn x xs = All (λ y. (x == y) ≡ false) xs

abbrev pub Distinct : List ℕ → Type 0
Distinct [] = Unit
Distinct (x ∷ xs) = NotIn x xs × Distinct xs

-- A memory that agrees at the elements holds the same list.
pub Chain-frame :
    (m m' : ℕ → ℕ) (head : ℕ) (xs : List ℕ)
    → All (λ x. m' x ≡ m x) xs
    → Chain m head xs
    → Chain m' head xs
Chain-frame m m' head [] same c = c
Chain-frame m m' head (x ∷ xs) (s, same) (h, real, rest) =
    (h, real, rw s (Chain-frame m m' (m x) xs same rest))

pub All-map {κ λ'} :
    {P : ℕ → Type κ} {Q : ℕ → Type λ'} (f : (x : ℕ) → P x → Q x) (xs : List ℕ) → All P xs → All Q xs
All-map f [] a = tt
All-map f (x ∷ xs) (p, a) = (f x p, All-map f xs a)

pub Chain-from :
    (m : ℕ → ℕ) (head head' : ℕ) (xs : List ℕ) → head ≡ head' → Chain m head' xs → Chain m head xs
Chain-from m head head' xs e c = subst (λ h. Chain m h xs) (sym e) c
