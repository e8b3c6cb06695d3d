-- ===== src/Disk/Drive/Copy.antt =====
-- Copies that follow each other, for the loops over words and sectors of drivers/disk.c.
use my_os.Base.{ℕ, suc, ◌+◌, ◌-◌, ◌≡◌, arith, leb, ltb, ◌&&◌, if◌then◌else◌}
use my_os.Base.Masks.{update}
use my_os.Disk.Transfer.{copy_to}

pub copy_to-zero : (dest : ℕ → ℕ) (i : ℕ) (src : ℕ → ℕ) → copy_to dest i src 0 ≡ dest
unfolding copy_to
copy_to-zero dest i src t k =
    let e : (if leb i k && ltb k (i + 0) then src (k - i) else dest k) ≡ dest k = ground arith in
    e t

copy_to-suc_at :
    (dest : ℕ → ℕ) (i : ℕ) (src : ℕ → ℕ) (n k : ℕ)
    → copy_to (update dest i (src 0)) (i + 1) (λ j. src (1 + j)) n k ≡ copy_to dest i src (suc n) k
unfolding copy_to
copy_to-suc_at dest i src n k = grind arith

copy_to-append_at :
    (dest : ℕ → ℕ) (i : ℕ) (src : ℕ → ℕ) (a b k : ℕ)
    → copy_to (copy_to dest i src a) (i + a) (λ j. src (a + j)) b k ≡ copy_to dest i src (a + b) k
unfolding copy_to
copy_to-append_at dest i src a b k = grind arith

-- One element, then the rest.
pub copy_to-suc :
    (dest : ℕ → ℕ) (i : ℕ) (src : ℕ → ℕ) (n : ℕ)
    → copy_to (update dest i (src 0)) (i + 1) (λ j. src (1 + j)) n ≡ copy_to dest i src (suc n)
copy_to-suc dest i src n t k = copy_to-suc_at dest i src n k t

-- The first `a` elements, then the rest.
pub copy_to-append :
    (dest : ℕ → ℕ) (i : ℕ) (src : ℕ → ℕ) (a b : ℕ)
    → copy_to (copy_to dest i src a) (i + a) (λ j. src (a + j)) b ≡ copy_to dest i src (a + b)
copy_to-append dest i src a b t k = copy_to-append_at dest i src a b k t

pub shift : (f : ℕ → ℕ) (a b : ℕ) → ◌≡◌ {A = ℕ → ℕ} (λ j. f (a + b + j)) (λ j. f (a + (b + j)))
shift f a b t j = let e : a + b + j ≡ a + (b + j) = omega arith in f (e t)

pub from_zero : (f : ℕ → ℕ) → ◌≡◌ {A = ℕ → ℕ} (λ j. f (0 + j)) f
from_zero f t j = let e : 0 + j ≡ j = omega arith in f (e t)
