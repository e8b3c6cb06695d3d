-- ===== src/Std/CString/Copy.antt =====
-- What `strcpy` and `strncpy` leave in the destination.
use my_os.Base.{
  ℕ, zero, suc, ◌+◌, ◌-◌, ◌≡◌, List, [], ◌∷◌, ◌&&◌, length, get_or, get_or-cons, arith, ltb, leb,
  if◌then◌else◌,
}
use my_os.Base.Masks.{update}
use my_os.Std.CString.{strcpy_from, strcpy, pad_from, strncpy_from, strncpy}

pad_from-eq :
    (n i : ℕ) (dest : ℕ → ℕ) (k : ℕ)
    → pad_from n i dest k ≡ (if leb i k && ltb k (i + n) then 0 else dest k)
unfolding pad_from
pad_from-eq zero i dest k = ground arith
pad_from-eq (suc n) i dest k = ground (arith, pad_from-eq n (i + 1) (update dest i 0) k)

strcpy_from-eq :
    (i : ℕ) (dest : ℕ → ℕ) (src : List ℕ) (k : ℕ)
    → strcpy_from i dest src k
      ≡ (if leb i k && leb k (i + length src) then get_or src (k - i) 0 else dest k)
unfolding strcpy_from
strcpy_from-eq i dest [] k = ground arith
strcpy_from-eq i dest (c ∷ src) k =
    ground (arith, strcpy_from-eq (i + 1) (update dest i c) src k, get_or-cons c src i k 0)

strncpy_from-eq :
    (n i : ℕ) (dest : ℕ → ℕ) (src : List ℕ) (k : ℕ)
    → strncpy_from n i dest src k
      ≡ (if leb i k && ltb k (i + n) then get_or src (k - i) 0 else dest k)
unfolding strncpy_from
strncpy_from-eq zero i dest src k = ground arith
strncpy_from-eq (suc n) i dest [] k = ground (arith, pad_from-eq (suc n) i dest k)
strncpy_from-eq (suc n) i dest (c ∷ src) k =
    ground (arith, strncpy_from-eq n (i + 1) (update dest i c) src k, get_or-cons c src i k 0)

-- `strcpy` writes the source with its NUL, and nothing behind it.
pub strcpy-writes :
    (dest : ℕ → ℕ) (src : List ℕ) (k : ℕ)
    → strcpy dest src k ≡ (if leb k (length src) then get_or src k 0 else dest k)
unfolding strcpy
strcpy-writes dest src k = ground (arith, strcpy_from-eq 0 dest src k)

-- `strncpy` writes exactly `n` bytes: the source cut to `n` bytes, padded with NULs.
pub strncpy-writes :
    (dest : ℕ → ℕ) (src : List ℕ) (n k : ℕ)
    → strncpy dest src n k ≡ (if ltb k n then get_or src k 0 else dest k)
unfolding strncpy
strncpy-writes dest src n k = ground (arith, strncpy_from-eq n 0 dest src k)
