-- ===== src/Std/CString/Compare.antt =====
-- `strcmp` and `strncmp` decide equality.
use my_os.Base.{ℕ, zero, suc, ◌<◌, ◌≡◌, refl, ◌↔◌, List, [], ◌∷◌, take, arith}
use my_os.Base.Int.{pos, neg}
use my_os.Std.CString.{char_diff, strcmp, strncmp, IsCString}

char_diff-zero : (a b : ℕ) → a < 256 → b < 256 → char_diff a b ≡ pos 0 → a ≡ b
unfolding char_diff
char_diff-zero a b ha hb h = ground arith

-- `strcmp` returns 0 exactly for equal strings.
pub strcmp-eq-zero : (s t : List ℕ) → IsCString s → IsCString t → (strcmp s t ≡ pos 0) ↔ (s ≡ t)
unfolding strcmp
strcmp-eq-zero [] [] hs ht = (λ h. refl, λ h. ground arith)
strcmp-eq-zero [] (b ∷ t) hs ht = (λ h. ground (arith, char_diff-zero 0 b), λ h. ground arith)
strcmp-eq-zero (a ∷ s) [] hs ht = (λ h. ground (arith, char_diff-zero a 0), λ h. ground arith)
strcmp-eq-zero (a ∷ s) (b ∷ t) hs ht =
    let ih = strcmp-eq-zero s t hs.1 ht.1 in
    (λ h. ground (arith, char_diff-zero a b, ih.0), λ h. ground (arith, ih.1))

-- `strncmp` returns 0 exactly if the first `n` bytes agree, a string that ends earlier counting as
-- equal only to one that ends there too.
pub strncmp-eq-zero :
    (n : ℕ) (s t : List ℕ)
    → IsCString s
    → IsCString t
    → (strncmp s t n ≡ pos 0) ↔ (take n s ≡ take n t)
unfolding strncmp
strncmp-eq-zero zero s t hs ht = (λ h. refl, λ h. ground arith)
strncmp-eq-zero (suc n) [] [] hs ht = (λ h. refl, λ h. ground arith)
strncmp-eq-zero (suc n) [] (b ∷ t) hs ht =
    (λ h. ground (arith, char_diff-zero 0 b), λ h. ground arith)
strncmp-eq-zero (suc n) (a ∷ s) [] hs ht =
    (λ h. ground (arith, char_diff-zero a 0), λ h. ground arith)
strncmp-eq-zero (suc n) (a ∷ s) (b ∷ t) hs ht =
    let ih = strncmp-eq-zero n s t hs.1 ht.1 in
    (λ h. ground (arith, char_diff-zero a b, ih.0), λ h. ground (arith, ih.1))

-- Swapping the arguments of `strcmp` negates its result.
pub strcmp-swap : (s t : List ℕ) → strcmp t s ≡ neg (strcmp s t)
unfolding strcmp
strcmp-swap [] [] = ground arith
strcmp-swap [] (b ∷ t) = ground arith
strcmp-swap (a ∷ s) [] = ground arith
strcmp-swap (a ∷ s) (b ∷ t) = ground (arith, strcmp-swap s t)
