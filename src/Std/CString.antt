-- ===== src/Std/CString.antt =====
-- std/string.c.
pub mod Compare
pub mod Copy
use my_os.Base.{
  ℕ, zero, suc, ◌+◌, ◌-◌, ◌%◌, ◌^◌, ◌≢◌, Bool, List, [], ◌∷◌, length, get_or, ltb, ◌==◌,
  if◌then◌else◌, All, ◌<◌,
}
use my_os.Base.Int.{ℤ, pos, negsuc, sub_ℕ}
use my_os.Base.Masks.{update}

-- `a - b` of two `char`s, which are signed: both are moved up by 128 first.
unfoldable pub char_diff : ℕ → ℕ → ℤ
char_diff a b = sub_ℕ ((a + 128) % 256) ((b + 128) % 256)

-- The loop counts the bytes before the NUL.
unfoldable pub strlen : List ℕ → ℕ
strlen [] = 0
strlen (c ∷ str) = strlen str + 1

unfoldable pub strcmp : List ℕ → List ℕ → ℤ
unfolding char_diff
strcmp [] [] = char_diff 0 0
strcmp [] (b ∷ t) = char_diff 0 b
strcmp (a ∷ s) [] = char_diff a 0
strcmp (a ∷ s) (b ∷ t) = let rest = strcmp s t in if a == b then rest else char_diff a b

-- `n` is not negative.
unfoldable pub strncmp : List ℕ → List ℕ → ℕ → ℤ
unfolding char_diff
strncmp s t zero = pos 0
strncmp [] [] (suc n) = char_diff 0 0
strncmp [] (b ∷ t) (suc n) = char_diff 0 b
strncmp (a ∷ s) [] (suc n) = char_diff a 0
strncmp (a ∷ s) (b ∷ t) (suc n) = let rest = strncmp s t n in if a == b then rest else char_diff a b

-- `src` is what is left of the source from index `i` on.
unfoldable pub strcpy_from : ℕ → (ℕ → ℕ) → List ℕ → ℕ → ℕ
strcpy_from i dest [] = update dest i 0
strcpy_from i dest (c ∷ src) = strcpy_from (i + 1) (update dest i c) src

unfoldable pub strcpy : (ℕ → ℕ) → List ℕ → ℕ → ℕ
unfolding strcpy_from
strcpy dest src = strcpy_from 0 dest src

-- The second loop of `strncpy`, with `n` rounds left.
unfoldable pub pad_from : ℕ → ℕ → (ℕ → ℕ) → ℕ → ℕ
pad_from zero i dest = dest
pad_from (suc n) i dest = pad_from n (i + 1) (update dest i 0)

-- The first loop, with at most `n` rounds left.
unfoldable pub strncpy_from : ℕ → ℕ → (ℕ → ℕ) → List ℕ → ℕ → ℕ
unfolding pad_from
strncpy_from zero i dest src = dest
strncpy_from (suc n) i dest [] = pad_from (suc n) i dest
strncpy_from (suc n) i dest (c ∷ src) = strncpy_from n (i + 1) (update dest i c) src

unfoldable pub strncpy : (ℕ → ℕ) → List ℕ → ℕ → ℕ → ℕ
unfolding strncpy_from
strncpy dest src n = strncpy_from n 0 dest src

-- The bytes of a C string: none is NUL.
abbrev pub IsCString : List ℕ → Type 0
IsCString str = All (λ c. (c ≢ 0) × (c < 256)) str
