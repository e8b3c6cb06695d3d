-- ===== src/Std/Memory.antt =====
-- memory/utills.c and `memcmp` of std/string.c, over one memory of bytes.
use my_os.Base.{
  ℕ, zero, suc, ◌+◌, ◌-◌, ◌≤◌, ◌<◌, ◌≡◌, refl, ◌⊎◌, ◌↔◌, ◌&&◌, arith, ltb, leb, ◌==◌, if◌then◌else◌,
}
use my_os.Base.Int.{ℤ, pos, sub_ℕ}
use my_os.Base.Masks.{update}

-- `num` rounds from index `i` on.
unfoldable pub memset : (num : ℕ) → (ptr value i : ℕ) → (ℕ → ℕ) → ℕ → ℕ
memset zero ptr value i mem = mem
memset (suc n) ptr value i mem = memset n ptr value (i + 1) (update mem (ptr + i) value)

unfoldable pub memcpy : (num : ℕ) → (dest src i : ℕ) → (ℕ → ℕ) → ℕ → ℕ
memcpy zero dest src i mem = mem
memcpy (suc n) dest src i mem = memcpy n dest src (i + 1) (update mem (dest + i) (mem (src + i)))

unfoldable pub memcmp : (size : ℕ) → (buf1 buf2 i : ℕ) → (ℕ → ℕ) → ℤ
memcmp zero buf1 buf2 i mem = pos 0
memcmp (suc n) buf1 buf2 i mem =
    let rest = memcmp n buf1 buf2 (i + 1) mem in
    if mem (buf1 + i) == mem (buf2 + i) then rest else sub_ℕ (mem (buf1 + i)) (mem (buf2 + i))

memset-eq :
    (n ptr value i : ℕ) (mem : ℕ → ℕ) (a : ℕ)
    → memset n ptr value i mem a ≡ (if leb (ptr + i) a && ltb a (ptr + i + n) then value else mem a)
unfolding memset
memset-eq zero ptr value i mem a = ground arith
memset-eq (suc n) ptr value i mem a =
    ground (arith, memset-eq n ptr value (i + 1) (update mem (ptr + i) value) a)

-- `memset` gives the value to exactly the `num` bytes from `ptr` on.
pub memset-fills :
    (num ptr value : ℕ) (mem : ℕ → ℕ) (a : ℕ)
    → memset num ptr value 0 mem a ≡ (if leb ptr a && ltb a (ptr + num) then value else mem a)
memset-fills num ptr value mem a = ground (arith, memset-eq num ptr value 0 mem a)

memcpy-eq :
    (n dest src i : ℕ) (mem : ℕ → ℕ) (a : ℕ)
    → (dest ≤ src) ⊎ (src + i + n ≤ dest + i)
    → memcpy n dest src i mem a
      ≡ (if leb (dest + i) a && ltb a (dest + i + n) then mem (src + (a - dest)) else mem a)
unfolding memcpy
memcpy-eq zero dest src i mem a apart = ground arith
memcpy-eq (suc n) dest src i mem a apart =
    ground (arith, memcpy-eq n dest src (i + 1) (update mem (dest + i) (mem (src + i))) a)

-- `memcpy` copies the `num` bytes from `src` to `dest` and changes nothing else, if the destination
-- does not start inside the source, behind its first byte.
pub memcpy-copies :
    (num dest src : ℕ) (mem : ℕ → ℕ) (a : ℕ)
    → (dest ≤ src) ⊎ (src + num ≤ dest)
    → memcpy num dest src 0 mem a
      ≡ (if leb dest a && ltb a (dest + num) then mem (src + (a - dest)) else mem a)
memcpy-copies num dest src mem a apart = ground (arith, memcpy-eq num dest src 0 mem a)

memcmp-same :
    (n buf1 buf2 i : ℕ) (mem : ℕ → ℕ) (k : ℕ)
    → memcmp n buf1 buf2 i mem ≡ pos 0
    → i ≤ k
    → k < i + n
    → mem (buf1 + k) ≡ mem (buf2 + k)
unfolding memcmp
memcmp-same zero buf1 buf2 i mem k h lo hi = absurd (omega arith)
memcmp-same (suc n) buf1 buf2 i mem k h lo hi =
    ground (arith, memcmp-same n buf1 buf2 (i + 1) mem k)

memcmp-zero :
    (n buf1 buf2 i : ℕ) (mem : ℕ → ℕ)
    → ((k : ℕ) → i ≤ k → k < i + n → mem (buf1 + k) ≡ mem (buf2 + k))
    → memcmp n buf1 buf2 i mem ≡ pos 0
unfolding memcmp
memcmp-zero zero buf1 buf2 i mem h = refl
memcmp-zero (suc n) buf1 buf2 i mem h =
    ground
      (arith, h i, memcmp-zero n buf1 buf2 (i + 1) mem (λ k lo hi. h k (omega arith) (omega arith)))

-- `memcmp` returns 0 exactly if the two blocks hold the same bytes.
pub memcmp-eq-zero :
    (size buf1 buf2 : ℕ) (mem : ℕ → ℕ)
    → (memcmp size buf1 buf2 0 mem ≡ pos 0) ↔ ((k : ℕ) → k < size → mem (buf1 + k) ≡ mem (buf2 + k))
memcmp-eq-zero size buf1 buf2 mem = (
  λ h k lt. memcmp-same size buf1 buf2 0 mem k h (omega arith) (omega arith),
  λ h. memcmp-zero size buf1 buf2 0 mem (λ k lo hi. h k (omega arith)),
)
