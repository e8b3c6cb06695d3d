-- ===== src/Base/Masks.antt =====
-- Setting and clearing one bit of a byte, and an array of bytes written as a function.
use native.Mathlib.Nat.{pow-suc}
use Prim.Native.Nat.{ℕ, zero, suc, ◌%◌, ◌^◌, ◌<◌, min, bit_and, bit_or}
use mathlib.Core.Path.{◌≡◌}
use mathlib.Core.Logic.{inl, inr}
use native.Mathlib.Nat.{mod-eq_of_lt, one-le-pow}
use native.Mathlib.Omega.{arith}
use my_os.Base.Tests.{◌==◌, if◌then◌else◌, Bool-cases, ltb}
use my_os.Base.Bits.{
  bit, bit-le, bit-bit_or, bit-bit_and, bit_not, bit-bit_not, bit-pow, bit_and-le, bit_or-lt,
  bit-eq-zero,
}

-- `f[p] = v`.
abbrev pub update {ℓ} : {A : Type ℓ} → (ℕ → A) → ℕ → A → ℕ → A
update f p v q = if p == q then v else f q

pub pow-lt : (j w : ℕ) → j < w → 2 ^ j < 2 ^ w
pow-lt zero zero h = absurd (omega arith)
pow-lt zero (suc w) h = omega (arith, pow-suc 2 w, one-le-pow w 2)
pow-lt (suc j) zero h = absurd (omega arith)
pow-lt (suc j) (suc w) h = omega (arith, pow-suc 2 j, pow-suc 2 w, pow-lt j w (omega arith))

pub bit-set : (b j k : ℕ) → bit (bit_or b (2 ^ j)) k ≡ (if j == k then 1 else bit b k)
bit-set b j k = ground (arith, bit-bit_or b (2 ^ j) k, bit-pow j k, bit-le b k)

pub set-byte : (b j : ℕ) → b < 256 → j < 8 → bit_or b (2 ^ j) < 256
set-byte b j hb hj = bit_or-lt 8 b (2 ^ j) hb (pow-lt j 8 hj)

-- `~(1 << j)` is a 32-bit mask, and the result goes back into a byte.
abbrev pub clear_bit : ℕ → ℕ → ℕ
clear_bit b j = bit_and b (bit_not 32 (2 ^ j)) % 256

pub clear-byte : (b j : ℕ) → clear_bit b j < 256
clear-byte b j = omega arith

pub bit-clear :
    (b j k : ℕ) → b < 256 → j < 8 → bit (clear_bit b j) k ≡ (if j == k then 0 else bit b k)
bit-clear b j k hb hj =
    rw (mod-eq_of_lt {n = bit_and b (bit_not 32 (2 ^ j))} {m = 256} small)
      (elim (Bool-cases (ltb k 32)) [
        | inl low ↦ ground (
          arith,
          split,
          bit-bit_not 32 (2 ^ j) k (pow-lt j 32 (omega arith)),
          bit-pow j k,
          bit-le b k,
        )
        | inr high ↦ ground (arith, split, bit-eq-zero 8 b k)
      ])
  where
    small : bit_and b (bit_not 32 (2 ^ j)) < 256
    small = omega (arith, bit_and-le 8 b (bit_not 32 (2 ^ j)) hb)

    split : bit (bit_and b (bit_not 32 (2 ^ j))) k ≡ min (bit b k) (bit (bit_not 32 (2 ^ j)) k)
    split = bit-bit_and b (bit_not 32 (2 ^ j)) k
