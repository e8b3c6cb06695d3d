-- ===== src/Base/Bits.antt =====
-- The bits of a number, and what C's `|`, `&` and `~` do to them, at every width.
use Prim.Native.Nat.{
  ℕ, zero, suc, ◌+◌, ◌-◌, ◌*◌, ◌/◌, ◌%◌, ◌^◌, ◌≤◌, ◌<◌, min, max, bit_and, bit_or, digits,
  bit_and-bitwise, bit_or-bitwise,
}
use mathlib.Core.Path.{sym, ◌∙◌, ◌≡◌, refl, ap}
use native.Mathlib.Nat.{pow-suc, one-le-pow}
use native.Mathlib.Omega.{arith}
use my_os.Base.Tests.{◌==◌, if◌then◌else◌}

-- The value, 0 or 1, of bit `k` of `a`.
unfoldable pub bit : ℕ → ℕ → ℕ
bit a zero = a % 2
bit a (suc k) = bit (a / 2) k

pub bit-le : (a k : ℕ) → bit a k ≤ 1
unfolding bit
bit-le a zero = omega arith
bit-le a (suc k) = bit-le (a / 2) k

-- The recursion that the operations stand for gives the same at any two fuels that are enough.
fuel_free :
    (z : ℕ → ℕ) (f : ℕ → ℕ → ℕ) (n a b m : ℕ) → a ≤ n → a ≤ m → digits z f n a b ≡ digits z f m a b
fuel_free z f zero zero b zero p q = refl
fuel_free z f zero zero b (suc m) p q = refl
fuel_free z f (suc n) zero b zero p q = refl
fuel_free z f (suc n) zero b (suc m) p q = refl
fuel_free z f zero (suc a) b m p q = absurd (omega arith)
fuel_free z f (suc n) (suc a) b zero p q = absurd (omega arith)
fuel_free z f (suc n) (suc a) b (suc m) p q =
    rw (fuel_free z f n (suc a / 2) (b / 2) m (omega arith) (omega arith))

pub bit_or-halves : (a b : ℕ) → bit_or a b ≡ bit_or (a / 2) (b / 2) * 2 + max (a % 2) (b % 2)
bit_or-halves zero b = simp bit_or-bitwise (omega arith)
bit_or-halves (suc a) b = simp bit_or-bitwise (
    omega
      (arith, fuel_free (λ y. y) max a (suc a / 2) (b / 2) (suc a / 2) (omega arith) (omega arith)))

pub bit_and-halves : (a b : ℕ) → bit_and a b ≡ bit_and (a / 2) (b / 2) * 2 + min (a % 2) (b % 2)
bit_and-halves zero b = simp bit_and-bitwise (omega arith)
bit_and-halves (suc a) b = simp bit_and-bitwise (
    omega
      (arith, fuel_free (λ _. 0) min a (suc a / 2) (b / 2) (suc a / 2) (omega arith) (omega arith)))

pub zero-bit_and : (b : ℕ) → bit_and 0 b ≡ 0
zero-bit_and b = bit_and-bitwise 0 b

bit_and-zero_below : (n a : ℕ) → a ≤ n → bit_and a 0 ≡ 0
bit_and-zero_below n zero h = zero-bit_and 0
bit_and-zero_below zero (suc a) h = absurd (omega arith)
bit_and-zero_below (suc n) (suc a) h =
    omega (arith, bit_and-halves (suc a) 0, bit_and-zero_below n (suc a / 2) (omega arith))

pub bit_and-zero : (a : ℕ) → bit_and a 0 ≡ 0
bit_and-zero a = bit_and-zero_below a a (omega arith)

zero-bit_or : (b : ℕ) → bit_or 0 b ≡ b
zero-bit_or b = bit_or-bitwise 0 b

bit_or-zero_below : (n a : ℕ) → a ≤ n → bit_or a 0 ≡ a
bit_or-zero_below n zero h = bit_or-bitwise 0 0
bit_or-zero_below zero (suc a) h = absurd (omega arith)
bit_or-zero_below (suc n) (suc a) h =
    omega (arith, bit_or-halves (suc a) 0, bit_or-zero_below n (suc a / 2) (omega arith))

pub bit_or-zero : (a : ℕ) → bit_or a 0 ≡ a
bit_or-zero a = bit_or-zero_below a a (omega arith)

-- `|` and `&` work on each bit alone.
pub bit-bit_or : (a b k : ℕ) → bit (bit_or a b) k ≡ max (bit a k) (bit b k)
unfolding bit
bit-bit_or a b zero = omega (arith, bit_or-halves a b)
bit-bit_or a b (suc k) =
    let e : bit_or a b / 2 ≡ bit_or (a / 2) (b / 2) = omega (arith, bit_or-halves a b) in
    rw e (bit-bit_or (a / 2) (b / 2) k)

pub bit-bit_and : (a b k : ℕ) → bit (bit_and a b) k ≡ min (bit a k) (bit b k)
unfolding bit
bit-bit_and a b zero = omega (arith, bit_and-halves a b)
bit-bit_and a b (suc k) =
    let e : bit_and a b / 2 ≡ bit_and (a / 2) (b / 2) = omega (arith, bit_and-halves a b) in
    rw e (bit-bit_and (a / 2) (b / 2) k)

-- `~a` on a word of `w` bits.
abbrev pub bit_not : ℕ → ℕ → ℕ
bit_not w a = 2 ^ w - 1 - a

pub bit-bit_not : (w a k : ℕ) → a < 2 ^ w → k < w → bit (bit_not w a) k ≡ 1 - bit a k
unfolding bit
bit-bit_not zero a k h lt = absurd (omega arith)
bit-bit_not (suc w) a zero h lt = omega (arith, pow-suc 2 w, one-le-pow w 2)
bit-bit_not (suc w) a (suc k) h lt =
    let e : (2 ^ suc w - 1 - a) / 2 ≡ 2 ^ w - 1 - a / 2 =
      omega (arith, pow-suc 2 w, one-le-pow w 2) in
    rw e (bit-bit_not w (a / 2) k (omega (arith, pow-suc 2 w)) (omega arith))

pub bit-zero : (k : ℕ) → bit 0 k ≡ 0
unfolding bit
bit-zero zero = refl
bit-zero (suc k) = bit-zero k

-- The bits of `1 << j`.
pub bit-pow : (j k : ℕ) → bit (2 ^ j) k ≡ (if j == k then 1 else 0)
unfolding bit
bit-pow zero zero = refl
bit-pow zero (suc k) = ground (arith, bit-zero k)
bit-pow (suc j) zero = ground (arith, pow-suc 2 j)
bit-pow (suc j) (suc k) =
    let e : 2 ^ suc j / 2 ≡ 2 ^ j = omega (arith, pow-suc 2 j) in rw e (ground (arith, bit-pow j k))

-- A number has no bit at or above its width.
pub bit-eq-zero : (w a k : ℕ) → a < 2 ^ w → w ≤ k → bit a k ≡ 0
unfolding bit
bit-eq-zero zero a zero h le = omega arith
bit-eq-zero zero a (suc k) h le = bit-eq-zero zero (a / 2) k (omega arith) (omega arith)
bit-eq-zero (suc w) a zero h le = absurd (omega arith)
bit-eq-zero (suc w) a (suc k) h le =
    bit-eq-zero w (a / 2) k (omega (arith, pow-suc 2 w)) (omega arith)

-- Two words of `w` bits with the same bits are equal.
pub eq_of_bits : (w a b : ℕ) → a < 2 ^ w → b < 2 ^ w → ((k : ℕ) → k < w → bit a k ≡ bit b k) → a ≡ b
unfolding bit
eq_of_bits zero a b ha hb h = omega arith
eq_of_bits (suc w) a b ha hb h = omega (
  arith,
  h 0 (omega arith),
  eq_of_bits w (a / 2) (b / 2) (omega (arith, pow-suc 2 w)) (omega (arith, pow-suc 2 w))
      (λ k lt. h (suc k) (omega arith)),
)

pub bit_or-lt : (w a b : ℕ) → a < 2 ^ w → b < 2 ^ w → bit_or a b < 2 ^ w
bit_or-lt zero a b ha hb =
    let e : a ≡ 0 = omega arith in let f : b ≡ 0 = omega arith in rw (e, f) (omega arith)
bit_or-lt (suc w) a b ha hb = omega (
  arith,
  pow-suc 2 w,
  bit_or-halves a b,
  bit_or-lt w (a / 2) (b / 2) (omega (arith, pow-suc 2 w)) (omega (arith, pow-suc 2 w)),
)

-- `&` is no larger than its first argument.
pub bit_and-le : (w a b : ℕ) → a < 2 ^ w → bit_and a b ≤ a
bit_and-le zero a b ha = let e : a ≡ 0 = omega arith in rw e (omega (arith, zero-bit_and b))
bit_and-le (suc w) a b ha =
    omega (arith, bit_and-halves a b, bit_and-le w (a / 2) (b / 2) (omega (arith, pow-suc 2 w)))

-- `a & (1 << k)`: bit `k`, where it stands.
pub bit_and-pow : (a k : ℕ) → bit_and a (2 ^ k) ≡ bit a k * 2 ^ k
unfolding bit
bit_and-pow a zero = omega (arith, bit_and-halves a 1, bit_and-zero (a / 2))
bit_and-pow a (suc k) =
    let e : 2 ^ suc k / 2 ≡ 2 ^ k = omega (arith, pow-suc 2 k) in
    let h : bit_and a (2 ^ suc k) ≡ bit_and (a / 2) (2 ^ k) * 2 + min (a % 2) (2 ^ suc k % 2) =
      rw (← e) (bit_and-halves a (2 ^ suc k)) in
    omega (
      arith,
      h,
      pow-suc 2 k,
      bit_and-pow (a / 2) k,
      ap (λ (t : ℕ). bit (a / 2) k * t) (pow-suc 2 k),
    )

nonzero_test : (b p : ℕ) → b ≤ 1 → 1 ≤ p → (b * p == 0) ≡ (b == 0)
nonzero_test zero p h pos = ground arith
nonzero_test (suc zero) p h pos = ground arith
nonzero_test (suc (suc b)) p h pos = absurd (omega arith)

-- `!(a & (1 << k))` tests that bit `k` is clear.
pub bit_and-pow_test : (a k : ℕ) → (bit_and a (2 ^ k) == 0) ≡ (bit a k == 0)
bit_and-pow_test a k =
    rw (bit_and-pow a k)
      (nonzero_test (bit a k) (2 ^ k) (bit-le a k) (one-le-pow k 2 (omega arith)))

bit_or_comm_below : (n a b : ℕ) → a ≤ n → bit_or a b ≡ bit_or b a
bit_or_comm_below n zero b h = zero-bit_or b ∙ sym (bit_or-zero b)
bit_or_comm_below zero (suc a) b h = absurd (omega arith)
bit_or_comm_below (suc n) (suc a) b h = omega (
  arith,
  bit_or-halves (suc a) b,
  bit_or-halves b (suc a),
  bit_or_comm_below n (suc a / 2) (b / 2) (omega arith),
)

pub bit_or_comm : (a b : ℕ) → bit_or a b ≡ bit_or b a
bit_or_comm a b = bit_or_comm_below a a b (omega arith)
