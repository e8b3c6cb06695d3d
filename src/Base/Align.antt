-- ===== src/Base/Align.antt =====
-- Masks of consecutive ones, `x & (2^k - 1)` and `x & ~(2^k - 1)`, and fields joined by `|`.
use Prim.Native.Nat.{ℕ, zero, suc, ◌+◌, ◌-◌, ◌*◌, ◌/◌, ◌%◌, ◌^◌, ◌<◌, bit_and, bit_or}
use mathlib.Core.Path.{◌≡◌, ap, ◌∙◌}
use native.Mathlib.Nat.{pow-suc, one-le-pow, div-add-mod, mod-lt}
use native.Mathlib.Omega.{arith}
use my_os.Base.Bits.{bit_and-halves, bit_or-halves, bit_and-zero, bit_or-zero}

mul-pow-suc : (q k : ℕ) → q * 2 ^ suc k ≡ 2 * (q * 2 ^ k)
mul-pow-suc q k = omega (arith, ap (λ (t : ℕ). q * t) (pow-suc 2 k))

halved : (q r k : ℕ) → (q * 2 ^ suc k + r) / 2 ≡ q * 2 ^ k + r / 2
halved q r k = omega (arith, mul-pow-suc q k)

-- The low mask keeps the low field.
pub bit_and-low : (k q r : ℕ) → r < 2 ^ k → bit_and (q * 2 ^ k + r) (2 ^ k - 1) ≡ r
bit_and-low zero q r h = omega (arith, bit_and-zero (q * 1 + r))
bit_and-low (suc k) q r h =
    let e : (2 ^ suc k - 1) / 2 ≡ 2 ^ k - 1 = omega (arith, pow-suc 2 k, one-le-pow k 2) in
    let rest : bit_and ((q * 2 ^ suc k + r) / 2) ((2 ^ suc k - 1) / 2) ≡ r / 2 =
      rw (halved q r k, e) (bit_and-low k q (r / 2) (omega (arith, pow-suc 2 k))) in
    omega (
      arith,
      bit_and-halves (q * 2 ^ suc k + r) (2 ^ suc k - 1),
      rest,
      mul-pow-suc q k,
      pow-suc 2 k,
      one-le-pow k 2,
    )

-- A mask with no bit below `k` works on the high field, and drops the low one.
pub bit_and-high :
    (k q r m : ℕ) → r < 2 ^ k → bit_and (q * 2 ^ k + r) (m * 2 ^ k) ≡ bit_and q m * 2 ^ k
bit_and-high zero q r m h =
    let e : q * 1 + r ≡ q = omega arith in
    let f : m * 1 ≡ m = omega arith in rw (e, f) (omega arith)
bit_and-high (suc k) q r m h =
    let e : m * 2 ^ suc k / 2 ≡ m * 2 ^ k = omega (arith, mul-pow-suc m k) in
    let rest : bit_and ((q * 2 ^ suc k + r) / 2) (m * 2 ^ suc k / 2) ≡ bit_and q m * 2 ^ k =
      rw (halved q r k, e) (bit_and-high k q (r / 2) m (omega (arith, pow-suc 2 k))) in
    omega (
      arith,
      bit_and-halves (q * 2 ^ suc k + r) (m * 2 ^ suc k),
      rest,
      mul-pow-suc q k,
      mul-pow-suc m k,
      mul-pow-suc (bit_and q m) k,
    )

-- A field shifted by `k` and one that fits `k` bits are joined by `|` as by `+`.
pub bit_or-join : (k q r : ℕ) → r < 2 ^ k → bit_or (q * 2 ^ k) r ≡ q * 2 ^ k + r
bit_or-join zero q r h = let e : r ≡ 0 = omega arith in rw e (bit_or-zero (q * 1) ∙ omega arith)
bit_or-join (suc k) q r h =
    let e : q * 2 ^ suc k / 2 ≡ q * 2 ^ k = omega (arith, mul-pow-suc q k) in
    let rest : bit_or (q * 2 ^ suc k / 2) (r / 2) ≡ q * 2 ^ k + r / 2 =
      rw e (bit_or-join k q (r / 2) (omega (arith, pow-suc 2 k))) in
    omega (arith, bit_or-halves (q * 2 ^ suc k) r, rest, mul-pow-suc q k)

-- `x & 0xFFFFF000` clears the offset in the page.
pub bit_and-page : (x : ℕ) → x < 2 ^ 32 → bit_and x 0xFFFFF000 ≡ x - x % 4096
bit_and-page x h =
    let e : x / 4096 * 4096 + x % 4096 ≡ x = omega arith in
    let cut : bit_and x 0xFFFFF000 ≡ bit_and (x / 4096) 0xFFFFF * 4096 =
      rw e at (bit_and-high 12 (x / 4096) (x % 4096) 0xFFFFF (omega arith)) in
    let z : 0 * 2 ^ 20 + x / 4096 ≡ x / 4096 = omega arith in
    let low : bit_and (x / 4096) 0xFFFFF ≡ x / 4096 =
      rw z at (bit_and-low 20 0 (x / 4096) (omega arith)) in
    omega (arith, cut, low)

-- `x & 0xFFF` is the offset in the page.
pub bit_and-offset : (x : ℕ) → bit_and x 0xFFF ≡ x % 4096
bit_and-offset x =
    let e : x / 4096 * 4096 + x % 4096 ≡ x = omega arith in
    rw e at (bit_and-low 12 (x / 4096) (x % 4096) (omega arith))

-- `x & (2^k - 1)` is the remainder.
pub bit_and-mod : (k x : ℕ) → bit_and x (2 ^ k - 1) ≡ x % 2 ^ k
bit_and-mod k x =
    let e : x / 2 ^ k * 2 ^ k + x % 2 ^ k ≡ x = omega (arith, div-add-mod x (2 ^ k)) in
    rw e at (bit_and-low k (x / 2 ^ k) (x % 2 ^ k) (mod-lt x (one-le-pow k 2 (omega arith))))

-- `|` and `&` work on the fields above and below bit `k` alone.
pub bit_or-fields :
    (k q r m n : ℕ)
    → r < 2 ^ k
    → n < 2 ^ k
    → bit_or (q * 2 ^ k + r) (m * 2 ^ k + n) ≡ bit_or q m * 2 ^ k + bit_or r n
bit_or-fields zero q r m n hr hn =
    let e : q * 1 + r ≡ q = omega arith in
    let f : m * 1 + n ≡ m = omega arith in
    let g : r ≡ 0 = omega arith in
    let h : n ≡ 0 = omega arith in rw (e, f, g, h) (omega (arith, bit_or-zero 0))
bit_or-fields (suc k) q r m n hr hn =
    let rest : bit_or ((q * 2 ^ suc k + r) / 2) ((m * 2 ^ suc k + n) / 2)
        ≡ bit_or q m * 2 ^ k + bit_or (r / 2) (n / 2) =
      rw (halved q r k, halved m n k)
        (bit_or-fields k q (r / 2) m (n / 2) (omega (arith, pow-suc 2 k))
          (omega (arith, pow-suc 2 k))) in
    omega (
      arith,
      bit_or-halves (q * 2 ^ suc k + r) (m * 2 ^ suc k + n),
      bit_or-halves r n,
      rest,
      mul-pow-suc q k,
      mul-pow-suc m k,
      mul-pow-suc (bit_or q m) k,
    )

pub bit_and-fields :
    (k q r m n : ℕ)
    → r < 2 ^ k
    → n < 2 ^ k
    → bit_and (q * 2 ^ k + r) (m * 2 ^ k + n) ≡ bit_and q m * 2 ^ k + bit_and r n
bit_and-fields zero q r m n hr hn =
    let e : q * 1 + r ≡ q = omega arith in
    let f : m * 1 + n ≡ m = omega arith in
    let g : r ≡ 0 = omega arith in
    let h : n ≡ 0 = omega arith in rw (e, f, g, h) (omega (arith, bit_and-zero 0))
bit_and-fields (suc k) q r m n hr hn =
    let rest : bit_and ((q * 2 ^ suc k + r) / 2) ((m * 2 ^ suc k + n) / 2)
        ≡ bit_and q m * 2 ^ k + bit_and (r / 2) (n / 2) =
      rw (halved q r k, halved m n k)
        (bit_and-fields k q (r / 2) m (n / 2) (omega (arith, pow-suc 2 k))
          (omega (arith, pow-suc 2 k))) in
    omega (
      arith,
      bit_and-halves (q * 2 ^ suc k + r) (m * 2 ^ suc k + n),
      bit_and-halves r n,
      rest,
      mul-pow-suc q k,
      mul-pow-suc m k,
      mul-pow-suc (bit_and q m) k,
    )
