-- ===== src/Disk/Drive/Sizes.antt =====
-- The sectors that `len` bytes take, for `disk_read` and `disk_write` of drivers/disk.c.
use native.Mathlib.Nat.{mul-le-mul_right, div-add-mod, mod-lt}
use my_os.Base.{
  ℕ, ◌+◌, ◌-◌, ◌*◌, ◌/◌, ◌%◌, ◌^◌, ◌≤◌, ◌<◌, ◌≡◌, arith, true, false, ◌==◌, leb, Bool-cases, inl,
  inr,
}

-- The test for zero.
pub is_zero : (n : ℕ) → (n == 0) ≡ true → n ≡ 0
is_zero n h = ground (arith, h)

pub is_more : (n : ℕ) → (n == 0) ≡ false → 0 < n
is_more n h = ground (arith, h)

pub none_at : (n : ℕ) → n ≡ 0 → (n == 0) ≡ true
none_at n h = ground (arith, h)

pub is_some : (n : ℕ) → 0 < n → (n == 0) ≡ false
is_some n h = ground (arith, h)

-- Sectors whose bytes end within a disk lie on it.
fits_on :
    (sectors total size extra : ℕ)
    → 0 < size
    → sectors * size ≤ total * size + extra
    → extra < size
    → sectors ≤ total
fits_on sectors total size extra some le small = elim (Bool-cases (leb sectors total)) [
  | inl within ↦ ground (arith, within)
  | inr past ↦
      let more : total + 1 ≤ sectors = ground (arith, past) in
      let p : (total + 1) * size ≤ sectors * size = mul-le-mul_right size more in
      absurd (omega (arith, p, le, small))
]

pub len-parts : (len size : ℕ) → len / size * size + len % size ≡ len
len-parts len size = omega (arith, div-add-mod len size)

pub rest-small : (len size : ℕ) → 0 < size → len % size < size
rest-small len size some = mod-lt len some

pub full_sectors-fit :
    (lba len size total : ℕ) → 0 < size → lba * size + len ≤ total * size → lba + len / size ≤ total
full_sectors-fit lba len size total some fits =
    let e : (lba + len / size) * size ≡ lba * size + len / size * size = omega arith in
    fits_on (lba + len / size) total size 0 some (omega (arith, e, fits, len-parts len size)) some

pub last_sector-fits :
    (lba len size total : ℕ)
    → 0 < size
    → lba * size + len ≤ total * size
    → 0 < len % size
    → lba + len / size + 1 ≤ total
last_sector-fits lba len size total some fits part =
    let e : (lba + len / size + 1) * size ≡ lba * size + len / size * size + size = omega arith in
    fits_on (lba + len / size + 1) total size (size - len % size) some
      (omega (arith, e, fits, len-parts len size, rest-small len size some))
      (omega (arith, part, rest-small len size some))

-- The rounding up in `disk_read`: sectors enough for `len` bytes, that lie on the disk, and no more
-- than a sector too long.
pub rounded_up :
    (lba len size total : ℕ)
    → 0 < size
    → lba * size + len ≤ total * size
    → len + size < 2 ^ 32
    → let n = (len + size + 2 ^ 32 - 1) % 2 ^ 32 / size in
      (len ≤ n * size) × (n * size < len + size) × (lba + n ≤ total)
rounded_up lba len size total some fits small =
    let n = (len + size + 2 ^ 32 - 1) % 2 ^ 32 / size in
    let x : (len + size + 2 ^ 32 - 1) % 2 ^ 32 ≡ len + size - 1 = omega (arith, some, small) in
    let parts = len-parts ((len + size + 2 ^ 32 - 1) % 2 ^ 32) size in
    let rest = rest-small ((len + size + 2 ^ 32 - 1) % 2 ^ 32) size some in
    let lo : len ≤ n * size = omega (arith, x, parts, rest) in
    let hi : n * size < len + size = omega (arith, x, parts, rest, some) in
    let e : (lba + n) * size ≡ lba * size + n * size = omega arith in
    (
      lo,
      hi,
      fits_on (lba + n) total size (n * size - len) some (omega (arith, e, fits, lo))
          (omega (arith, hi, lo)),
    )
