-- ===== src/Disk/Drive/Image.antt =====
-- The bytes of a disk, for the parts of drivers/disk.c that work on bytes.
use my_os.Base.{ℕ, ◌+◌, ◌*◌, ◌/◌, ◌%◌, ◌<◌, ◌≡◌, ◌∙◌, ap, arith}
use my_os.Disk.Transfer.{copy_to, byte_at, word_at}

byte_at-word_at_at :
    (bytes : ℕ → ℕ) (k : ℕ) → bytes (2 * (k / 2)) < 256 → byte_at (word_at bytes) k ≡ bytes k
unfolding byte_at word_at
byte_at-word_at_at bytes k small = grind arith

-- A copy of words is a copy of their bytes.
byte_at-copy_to_at :
    (dest : ℕ → ℕ) (i : ℕ) (src : ℕ → ℕ) (n k : ℕ)
    → byte_at (copy_to dest i src n) k ≡ copy_to (byte_at dest) (2 * i) (byte_at src) (2 * n) k
unfolding byte_at copy_to
byte_at-copy_to_at dest i src n k = grind arith

copy_to-within : (dest src : ℕ → ℕ) (n k : ℕ) → k < n → copy_to dest (2 * 0) src n k ≡ src k
unfolding copy_to
copy_to-within dest src n k h = grind arith

-- Twice the words of `n` sectors are their bytes.
pub bytes_of_sectors : (n size : ℕ) → size % 2 ≡ 0 → 2 * (n * (size / 2)) ≡ n * size
bytes_of_sectors n size even =
    let e : 2 * (size / 2) ≡ size = omega (arith, even) in
    let f : 2 * (n * (size / 2)) ≡ n * (2 * (size / 2)) = omega arith in f ∙ ap (λ x. n * x) e

-- Bytes put together to words and taken apart again.
pub byte_at-word_at :
    (bytes : ℕ → ℕ) → ((k : ℕ) → bytes (2 * k) < 256) → byte_at (word_at bytes) ≡ bytes
byte_at-word_at bytes small t k = byte_at-word_at_at bytes k (small (k / 2)) t

-- The bytes of words that stand from word `a` on.
pub byte_at-from :
    (words : ℕ → ℕ) (a k : ℕ) → byte_at (λ j. words (a + j)) k ≡ byte_at words (2 * a + k)
unfolding byte_at
byte_at-from words a k = grind arith

pub byte_at-even : (words : ℕ → ℕ) (k : ℕ) → byte_at words (2 * k) < 256
unfolding byte_at
byte_at-even words k = ground arith

-- A copy of whole sectors of words, seen as bytes.
pub byte_at-copy_to :
    (dest : ℕ → ℕ) (lba : ℕ) (src : ℕ → ℕ) (n size : ℕ)
    → size % 2 ≡ 0
    → byte_at (copy_to dest (lba * (size / 2)) src (n * (size / 2)))
      ≡ copy_to (byte_at dest) (lba * size) (byte_at src) (n * size)
byte_at-copy_to dest lba src n size even =
    (λ t k. byte_at-copy_to_at dest (lba * (size / 2)) src (n * (size / 2)) k t)
    ∙ ap (λ i. copy_to (byte_at dest) i (byte_at src) (2 * (n * (size / 2))))
        (bytes_of_sectors lba size even)
    ∙ ap (copy_to (byte_at dest) (lba * size) (byte_at src)) (bytes_of_sectors n size even)

-- The bytes of sectors that have been copied to the start of a buffer of words.
pub byte_at-sectors :
    (dest words : ℕ → ℕ) (lba n size k : ℕ)
    → size % 2 ≡ 0
    → k < n * size
    → byte_at (copy_to dest 0 (λ j. words (lba * (size / 2) + j)) (n * (size / 2))) k
      ≡ byte_at words (lba * size + k)
byte_at-sectors dest words lba n size k even h =
    byte_at-copy_to_at dest 0 (λ j. words (lba * (size / 2) + j)) (n * (size / 2)) k
    ∙ copy_to-within (byte_at dest) (byte_at (λ j. words (lba * (size / 2) + j)))
        (2 * (n * (size / 2))) k (omega (arith, h, bytes_of_sectors n size even))
    ∙ byte_at-from words (lba * (size / 2)) k
    ∙ ap (λ a. byte_at words (a + k)) (bytes_of_sectors lba size even)
