-- ===== src/Disk/Identify/Strings.antt =====
-- The strings and sizes that identification extracts.
use my_os.Base.{
  ℕ, zero, suc, ◌+◌, ◌*◌, ◌/◌, ◌%◌, ◌^◌, ◌≤◌, ◌<◌, ◌≡◌, ◌⊎◌, inl, inr, refl, arith, false, ◌==◌,
  ◌&&◌, ◌||◌, ltb, leb, if◌then◌else◌, bit_and, Bool-cases, ◌∙◌,
}
use my_os.Base.Align.{bit_and-mod}
use my_os.Base.Masks.{update}
use my_os.Disk.Identify.{split_words, trim, ata_extract_string}

-- Byte `k` of a string of words, the high byte of each word first.
unfoldable pub byte_of : (source : ℕ → ℕ) → ℕ → ℕ
byte_of source k = if k % 2 == 0 then source (k / 2) / 2 ^ 8 else source (k / 2) % 2 ^ 8

split_words-eq :
    (n i : ℕ) (source dest : ℕ → ℕ) (k : ℕ)
    → split_words n i source dest k
      ≡ (if leb (i * 2) k && ltb k ((i + n) * 2) then byte_of source k else dest k)
unfolding split_words byte_of
split_words-eq zero i source dest k = ground arith
split_words-eq (suc n) i source dest k =
    let d = update (update dest (i * 2) (source i / 2 ^ 8)) (i * 2 + 1) (bit_and (source i) 0xFF) in
    ground (arith, split_words-eq n (i + 1) source d k, bit_and-mod 8 (source i))

-- The bytes of `before`, cut at `size`: what is cut off up to `length` are spaces and NULs, the last
-- byte left is neither, and the bytes from `size` on up to `length` are NULs.
pub record Trimmed (before after : ℕ → ℕ) (length : ℕ) : Type 0 where
  pub size : ℕ
  pub size_le : size ≤ length
  pub kept : (k : ℕ) → k < size → after k ≡ before k
  pub cut : (k : ℕ) → size ≤ k → k < length → (after k ≡ 0) × ((before k ≡ b' ') ⊎ (before k ≡ 0))
  pub last : (k : ℕ) → k + 1 ≡ size → ((before k == b' ') || (before k == 0)) ≡ false
  pub rest : (k : ℕ) → length ≤ k → after k ≡ before k

trim-Trimmed : (n : ℕ) (dest : ℕ → ℕ) → Trimmed dest (trim n dest) n
unfolding trim
trim-Trimmed zero dest = record {
  size = 0;
  size_le = omega arith;
  kept = λ k h. refl;
  cut = λ k lo hi. absurd (omega arith);
  last = λ k h. absurd (omega arith);
  rest = λ k h. refl;
}
trim-Trimmed (suc n) dest =
    let r = trim-Trimmed n (update dest n 0) in
    elim (Bool-cases ((dest n == b' ') || (dest n == 0))) [
      | inl blank ↦ record {
        size = r.size;
        size_le = omega (arith, r.size_le);
        kept = λ k h. ground (arith, r.kept k, r.size_le);
        cut = λ k lo hi. ground (arith, r.cut k, r.rest k);
        last = λ k h. ground (arith, r.last k h, r.size_le);
        rest = λ k h. ground (arith, r.rest k);
      }
      | inr solid ↦ record {
        size = suc n;
        size_le = omega arith;
        kept = λ k h. ground arith;
        cut = λ k lo hi. absurd (omega arith);
        last = λ k h. ground arith;
        rest = λ k h. ground arith;
      }
    ]

-- `ata_extract_string` of an even length leaves the bytes of the words, high byte first, without the
-- spaces and NULs at their end, then NULs up to and with index `length`, and no other byte changes.
pub extract_string-Trimmed :
    (source dest : ℕ → ℕ) (half : ℕ)
    → Trimmed
        (λ k. if ltb k (half * 2) then byte_of source k else if k == half * 2 then 0 else dest k)
        (ata_extract_string source dest (half * 2))
        (half * 2)
      × (ata_extract_string source dest (half * 2) (half * 2) ≡ 0)
unfolding ata_extract_string
extract_string-Trimmed source dest half =
    let d = update (split_words (half * 2 / 2) 0 source dest) (half * 2) 0 in
    let r = trim-Trimmed (half * 2) d in
    let e : (k : ℕ)
        → d k
          ≡ (if ltb k (half * 2) then byte_of source k else if k == half * 2 then 0 else dest k) =
      λ k. ground (arith, split_words-eq (half * 2 / 2) 0 source dest k) in
    (
      record {
        size = r.size;
        size_le = r.size_le;
        kept = λ k h. r.kept k h ∙ e k;
        cut = λ k lo hi. rw (← e k) (r.cut k lo hi);
        last = λ k h. rw (← e k) (r.last k h);
        rest = λ k h. r.rest k h ∙ e k;
      },
      r.rest (half * 2) (omega arith) ∙ (ground arith),
    )
