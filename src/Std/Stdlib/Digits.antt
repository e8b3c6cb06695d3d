-- ===== src/Std/Stdlib/Digits.antt =====
-- The loops of `int_to_string`.
use my_os.Base.{
  ℕ, zero, suc, ◌+◌, ◌-◌, ◌*◌, ◌/◌, ◌%◌, ◌^◌, ◌≤◌, ◌<◌, ◌≡◌, refl, ◌&&◌, some, List, [], ◌∷◌, ◌++◌,
  All, length, get_or, arith, ltb, leb, ◌==◌, if◌then◌else◌, Bool-cases, inl, inr, ltb→lt, ltb→le,
  get_or-cons, ◌⊎◌, ◌≢◌, ◌∙◌, ==_iff, ==→ne,
}
use my_os.Base.Masks.{update}
use my_os.Std.Stdlib.{write_digits, reverse_loop}
use native.Mathlib.Nat.{pow-suc}

-- The number that decimal digits stand for, the lowest first.
unfoldable pub value : List ℕ → ℕ
value [] = 0
value (d ∷ ds) = d - b'0' + 10 * value ds

abbrev pub IsDigit : ℕ → Type 0
IsDigit d = (b'0' ≤ d) × (d ≤ b'9')

unfoldable pub rev : List ℕ → List ℕ
rev [] = []
rev (d ∷ ds) = rev ds ++ (d ∷ [])

-- What the first loop leaves behind when it starts at index `i` of `str`.
pub record Wrote (fuel num i : ℕ) (str : ℕ → ℕ) (ds : List ℕ) (i' : ℕ) (str' : ℕ → ℕ) : Type 0 where
  pub run : write_digits fuel num i str ≡ some (i', str')
  pub number : value ds ≡ num
  pub digits : All IsDigit ds
  pub short : length ds ≤ fuel
  pub long : 1 ≤ length ds
  pub end : i' ≡ i + length ds
  pub bytes :
      (k : ℕ) → str' k ≡ (if leb i k && ltb k (i + length ds) then get_or ds (k - i) 0 else str k)

fuel_left : (f x : ℕ) → 0 < x → x < 10 ^ f → 1 ≤ f
fuel_left zero x lo hi = omega arith
fuel_left (suc f) x lo hi = omega arith

pub write_digits-Wrote :
    (fuel num i : ℕ) (str : ℕ → ℕ)
    → num < 10 ^ fuel
    → 1 ≤ fuel
    → (ds : List ℕ) × (i' : ℕ) × (str' : ℕ → ℕ) × Wrote fuel num i str ds i' str'
unfolding write_digits value
write_digits-Wrote zero num i str h pos = absurd (omega arith)
write_digits-Wrote (suc f) num i str h pos = elim (Bool-cases (ltb 0 (num / 10))) [
  | inr last ↦ (
    (num % 10 + b'0') ∷ [],
    i + 1,
    update str i (num % 10 + b'0'),
    record {
      run = ground arith;
      number = omega (arith, ltb→le 0 (num / 10) last);
      digits = omega arith;
      short = omega arith;
      long = omega arith;
      end = omega arith;
      bytes = λ k. ground (arith, get_or-cons (num % 10 + b'0') [] i k 0);
    },
  )
  | inl more ↦
      let (ds, i', str', w) =
        write_digits-Wrote f (num / 10) (i + 1) (update str i (num % 10 + b'0'))
          (omega (arith, pow-suc 10 f))
          (fuel_left f (num / 10) (ltb→lt 0 (num / 10) more) (omega (arith, pow-suc 10 f))) in
      (
        (num % 10 + b'0') ∷ ds,
        i',
        str',
        record {
          run = ground (arith, w.run);
          number = omega (arith, w.number);
          digits = (omega arith, w.digits);
          short = omega (arith, w.short);
          long = omega arith;
          end = omega (arith, w.end);
          bytes = λ k. ground (arith, w.bytes k, get_or-cons (num % 10 + b'0') ds i k 0);
        },
      )
]

-- One exchange of the bytes at `j` and `i - j - 1`.
abbrev exchanged : ℕ → ℕ → (ℕ → ℕ) → ℕ → ℕ
exchanged j i str = update (update str j (str (i - j - 1))) (i - j - 1) (str j)

pub reverse_loop-keeps :
    (n j i : ℕ) (str : ℕ → ℕ) (k : ℕ)
    → 2 * (j + n) ≤ i
    → (k < j) ⊎ (i ≤ k + j)
    → reverse_loop n j i str k ≡ str k
unfolding reverse_loop
reverse_loop-keeps zero j i str k h out = refl
reverse_loop-keeps (suc n) j i str k h out =
    let same : exchanged j i str k ≡ str k = ground arith in
    reverse_loop-keeps n (j + 1) i (exchanged j i str) k (omega arith) (omega arith) ∙ same

pub reverse_loop-centre :
    (n j i : ℕ) (str : ℕ → ℕ) (k : ℕ)
    → 2 * (j + n) ≤ i
    → j + n ≤ k
    → k + j + n < i
    → reverse_loop n j i str k ≡ str k
unfolding reverse_loop
reverse_loop-centre zero j i str k h lo hi = refl
reverse_loop-centre (suc n) j i str k h lo hi =
    let same : exchanged j i str k ≡ str k = ground arith in
    reverse_loop-centre n (j + 1) i (exchanged j i str) k (omega arith) (omega arith) (omega arith)
    ∙ same

pub reverse_loop-mirrors :
    (n j i : ℕ) (str : ℕ → ℕ) (k : ℕ)
    → 2 * (j + n) ≤ i
    → j ≤ k
    → k + j < i
    → (k < j + n) ⊎ (i ≤ k + j + n)
    → reverse_loop n j i str k ≡ str (i - 1 - k)
unfolding reverse_loop
reverse_loop-mirrors zero j i str k h lo hi at = absurd (omega arith)
reverse_loop-mirrors (suc n) j i str k h lo hi at = elim (Bool-cases (k == j)) [
  | inl first ↦
      let here : exchanged j i str k ≡ str (i - 1 - k) =
        let e : k ≡ j = (==_iff k j).0 first in
        let f : i - j - 1 ≡ i - 1 - j = omega arith in rw (e, f) (ground arith) in
      reverse_loop-keeps n (j + 1) i (exchanged j i str) k (omega arith) (ground arith) ∙ here
  | inr inner ↦ elim (Bool-cases (k == i - j - 1)) [
    | inl last ↦
        let e : k ≡ i - j - 1 = (==_iff k (i - j - 1)).0 last in
        let f : i - 1 - k ≡ j = omega arith in
        let here : exchanged j i str k ≡ str (i - 1 - k) = rw f (ground arith) in
        reverse_loop-keeps n (j + 1) i (exchanged j i str) k (omega arith) (omega arith) ∙ here
    | inr middle ↦
        let ne : k ≢ j = ==→ne k j inner in
        let ne' : k ≢ i - j - 1 = ==→ne k (i - j - 1) middle in
        let there : exchanged j i str (i - 1 - k) ≡ str (i - 1 - k) = ground arith in
        reverse_loop-mirrors n (j + 1) i (exchanged j i str) k (omega arith) (omega arith)
          (omega arith) (omega arith)
        ∙ there
  ]
]
