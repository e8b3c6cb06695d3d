-- ===== src/Std/Stdlib/RoundTrip.antt =====
-- `int_to_string` prints what `atoi` reads.
use my_os.Base.{
  ℕ, suc, ◌+◌, ◌-◌, ◌*◌, ◌/◌, ◌%◌, ◌^◌, ◌≤◌, ◌<◌, ◌≡◌, refl, ◌≢◌, ◌∙◌, ap, sym, Bool, true, false,
  some, List, [], ◌∷◌, ◌++◌, All, length, get_or, arith, ltb, leb, ◌==◌, if◌then◌else◌, Bool-cases,
  inl, inr, length-append, get_or-append, get_or-past, get_or-cons, ◌||◌,
}
use my_os.Base.Masks.{update}
use my_os.Std.{Holds}
use my_os.Std.Stdlib.{
  reverse_loop, finish, int_to_string, atoi, atoi_from, negated, is_below_zero, widened,
}
use my_os.Std.Stdlib.Digits.{
  value, IsDigit, rev, write_digits-Wrote, reverse_loop-keeps, reverse_loop-centre,
  reverse_loop-mirrors,
}

length-rev : (ds : List ℕ) → length (rev ds) ≡ length ds
unfolding rev
length-rev [] = refl
length-rev (d ∷ ds) = omega (arith, length-append (rev ds) (d ∷ []), length-rev ds)

get_or-rev :
    (ds : List ℕ) (k : ℕ) → k < length ds → get_or (rev ds) k 0 ≡ get_or ds (length ds - 1 - k) 0
unfolding rev
get_or-rev [] k h = absurd (omega arith)
get_or-rev (d ∷ ds) k h = elim (Bool-cases (ltb k (length ds))) [
  | inl low ↦
      let e : suc (length ds) - 1 - k ≡ suc (length ds - 1 - k) = ground arith in
      rw e (ground (arith, get_or-append (rev ds) (d ∷ []) k 0, length-rev ds, get_or-rev ds k))
  | inr high ↦
      let e : suc (length ds) - 1 - k ≡ 0 = ground arith in
      let f : k - length (rev ds) ≡ 0 = ground (arith, length-rev ds) in
      let g : get_or (d ∷ []) (k - length (rev ds)) 0 ≡ d = rw f refl in
      rw e (ground (arith, get_or-append (rev ds) (d ∷ []) k 0, length-rev ds, g))
]

rev-snoc : (ds : List ℕ) (c : ℕ) → rev (ds ++ (c ∷ [])) ≡ c ∷ rev ds
unfolding rev
rev-snoc [] c = refl
rev-snoc (d ∷ ds) c = rw (rev-snoc ds c)

atoi_from-snoc :
    (r : ℕ) (xs : List ℕ) (d : ℕ)
    → IsDigit d
    → atoi_from r (xs ++ (d ∷ [])) ≡ (atoi_from r xs * 10 + d - b'0') % 2 ^ 32
unfolding atoi_from
atoi_from-snoc r [] d h = ground arith
atoi_from-snoc r (x ∷ xs) d h =
    atoi_from-snoc ((r * 10 + widened x + 2 ^ 32 - b'0') % 2 ^ 32) xs d h

-- `atoi` reads the digits of a number back.
atoi_from-rev : (ds : List ℕ) → All IsDigit ds → value ds < 2 ^ 32 → atoi_from 0 (rev ds) ≡ value ds
unfolding rev value atoi_from
atoi_from-rev [] h lt = refl
atoi_from-rev (d ∷ ds) h lt =
    omega (arith, atoi_from-snoc 0 (rev ds) d h.0, atoi_from-rev ds h.1 (omega arith))

mirrored : (n : ℕ) (str : ℕ → ℕ) (k : ℕ) → k < n → reverse_loop (n / 2) 0 n str k ≡ str (n - 1 - k)
mirrored n str k h = elim (Bool-cases (ltb k (n / 2) || leb n (k + n / 2))) [
  | inl outer ↦
      reverse_loop-mirrors (n / 2) 0 n str k (omega arith) (omega arith) (omega arith)
        (ground arith)
  | inr inner ↦
      let middle : k ≡ n - 1 - k = ground arith in
      reverse_loop-centre (n / 2) 0 n str k (omega arith) (ground arith) (ground arith)
      ∙ ap str middle
]

-- The buffer before the reversal holds `ds`; the reversal leaves `rev ds` and the NUL.
reverse_loop-Holds :
    (ds : List ℕ) (n : ℕ) (str : ℕ → ℕ)
    → n ≡ length ds
    → ((k : ℕ) → k ≤ length ds → str k ≡ get_or ds k 0)
    → Holds (reverse_loop (n / 2) 0 n str) (rev ds)
reverse_loop-Holds ds n str e h k le = elim (Bool-cases (ltb k n)) [
  | inl low ↦
      let lt : k < length ds = ground arith in
      mirrored n str k (ground arith)
      ∙ h (n - 1 - k) (omega arith)
      ∙ ap (λ t. get_or ds (t - 1 - k) 0) e
      ∙ sym (get_or-rev ds k lt)
  | inr high ↦
      let at : k ≡ length ds = ground (arith, length-rev ds) in
      reverse_loop-keeps (n / 2) 0 n str k (omega arith) (omega arith)
      ∙ h k (omega arith)
      ∙ get_or-past ds k 0 (omega arith)
      ∙ sym (get_or-past (rev ds) k 0 (omega (arith, length-rev ds)))
]

-- The characters of a number before the reversal: the digits, and a sign if it is negative.
abbrev signed_digits : Bool → List ℕ → List ℕ
signed_digits true ds = ds ++ (b'-' ∷ [])
signed_digits false ds = ds

finish-Holds :
    (b : Bool) (ds : List ℕ) (i : ℕ) (str : ℕ → ℕ)
    → i ≡ length ds
    → ((k : ℕ) → k < length ds → str k ≡ get_or ds k 0)
    → Holds (finish b i str) (rev (signed_digits b ds))
unfolding finish
finish-Holds true ds i str e h =
    reverse_loop-Holds (ds ++ (b'-' ∷ [])) (i + 1) (update (update str i b'-') (i + 1) 0)
      (omega (arith, length-append ds (b'-' ∷ [])))
      λ k le. ground (
        arith,
        h k,
        get_or-append ds (b'-' ∷ []) k 0,
        get_or-cons {A = ℕ} b'-' [] (length ds) k 0,
        length-append ds (b'-' ∷ []),
      )
finish-Holds false ds i str e h =
    reverse_loop-Holds ds i (update str i 0) e λ k le. ground (arith, h k, get_or-past ds k 0)

All-snoc : (P : ℕ → Type 0) (xs : List ℕ) (d : ℕ) → All P xs → P d → All P (xs ++ (d ∷ []))
All-snoc P [] d h hd = (hd, tt)
All-snoc P (x ∷ xs) d h hd = (h.0, All-snoc P xs d h.1 hd)

All-rev : (P : ℕ → Type 0) (ds : List ℕ) → All P ds → All P (rev ds)
unfolding rev
All-rev P [] h = tt
All-rev P (d ∷ ds) h = All-snoc P (rev ds) d (All-rev P ds h.1) h.0

atoi-digits : (xs : List ℕ) → All IsDigit xs → atoi xs ≡ atoi_from 0 xs
unfolding atoi atoi_from
atoi-digits [] h = refl
atoi-digits (x ∷ xs) h = ground arith

atoi-signed_digits :
    (b : Bool) (ds : List ℕ)
    → All IsDigit ds
    → value ds < 2 ^ 32
    → atoi (rev (signed_digits b ds)) ≡ (if b then negated (value ds) else value ds)
unfolding atoi
atoi-signed_digits true ds h lt =
    ap atoi (rev-snoc ds b'-') ∙ minus (rev ds) ∙ ap negated (atoi_from-rev ds h lt)
  where
    minus : (xs : List ℕ) → atoi (b'-' ∷ xs) ≡ negated (atoi_from 0 xs)
    minus xs = refl
atoi-signed_digits false ds h lt =
    atoi-digits (rev ds) (All-rev IsDigit ds h) ∙ atoi_from-rev ds h lt

length-signed_digits :
    (b : Bool) (ds : List ℕ) → length ds ≤ 10 → length (rev (signed_digits b ds)) ≤ 11
length-signed_digits true ds h =
    omega (arith, length-rev (ds ++ (b'-' ∷ [])), length-append ds (b'-' ∷ []))
length-signed_digits false ds h = omega (arith, length-rev ds)

-- No character of a number is NUL.
abbrev pub IsText : List ℕ → Type 0
IsText str = All (λ c. (c == 0) ≡ false) str

digits-IsText : (ds : List ℕ) → All IsDigit ds → IsText ds
digits-IsText [] h = tt
digits-IsText (d ∷ ds) h = (ground (arith, h.0), digits-IsText ds h.1)

signed_digits-IsText : (b : Bool) (ds : List ℕ) → All IsDigit ds → IsText (rev (signed_digits b ds))
signed_digits-IsText true ds h =
    All-rev (λ c. (c == 0) ≡ false) (ds ++ (b'-' ∷ []))
      (All-snoc (λ c. (c == 0) ≡ false) ds b'-' (digits-IsText ds h) refl)
signed_digits-IsText false ds h = All-rev (λ c. (c == 0) ≡ false) ds (digits-IsText ds h)

-- Without a sign there are digits only.
signed_digits-digits :
    (b : Bool) (ds : List ℕ) → All IsDigit ds → b ≡ false → All IsDigit (rev (signed_digits b ds))
signed_digits-digits true ds h e = absurd (ground arith)
signed_digits-digits false ds h e = All-rev IsDigit ds h

pub int_to_string-IsText :
    (num : ℕ) (str : ℕ → ℕ)
    → num < 2 ^ 32
    → num ≢ 2 ^ 31
    → (str' : ℕ → ℕ) × (text : List ℕ) × (int_to_string num str ≡ some str')
      × Holds str' text
      × (atoi text ≡ num)
      × (length text ≤ 11)
      × IsText text
      × (is_below_zero num ≡ false → All IsDigit text)
unfolding int_to_string
int_to_string-IsText num str lt ne =
    let b : Bool = is_below_zero num in
    let n : ℕ = if b then negated num else num in
    let small : n < 10 ^ 10 = ground arith in
    let (ds, i, filled, w) = write_digits-Wrote 10 n 0 str small (omega arith) in
    let back : atoi (rev (signed_digits b ds)) ≡ num =
      atoi-signed_digits b ds w.digits (rw w.number (ground arith))
      ∙ ap (λ t. if b then negated t else t) w.number
      ∙ ground arith in
    (
      finish b i filled,
      rev (signed_digits b ds),
      ground (arith, w.run),
      finish-Holds b ds i filled (omega (arith, w.end)) (λ k h. ground (arith, w.bytes k)),
      back,
      length-signed_digits b ds w.short,
      signed_digits-IsText b ds w.digits,
      signed_digits-digits b ds w.digits,
    )
