-- ===== src/Std/Stdlib.antt =====
-- std/stdlib.c. An `int` is its bit pattern, a number below 2 ^ 32.
pub mod Digits
pub mod RoundTrip
use my_os.Base.{
  ℕ, zero, suc, ◌+◌, ◌-◌, ◌*◌, ◌/◌, ◌%◌, ◌^◌, Bool, Option, none, some, List, [], ◌∷◌, ltb, leb,
  ◌==◌, if◌then◌else◌,
}
use my_os.Base.Masks.{update}

-- `-num`.
abbrev pub negated : ℕ → ℕ
negated num = (2 ^ 32 - num) % 2 ^ 32

-- `num < 0`.
abbrev pub is_below_zero : ℕ → Bool
is_below_zero num = leb (2 ^ 31) num

-- The `do` loop of `int_to_string`, for `num` not negative; with the index and the buffer that it
-- leaves. `none`: out of fuel.
unfoldable pub write_digits : (fuel : ℕ) → (num i : ℕ) → (ℕ → ℕ) → Option (ℕ × (ℕ → ℕ))
write_digits zero num i str = none
write_digits (suc f) num i str =
    let str' = update str i (num % 10 + b'0') in
    let rest = write_digits f (num / 10) (i + 1) str' in
    if ltb 0 (num / 10) then rest else some (i + 1, str')

-- The loop that reverses the first `i` bytes, from index `j` on.
unfoldable pub reverse_loop : (rounds : ℕ) → (j i : ℕ) → (ℕ → ℕ) → ℕ → ℕ
reverse_loop zero j i str = str
reverse_loop (suc n) j i str =
    reverse_loop n (j + 1) i (update (update str j (str (i - j - 1))) (i - j - 1) (str j))

-- What follows the loop: the sign, the NUL and the reversal.
unfoldable pub finish : Bool → ℕ → (ℕ → ℕ) → ℕ → ℕ
unfolding reverse_loop
finish is_negative i str =
    let i' = if is_negative then i + 1 else i in
    let str' = if is_negative then update str i b'-' else str in
    reverse_loop (i' / 2) 0 i' (update str' i' 0)

-- The fuel is enough for the ten digits of an `int`. `none` is also the overflow of `-num`, which is
-- undefined behaviour.
unfoldable pub int_to_string : ℕ → (ℕ → ℕ) → Option (ℕ → ℕ)
unfolding write_digits finish
int_to_string num str =
    if num == 2 ^ 31
    then none
    else elim (write_digits 10 (if is_below_zero num then negated num else num) 0 str) [
      | none ↦ none
      | some (i, str') ↦ some (finish (is_below_zero num) i str')
    ]

-- A `char` widened to an `int`.
abbrev pub widened : ℕ → ℕ
widened c = if ltb c 128 then c else c + 2 ^ 32 - 256

unfoldable pub atoi_from : ℕ → List ℕ → ℕ
atoi_from result [] = result
atoi_from result (c ∷ str) = atoi_from ((result * 10 + widened c + 2 ^ 32 - b'0') % 2 ^ 32) str

-- Where the arithmetic of the source overflows, it wraps here.
unfoldable pub atoi : List ℕ → ℕ
unfolding atoi_from
atoi [] = 0
atoi (c ∷ str) = if c == b'-' then negated (atoi_from 0 str) else atoi_from 0 (c ∷ str)
