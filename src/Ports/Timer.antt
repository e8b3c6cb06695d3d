-- ===== src/Ports/Timer.antt =====
-- The divisor that the timer is given.
use native.Mathlib.Nat.{div-le_of_le-mul, le-div_iff_mul-le}
use my_os.Base.{ℕ, ◌+◌, ◌*◌, ◌/◌, ◌%◌, ◌≤◌, ◌≡◌, ◌^◌, arith, bit_and}
use my_os.Base.Align.{bit_and-mod}
use my_os.Ports.Pit.{clamp, divisor_of, pit_clock_frequency}

-- For any frequency asked for, the two bytes that `pit_init` sends make up the quotient of the clock
-- frequency by the clamped frequency, and it is neither 0 nor cut to its 16 bits.
pub divisor-fits :
    (frequency : ℕ)
    → let f = clamp frequency in
      (20 ≤ f)
      × (f ≤ 1193182)
      × (bit_and (divisor_of f) 0xFF + bit_and (divisor_of f / 2 ^ 8) 0xFF * 2 ^ 8
          ≡ pit_clock_frequency / f)
      × (1 ≤ pit_clock_frequency / f)
unfolding clamp divisor_of
divisor-fits frequency =
    let f = clamp frequency in
    let lo : 20 ≤ f = ground arith in
    let hi : f ≤ 1193182 = ground arith in
    let q : 1193182 / f ≤ 59659 + 1 = div-le_of_le-mul f (omega (arith, lo)) in
    (
      lo,
      hi,
      omega (
        arith,
        q,
        bit_and-mod 8 (1193182 / f % 2 ^ 16),
        bit_and-mod 8 (1193182 / f % 2 ^ 16 / 2 ^ 8),
      ),
      (le-div_iff_mul-le (omega (arith, lo))).1 (omega (arith, hi)),
    )
