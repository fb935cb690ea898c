-- ===== src/Decimal.antt =====
-- Python's `Decimal` (finite values) under the default context: 28 significant digits,
-- ROUND_HALF_EVEN. A value is a sign, a coefficient and an exponent of ten, as in the standard
-- library. Exponents are unbounded: the context's limits of 999999 lie far outside prices and
-- rates. A signal that the context traps is `arithmetic_error`.
pub mod Rounding
pub mod Quantize
pub mod Bounds
use price_monitoring_service.Prelude.{
  ℕ, zero, suc, ◌+◌, ◌-◌, ◌*◌, ◌/◌, ◌%◌, ◌^◌, Bool, true, false, not, ◌&&◌, ◌||◌, ltb, leb, ◌==◌,
  if◌then◌else◌,
}
use price_monitoring_service.Prelude.Int.{
  ℤ, pos, negsuc, pos_part, neg_part, sub_ℕ, signed, ◌+ℤ◌, ◌-ℤ◌, ltb_ℤ,
}
use price_monitoring_service.Exec.{Result, ok, err, arithmetic_error}
use mathlib.Core.Bool.{xor}

pub record Decimal : Type 0 where
  pub negative : Bool
  pub coeff : ℕ
  pub exp : ℤ

-- an integer, as `Decimal(n)`
abbrev pub of_int : ℕ → Decimal
of_int n = record { negative = false; coeff = n; exp = pos 0 }

-- `bool(d)`
abbrev pub is_nonzero : Decimal → Bool
is_nonzero d = not (d.coeff == 0)

-- n / d to the nearest integer, a tie to the even one
unfoldable pub div_half_even : ℕ → ℕ → ℕ
div_half_even n d =
    let q = n / d in
    let r = n % d in
    if ltb (2 * r) d then q else if ltb d (2 * r) then q + 1 else if q % 2 == 0 then q else q + 1

-- the number of decimal digits; the number itself is enough fuel
digits_fuel : ℕ → ℕ → ℕ
digits_fuel zero c = 1
digits_fuel (suc fuel) c = elim (ltb c 10) [ true ↦ 1 | false ↦ suc (digits_fuel fuel (c / 10)) ]

unfoldable pub digits : ℕ → ℕ
unfolding digits_fuel
digits c = digits_fuel c c

-- `Decimal._fix`: a coefficient of more than 28 digits is rounded to 28.
unfoldable pub fix : Decimal → Decimal
unfolding digits div_half_even ◌+ℤ◌
fix d =
    let drop = digits d.coeff - 28 in
    let q = div_half_even d.coeff (10 ^ drop) in
    if drop == 0
    then d
    else if q == 10 ^ 28
    then record d { coeff = 10 ^ 27; exp = d.exp +ℤ pos (drop + 1) }
    else record d { coeff = q; exp = d.exp +ℤ pos drop }

unfoldable pub mul : Decimal → Decimal → Decimal
unfolding fix xor
mul a b = fix (record {
  negative = xor a.negative b.negative;
  coeff = a.coeff * b.coeff;
  exp = a.exp +ℤ b.exp;
})

-- An exact quotient gives up trailing zeros until its exponent is the difference of the two.
strip_zeros : ℕ → Bool → ℕ → ℤ → Decimal
strip_zeros zero sign q e = record { negative = sign; coeff = q; exp = e }
strip_zeros (suc steps) sign q e = elim (q % 10 == 0) [
  | true ↦ strip_zeros steps sign (q / 10) (e +ℤ pos 1)
  | false ↦ record { negative = sign; coeff = q; exp = e }
]

-- The quotient num / den of 28 digits, times 10 ^ -shift, beside the ideal exponent.
round_quotient : Bool → ℕ → ℕ → ℤ → ℤ → Decimal
unfolding div_half_even strip_zeros ◌+ℤ◌ ◌-ℤ◌
round_quotient sign num den shift ideal =
    let q = div_half_even num den in
    let e = ideal -ℤ shift in
    if num % den == 0
    then strip_zeros (pos_part shift) sign q e
    else if q == 10 ^ 28
    then record { negative = sign; coeff = 10 ^ 27; exp = e +ℤ pos 1 }
    else record { negative = sign; coeff = q; exp = e }

-- The quotient by a divisor that is not zero: the operands are scaled so that it has 28 digits.
pub quotient : Decimal → Decimal → Decimal
unfolding digits round_quotient xor
quotient a b =
    let sign = xor a.negative b.negative in
    let ideal = a.exp -ℤ b.exp in
    let la = digits a.coeff in
    let lb = digits b.coeff + 27 in
    let num = a.coeff * 10 ^ (lb - la) in
    let den = b.coeff * 10 ^ (la - lb) in
    if a.coeff == 0
    then record { negative = sign; coeff = 0; exp = ideal }
    else if ltb num (10 ^ 27 * den)
    then round_quotient sign (num * 10) den (sub_ℕ (lb + 1) la) ideal
    else round_quotient sign num den (sub_ℕ lb la) ideal

-- `a / b`
unfoldable pub div : Decimal → Decimal → Result Decimal
unfolding quotient
div a b = if b.coeff == 0 then err arithmetic_error else ok (quotient a b)

-- the coefficient at the exponent -4, rounded where digits are dropped
rescale : ℕ → ℤ → ℕ
rescale c (pos k) = c * 10 ^ k
rescale c (negsuc k) = div_half_even c (10 ^ suc k)

-- `d.quantize(Decimal("0.0001"))`
unfoldable pub quantize : Decimal → Result Decimal
unfolding rescale div_half_even ◌+ℤ◌
quantize d =
    let c = rescale d.coeff (d.exp +ℤ pos 4) in
    if leb (10 ^ 28) c
    then err arithmetic_error
    else ok (record { negative = d.negative; coeff = c; exp = negsuc 3 })

-- The value of `a`, in units of the smaller of the two exponents.
unfoldable pub aligned : Decimal → Decimal → ℤ
unfolding ◌-ℤ◌
aligned a b = signed a.negative (a.coeff * 10 ^ pos_part (a.exp -ℤ b.exp))

-- `a < b`
unfoldable pub lt : Decimal → Decimal → Bool
unfolding aligned
lt a b = ltb_ℤ (aligned a b) (aligned b a)

-- `a <= b`
unfoldable pub le : Decimal → Decimal → Bool
unfolding lt
le a b = not (lt b a)

unfoldable pub add : Decimal → Decimal → Decimal
unfolding aligned fix ◌+ℤ◌
add a b =
    let z = aligned a b +ℤ aligned b a in
    fix (record {
      negative = ltb_ℤ z (pos 0) || a.negative && b.negative;
      coeff = pos_part z + neg_part z;
      exp = if ltb_ℤ a.exp b.exp then a.exp else b.exp;
    })

-- `abs(a - b)`
unfoldable pub gap : Decimal → Decimal → Decimal
unfolding add
gap a b = record (add a (record b { negative = not b.negative })) { negative = false }
