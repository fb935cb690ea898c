-- ===== src/Decimal/Bounds/Quotient.antt =====
-- Magnitudes of quotients: `Decimal.__truediv__`, whose 28 digits are rounded, or stripped of zeros
-- where the division is exact.
use mathlib.Core.Bool.{xor}
use native.Mathlib.Nat.{mul-le-mul}
use price_monitoring_service.Prelude.{
  ℕ, zero, suc, ◌+◌, ◌-◌, ◌*◌, ◌/◌, ◌%◌, ◌^◌, ◌≤◌, ◌<◌, ◌≡◌, ◌⊎◌, refl, ap, subst, Bool, false, ltb,
  leb, ◌==◌, Bool-cases, inl, inr, arith,
}
use price_monitoring_service.Prelude.Int.{
  ℤ, pos, pos_part, neg_part, sub_ℕ, ◌+ℤ◌, ◌-ℤ◌, +ℤ_parts, -ℤ_parts,
}
use price_monitoring_service.Exec.{ok}
use price_monitoring_service.Decimal.{
  Decimal, div_half_even, digits, strip_zeros, round_quotient, quotient, div,
}
use price_monitoring_service.Decimal.Rounding.{div_half_even-le}
use price_monitoring_service.Decimal.Quantize.{pow-pos}
use price_monitoring_service.Decimal.Bounds.{
  Fits, AtMost, AtLeast, pow-add, pow_mono, digits-le, pow_succ, scaled-le,
}

positive_power : (c x : ℕ) → 10 * c ≤ 10 ^ x → 0 < c → 0 < x
positive_power c zero h p = absurd (omega (arith))
positive_power c (suc x) h p = omega arith

tenth-le : (c x : ℕ) → 10 * c ≤ 10 ^ suc x → c ≤ 10 ^ x
tenth-le c x h =
    let e : x + 1 ≡ suc x = omega arith in omega (arith, pow_succ x, ap (λ k. 10 ^ k) e)

-- a tenth of the coefficient under the next exponent
Fits-tenth : (k c : ℕ) (e : ℤ) → 0 < c → Fits k (10 * c) e → Fits k c (e +ℤ pos 1)
Fits-tenth k c e p (zero, h, b) = absurd (omega (arith, positive_power c 0 b p))
Fits-tenth k c e p (suc x, h, b) = (x, omega (arith, +ℤ_parts e (pos 1)), tenth-le c x b)

strip_zeros-AtMost :
    (k steps : ℕ) (s : Bool) (q : ℕ) (e : ℤ)
    → (q ≡ 0) ⊎ Fits k q e
    → AtMost k (strip_zeros steps s q e)
unfolding strip_zeros
strip_zeros-AtMost k zero s q e h = h
strip_zeros-AtMost k (suc n) s q e h = elim (Bool-cases (q % 10 == 0)) [
  | inl more ↦
      rw (more, strip_zeros)
        (strip_zeros-AtMost k n s (q / 10) (e +ℤ pos 1) (shorter h (ground arith)))
  | inr done ↦ rw (done, strip_zeros) h
]
  where
    shorter : (q ≡ 0) ⊎ Fits k q e → q % 10 ≡ 0 → (q / 10 ≡ 0) ⊎ Fits k (q / 10) (e +ℤ pos 1)
    shorter (inl z) m = inl (omega arith)
    shorter (inr f) m = elim (Bool-cases (q / 10 == 0)) [
      | inl z ↦ inl (ground arith)
      | inr nz ↦
          let t : q ≡ 10 * (q / 10) = omega arith in
          inr (Fits-tenth k (q / 10) e (ground arith) (subst (λ c. Fits k c e) t f))
    ]

-- A quotient whose operands leave room for it fits.
round_quotient-AtMost :
    (k : ℕ) (s : Bool) (num den : ℕ) (shift ideal : ℤ)
    → 0 < den
    → Fits k (div_half_even num den) (ideal -ℤ shift)
    → AtMost k (round_quotient s num den shift ideal)
unfolding round_quotient
round_quotient-AtMost k s num den shift ideal p h = elim (Bool-cases (num % den == 0)) [
  | inl exact ↦
      rw exact
        (strip_zeros-AtMost k (pos_part shift) s (div_half_even num den) (ideal -ℤ shift) (inr h))
  | inr rest ↦ elim (Bool-cases (div_half_even num den == 10 ^ 28)) [
    | inl full ↦ rw rest (
        rw full (
          inr (
            Fits-tenth k (10 ^ 27) (ideal -ℤ shift) (omega arith)
              (subst (λ c. Fits k c (ideal -ℤ shift)) (ground arith) h))))
    | inr part ↦ rw rest (rw part (inr h))
  ]
]

-- A bound that is a power of ten, over a divisor of at least a smaller power of ten.
over-le : (n den y j : ℕ) → n ≤ 10 ^ y → 10 ^ j ≤ den → j ≤ y → div_half_even n den ≤ 10 ^ (y - j)
over-le n den y j b d h =
    let e : y ≡ y - j + j = omega arith in
    let m : 10 ^ (y - j) * 10 ^ j ≤ 10 ^ (y - j) * den = mul-le-mul (omega arith) d in
    div_half_even-le n den (10 ^ (y - j)) (omega (arith, pow-pos j))
      (omega (arith, ap (λ m. 10 ^ m) e, pow-add (y - j) j))

Fits-room : (k c y : ℕ) (e : ℤ) → c ≤ 10 ^ y → pos_part e + y ≤ k + neg_part e → Fits k c e
Fits-room k c y e b h =
    let more : 10 ^ y ≤ 10 ^ (k + neg_part e - pos_part e) = pow_mono (omega arith) in
    (k + neg_part e - pos_part e, omega arith, omega arith)

sub_ℕ_parts : (a b : ℕ) → pos_part (sub_ℕ a b) + b ≡ a + neg_part (sub_ℕ a b)
sub_ℕ_parts a b = elim (Bool-cases (leb b a)) [
  | inl e ↦ rw e (ground arith)
  | inr e ↦ rw e (ground arith)
]

digits_room : (c x : ℕ) → c ≤ 10 ^ x → digits c ≤ x + 1
digits_room c x b = elim (Bool-cases (ltb 1 (digits c))) [
  | inl more ↦ digits-le c x b (ground arith)
  | inr one ↦ ground arith
]

module _ (k l x : ℕ) (a b : Decimal) (fits : pos_part a.exp + x ≡ k + neg_part a.exp)
    (bound : a.coeff ≤ 10 ^ x) (least : AtLeast l b) where
  -- the quotient of the operands scaled by 10 ^ (t - la) and 10 ^ (la - lb)
  scaled-AtMost :
      (s : Bool) (num lb t : ℕ)
      → 0 < lb
      → lb ≤ t
      → num ≤ 10 ^ (x + (lb - digits a.coeff) + (t - lb))
      → AtMost (k + l) (
          round_quotient s num
            (b.coeff * 10 ^ (digits a.coeff - lb))
            (sub_ℕ t (digits a.coeff))
            (a.exp -ℤ b.exp))
  scaled-AtMost s num lb t p le h =
      let la = digits a.coeff in
      let shift = sub_ℕ t la in
      let y = x + (lb - la) + (t - lb) in
      let j = la - lb in
      let low : la ≤ x + 1 = digits_room a.coeff x bound in
      let den : 1 * 10 ^ j ≤ b.coeff * 10 ^ j = mul-le-mul (omega (arith, least.0)) (omega arith) in
      let q = over-le num (b.coeff * 10 ^ j) y j h (omega arith) (omega arith) in
      round_quotient-AtMost (k + l) s num (b.coeff * 10 ^ j) shift (a.exp -ℤ b.exp)
        (omega (arith, pow-pos j))
        (Fits-room (k + l) (div_half_even num (b.coeff * 10 ^ j)) (y - j) (a.exp -ℤ b.exp -ℤ shift)
          q
          (omega (
            arith,
            least.1,
            -ℤ_parts a.exp b.exp,
            -ℤ_parts (a.exp -ℤ b.exp) shift,
            sub_ℕ_parts t la,
          )))

pub quotient-AtMost :
    (k l : ℕ) (a b : Decimal) → AtMost k a → AtLeast l b → AtMost (k + l) (quotient a b)
unfolding quotient
quotient-AtMost k l a b (inl z) least = rw z (inl refl)
quotient-AtMost k l a b (inr (x, fits, bound)) least = elim (Bool-cases (a.coeff == 0)) [
  | inl z ↦ rw z (inl refl)
  | inr nz ↦ elim (Bool-cases (ltb num (10 ^ 27 * (b.coeff * 10 ^ (la - lb))))) [
    | inl less ↦ rw nz (
        rw less (
          scaled-AtMost k l x a b fits bound least (xor a.negative b.negative) (num * 10) lb
            (lb + 1) (omega arith) (omega arith) ten))
    | inr more ↦ rw nz (
        rw more (
          scaled-AtMost k l x a b fits bound least (xor a.negative b.negative) num lb lb
            (omega arith) (omega arith) one))
  ]
]
  where
    la : ℕ
    la = digits a.coeff

    lb : ℕ
    lb = digits b.coeff + 27

    num : ℕ
    num = a.coeff * 10 ^ (lb - la)

    ten : num * 10 ≤ 10 ^ (x + (lb - la) + (lb + 1 - lb))
    ten =
        let e : x + (lb - la) + (lb + 1 - lb) ≡ x + (lb - la) + 1 = omega arith in
        omega
          (arith, scaled-le a.coeff x (lb - la) bound, ap (λ m. 10 ^ m) e, pow_succ (x + (lb - la)))

    one : num ≤ 10 ^ (x + (lb - la) + (lb - lb))
    one =
        let e : x + (lb - la) + (lb - lb) ≡ x + (lb - la) = omega arith in
        omega (arith, scaled-le a.coeff x (lb - la) bound, ap (λ m. 10 ^ m) e)

-- A quotient by an amount that is not zero is returned, and how large it is.
pub div_returns :
    (k l : ℕ) (a b : Decimal)
    → AtMost k a
    → AtLeast l b
    → (q : Decimal) × (div a b ≡ ok q) × AtMost (k + l) q
unfolding div
div_returns k l a b h least =
    let nz : (b.coeff == 0) ≡ false = ground (arith, least.0) in
    (quotient a b, rw nz refl, quotient-AtMost k l a b h least)
