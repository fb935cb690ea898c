-- ===== src/Decimal/Bounds.antt =====
-- Magnitudes: how far products, quotients and rounding take a value, and when an amount of money
-- can be made of it.
pub mod Quotient
pub mod Sum
use native.Mathlib.Nat.{pow-suc, mul_assoc, pow-le-pow_right, mul-le-mul, mul-zero, zero-mul}
use price_monitoring_service.Prelude.{
  ℕ, zero, suc, ◌+◌, ◌-◌, ◌*◌, ◌/◌, ◌%◌, ◌^◌, ◌≤◌, ◌<◌, ◌≡◌, ◌⊎◌, refl, ap, sym, subst, ◌∙◌, Bool,
  true, false, ltb, leb, ◌==◌, if◌then◌else◌, Bool-cases, inl, inr, arith,
}
use price_monitoring_service.Prelude.Int.{
  ℤ, pos, negsuc, pos_part, neg_part, sub_ℕ, ◌+ℤ◌, ◌-ℤ◌, +ℤ_parts, -ℤ_parts,
}
use price_monitoring_service.Exec.{Result, ok}
use price_monitoring_service.Decimal.{
  Decimal, div_half_even, digits, digits_fuel, fix, mul, strip_zeros, round_quotient, quotient, div,
  rescale, quantize,
}
use price_monitoring_service.Decimal.Rounding.{div_half_even-le, lt-pow-digits}
use price_monitoring_service.Decimal.Quantize.{pow-pos}

pub pow-add : (m n : ℕ) → 10 ^ (m + n) ≡ 10 ^ m * 10 ^ n
pow-add m zero = grind arith
pow-add m (suc n) =
    let e : m + suc n ≡ suc (m + n) = omega arith in
    ap (λ k. 10 ^ k) e
    ∙ pow-suc 10 (m + n)
    ∙ ap (λ t. t * 10) (pow-add m n)
    ∙ mul_assoc (10 ^ m) (10 ^ n) 10
    ∙ ap (λ t. 10 ^ m * t) (sym (pow-suc 10 n))

pub pow_mono : {m n : ℕ} → m ≤ n → 10 ^ m ≤ 10 ^ n
pow_mono h = pow-le-pow_right (omega arith) h

pow-digits_fuel-le : (f c : ℕ) → 0 < c → c ≤ f → 10 ^ digits_fuel f c ≤ 10 * c
unfolding digits_fuel
pow-digits_fuel-le zero c p h = absurd (omega arith)
pow-digits_fuel-le (suc f) c p h =
    ground (arith, pow-digits_fuel-le f (c / 10), pow-suc 10 (digits_fuel f (c / 10)))

pub pow-digits-le : (c : ℕ) → 0 < c → 10 ^ digits c ≤ 10 * c
unfolding digits
pow-digits-le c p = pow-digits_fuel-le c c p (omega arith)

-- The coefficient has at most so many digits that the value is at most 10 ^ k.
abbrev pub Fits : ℕ → ℕ → ℤ → Type 0
Fits k c e = (x : ℕ) × (pos_part e + x ≡ k + neg_part e) × (c ≤ 10 ^ x)

-- a magnitude of at most 10 ^ k
abbrev pub AtMost : ℕ → Decimal → Type 0
AtMost k d = (d.coeff ≡ 0) ⊎ Fits k d.coeff d.exp

-- not zero, and of at most l digits after the point
abbrev pub AtLeast : ℕ → Decimal → Type 0
AtLeast l d = (0 < d.coeff) × (neg_part d.exp ≤ l)

-- a bound that is a power of ten, divided by a power of ten
rounded-le : (n x j : ℕ) → j ≤ x → n ≤ 10 ^ x → div_half_even n (10 ^ j) ≤ 10 ^ (x - j)
rounded-le n x j h b =
    let e : x ≡ x - j + j = omega arith in
    div_half_even-le n (10 ^ j) (10 ^ (x - j)) (pow-pos j)
      (omega (arith, ap (λ m. 10 ^ m) e, pow-add (x - j) j))

pub scaled-le : (n x y : ℕ) → n ≤ 10 ^ x → n * 10 ^ y ≤ 10 ^ (x + y)
scaled-le n x y h = rw (pow-add x y) (mul-le-mul h (omega arith))

zero_rounded : (d : ℕ) → 0 < d → div_half_even 0 d ≡ 0
zero_rounded d h = omega (arith, div_half_even-le 0 d 0 h (omega arith))

rescale_zero : (e : ℤ) → rescale 0 e ≡ 0
unfolding rescale
rescale_zero (pos n) = zero-mul (10 ^ n)
rescale_zero (negsuc n) = zero_rounded (10 ^ suc n) (pow-pos (suc n))

rescale-le :
    (c x k : ℕ) (e : ℤ) → pos_part e + x ≡ k + neg_part e → c ≤ 10 ^ x → rescale c e ≤ 10 ^ k
unfolding rescale
rescale-le c x k (pos n) h b =
    let e : x + n ≡ k = omega arith in subst (λ m. c * 10 ^ n ≤ 10 ^ m) e (scaled-le c x n b)
rescale-le c x k (negsuc n) h b =
    let e : x - suc n ≡ k = omega arith in
    subst (λ m. div_half_even c (10 ^ suc n) ≤ 10 ^ m) e (rounded-le c x (suc n) (omega arith) b)

-- A value of at most 10 ^ 23 is made an amount of money.
rescaled : (k : ℕ) (d : Decimal) → AtMost k d → rescale d.coeff (d.exp +ℤ pos 4) ≤ 10 ^ (k + 4)
rescaled k d (inl z) = rw z (rw (rescale_zero (d.exp +ℤ pos 4)) (omega arith))
rescaled k d (inr (x, h, b)) =
    rescale-le d.coeff x (k + 4) (d.exp +ℤ pos 4) (omega (arith, +ℤ_parts d.exp (pos 4))) b

-- four digits after the point, and at most 10 ^ k
abbrev pub IsAmount : ℕ → Decimal → Type 0
IsAmount k d = (d.exp ≡ negsuc 3) × (d.coeff ≤ 10 ^ (k + 4))

pub IsAmount-mono : {k l : ℕ} (d : Decimal) → k ≤ l → IsAmount k d → IsAmount l d
IsAmount-mono {k} {l} d h (e, b) =
    let more : 10 ^ (k + 4) ≤ 10 ^ (l + 4) = pow_mono (omega arith) in (e, omega arith)

pub quantize_returns :
    (k : ℕ) (d : Decimal) → AtMost k d → k ≤ 23 → (r : Decimal) × (quantize d ≡ ok r) × IsAmount k r
unfolding quantize
quantize_returns k d h low =
    let small : 10 ^ (k + 4) ≤ 10 ^ 27 = pow_mono {n = 27} (omega arith) in
    let c = rescale d.coeff (d.exp +ℤ pos 4) in
    let fits : leb (10 ^ 28) c ≡ false = leb_lt (10 ^ 28) c (omega (arith, rescaled k d h)) in
    (
      record { negative = d.negative; coeff = c; exp = negsuc 3 },
      rw fits refl,
      (refl, rescaled k d h),
    )
  where
    leb_lt : (a b : ℕ) → b < a → leb a b ≡ false
    leb_lt a b h = ground arith

digits_zero : digits 0 ≡ 1
unfolding digits
digits_zero = refl

nonzero : (c : ℕ) → 1 < digits c → 0 < c
nonzero zero h = absurd (omega (arith, digits_zero))
nonzero (suc c) h = omega arith

pub pow_succ : (n : ℕ) → 10 ^ (n + 1) ≡ 10 * 10 ^ n
pow_succ n = let e : n + 1 ≡ suc n = omega arith in omega (arith, ap (λ k. 10 ^ k) e, pow-suc 10 n)

-- A number of at most 10 ^ x has at most x + 1 digits.
pub digits-le : (c x : ℕ) → c ≤ 10 ^ x → 1 < digits c → digits c ≤ x + 1
digits-le c x b h = elim (Bool-cases (ltb (x + 1) (digits c))) [
  | inl more ↦
      let lo : x + 2 ≤ digits c = ground arith in
      let steps : 10 ^ (x + 1 + 1) ≤ 10 ^ digits c = pow_mono {n = digits c} (omega arith) in
      absurd (omega (arith, pow-digits-le c (nonzero c h), pow_succ (x + 1), pow_succ x, pow-pos x))
  | inr less ↦ ground arith
]

pub power_le : (x : ℕ) → 10 ^ 28 ≤ 10 ^ x → 28 ≤ x
power_le x q = elim (Bool-cases (ltb x 28)) [
  | inl low ↦ let m : 10 ^ x ≤ 10 ^ 27 = pow_mono {n = 27} (ground arith) in absurd (omega arith)
  | inr high ↦ ground arith
]

pub fix-AtMost : (k : ℕ) (d : Decimal) → AtMost k d → AtMost k (fix d)
unfolding fix
fix-AtMost k d h = elim (Bool-cases (digits d.coeff - 28 == 0)) [
  | inl e ↦ rw e h
  | inr e ↦ elim (Bool-cases (div_half_even d.coeff (10 ^ (digits d.coeff - 28)) == 10 ^ 28)) [
    | inl full ↦ rw e (rw full (inr (top h e full)))
    | inr part ↦ rw e (rw part (inr (cut h e)))
  ]
]
  where
    drop : ℕ
    drop = digits d.coeff - 28

    cut :
        AtMost k d
        → (drop == 0) ≡ false
        → Fits k (div_half_even d.coeff (10 ^ drop)) (d.exp +ℤ pos drop)
    cut (inl z) e = absurd (ground (arith, ap digits z, digits_zero))
    cut (inr (x, h, b)) e =
        let many : 28 < digits d.coeff = ground arith in
        let few : digits d.coeff ≤ x + 1 = digits-le d.coeff x b (omega arith) in
        (
          x - drop,
          omega (arith, +ℤ_parts d.exp (pos drop)),
          rounded-le d.coeff x drop (omega arith) b,
        )

    top :
        AtMost k d
        → (drop == 0) ≡ false
        → (div_half_even d.coeff (10 ^ drop) == 10 ^ 28) ≡ true
        → Fits k (10 ^ 27) (d.exp +ℤ pos (drop + 1))
    top h e full =
        let (x, f, b) = cut h e in
        let q : 10 ^ 28 ≤ 10 ^ x = ground arith in
        let r : 28 ≤ x = power_le x q in
        (
          x - 1,
          omega (arith, f, +ℤ_parts d.exp (pos drop), +ℤ_parts d.exp (pos (drop + 1))),
          pow_mono {m = 27} {n = x - 1} (omega arith),
        )

product_bound : (a b x y : ℕ) → a ≤ 10 ^ x → b ≤ 10 ^ y → a * b ≤ 10 ^ (x + y)
product_bound a b x y h k = rw (pow-add x y) (mul-le-mul h k)

pub mul-AtMost : (k l : ℕ) (a b : Decimal) → AtMost k a → AtMost l b → AtMost (k + l) (mul a b)
unfolding mul
mul-AtMost k l a b h g = fix-AtMost (k + l) _ (product h g)
  where
    product :
        AtMost k a
        → AtMost l b
        → (a.coeff * b.coeff ≡ 0) ⊎ Fits (k + l) (a.coeff * b.coeff) (a.exp +ℤ b.exp)
    product (inl z) g = inl (rw z (zero-mul b.coeff))
    product (inr h) (inl z) = inl (rw z (mul-zero a.coeff))
    product (inr (x, e, p)) (inr (y, f, q)) =
        inr (x + y, omega (arith, +ℤ_parts a.exp b.exp), product_bound a.coeff b.coeff x y p q)
