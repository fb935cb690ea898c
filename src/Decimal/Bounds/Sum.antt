-- ===== src/Decimal/Bounds/Sum.antt =====
-- Sums of amounts of money, which have four digits after the point: as long as the sum has at most
-- 28 digits nothing is rounded.
use price_monitoring_service.Prelude.{
  ℕ, ◌+◌, ◌-◌, ◌*◌, ◌^◌, ◌≤◌, ◌≡◌, refl, sym, subst, Bool, true, false, ltb, ◌==◌, Bool-cases, inl,
  inr, arith,
}
use price_monitoring_service.Prelude.Int.{negsuc, pos_part, neg_part, signed, ◌+ℤ◌, ◌-ℤ◌}
use price_monitoring_service.Decimal.{Decimal, digits, fix, aligned, add, of_int}
use price_monitoring_service.Decimal.Bounds.{digits-le}

-- an amount with four digits after the point
abbrev pub money : Bool → ℕ → Decimal
money s c = record { negative = s; coeff = c; exp = negsuc 3 }

fix_short : (d : Decimal) → d.coeff ≤ 10 ^ 27 → fix d ≡ d
unfolding fix
fix_short d h = elim (Bool-cases (ltb 1 (digits d.coeff))) [
  | inl more ↦
      let few = digits-le d.coeff 27 h (ground arith) in
      let e : (digits d.coeff - 28 == 0) ≡ true = ground arith in rw e refl
  | inr one ↦ let e : (digits d.coeff - 28 == 0) ≡ true = ground arith in rw e refl
]

size_parts :
    (s t : Bool) (c d : ℕ)
    → pos_part (signed s c +ℤ signed t d) + neg_part (signed s c +ℤ signed t d) ≤ c + d
unfolding ◌+ℤ◌
size_parts s t c d = ground arith

-- A sum of money that has at most 28 digits is money, no larger than the two together.
abbrev pub IsSum : Decimal → ℕ → Type 0
IsSum d n = (d.exp ≡ negsuc 3) × (d.coeff ≤ n)

fix-IsSum : (r : Bool) (m n : ℕ) → m ≤ n → n ≤ 10 ^ 27 → IsSum (fix (money r m)) n
fix-IsSum r m n h small =
    let e = fix_short (money r m) (omega arith) in subst (λ d. IsSum d n) (sym e) (refl, h)

pub add-IsSum :
    (s t : Bool) (c d : ℕ) → c + d ≤ 10 ^ 27 → IsSum (add (money s c) (money t d)) (c + d)
unfolding add aligned ◌-ℤ◌
add-IsSum s t c d h =
    let z = signed s (c * 10 ^ 0) +ℤ signed t (d * 10 ^ 0) in
    let b : pos_part z + neg_part z ≤ c + d =
      omega (arith, size_parts s t (c * 10 ^ 0) (d * 10 ^ 0)) in
    fix-IsSum _ _ (c + d) b h

-- the first amount is added to the number 0
pub add_first-IsSum : (t : Bool) (d : ℕ) → d ≤ 10 ^ 27 → IsSum (add (of_int 0) (money t d)) d
unfolding add aligned ◌-ℤ◌
add_first-IsSum t d h =
    let z = signed false (0 * 10 ^ 4) +ℤ signed t (d * 10 ^ 0) in
    let b : pos_part z + neg_part z ≤ d =
      omega (arith, size_parts false t (0 * 10 ^ 4) (d * 10 ^ 0)) in
    fix-IsSum _ _ d b h
