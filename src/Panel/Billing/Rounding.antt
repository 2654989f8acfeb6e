-- ===== src/Panel/Billing/Rounding.antt =====
-- The bytes billed against the exact product, and against each other.
use antimage.Common.{ℕ, ◌+◌, ◌*◌, ◌≤◌, List, [], ◌∷◌, length, All, ◌≡◌, arith}
use antimage.Common.Int.{ℤ, pos, pos_part, neg_part, ◌≤ℤ◌}
use antimage.Panel.Billing.{ok, Factors, all_factors, coefficient_unit, charge, billable}
use antimage.Panel.Billing.Charges.{charged, charge-ok, billable-ok}
use native.Mathlib.Nat.{
  mul-le-mul_right, mul-le-mul, div-mul-le_self, lt-div-mul-add, le-div_iff_mul-le,
}

-- The product of the coefficients, and that of as many units.
unfoldable pub product : List ℤ → ℕ
product [] = 1
product (k ∷ rest) = pos_part k * product rest

unfoldable pub units : List ℤ → ℕ
units [] = 1
units (k ∷ rest) = coefficient_unit * units rest

charge-le :
    (ks : List ℤ) (i v : ℕ) (w : ℤ)
    → charge ks i (pos v) ≡ ok w
    → (neg_part w ≡ 0) × (pos_part w * units ks ≤ v * product ks)
unfolding product units charge
charge-le [] i v w h = (ground arith, ground arith)
charge-le (k ∷ rest) i v w h =
    let (c, same, _, after) = charge-ok k rest i v w h in
    let (no_sign, below) = charge-le rest (i + 1) (charged v c) w after in
    let first = mul-le-mul_right (product rest) (div-mul-le_self (v * c) coefficient_unit) in
    let later = mul-le-mul_right coefficient_unit below in (no_sign, rw same (omega arith))

charge-ge :
    (ks : List ℤ) (i v : ℕ) (w : ℤ)
    → charge ks i (pos v) ≡ ok w
    → All (λ k. pos_part k ≤ coefficient_unit) ks
    → (product ks ≤ units ks) × (v * product ks ≤ (pos_part w + length ks) * units ks)
unfolding product units charge
charge-ge [] i v w h small = (omega arith, ground arith)
charge-ge (k ∷ rest) i v w h small =
    let (c, same, _, after) = charge-ok k rest i v w h in
    let (smaller, below) = charge-ge rest (i + 1) (charged v c) w after small.1 in
    let step : v * c ≤ charged v c * coefficient_unit + coefficient_unit =
      let rest_of = lt-div-mul-add {a = v * c} {b = coefficient_unit} (omega arith) in
      omega arith in
    let first = mul-le-mul_right (product rest) step in
    let later = mul-le-mul_right coefficient_unit below in
    (mul-le-mul small.0 smaller, rw same (omega arith))

-- Billable never charges more than the exact value: for all raw bytes and coefficients, if it
-- returns a number, that number is not negative, and times 10000^5 it is at most the raw bytes
-- times the product of the five coefficients.
pub billable-le :
    (raw v : ℤ) (f : Factors)
    → billable raw f ≡ ok v
    → (neg_part v ≡ 0)
      × (pos_part v * units (all_factors f) ≤ pos_part raw * product (all_factors f))
billable-le raw v f h =
    let (r, same, loop) = billable-ok raw v f h in rw same (charge-le (all_factors f) 0 r v loop)

-- If no coefficient is above x1.0, what Billable returns is at most five bytes below the exact
-- value: the raw bytes times the product of the coefficients are at most the number plus five,
-- times 10000^5.
pub billable-ge :
    (raw v : ℤ) (f : Factors)
    → billable raw f ≡ ok v
    → All (λ k. pos_part k ≤ coefficient_unit) (all_factors f)
    → pos_part raw * product (all_factors f) ≤ (pos_part v + 5) * units (all_factors f)
billable-ge raw v f h small =
    let (r, same, loop) = billable-ok raw v f h in
    rw same ((charge-ge (all_factors f) 0 r v loop small).1)

grow : (v v' c : ℕ) → v ≤ v' → charged v c ≤ charged v' c
grow v v' c h =
    let at_most = div-mul-le_self (v * c) coefficient_unit in
    let more = mul-le-mul_right c h in (le-div_iff_mul-le (omega arith)).1 (omega arith)

charge_mono :
    (ks : List ℤ) (i v v' : ℕ) (w w' : ℤ)
    → v ≤ v'
    → charge ks i (pos v) ≡ ok w
    → charge ks i (pos v') ≡ ok w'
    → w ≤ℤ w'
unfolding charge
charge_mono [] i v v' w w' le h k = ground arith
charge_mono (k ∷ rest) i v v' w w' le h h' =
    let (c, same, _, after) = charge-ok k rest i v w h in
    let (c', same', _, after') = charge-ok k rest i v' w' h' in
    let one : c ≡ c' = cc in
    charge_mono rest (i + 1) (charged v c) (charged v' c) w w' (grow v v' c le) after
      (rw one after')

-- More raw bytes never cost less: for all coefficients and all raw bytes in order for which Billable
-- returns a number, the numbers are in the same order.
pub billable_mono :
    (raw raw' v v' : ℤ) (f : Factors)
    → raw ≤ℤ raw'
    → billable raw f ≡ ok v
    → billable raw' f ≡ ok v'
    → v ≤ℤ v'
billable_mono raw raw' v v' f le h h' =
    let (r, same, loop) = billable-ok raw v f h in
    let (r', same', loop') = billable-ok raw' v' f h' in
    let le' : r ≤ r' = ground arith in charge_mono (all_factors f) 0 r r' v v' le' loop loop'
