-- ===== src/Panel/Billing/Charges.antt =====
-- The loop of Billable: what one coefficient does, and the calls that return a number.
use antimage.Common.{
  All, ℕ, ◌+◌, ◌*◌, ◌/◌, ◌≤◌, true, List, [], ◌∷◌, ltb, ◌≡◌, ◌≢◌, refl, sym, ◌∙◌, arith, Bool-cases,
  inl, inr,
}
use antimage.Common.Int.{ℤ, pos, negsuc}
use antimage.Panel.Billing.{
  ok, err, overflow, panics, Factors, unit_factors, all_factors, coefficient_unit, max_int64,
  mul_div, charge, billable,
}
use antimage.Panel.Billing.MulDiv.{mul_div-exact}
use native.Mathlib.Nat.{mul-div_cancel}

-- The amount after one coefficient.
abbrev pub charged : ℕ → ℕ → ℕ
charged v c = v * c / coefficient_unit

mul_div-charged :
    (v c : ℕ)
    → charged v c ≤ max_int64
    → mul_div (pos v) (pos c) (pos coefficient_unit) ≡ ok (pos (charged v c))
mul_div-charged v c h = ground (arith, mul_div-exact v c coefficient_unit)

charge-pos :
    (c : ℕ) (rest : List ℤ) (i v : ℕ)
    → charged v c ≤ max_int64
    → charge (pos c ∷ rest) i (pos v) ≡ charge rest (i + 1) (pos (charged v c))
unfolding charge
charge-pos c rest i v h = rw (mul_div-charged v c h, charge) refl

charge-overflow :
    (c : ℕ) (rest : List ℤ) (i v : ℕ)
    → ltb max_int64 (charged v c) ≡ true
    → charge (pos c ∷ rest) i (pos v) ≡ err (overflow (pos v) (pos c) (pos coefficient_unit))
unfolding charge
charge-overflow c rest i v e =
    rw (mul_div-exact v c coefficient_unit (omega arith), charge) (rw e refl)

-- A coefficient that is applied is not negative, and the amount that it gives is an int64.
pub charge-ok :
    (k : ℤ) (rest : List ℤ) (i v : ℕ) (w : ℤ)
    → charge (k ∷ rest) i (pos v) ≡ ok w
    → (c : ℕ) × (k ≡ pos c)
      × (charged v c ≤ max_int64)
      × (charge rest (i + 1) (pos (charged v c)) ≡ ok w)
unfolding charge
charge-ok (negsuc n) rest i v w h = cc
charge-ok (pos c) rest i v w h = elim (Bool-cases (ltb max_int64 (charged v c))) [
  | inl e ↦ absurd (cc (sym (charge-overflow c rest i v e) ∙ h))
  | inr e ↦
      let fits : charged v c ≤ max_int64 = ground arith in
      (c, refl, fits, sym (charge-pos c rest i v fits) ∙ h)
]

charge-not_panics : (ks : List ℤ) (i v : ℕ) → charge ks i (pos v) ≢ panics
unfolding charge
charge-not_panics [] i v h = cc
charge-not_panics (negsuc n ∷ rest) i v h = cc
charge-not_panics (pos c ∷ rest) i v h = elim (Bool-cases (ltb max_int64 (charged v c))) [
  | inl e ↦ cc (sym (charge-overflow c rest i v e) ∙ h)
  | inr e ↦
      charge-not_panics rest (i + 1) (charged v c) (sym (charge-pos c rest i v (ground arith)) ∙ h)
]

-- For all raw bytes and all coefficients, negative ones included, Billable does not panic.
pub billable-not_panics : (raw : ℤ) (f : Factors) → billable raw f ≢ panics
unfolding billable
billable-not_panics (pos r) f h = charge-not_panics (all_factors f) 0 r h
billable-not_panics (negsuc n) f h = cc

pub billable-ok :
    (raw v : ℤ) (f : Factors)
    → billable raw f ≡ ok v
    → (r : ℕ) × (raw ≡ pos r) × (charge (all_factors f) 0 (pos r) ≡ ok v)
unfolding billable
billable-ok (pos r) v f h = (r, refl, h)
billable-ok (negsuc n) v f h = cc

charge-unit :
    (ks : List ℤ) (i v : ℕ)
    → v ≤ max_int64
    → All (λ k. k ≡ pos coefficient_unit) ks
    → charge ks i (pos v) ≡ ok (pos v)
unfolding charge
charge-unit [] i v h units = refl
charge-unit (k ∷ rest) i v h units =
    let same : charged v coefficient_unit ≡ v = mul-div_cancel v (omega arith) in
    rw units.0 (
      rw same at (charge-pos coefficient_unit rest i v (rw same h))
      ∙ charge-unit rest (i + 1) v h units.1)

-- With every coefficient at x1.0, the bytes billed are the raw bytes, for every number of raw bytes
-- that is an int64.
pub billable-unit : (raw : ℕ) → raw ≤ max_int64 → billable (pos raw) unit_factors ≡ ok (pos raw)
unfolding billable
billable-unit raw h =
    charge-unit (all_factors unit_factors) 0 raw h (refl, (refl, (refl, (refl, (refl, tt)))))
