-- ===== src/Panel/Billing.antt =====
-- internal/panel/nodes/billable.go: the bytes that are billed, from the raw bytes and coefficients.
-- int64 values are signed integers, uint64 values natural numbers below 2^64.
pub mod MulDiv
pub mod Charges
pub mod Rounding
use antimage.Common.{
  ℕ, ◌+◌, ◌-◌, ◌*◌, ◌/◌, ◌%◌, Bool, true, false, Option, none, some, List, [], ◌∷◌, ltb, leb, ◌==◌,
  if◌then◌else◌,
}
use antimage.Common.Int.{ℤ, pos, negsuc}

-- CoefficientUnit
abbrev pub coefficient_unit : ℕ
coefficient_unit = 10000

-- 2^64, and maxInt64
abbrev pub two_64 : ℕ
two_64 = 18446744073709551616

abbrev pub max_int64 : ℕ
max_int64 = 9223372036854775807

pub data BillError : Type 0 where
  negative_amount : ℤ → BillError
  negative_coefficient : ℤ → ℕ → BillError
  zero_denominator : BillError
  overflow : ℤ → ℤ → ℤ → BillError

-- What a call returns; `panics` is the panic of bits.Div64.
pub data Priced : Type 0 where
  ok : ℤ → Priced
  err : BillError → Priced
  panics : Priced

-- Factors
pub record Factors : Type 0 where
  pub node : ℤ
  pub service : ℤ
  pub subject : ℤ
  pub reseller : ℤ
  pub outbound : ℤ

-- UnitFactors
abbrev pub unit_factors : Factors
unit_factors = record {
  node = pos coefficient_unit;
  service = pos coefficient_unit;
  subject = pos coefficient_unit;
  reseller = pos coefficient_unit;
  outbound = pos coefficient_unit;
}

-- Factors.All
abbrev pub all_factors : Factors → List ℤ
all_factors f = f.node ∷ f.service ∷ f.subject ∷ f.reseller ∷ f.outbound ∷ []

abbrev pub is_negative : ℤ → Bool
is_negative (pos n) = false
is_negative (negsuc n) = true

-- The conversion uint64(x) of an int64.
abbrev pub to_uint64 : ℤ → ℕ
to_uint64 (pos n) = n
to_uint64 (negsuc n) = two_64 - (n + 1)

-- bits.Mul64: the upper and the lower word of the product.
abbrev pub mul_64 : ℕ → ℕ → ℕ × ℕ
mul_64 x y = (x * y / two_64, x * y % two_64)

-- bits.Div64: the quotient and the remainder; it panics when the quotient has more than 64 bits.
abbrev pub div_64 : ℕ → ℕ → ℕ → Option (ℕ × ℕ)
div_64 hi lo y = if leb y hi then none else some ((hi * two_64 + lo) / y, (hi * two_64 + lo) % y)

-- mulDiv
unfoldable pub mul_div : ℤ → ℤ → ℤ → Priced
mul_div x num den =
    let d = to_uint64 den in
    let (hi, lo) = mul_64 (to_uint64 x) (to_uint64 num) in
    if d == 0
    then err zero_denominator
    else if leb d hi
    then err (overflow x num den)
    else elim (div_64 hi lo d) [
      | none ↦ panics
      | some (q, r) ↦ if ltb max_int64 q then err (overflow x num den) else ok (pos q)
    ]

-- mulDivCeil; `q++` wraps around.
unfoldable pub mul_div_ceil : ℤ → ℤ → ℤ → Priced
mul_div_ceil x num den =
    let d = to_uint64 den in
    let (hi, lo) = mul_64 (to_uint64 x) (to_uint64 num) in
    if d == 0
    then err zero_denominator
    else if leb d hi
    then err (overflow x num den)
    else elim (div_64 hi lo d) [
      | none ↦ panics
      | some (q, r) ↦
          let up = if r == 0 then q else (q + 1) % two_64 in
          if ltb max_int64 up then err (overflow x num den) else ok (pos up)
    ]

-- The loop of Billable, from the coefficient with number `i` on.
unfoldable pub charge : List ℤ → ℕ → ℤ → Priced
charge [] i v = ok v
charge (k ∷ rest) i v = elim (is_negative k) [
  | true ↦ err (negative_coefficient k i)
  | false ↦ elim (mul_div v k (pos coefficient_unit)) [
    | ok w ↦ charge rest (i + 1) w
    | err e ↦ err e
    | panics ↦ panics
  ]
]

-- Billable
unfoldable pub billable : ℤ → Factors → Priced
billable raw f = if is_negative raw then err (negative_amount raw) else charge (all_factors f) 0 raw

-- The loop of Threshold.
unfoldable pub uncharge : List ℤ → ℕ → ℤ → Priced
uncharge [] i v = ok v
uncharge (k ∷ rest) i v = elim (is_negative k) [
  | true ↦ err (negative_coefficient k i)
  | false ↦ elim (to_uint64 k == 0) [
    | true ↦ ok (pos max_int64)
    | false ↦ elim (mul_div_ceil v (pos coefficient_unit) k) [
      | ok w ↦ uncharge rest (i + 1) w
      | err e ↦ err e
      | panics ↦ panics
    ]
  ]
]

-- Threshold
unfoldable pub threshold : ℤ → Factors → Priced
threshold quota f =
    if is_negative quota then err (negative_amount quota) else uncharge (all_factors f) 0 quota
