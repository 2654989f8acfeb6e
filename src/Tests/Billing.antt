-- ===== src/Tests/Billing.antt =====
-- Billing at concrete amounts.
use antimage.Common.{◌*◌, ◌≤◌, ◌+◌, ◌≡◌, refl, arith}
use antimage.Common.Int.{pos}
use antimage.Panel.Billing.{
  ok, Factors, unit_factors, all_factors, mul_div, mul_div_ceil, billable, charge, threshold,
  uncharge,
}
use antimage.Panel.Billing.MulDiv.{mul_div-exact, mul_div_ceil-exact}
use antimage.Panel.Billing.Rounding.{product, units, billable-ge}

-- A node at x0.5, and a subject at x0.75.
abbrev discounted : Factors
discounted = record unit_factors { node = pos 5000; subject = pos 7500 }

-- A node at x0.5, and a service at x2.
abbrev halved_doubled : Factors
halved_doubled = record unit_factors { node = pos 5000; service = pos 20000 }

billable_run : billable (pos 1001) discounted ≡ ok (pos 375)
unfolding billable charge mul_div
billable_run = refl

-- A threshold of one byte, at which the bill is still 0.
threshold_run : threshold (pos 1) halved_doubled ≡ ok (pos 1)
unfolding threshold uncharge mul_div_ceil
threshold_run = refl

threshold_bill_run : billable (pos 1) halved_doubled ≡ ok (pos 0)
unfolding billable charge mul_div
threshold_bill_run = refl

-- A quotient of 2^64 - 1 and a remainder.
wrapped_run : mul_div_ceil (pos 239807672958224171) (pos 10000) (pos 130) ≡ ok (pos 0)
unfolding mul_div_ceil
wrapped_run = refl

mul_div-exact_example : mul_div (pos 1001) (pos 5000) (pos 10000) ≡ ok (pos 500)
mul_div-exact_example = mul_div-exact 1001 5000 10000 (omega arith)

mul_div_ceil-exact_example : mul_div_ceil (pos 1001) (pos 10000) (pos 20000) ≡ ok (pos 501)
mul_div_ceil-exact_example = mul_div_ceil-exact 1001 10000 20000 (omega arith)

billable-ge_example :
    1001 * product (all_factors discounted) ≤ (375 + 5) * units (all_factors discounted)
billable-ge_example =
    billable-ge (pos 1001) (pos 375) discounted billable_run
      (omega arith, (omega arith, (omega arith, (omega arith, (omega arith, tt)))))

larger_run : billable (pos 2002) discounted ≡ ok (pos 750)
unfolding billable charge mul_div
larger_run = refl
