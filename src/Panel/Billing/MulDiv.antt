-- ===== src/Panel/Billing/MulDiv.antt =====
-- mulDiv and mulDivCeil against exact division.
use antimage.Common.{
  ◌⊎◌, Bool, true, not, ◌&&◌, ◌==◌, ◌-◌, if◌then◌else◌, inl, inr, ltb, leb, leb→le, Bool-cases, ℕ,
  ◌*◌, ◌<◌, ◌/◌, ◌≤◌, ◌≡◌, ◌%◌, ◌↔◌, some, arith, ◌+◌,
}
use antimage.Common.Int.{pos}
use antimage.Panel.Billing.{ok, err, overflow, two_64, max_int64, div_64, mul_div, mul_div_ceil}
use native.Mathlib.Nat.{
  le-div_iff_mul-le, mul-le-mul_right, le_of_mul-le-mul_right, lt_of_mul-lt-mul_right, mod-lt,
  div-add-mod',
}

pub div_64-mul_64 :
    (x y d : ℕ)
    → x * y / two_64 < d
    → div_64 (x * y / two_64) (x * y % two_64) d ≡ some (x * y / d, x * y % d)
div_64-mul_64 x y d h =
    let whole : x * y / two_64 * two_64 + x * y % two_64 ≡ x * y = div-add-mod' (x * y) two_64 in
    rw whole (ground arith)

-- The test of the upper word: the quotient has more than 64 bits.
pub high_word : (x y d : ℕ) → 0 < d → (d ≤ x * y / two_64) ↔ (two_64 ≤ x * y / d)
high_word x y d h = (
  λ k.
      let low : d * two_64 ≤ x * y = (le-div_iff_mul-le (omega arith)).0 k in
      (le-div_iff_mul-le h).1 (omega arith),
  λ k.
      let low : two_64 * d ≤ x * y = (le-div_iff_mul-le h).0 k in
      (le-div_iff_mul-le (omega arith)).1 (omega arith),
)

-- For all x and num that are not negative and every positive den, mulDiv returns the exact
-- quotient of the full product, rounded down, if that is an int64, and the overflow error
-- otherwise. It never panics.
pub mul_div-exact :
    (x num den : ℕ)
    → 0 < den
    → mul_div (pos x) (pos num) (pos den) ≡ (
        if ltb max_int64 (x * num / den)
        then err (overflow (pos x) (pos num) (pos den))
        else ok (pos (x * num / den)))
unfolding mul_div
mul_div-exact x num den h = elim (Bool-cases (leb den (x * num / two_64))) [
  | inl e ↦ let big = (high_word x num den h).0 (leb→le den (x * num / two_64) e) in ground arith
  | inr e ↦
      let small : x * num / two_64 < den = ground arith in
      rw (div_64-mul_64 x num den small) (ground arith)
]

-- The quotient, rounded up, before `q++` wraps around.
abbrev pub ceil_div : ℕ → ℕ → ℕ
ceil_div m d = if m % d == 0 then m / d else m / d + 1

-- The quotient is 2^64 - 1, with a remainder.
abbrev pub wraps : ℕ → ℕ → Bool
wraps m d = (m / d == two_64 - 1) && not (m % d == 0)

ceil_div-le : (m d t : ℕ) → 0 < d → (ceil_div m d ≤ t) ↔ (m ≤ t * d)
ceil_div-le m d t h =
    let whole : m / d * d + m % d ≡ m = div-add-mod' m d in
    let below = mod-lt m h in
    elim (Bool-cases (m % d == 0)) [
      | inl e ↦ rw e (
        λ k. let s = mul-le-mul_right d k in ground arith,
        λ k. let s : m / d * d ≤ t * d = ground arith in le_of_mul-le-mul_right s h,
      )
      | inr e ↦ rw e (
        λ k. let s : (m / d + 1) * d ≤ t * d = mul-le-mul_right d k in omega arith,
        λ k.
            let s : m / d * d < t * d = ground arith in
            let q : m / d < t = lt_of_mul-lt-mul_right d s in omega arith,
      )
    ]

-- For all x and num that are not negative and every positive den, mulDivCeil returns the exact
-- quotient of the full product, rounded up, if that is an int64, and the overflow error otherwise,
-- with one exception: where the quotient is 2^64 - 1 with a remainder, it returns 0 and no error.
pub mul_div_ceil-exact :
    (x num den : ℕ)
    → 0 < den
    → mul_div_ceil (pos x) (pos num) (pos den) ≡ (
        if wraps (x * num) den
        then ok (pos 0)
        else if ltb max_int64 (ceil_div (x * num) den)
        then err (overflow (pos x) (pos num) (pos den))
        else ok (pos (ceil_div (x * num) den)))
unfolding mul_div_ceil
mul_div_ceil-exact x num den h = elim (Bool-cases (leb den (x * num / two_64))) [
  | inl e ↦ let big = (high_word x num den h).0 (leb→le den (x * num / two_64) e) in ground arith
  | inr e ↦
      let small : x * num / two_64 < den = ground arith in
      let fits : ¬ (two_64 ≤ x * num / den) = λ k. ground (arith, (high_word x num den h).1 k) in
      rw (div_64-mul_64 x num den small) (ground arith)
]

-- Where mulDivCeil returns a number, that is the least t with x * num ≤ t * den, or the quotient
-- is 2^64 - 1 with a remainder and the number is 0.
pub mul_div_ceil-least :
    (x num den t : ℕ)
    → 0 < den
    → mul_div_ceil (pos x) (pos num) (pos den) ≡ ok (pos t)
    → ((s : ℕ) → (t ≤ s) ↔ (x * num ≤ s * den)) ⊎ ((wraps (x * num) den ≡ true) × (t ≡ 0))
mul_div_ceil-least x num den t h k = elim (Bool-cases (wraps (x * num) den)) [
  | inl e ↦ inr (e, ground (arith, mul_div_ceil-exact x num den h))
  | inr e ↦ inl λ s.
      let same : ceil_div (x * num) den ≡ t = ground (arith, mul_div_ceil-exact x num den h) in
      rw same at (ceil_div-le (x * num) den s h)
]
