-- ===== src/Agent/Enforcement/Sorting.antt =====
-- The order in which enforceConnectionLimitLocked ends connections.
use antimage.Common.{
  ℕ, zero, suc, ◌+◌, ◌≤◌, String, Bool, List, [], ◌∷◌, All, length, ltb, if◌then◌else◌, ◌≡◌, refl,
  arith, Bool-cases, inl, inr,
}
use antimage.Agent.Enforcement.Removal.{exchange, exchange_sort}

-- Each entry started no later than those behind it.
abbrev pub IsSorted : List (String × ℕ) → Type 0
IsSorted [] = Unit
IsSorted (x ∷ rest) = All (λ (y : String × ℕ). x.1 ≤ y.1) rest × IsSorted rest

-- How many entries pass a test.
unfoldable pub count : (String × ℕ → Bool) → List (String × ℕ) → ℕ
count test [] = 0
count test (x ∷ rest) = (if test x then 1 else 0) + count test rest

exchange-count :
    (test : String × ℕ → Bool) (x : String × ℕ) (xs : List (String × ℕ))
    → count test ((exchange x xs).0 ∷ (exchange x xs).1) ≡ count test (x ∷ xs)
unfolding exchange count
exchange-count test x [] = refl
exchange-count test x (y ∷ rest) = elim (Bool-cases (ltb y.1 x.1)) [
  | inl e ↦ rw (e, exchange) (omega (arith, exchange-count test y rest))
  | inr e ↦ rw (e, exchange) (omega (arith, exchange-count test x rest))
]

exchange-length : (x : String × ℕ) (xs : List (String × ℕ)) → length (exchange x xs).1 ≡ length xs
unfolding exchange
exchange-length x [] = refl
exchange-length x (y ∷ rest) = ground (arith, exchange-length x rest, exchange-length y rest)

All-weaken :
    (a b : ℕ) (xs : List (String × ℕ))
    → a ≤ b
    → All (λ (y : String × ℕ). b ≤ y.1) xs
    → All (λ (y : String × ℕ). a ≤ y.1) xs
All-weaken a b [] h k = tt
All-weaken a b (x ∷ xs) h k = (omega arith, All-weaken a b xs h k.1)

exchange-least :
    (x : String × ℕ) (xs : List (String × ℕ))
    → ((exchange x xs).0.1 ≤ x.1)
      × All (λ (y : String × ℕ). (exchange x xs).0.1 ≤ y.1) (exchange x xs).1
unfolding exchange
exchange-least x [] = (omega arith, tt)
exchange-least x (y ∷ rest) = elim (Bool-cases (ltb y.1 x.1)) [
  | inl e ↦
      let (le, all) = exchange-least y rest in rw (e, exchange) (ground arith, (ground arith, all))
  | inr e ↦ let (le, all) = exchange-least x rest in rw (e, exchange) (le, (ground arith, all))
]

exchange-All :
    (a : ℕ) (x : String × ℕ) (xs : List (String × ℕ))
    → a ≤ x.1
    → All (λ (y : String × ℕ). a ≤ y.1) xs
    → (a ≤ (exchange x xs).0.1) × All (λ (y : String × ℕ). a ≤ y.1) (exchange x xs).1
unfolding exchange
exchange-All a x [] h k = (h, tt)
exchange-All a x (y ∷ rest) h k = elim (Bool-cases (ltb y.1 x.1)) [
  | inl e ↦ let (le, all) = exchange-All a y rest k.0 k.1 in rw (e, exchange) (le, (h, all))
  | inr e ↦ let (le, all) = exchange-All a x rest h k.1 in rw (e, exchange) (le, (k.0, all))
]

exchange_sort-All :
    (n a : ℕ) (xs : List (String × ℕ))
    → All (λ (y : String × ℕ). a ≤ y.1) xs
    → All (λ (y : String × ℕ). a ≤ y.1) (exchange_sort n xs)
unfolding exchange_sort
exchange_sort-All zero a xs h = h
exchange_sort-All (suc n) a [] h = tt
exchange_sort-All (suc n) a (x ∷ rest) h =
    let (le, all) = exchange-All a x rest h.0 h.1 in (le, exchange_sort-All n a _ all)

IsSorted-prefix : (n : ℕ) (xs : List (String × ℕ)) → length xs ≤ n → IsSorted (exchange_sort n xs)
unfolding exchange_sort
IsSorted-prefix zero [] h = tt
IsSorted-prefix zero (x ∷ rest) h = absurd (omega arith)
IsSorted-prefix (suc n) [] h = tt
IsSorted-prefix (suc n) (x ∷ rest) h =
    let (_, all) = exchange-least x rest in
    (
      exchange_sort-All n _ _ all,
      IsSorted-prefix n (exchange x rest).1 (omega (arith, exchange-length x rest)),
    )

exchange_sort-count :
    (n : ℕ) (test : String × ℕ → Bool) (xs : List (String × ℕ))
    → count test (exchange_sort n xs) ≡ count test xs
unfolding exchange_sort count
exchange_sort-count zero test xs = refl
exchange_sort-count (suc n) test [] = refl
exchange_sort-count (suc n) test (x ∷ rest) =
    omega (arith, exchange_sort-count n test (exchange x rest).1, exchange-count test x rest)

-- The two loops of enforceConnectionLimitLocked, with as many turns of the outer one as there are
-- entries, put the connections in the order of their start, and keep the number of entries that
-- pass any test.
pub exchange_sort-IsSorted :
    (xs : List (String × ℕ)) (test : String × ℕ → Bool)
    → IsSorted (exchange_sort (length xs) xs)
      × (count test (exchange_sort (length xs) xs) ≡ count test xs)
exchange_sort-IsSorted xs test =
    (IsSorted-prefix (length xs) xs (omega arith), exchange_sort-count (length xs) test xs)
