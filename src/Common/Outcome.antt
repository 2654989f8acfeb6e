-- ===== src/Common/Outcome.antt =====
-- A Go function that returns a value or an error, and a transaction over tables `D`.
use mathlib.Core.Path.{◌≡◌, refl}
use mathlib.Core.Logic.{◌⊎◌, inl, inr}
use mathlib.Core.Bool.{Bool, true, false}
use native.Mathlib.Omega.{arith}
use antimage.Common.Tests.{if◌then◌else◌}

pub data Outcome {ℓ} (E : Type 0) (A : Type ℓ) : Type ℓ where
  ok : A → Outcome E A
  err : E → Outcome E A

infixl 5 ◌>>=◌ ◌>>◌
abbrev pub ◌>>=◌ {κ ℓ} :
    {E : Type 0} {A : Type κ} {B : Type ℓ} → Outcome E A → (A → Outcome E B) → Outcome E B
ok a >>= next = next a
err cause >>= next = err cause

abbrev pub ◌>>◌ {ℓ} : {E : Type 0} {B : Type ℓ} → Outcome E (Unit {0}) → Outcome E B → Outcome E B
ok a >> next = next
err cause >> next = err cause

-- `if b { return e }`
infixl 5 ◌refuses◌
abbrev pub ◌refuses◌ : {E : Type 0} → Bool → E → Outcome E (Unit {0})
b refuses e = if b then err e else ok tt

-- The changes of a transaction are kept when its function returns no error, and rolled back
-- otherwise.
abbrev pub transaction : {E A D : Type 0} → (D → Outcome E (A × D)) → D → Outcome E A × D
transaction fn db = elim (fn db) [ ok (a, db') ↦ (ok a, db') | err e ↦ (err e, db) ]

pub Outcome-cases {ℓ} :
    {E : Type 0} {A : Type ℓ} (o : Outcome E A) → ((a : A) × (o ≡ ok a)) ⊎ ((e : E) × (o ≡ err e))
Outcome-cases (ok a) = inl (a, refl)
Outcome-cases (err e) = inr (e, refl)

-- A chain that returns a value ran its first step.
pub bind-eq-ok {κ ℓ} :
    {E : Type 0} {A : Type κ} {B : Type ℓ} (first : Outcome E A) (next : A → Outcome E B) {b : B}
    → (first >>= next) ≡ ok b
    → (a : A) × (first ≡ ok a) × (next a ≡ ok b)
bind-eq-ok (ok a) next h = (a, refl, h)
bind-eq-ok (err cause) next h = cc

pub then-eq-ok {ℓ} :
    {E : Type 0} {B : Type ℓ} (first : Outcome E (Unit {0})) (next : Outcome E B) {b : B}
    → (first >> next) ≡ ok b
    → (first ≡ ok tt) × (next ≡ ok b)
then-eq-ok (ok tt) next h = (refl, h)
then-eq-ok (err cause) next h = cc

pub refuses-eq-ok {ℓ} :
    {E : Type 0} {B : Type ℓ} (b : Bool) (e : E) (next : Outcome E B) {out : B}
    → (b refuses e >> next) ≡ ok out
    → (b ≡ false) × (next ≡ ok out)
refuses-eq-ok false e next h = (refl, h)
refuses-eq-ok true e next h = cc

pub transaction-eq-ok :
    {E A D : Type 0} (fn : D → Outcome E (A × D)) (db : D) {a : A}
    → (transaction fn db).0 ≡ ok a
    → fn db ≡ ok (a, (transaction fn db).1)
transaction-eq-ok fn db h = ground arith

-- Two returns of a value with tables are equal in both.
pub ok-pair {ℓ κ} :
    {E : Type 0} {A : Type ℓ} {D : Type κ} {a b : A} {d d' : D}
    → ◌≡◌ {A = Outcome E (A × D)} (ok (a, d)) (ok (b, d'))
    → (a ≡ b) × (d ≡ d')
ok-pair h = (cc h, cc h)

pub ok-injective {ℓ} :
    {E : Type 0} {A : Type ℓ} {a b : A} → ◌≡◌ {A = Outcome E A} (ok a) (ok b) → a ≡ b
ok-injective h = cc h
