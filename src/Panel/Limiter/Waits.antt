-- ===== src/Panel/Limiter/Waits.antt =====
-- How the waits grow, and what a failure and a reset change.
use antimage.Common.{
  ℕ, zero, suc, ◌+◌, ◌-◌, ◌*◌, ◌≤◌, ◌<◌, String, Bool, true, false, not, ◌&&◌, List, [], ◌∷◌, ◌++◌,
  leb, if◌then◌else◌, ◌≡◌, ◌↔◌, refl, ◌∙◌, arith, Bool-cases, inl, inr,
}
use antimage.Panel.Limiter.{
  account_failure_limit, ip_failure_limit, base_backoff, max_backoff, AttemptKind, account, ip,
  Attempt, same_kind, is_of, is_recent, count_since, doubled, backoff, delete_where, check,
  record_failure, reset,
}

doubled-bounds : (n d : ℕ) → d ≤ max_backoff → (d ≤ doubled n d) × (doubled n d ≤ max_backoff)
unfolding doubled
doubled-bounds zero d h = (omega arith, h)
doubled-bounds (suc n) d h = ground (arith, doubled-bounds n (d * 2))

doubled_mono : (n n' d : ℕ) → n ≤ n' → d ≤ max_backoff → doubled n d ≤ doubled n' d
unfolding doubled
doubled_mono zero n' d le h = (doubled-bounds n' d h).0
doubled_mono (suc n) zero d le h = absurd (omega arith)
doubled_mono (suc n) (suc n') d le h = elim (Bool-cases (leb max_backoff (d * 2))) [
  | inl e ↦ rw e (omega arith)
  | inr e ↦ rw e (doubled_mono n n' (d * 2) (omega arith) (ground arith))
]

backoff-bounds :
    (failures limit : ℕ)
    → ((backoff failures limit ≡ 0) ↔ (failures < limit)) × (backoff failures limit ≤ max_backoff)
unfolding backoff
backoff-bounds failures limit = ground (arith, doubled-bounds (failures - limit) base_backoff)

-- For every limit, more failures never shorten the wait, and the wait is at most MaxBackoff.
pub backoff_mono :
    (failures more limit : ℕ)
    → failures ≤ more
    → (backoff failures limit ≤ backoff more limit) × (backoff more limit ≤ max_backoff)
unfolding backoff
backoff_mono failures more limit le = ground (
  arith,
  doubled_mono (failures - limit) (more - limit) base_backoff,
  doubled-bounds (more - limit) base_backoff,
)

-- For all attempts, Check lets a login pass exactly when, within the window, the account has fewer
-- failures than its limit and the address fewer than its own.
pub check-eq-zero :
    (lower : String → String) (now : ℕ) (username address : String) (attempts : List Attempt)
    → (check lower now username address attempts ≡ 0) ↔ (
        (count_since account (lower username) now attempts < account_failure_limit)
        × (count_since ip (lower address) now attempts < ip_failure_limit))
unfolding check
check-eq-zero lower now username address attempts = ground (
  arith,
  backoff-bounds (count_since account (lower username) now attempts) account_failure_limit,
  backoff-bounds (count_since ip (lower address) now attempts) ip_failure_limit,
)

count_since-append :
    (kind : AttemptKind) (subject : String) (now : ℕ) (xs : List Attempt) (a : Attempt)
    → count_since kind subject now (xs ++ a ∷ [])
      ≡ count_since kind subject now xs + (if is_of kind subject a && is_recent now a then 1 else 0)
unfolding count_since
count_since-append kind subject now [] a = ground arith
count_since-append kind subject now (x ∷ xs) a =
    ground (arith, count_since-append kind subject now xs a)

-- A recorded failure counts once for the account and once for the address, at the time of the
-- failure, for all attempts before it.
pub record_failure-count_since :
    (lower : String → String) (now : ℕ) (username address : String) (attempts : List Attempt)
    → (count_since account (lower username) now (record_failure lower now username address attempts)
        ≡ count_since account (lower username) now attempts + 1)
      × (count_since ip (lower address) now (record_failure lower now username address attempts)
          ≡ count_since ip (lower address) now attempts + 1)
unfolding record_failure
record_failure-count_since lower now username address attempts =
    let first : Attempt = record { kind = account; subject = lower username; failed_at = now } in
    let second : Attempt = record { kind = ip; subject = lower address; failed_at = now } in
    (
      ground (
        arith,
        count_since-append account (lower username) now (attempts ++ first ∷ []) second,
        count_since-append account (lower username) now attempts first,
      ),
      ground (
        arith,
        count_since-append ip (lower address) now (attempts ++ first ∷ []) second,
        count_since-append ip (lower address) now attempts first,
      ),
    )

kinds_differ : (k : AttemptKind) → same_kind ip k ≡ true → same_kind account k ≡ false
kinds_differ account h = cc
kinds_differ ip h = refl

count_since-delete_where :
    (kind : AttemptKind) (subject : String) (now : ℕ) (test : Attempt → Bool) (xs : List Attempt)
    → ((a : Attempt) → (is_of kind subject a && is_recent now a) ≡ true → test a ≡ false)
    → count_since kind subject now (delete_where test xs) ≡ count_since kind subject now xs
unfolding count_since delete_where
count_since-delete_where kind subject now test [] h = refl
count_since-delete_where kind subject now test (x ∷ xs) h =
    ground (arith, count_since-delete_where kind subject now test xs h, h x)

count_since-deleted :
    (subject : String) (now : ℕ) (xs : List Attempt)
    → count_since account subject now (delete_where (is_of account subject) xs) ≡ 0
unfolding count_since delete_where
count_since-deleted subject now [] = refl
count_since-deleted subject now (x ∷ xs) = ground (arith, count_since-deleted subject now xs)

-- After a reset, the account has no failures that count, and every address has as many as before,
-- for all attempts.
pub reset-count_since :
    (lower : String → String) (now : ℕ) (username address other : String) (attempts : List Attempt)
    → (count_since account (lower username) now (reset lower now username address attempts) ≡ 0)
      × (count_since ip other now (reset lower now username address attempts)
          ≡ count_since ip other now attempts)
unfolding reset
reset-count_since lower now username address other attempts = (
  count_since-delete_where account (lower username) now (λ a. not (is_recent now a)) _
        (λ a h. ground arith)
      ∙ count_since-deleted (lower username) now attempts,
  count_since-delete_where ip other now (λ a. not (is_recent now a)) _ (λ a h. ground arith)
      ∙ count_since-delete_where ip other now (is_of account (lower username)) attempts
          (λ a h. ground (arith, kinds_differ a.kind)),
)
