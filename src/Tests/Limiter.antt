-- ===== src/Tests/Limiter.antt =====
-- Failed logins at concrete times.
use antimage.Common.{◌<◌, String, List, [], ◌∷◌, ◌≡◌, ◌↔◌, refl}
use antimage.Panel.Limiter.{
  Attempt, account, ip, account_failure_limit, ip_failure_limit, count_since, backoff, doubled,
  check,
}
use antimage.Panel.Limiter.Waits.{check-eq-zero}

abbrev lower_case : String → String
lower_case s = s

abbrev earlier : List Attempt
earlier =
    record { kind = account; subject = "ada"; failed_at = 5000 }
    ∷ record { kind = ip; subject = "10.0.0.7"; failed_at = 5000 }
    ∷ []

seventh_wait : backoff 7 5 ≡ 4000000000
unfolding backoff doubled
seventh_wait = refl

capped_wait : backoff 50 5 ≡ 300000000000
unfolding backoff doubled
capped_wait = refl

check-eq-zero_example : (check lower_case 5100 "ada" "10.0.0.7" earlier ≡ 0) ↔ (
    (count_since account "ada" 5100 earlier < account_failure_limit)
    × (count_since ip "10.0.0.7" 5100 earlier < ip_failure_limit))
check-eq-zero_example = check-eq-zero lower_case 5100 "ada" "10.0.0.7" earlier
