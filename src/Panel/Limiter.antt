-- ===== src/Panel/Limiter.antt =====
-- internal/panel/auth/ratelimit.go: how long a login has to wait after failures. Times are Unix
-- seconds, waits nanoseconds; `lower` stands for strings.ToLower.
pub mod Waits
use antimage.Common.{
  ℕ, zero, suc, ◌+◌, ◌-◌, ◌*◌, String, String_discrete, Bool, true, false, not, ◌&&◌, List, [], ◌∷◌,
  ◌++◌, ite, ltb, leb, if◌then◌else◌,
}

-- Window, AccountFailureLimit, IPFailureLimit, BaseBackoff, MaxBackoff
abbrev pub window : ℕ
window = 900

abbrev pub account_failure_limit : ℕ
account_failure_limit = 5

abbrev pub ip_failure_limit : ℕ
ip_failure_limit = 20

abbrev pub base_backoff : ℕ
base_backoff = 1000000000

abbrev pub max_backoff : ℕ
max_backoff = 300000000000

-- The column `kind`.
pub data AttemptKind : Type 0 where
  account ip : AttemptKind

-- A row of login_attempts.
pub record Attempt : Type 0 where
  pub kind : AttemptKind
  pub subject : String
  pub failed_at : ℕ

abbrev pub same_kind : AttemptKind → AttemptKind → Bool
same_kind account account = true
same_kind ip ip = true
same_kind _ _ = false

abbrev pub is_of : AttemptKind → String → Attempt → Bool
is_of kind subject a = same_kind kind a.kind && ite (String_discrete a.subject subject) true false

-- failed_at >= now - Window
abbrev pub is_recent : ℕ → Attempt → Bool
is_recent now a = leb now (a.failed_at + window)

-- countSince, with the cutoff of `now`; the subject is in lower case.
unfoldable pub count_since : AttemptKind → String → ℕ → List Attempt → ℕ
count_since kind subject now [] = 0
count_since kind subject now (a ∷ rest) =
    let others = count_since kind subject now rest in
    if is_of kind subject a && is_recent now a then suc others else others

-- The loop of backoff, for a number of turns.
unfoldable pub doubled : ℕ → ℕ → ℕ
doubled zero d = d
doubled (suc n) d =
    let more = doubled n (d * 2) in if leb max_backoff (d * 2) then max_backoff else more

-- backoff
unfoldable pub backoff : ℕ → ℕ → ℕ
backoff failures limit = if ltb failures limit then 0 else doubled (failures - limit) base_backoff

unfoldable pub delete_where : (Attempt → Bool) → List Attempt → List Attempt
delete_where test [] = []
delete_where test (a ∷ rest) =
    let others = delete_where test rest in if test a then others else a ∷ others

module _ (lower : String → String) where
  -- Check
  unfoldable pub check : ℕ → String → String → List Attempt → ℕ
  check now username address attempts =
      let wait =
        backoff (count_since account (lower username) now attempts) account_failure_limit in
      let d = backoff (count_since ip (lower address) now attempts) ip_failure_limit in
      if ltb wait d then d else wait

  -- RecordFailure
  unfoldable pub record_failure : ℕ → String → String → List Attempt → List Attempt
  record_failure now username address attempts =
      (attempts ++ record { kind = account; subject = lower username; failed_at = now } ∷ [])
      ++ record { kind = ip; subject = lower address; failed_at = now } ∷ []

  -- Reset
  unfoldable pub reset : ℕ → String → String → List Attempt → List Attempt
  reset now username address attempts =
      delete_where (λ a. not (is_recent now a))
        (delete_where (is_of account (lower username)) attempts)
