-- ===== src/Agent/Plan.antt =====
-- internal/node/adapter/adapter.go: the steps and plans that adapters and the reconciler exchange.
use antimage.Common.{
  zero, suc, ℕ, String, Bool, Option, none, some, List, [], ◌∷◌, ltb, is_empty, if◌then◌else◌, ◌≤◌,
  All, arith,
}
use antimage.Common.Int.{ℤ, pos, ltb_ℤ}

-- A uint8: none is 0, reload is 1, restart is 2, and other numbers are possible.
abbrev pub Disruption : Type 0
Disruption = ℕ

abbrev pub disrupt_none : Disruption
disrupt_none = 0

abbrev pub disrupt_reload : Disruption
disrupt_reload = 1

abbrev pub disrupt_restart : Disruption
disrupt_restart = 2

-- Disruption.String
abbrev pub disruption_string : Disruption → String
disruption_string zero = "none"
disruption_string (suc zero) = "reload"
disruption_string (suc (suc zero)) = "restart"
disruption_string _ = "unknown"

pub record Step : Type 0 where
  pub seq : ℕ
  pub kind : String
  pub disruption : Disruption
  pub service_id : ℕ
  pub payload : String

-- IsEmpty: no steps.
abbrev pub is_empty_plan : List Step → Bool
is_empty_plan steps = is_empty steps

max_from : Disruption → List Step → Disruption
max_from worst [] = worst
max_from worst (s ∷ rest) = max_from (if ltb worst s.disruption then s.disruption else worst) rest

-- MaxDisruption: the worst cost of the steps.
unfoldable pub max_disruption : List Step → Disruption
unfolding max_from
max_disruption steps = max_from disrupt_none steps

-- StepResult; the duration is in nanoseconds.
pub record StepResult : Type 0 where
  pub seq : ℕ
  pub kind : String
  pub disruption : Disruption
  pub succeeded : Bool
  pub err : String
  pub duration : ℤ

-- MaxSchemaVersion
abbrev pub max_schema_version : ℕ
max_schema_version = 5

pub data SchemaError : Type 0 where
  no_version : SchemaError
  too_new : ℤ → SchemaError

-- CheckSchemaVersion
abbrev pub check_schema_version : ℤ → Option SchemaError
check_schema_version v =
    if ltb_ℤ (pos 0) v
    then if ltb_ℤ (pos max_schema_version) v then some (too_new v) else none
    else some no_version

max_from-le :
    (worst : Disruption) (steps : List Step) (d : Disruption)
    → max_from worst steps ≤ d
    → (worst ≤ d) × All (λ s. s.disruption ≤ d) steps
unfolding max_from
max_from-le worst [] d h = (h, tt)
max_from-le worst (s ∷ rest) d h =
    let later = max_from-le (if ltb worst s.disruption then s.disruption else worst) rest d h in
    (ground arith, (ground arith, later.1))

-- No step of a plan costs more than its worst disruption.
pub max_disruption-le :
    (steps : List Step) (d : Disruption)
    → max_disruption steps ≤ d
    → All (λ s. s.disruption ≤ d) steps
unfolding max_disruption
max_disruption-le steps d h = (max_from-le disrupt_none steps d h).1
