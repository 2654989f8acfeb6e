-- ===== src/NodeStatus.antt =====
-- internal/panel/nodes/state_machine.go: the statuses of a node and the transitions between them.
-- Go's `Status` is a string: the nine constants are constructors, any other text is `unknown`.
pub mod Table
pub mod Reason
pub mod Diagram
use antimage.Common.{
  String, String_discrete, Bool, true, false, if◌then◌else◌, Option, none, some, List, [], ◌∷◌, ite,
  not, contains,
}
use antimage.Common.Maps

pub data Status : Type 0 where
  pending enrolling online degraded offline maintenance error disabled integrity : Status
  unknown : String → Status

unfoldable pub Status_discrete : Discrete Status
unfolding String_discrete
Status_discrete = hlevel String_discrete

-- AllStatuses
abbrev pub all_statuses : List Status
all_statuses =
    pending ∷ enrolling ∷ online ∷ degraded ∷ offline ∷ maintenance ∷ error ∷ disabled ∷ integrity
    ∷ []

-- IsValid
unfoldable pub is_valid : Status → Bool
unfolding contains Status_discrete
is_valid s = contains Status_discrete s all_statuses

-- The texts of the errors that ValidateTransition returns.
pub data TransitionError : Type 0 where
  invalid_source : Status → TransitionError
  invalid_target : Status → TransitionError
  no_transitions : Status → TransitionError
  not_allowed : Status → Status → TransitionError

-- The map literal of ValidateTransition.
abbrev pub valid_transitions : List (Status × List Status)
valid_transitions =
    (pending, enrolling ∷ disabled ∷ [])
    ∷ (enrolling, online ∷ error ∷ disabled ∷ [])
    ∷ (online, degraded ∷ offline ∷ maintenance ∷ error ∷ disabled ∷ integrity ∷ [])
    ∷ (degraded, online ∷ offline ∷ maintenance ∷ error ∷ disabled ∷ [])
    ∷ (offline, online ∷ degraded ∷ maintenance ∷ disabled ∷ [])
    ∷ (maintenance, online ∷ degraded ∷ offline ∷ disabled ∷ [])
    ∷ (error, online ∷ degraded ∷ offline ∷ maintenance ∷ disabled ∷ [])
    ∷ (disabled, online ∷ degraded ∷ offline ∷ maintenance ∷ [])
    ∷ (integrity, online ∷ degraded ∷ offline ∷ maintenance ∷ disabled ∷ [])
    ∷ []

check_target : Status → Status → Option (List Status) → Option TransitionError
unfolding contains Status_discrete
check_target from to none = some (no_transitions from)
check_target from to (some allowed) =
    if contains Status_discrete to allowed then none else some (not_allowed from to)

-- ValidateTransition; `none` is Go's nil error.
unfoldable pub validate_transition : Status → Status → Option TransitionError
unfolding is_valid check_target Maps.get Status_discrete
validate_transition from to =
    if not (is_valid from)
    then some (invalid_source from)
    else if not (is_valid to)
    then some (invalid_target to)
    else ite (Status_discrete from to) none
        (check_target from to (Maps.get Status_discrete from valid_transitions))

-- CanTransitionTo
unfoldable pub can_transition_to : Status → Status → Bool
unfolding validate_transition
can_transition_to s target = elim (validate_transition s target) [ none ↦ true | some e ↦ false ]
