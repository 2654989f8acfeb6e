-- ===== src/NodeStatus/Reason.antt =====
-- TransitionReason of internal/panel/nodes/state_machine.go: why a node changed its status.
use Prim.Native.String
use antimage.Common.{
  String, String_discrete, true, Option, none, some, List, [], ◌∷◌, ite, ◌≡◌, refl, ◌≢◌, ◌↔◌, arith,
}
use antimage.Common.Maps
use antimage.NodeStatus.Table.{unknown_not_valid}
use antimage.NodeStatus.{
  Status, pending, enrolling, online, degraded, offline, maintenance, error, disabled, integrity,
  unknown, Status_discrete, is_valid, validate_transition,
}

-- String
abbrev pub to_string : Status → String
to_string pending = "pending"
to_string enrolling = "enrolling"
to_string online = "online"
to_string degraded = "degraded"
to_string offline = "offline"
to_string maintenance = "maintenance"
to_string error = "error"
to_string disabled = "disabled"
to_string integrity = "integrity"
to_string (unknown s) = s

-- The map literal of TransitionReason.
abbrev pub reasons : List (String × String)
reasons =
    ("pending->enrolling", "enrollment process started")
    ∷ ("pending->disabled", "node disabled before enrollment")
    ∷ ("enrolling->online", "enrollment successful, node online")
    ∷ ("enrolling->error", "enrollment failed")
    ∷ ("enrolling->disabled", "node disabled during enrollment")
    ∷ ("online->degraded", "health degradation detected")
    ∷ ("online->offline", "lost connectivity")
    ∷ ("online->maintenance", "entered maintenance mode")
    ∷ ("online->error", "critical error occurred")
    ∷ ("online->disabled", "node disabled by admin")
    ∷ ("online->integrity", "configuration drift detected")
    ∷ ("degraded->online", "health recovered")
    ∷ ("degraded->offline", "connectivity lost")
    ∷ ("degraded->maintenance", "entered maintenance mode")
    ∷ ("degraded->error", "condition worsened to error")
    ∷ ("degraded->disabled", "node disabled by admin")
    ∷ ("offline->online", "reconnected, fully operational")
    ∷ ("offline->degraded", "reconnected with issues")
    ∷ ("offline->maintenance", "entered maintenance mode while offline")
    ∷ ("offline->disabled", "node disabled while offline")
    ∷ ("maintenance->online", "exited maintenance, fully operational")
    ∷ ("maintenance->degraded", "exited maintenance with issues")
    ∷ ("maintenance->offline", "went offline during maintenance")
    ∷ ("maintenance->disabled", "node disabled from maintenance")
    ∷ ("error->online", "error resolved, fully operational")
    ∷ ("error->degraded", "partially recovered from error")
    ∷ ("error->offline", "lost connectivity after error")
    ∷ ("error->maintenance", "entered maintenance to resolve error")
    ∷ ("error->disabled", "node disabled due to error")
    ∷ ("disabled->online", "re-enabled, fully operational")
    ∷ ("disabled->degraded", "re-enabled with issues")
    ∷ ("disabled->offline", "re-enabled but offline")
    ∷ ("disabled->maintenance", "re-enabled into maintenance mode")
    ∷ ("integrity->online", "configuration synchronized")
    ∷ ("integrity->degraded", "synchronized with issues")
    ∷ ("integrity->offline", "lost connectivity during sync")
    ∷ ("integrity->maintenance", "entered maintenance for manual sync")
    ∷ ("integrity->disabled", "node disabled due to drift")
    ∷ []

-- fmt.Sprintf("%s->%s", from, to)
abbrev pub reason_key : Status → Status → String
reason_key from to = String.◌++◌ (to_string from) (String.◌++◌ "->" (to_string to))

abbrev or_generic : Status → Status → Option String → String
or_generic from to (some reason) = reason
or_generic from to none =
    String.◌++◌ "transition from "
      (String.◌++◌ (to_string from) (String.◌++◌ " to " (to_string to)))

-- TransitionReason
unfoldable pub transition_reason : Status → Status → String
unfolding Maps.get String_discrete Status_discrete
transition_reason from to =
    ite (Status_discrete from to) "state unchanged"
      (or_generic from to (Maps.get String_discrete (reason_key from to) reasons))

-- For two different known statuses, the table of reasons has an entry for the change, which
-- TransitionReason returns, exactly when ValidateTransition accepts the change.
pub transition_reason-documented :
    (from to : Status)
    → is_valid from ≡ true
    → is_valid to ≡ true
    → from ≢ to
    → (validate_transition from to ≡ none) ↔ (
        (reason : String) × (Maps.get String_discrete (reason_key from to) reasons ≡ some reason)
        × (transition_reason from to ≡ reason))
unfolding validate_transition transition_reason
transition_reason-documented pending pending h k n = absurd (n refl)
transition_reason-documented enrolling pending h k n = ground arith
transition_reason-documented online pending h k n = ground arith
transition_reason-documented degraded pending h k n = ground arith
transition_reason-documented offline pending h k n = ground arith
transition_reason-documented maintenance pending h k n = ground arith
transition_reason-documented error pending h k n = ground arith
transition_reason-documented disabled pending h k n = ground arith
transition_reason-documented integrity pending h k n = ground arith
transition_reason-documented (unknown text) to h k n = absurd (unknown_not_valid text h)
transition_reason-documented _ _ h k n = ground arith
