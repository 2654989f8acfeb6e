-- ===== src/NodeStatus/Table.antt =====
-- The transition table of ValidateTransition, read by columns: from where a status can be entered.
use antimage.Common.{String, Bool, true, false, none, ◌≡◌, ◌≢◌, ◌↔◌, ◌⊎◌, arith}
use antimage.NodeStatus.{
  Status, pending, enrolling, online, degraded, offline, maintenance, error, disabled, integrity,
  unknown, is_valid, validate_transition,
}

-- A status of a node that has finished its enrolment.
abbrev pub is_enrolled : Status → Bool
is_enrolled pending = false
is_enrolled enrolling = false
is_enrolled (unknown s) = false
is_enrolled _ = true

-- The rules by the status that is entered. `from` is another known status than the one entered.
abbrev pub may_enter : Status → Status → Bool
may_enter pending from = false
may_enter enrolling pending = true
may_enter enrolling _ = false
may_enter online pending = false
may_enter online _ = true
may_enter degraded from = is_enrolled from
may_enter offline from = is_enrolled from
may_enter maintenance from = is_enrolled from
may_enter error enrolling = true
may_enter error online = true
may_enter error degraded = true
may_enter error _ = false
may_enter disabled from = true
may_enter integrity online = true
may_enter integrity _ = false
may_enter (unknown s) from = false

abbrev pub Allowed : Status → Status → Type 0
Allowed from to =
    (is_valid from ≡ true) × (is_valid to ≡ true) × ((from ≡ to) ⊎ (may_enter to from ≡ true))

-- For all statuses, unknown texts included, ValidateTransition returns no error exactly when both
-- statuses are known and either they are the same or the rule of the entered status admits the
-- other one.
pub validate_transition-eq-none :
    (from to : Status) → (validate_transition from to ≡ none) ↔ Allowed from to
unfolding validate_transition
validate_transition-eq-none pending pending = ground arith
validate_transition-eq-none _ _ = ground arith

pub unknown_not_valid : (text : String) → is_valid (unknown text) ≢ true
unfolding is_valid
unknown_not_valid text h = cc
