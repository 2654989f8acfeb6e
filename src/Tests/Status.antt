-- ===== src/Tests/Status.antt =====
-- Node statuses at concrete values.
use antimage.Common.{none, ◌≡◌, ◌↔◌}
use antimage.NodeStatus.{online, offline, validate_transition}
use antimage.NodeStatus.Table.{Allowed, validate_transition-eq-none}

validate_transition-eq-none_example :
    (validate_transition online offline ≡ none) ↔ Allowed online offline
validate_transition-eq-none_example = validate_transition-eq-none online offline
