-- ===== src/Agent/Enforcement.antt =====
-- internal/node/enforcement/enforcement.go: the limits on the connections of a subject. The mutex
-- makes each method one step; `now` is the reading of the clock. A set of texts is a list without
-- duplicates.
pub mod Removal
pub mod Limits
pub mod Cleanup
pub mod Sorting
use antimage.Common.{
  ℕ, ℕ_discrete, String, String_discrete, Bool, true, false, ◌||◌, ◌&&◌, not, Option, none, some,
  List, [], ◌∷◌, ◌++◌, length, contains, if◌then◌else◌,
}
use antimage.Common.Int.{ℤ, pos, negsuc, ltb_ℤ}
use antimage.Common.Maps

pub record Policy : Type 0 where
  pub subject_id : ℕ
  pub max_devices : Option ℤ
  pub max_ips : Option ℤ
  pub max_connections : Option ℤ
  pub speed_limit_up_kbps : Option ℤ
  pub speed_limit_down_kbps : Option ℤ
  pub quota_bytes : Option ℤ
  pub quota_used_bytes : Option ℤ

pub record Connection : Type 0 where
  pub id : String
  pub subject_id : ℕ
  pub device_id : String
  pub source_ip : String
  pub protocol : String
  pub connected_at : ℕ
  pub last_seen_at : ℕ

pub record Enforcer : Type 0 where
  pub policies : List (ℕ × Policy)
  pub connections : List (String × Connection)
  pub subject_conns : List (ℕ × List String)
  pub subject_ips : List (ℕ × List String)
  pub subject_devs : List (ℕ × List String)

-- New
abbrev pub new_enforcer : Enforcer
new_enforcer = record {
  policies = [];
  connections = [];
  subject_conns = [];
  subject_ips = [];
  subject_devs = [];
}

-- ErrPolicyViolation, by its reason.
pub data Violation : Type 0 where
  invalid_device_limit : Violation
  invalid_ip_limit : Violation
  invalid_connection_limit : Violation
  device_limit_reached : ℕ → ℤ → Violation
  ip_limit_reached : ℕ → ℤ → Violation
  connection_limit_reached : ℕ → ℤ → Violation
  quota_exhausted : ℤ → ℤ → Violation

-- A missing slice or set of a Go map reads as an empty one.
abbrev pub entries : Option (List String) → List String
entries none = []
entries (some xs) = xs

abbrev pub conns_of : ℕ → Enforcer → List String
conns_of id e = entries (Maps.get ℕ_discrete id e.subject_conns)

abbrev pub ips_of : ℕ → Enforcer → List String
ips_of id e = entries (Maps.get ℕ_discrete id e.subject_ips)

abbrev pub devs_of : ℕ → Enforcer → List String
devs_of id e = entries (Maps.get ℕ_discrete id e.subject_devs)

-- `set[x] = struct{}{}`
abbrev pub add_to_set : String → List String → List String
add_to_set x xs = if contains String_discrete x xs then xs else xs ++ x ∷ []

-- `limit != nil && *limit < 0`
abbrev pub is_invalid : Option ℤ → Bool
is_invalid none = false
is_invalid (some m) = ltb_ℤ m (pos 0)

-- `len(known) >= int(limit)`, and the new value is not among the known ones.
abbrev pub exceeds : ℤ → String → List String → Bool
exceeds m x xs = not (ltb_ℤ (pos (length xs)) m) && not (contains String_discrete x xs)

abbrev pub check_devices : Option ℤ → List String → String → Option Violation
check_devices none devices device = none
check_devices (some m) devices device =
    if exceeds m device devices then some (device_limit_reached (length devices) m) else none

abbrev pub check_ips : Option ℤ → List String → String → Option Violation
check_ips none ips ip = none
check_ips (some m) ips ip =
    if exceeds m ip ips then some (ip_limit_reached (length ips) m) else none

abbrev pub check_connections : Option ℤ → List String → Option Violation
check_connections none conns = none
check_connections (some m) conns =
    if ltb_ℤ (pos (length conns)) m then none else some (connection_limit_reached (length conns) m)

abbrev pub check_quota : Option ℤ → Option ℤ → Option Violation
check_quota none used = none
check_quota (some total) none = none
check_quota (some total) (some used) =
    if ltb_ℤ used total then none else some (quota_exhausted used total)

-- An early return.
infixr 30 ◌or_else◌
abbrev pub ◌or_else◌ : Option Violation → Option Violation → Option Violation
some v or_else next = some v
none or_else next = next

-- The constraints that CheckAndRegisterConnection tests before the limits.
abbrev pub check_validity : Policy → Option Violation
check_validity p =
    (if is_invalid p.max_devices then some invalid_device_limit else none)
    or_else (if is_invalid p.max_ips then some invalid_ip_limit else none)
    or_else (if is_invalid p.max_connections then some invalid_connection_limit else none)

-- The limits, in the order in which they are tested.
abbrev pub check_limits : Policy → ℕ → String → String → Enforcer → Option Violation
check_limits p id device ip e =
    check_devices p.max_devices (devs_of id e) device
    or_else check_ips p.max_ips (ips_of id e) ip
    or_else check_connections p.max_connections (conns_of id e)

-- CheckConnection
unfoldable pub check_connection : ℕ → String → String → Enforcer → Option Violation
check_connection id device ip e = elim (Maps.get ℕ_discrete id e.policies) [
  | none ↦ none
  | some p ↦ check_limits p id device ip e
]

-- The new connection and its entries in the indexes.
unfoldable pub insert_connection : Connection → Enforcer → Enforcer
insert_connection c e = record e {
  connections = Maps.put String_discrete c.id c e.connections;
  subject_conns =
      Maps.put ℕ_discrete c.subject_id (conns_of c.subject_id e ++ c.id ∷ []) e.subject_conns;
  subject_ips =
      Maps.put ℕ_discrete c.subject_id (add_to_set c.source_ip (ips_of c.subject_id e))
        e.subject_ips;
  subject_devs =
      Maps.put ℕ_discrete c.subject_id (add_to_set c.device_id (devs_of c.subject_id e))
        e.subject_devs;
}

abbrev pub new_connection : ℕ → String → ℕ → String → String → String → Connection
new_connection now conn id device ip protocol = record {
  id = conn;
  subject_id = id;
  device_id = device;
  source_ip = ip;
  protocol = protocol;
  connected_at = now;
  last_seen_at = now;
}

abbrev pub check_policy : Option Policy → ℕ → String → String → Enforcer → Option Violation
check_policy none id device ip e = none
check_policy (some p) id device ip e =
    check_validity p
    or_else check_limits p id device ip e
    or_else check_quota p.quota_bytes p.quota_used_bytes

-- CheckAndRegisterConnection: the violation, if there is one, and the enforcer after it.
unfoldable pub check_and_register :
    ℕ → String → ℕ → String → String → String → Enforcer → Option Violation × Enforcer
check_and_register now conn id device ip protocol e =
    elim (Maps.get String_discrete conn e.connections) [
      | some c ↦ (
        none,
        record e {
          connections =
              Maps.put String_discrete conn (record c { last_seen_at = now }) e.connections;
        },
      )
      | none ↦ elim (check_policy (Maps.get ℕ_discrete id e.policies) id device ip e) [
        | some v ↦ (some v, e)
        | none ↦ (none, insert_connection (new_connection now conn id device ip protocol) e)
      ]
    ]

-- RegisterConnection, with registerConnectionLocked.
unfoldable pub register_connection : ℕ → String → ℕ → String → String → String → Enforcer → Enforcer
register_connection now conn id device ip protocol e =
    elim (Maps.get String_discrete conn e.connections) [
      | some c ↦ e
      | none ↦ insert_connection (new_connection now conn id device ip protocol) e
    ]

-- UpdateLastSeen
unfoldable pub update_last_seen : ℕ → String → Enforcer → Enforcer
update_last_seen now conn e = elim (Maps.get String_discrete conn e.connections) [
  | none ↦ e
  | some c ↦ record e {
    connections = Maps.put String_discrete conn (record c { last_seen_at = now }) e.connections;
  }
]
