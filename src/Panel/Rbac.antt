-- ===== src/Panel/Rbac.antt =====
-- internal/panel/rbac/perm.go and authz.go: permissions, roles and the check of every handler. A
-- permission is a text; a set is a list; `none` is the nil error.
pub mod Grants
use antimage.Common.{
  ℕ, ℕ_discrete, String, String_discrete, Bool, true, false, Option, none, some, List, [], ◌∷◌, ite,
  contains, if◌then◌else◌,
}
use Prim.Native.String

-- strings.HasSuffix
unfoldable pub has_suffix : String → String → Bool
unfolding String_discrete
has_suffix suffix String.[] = ite (String_discrete suffix "") true false
has_suffix suffix (String.◌∷◌ c s) =
    let rest = has_suffix suffix s in ite (String_discrete (String.◌∷◌ c s) suffix) true rest

-- Permission.IsRead
abbrev pub is_read : String → Bool
is_read p = has_suffix ":read" p

-- AllPermissions
abbrev pub all_permissions : List String
all_permissions =
    "node:read" ∷ "node:write" ∷ "node:enroll" ∷ "service:read" ∷ "service:write" ∷ "subject:read"
    ∷ "subject:write" ∷ "credential:reveal" ∷ "admin:manage" ∷ "role:manage" ∷ "audit:read"
    ∷ "settings:write" ∷ "alert:read" ∷ "reseller:read" ∷ "reseller:write" ∷ "credit:grant"
    ∷ "outbound:read" ∷ "outbound:write" ∷ []

-- BuiltinRoles, by the name of the role.
abbrev pub admin_role : List String
admin_role =
    "node:read" ∷ "node:write" ∷ "node:enroll" ∷ "service:read" ∷ "service:write" ∷ "subject:read"
    ∷ "subject:write" ∷ "credential:reveal" ∷ "audit:read" ∷ "alert:read" ∷ "reseller:read"
    ∷ "reseller:write" ∷ "outbound:read" ∷ "outbound:write" ∷ []

abbrev pub reseller_role : List String
reseller_role =
    "node:read" ∷ "service:read" ∷ "service:write" ∷ "subject:read" ∷ "subject:write"
    ∷ "credential:reveal" ∷ "alert:read" ∷ "outbound:read" ∷ []

abbrev pub readonly_role : List String
readonly_role = "node:read" ∷ "service:read" ∷ "subject:read" ∷ "alert:read" ∷ "outbound:read" ∷ []

-- TargetKind; an int can have other values.
pub data TargetKind : Type 0 where
  target_none target_node target_service : TargetKind
  other_target : ℕ → TargetKind

pub record Target : Type 0 where
  pub kind : TargetKind
  pub id : ℕ

pub record Actor : Type 0 where
  pub admin_id : ℕ
  pub role_name : String
  pub is_super : Bool
  pub perms : List String
  pub node_ids : List ℕ
  pub service_ids : List ℕ

pub data Forbidden : Type 0 where
  forbidden : Forbidden

-- The scope that the allow-lists give.
abbrev pub check_scope : Actor → Target → Option Forbidden
check_scope a t = elim t.kind [
  | target_none ↦ none
  | target_node ↦ if contains ℕ_discrete t.id a.node_ids then none else some forbidden
  | target_service ↦ if contains ℕ_discrete t.id a.service_ids then none else some forbidden
  | other_target n ↦ some forbidden
]

-- Check
unfoldable pub check_permission : Option Actor → String → Target → Option Forbidden
check_permission none p t = some forbidden
check_permission (some a) p t = elim (contains String_discrete p a.perms) [
  | false ↦ some forbidden
  | true ↦ if a.is_super then none else check_scope a t
]
