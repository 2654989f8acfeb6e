-- ===== src/Panel/Rbac/Grants.antt =====
-- Who is allowed what.
use antimage.Common.{
  ℕ, ℕ_discrete, String, String_discrete, true, none, some, List, [], ◌∷◌, All, contains,
  if◌then◌else◌, ◌≡◌, ◌≢◌, ◌↔◌, ◌⊎◌, refl, arith, Bool-cases, inl, inr, subst, sym,
}
use mathlib.Core.Bool.{false≢true}
use antimage.Panel.Rbac.{
  has_suffix, is_read, admin_role, reseller_role, readonly_role, TargetKind, target_none,
  target_node, target_service, other_target, Target, Actor, check_scope, check_permission,
}

-- The target is inside the scope of the actor.
abbrev pub InScope : Actor → Target → Type 0
InScope a t =
    (a.is_super ≡ true)
    ⊎ (t.kind ≡ target_none)
    ⊎ ((t.kind ≡ target_node) × (contains ℕ_discrete t.id a.node_ids ≡ true))
    ⊎ ((t.kind ≡ target_service) × (contains ℕ_discrete t.id a.service_ids ≡ true))

scope_of_kind :
    (a : Actor) (k : TargetKind) (id : ℕ)
    → ((if a.is_super then none else check_scope a (record { kind = k; id = id })) ≡ none)
      ↔ InScope a (record { kind = k; id = id })
scope_of_kind a target_none id = ground arith
scope_of_kind a target_node id = ground arith
scope_of_kind a target_service id = ground arith
scope_of_kind a (other_target n) id = ground arith

-- For every actor, permission and target, Check passes exactly when the actor holds the permission
-- and is a super admin, or asks for no target, or has the node or service on the allow-list of
-- its kind. So an empty allow-list admits nothing.
pub check_permission-eq-none :
    (a : Actor) (p : String) (t : Target)
    → (check_permission (some a) p t ≡ none)
      ↔ ((contains String_discrete p a.perms ≡ true) × InScope a t)
unfolding check_permission
check_permission-eq-none a p t = elim (Bool-cases (contains String_discrete p a.perms)) [
  | inl e ↦
      let (to, from) = scope_of_kind a t.kind t.id in
      rw (e, check_permission) (λ h. (refl, to h), λ h. from h.1)
  | inr e ↦ rw (e, check_permission) (λ h. cc, λ h. cc)
]

contains-All :
    (P : String → Type 0) (p : String) (xs : List String)
    → All P xs
    → contains String_discrete p xs ≡ true
    → P p
unfolding contains
contains-All P p [] all h = cc
contains-All P p (x ∷ xs) all h = elim (String_discrete p x) [
  | yes e ↦ subst P (sym e) all.0
  | no other ↦ contains-All P p xs all.1 (ground arith)
]

-- Every permission of the built-in role readonly grants reads only.
pub readonly_role-is_read :
    (p : String) → contains String_discrete p readonly_role ≡ true → is_read p ≡ true
unfolding has_suffix String_discrete
readonly_role-is_read p h =
    contains-All (λ q. is_read q ≡ true) p readonly_role (refl, (refl, (refl, (refl, (refl, tt)))))
      h

-- No permission of the built-in role reseller is one on resellers or on credit, and no permission
-- of the built-in role admin is that on credit.
pub builtin_roles-withhold :
    (p q : String)
    → contains String_discrete p reseller_role ≡ true
    → contains String_discrete q admin_role ≡ true
    → (p ≢ "reseller:read") × (p ≢ "reseller:write") × (p ≢ "credit:grant") × (q ≢ "credit:grant")
unfolding contains String_discrete
builtin_roles-withhold p q h k = (
  λ e. false≢true (rw e at h),
  λ e. false≢true (rw e at h),
  λ e. false≢true (rw e at h),
  λ e. false≢true (rw e at k),
)
