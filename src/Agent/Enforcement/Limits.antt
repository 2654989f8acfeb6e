-- ===== src/Agent/Enforcement/Limits.antt =====
-- CheckAndRegisterConnection of internal/node/enforcement/enforcement.go, against the limits.
use antimage.Common.{
  length-append, ℕ, ◌+◌, ℕ_discrete, String, String_discrete, true, Option, none, some, List, [],
  ◌∷◌, ◌++◌, length, contains, ◌≡◌, ◌⊎◌, refl, arith, Option-cases, Bool-cases, inl, inr,
}
use antimage.Common.Int.{ℤ, pos, ◌≤ℤ◌}
use antimage.Common.Maps
use antimage.Agent.Enforcement.{
  check_devices, check_ips, check_connections, check_quota, check_limits, check_validity, ◌or_else◌,
  add_to_set, Policy, Connection, Enforcer, Violation, conns_of, ips_of, devs_of, check_policy,
  check_and_register, insert_connection, new_connection,
}

-- A number of things within a limit, if there is one.
abbrev pub Within : Option ℤ → ℕ → Type 0
Within none n = Unit
Within (some m) n = pos n ≤ℤ m

-- The quota and the usage are set, and the usage has reached the quota.
abbrev pub Exhausted : Option ℤ → Option ℤ → Type 0
Exhausted total used = (u t : ℤ) × (used ≡ some u) × (total ≡ some t) × (t ≤ℤ u)

-- A call of CheckAndRegisterConnection that reports a violation changes nothing.
pub check_and_register-violation :
    (now : ℕ) (conn : String) (id : ℕ) (device ip protocol : String) (e : Enforcer) (v : Violation)
    → (check_and_register now conn id device ip protocol e).0 ≡ some v
    → (check_and_register now conn id device ip protocol e).1 ≡ e
unfolding check_and_register
check_and_register-violation now conn id device ip protocol e v h =
    elim (Option-cases (Maps.get String_discrete conn e.connections)) [
      | inr (c, known) ↦ absurd (cc (rw (known, check_and_register) at h))
      | inl fresh ↦
          elim (Option-cases (check_policy (Maps.get ℕ_discrete id e.policies) id device ip e)) [
            | inl passes ↦
                absurd
                  (cc (rw (passes, check_and_register) at (rw (fresh, check_and_register) at h)))
            | inr (x, refused) ↦
                rw (fresh, check_and_register) (rw (refused, check_and_register) refl)
          ]
    ]

or_else-none : (a b : Option Violation) → (a or_else b) ≡ none → (a ≡ none) × (b ≡ none)
or_else-none none b h = (refl, h)
or_else-none (some v) b h = cc

check_devices-none :
    (limit : Option ℤ) (devices : List String) (device : String)
    → check_devices limit devices device ≡ none
    → Within limit (length devices + 1) ⊎ (contains String_discrete device devices ≡ true)
check_devices-none none devices device h = inl tt
check_devices-none (some m) devices device h = ground arith

check_ips-none :
    (limit : Option ℤ) (ips : List String) (ip : String)
    → check_ips limit ips ip ≡ none
    → Within limit (length ips + 1) ⊎ (contains String_discrete ip ips ≡ true)
check_ips-none none ips ip h = inl tt
check_ips-none (some m) ips ip h = ground arith

check_connections-none :
    (limit : Option ℤ) (conns : List String)
    → check_connections limit conns ≡ none
    → Within limit (length conns + 1)
check_connections-none none conns h = tt
check_connections-none (some m) conns h = ground arith

check_quota-none : (total used : Option ℤ) → check_quota total used ≡ none → ¬ Exhausted total used
check_quota-none none used h (u, t, eu, et, le) = cc
check_quota-none (some total) none h (u, t, eu, et, le) = cc
check_quota-none (some total) (some used) h (u, t, eu, et, le) = ground arith

-- What is left of the limits of a policy before a connection is registered.
abbrev pub HasRoom : Policy → ℕ → String → String → Enforcer → Type 0
HasRoom p id device ip e =
    Within p.max_connections (length (conns_of id e) + 1)
    × (Within p.max_ips (length (ips_of id e) + 1)
        ⊎ (contains String_discrete ip (ips_of id e) ≡ true))
    × (Within p.max_devices (length (devs_of id e) + 1)
        ⊎ (contains String_discrete device (devs_of id e) ≡ true))
    × (¬ Exhausted p.quota_bytes p.quota_used_bytes)

check_policy-HasRoom :
    (p : Policy) (id : ℕ) (device ip : String) (e : Enforcer)
    → check_policy (some p) id device ip e ≡ none
    → HasRoom p id device ip e
check_policy-HasRoom p id device ip e h =
    let (_, rest) = or_else-none (check_validity p) _ h in
    let (limits, quota) = or_else-none (check_limits p id device ip e) _ rest in
    let (devices, others) =
      or_else-none (check_devices p.max_devices (devs_of id e) device) _ limits in
    let (ips, conns) = or_else-none (check_ips p.max_ips (ips_of id e) ip) _ others in
    (
      check_connections-none p.max_connections (conns_of id e) conns,
      check_ips-none p.max_ips (ips_of id e) ip ips,
      check_devices-none p.max_devices (devs_of id e) device devices,
      check_quota-none p.quota_bytes p.quota_used_bytes quota,
    )

-- After a connection was registered: sets of addresses and devices that are above their limits have
-- not changed.
abbrev pub HasNotGrown : Policy → ℕ → Enforcer → Enforcer → Type 0
HasNotGrown p id e after =
    Within p.max_connections (length (conns_of id after))
    × (Within p.max_ips (length (ips_of id after)) ⊎ (ips_of id after ≡ ips_of id e))
    × (Within p.max_devices (length (devs_of id after)) ⊎ (devs_of id after ≡ devs_of id e))
    × (¬ Exhausted p.quota_bytes p.quota_used_bytes)

conns_of-insert_connection :
    (c : Connection) (e : Enforcer)
    → conns_of c.subject_id (insert_connection c e) ≡ conns_of c.subject_id e ++ c.id ∷ []
unfolding insert_connection
conns_of-insert_connection c e = ground (
  arith,
  Maps.get-put ℕ_discrete c.subject_id c.subject_id (conns_of c.subject_id e ++ c.id ∷ [])
      e.subject_conns,
)

ips_of-insert_connection :
    (c : Connection) (e : Enforcer)
    → ips_of c.subject_id (insert_connection c e) ≡ add_to_set c.source_ip (ips_of c.subject_id e)
unfolding insert_connection
ips_of-insert_connection c e = ground (
  arith,
  Maps.get-put ℕ_discrete c.subject_id c.subject_id (add_to_set c.source_ip (ips_of c.subject_id e))
      e.subject_ips,
)

devs_of-insert_connection :
    (c : Connection) (e : Enforcer)
    → devs_of c.subject_id (insert_connection c e) ≡ add_to_set c.device_id (devs_of c.subject_id e)
unfolding insert_connection
devs_of-insert_connection c e = ground (
  arith,
  Maps.get-put ℕ_discrete c.subject_id c.subject_id
      (add_to_set c.device_id (devs_of c.subject_id e)) e.subject_devs,
)

Within-append :
    (limit : Option ℤ) (xs : List String) (x : String)
    → Within limit (length xs + 1)
    → Within limit (length (xs ++ x ∷ []))
Within-append none xs x h = tt
Within-append (some m) xs x h = rw (length-append xs (x ∷ [])) h

Within-add_to_set :
    (limit : Option ℤ) (xs : List String) (x : String)
    → Within limit (length xs + 1) ⊎ (contains String_discrete x xs ≡ true)
    → Within limit (length (add_to_set x xs)) ⊎ (add_to_set x xs ≡ xs)
Within-add_to_set limit xs x h = elim (Bool-cases (contains String_discrete x xs)) [
  | inl e ↦ inr (rw e refl)
  | inr e ↦ elim h [
    | inl room ↦ inl (rw e (Within-append limit xs x room))
    | inr member ↦ absurd (cc (e, member))
  ]
]

insert_connection-HasNotGrown :
    (p : Policy) (c : Connection) (e : Enforcer)
    → HasRoom p c.subject_id c.device_id c.source_ip e
    → HasNotGrown p c.subject_id e (insert_connection c e)
insert_connection-HasNotGrown p c e room =
    rw (conns_of-insert_connection c e, ips_of-insert_connection c e, devs_of-insert_connection c e)
      (
        Within-append p.max_connections (conns_of c.subject_id e) c.id room.0,
        Within-add_to_set p.max_ips (ips_of c.subject_id e) c.source_ip room.1,
        Within-add_to_set p.max_devices (devs_of c.subject_id e) c.device_id room.2,
        room.3,
      )

check_and_register-HasNotGrown :
    (now : ℕ) (conn : String) (id : ℕ) (device ip protocol : String) (e : Enforcer) (p : Policy)
    → Maps.get String_discrete conn e.connections ≡ none
    → Maps.get ℕ_discrete id e.policies ≡ some p
    → (check_and_register now conn id device ip protocol e).0 ≡ none
    → HasNotGrown p id e (check_and_register now conn id device ip protocol e).1
unfolding check_and_register
check_and_register-HasNotGrown now conn id device ip protocol e p fresh has h =
    elim (Option-cases (check_policy (Maps.get ℕ_discrete id e.policies) id device ip e)) [
      | inr (v, refused) ↦
          absurd (cc (rw (refused, check_and_register) at (rw (fresh, check_and_register) at h)))
      | inl passes ↦
          let room = check_policy-HasRoom p id device ip e (rw has at passes) in
          rw (fresh, check_and_register)
            (rw (passes, check_and_register)
              (insert_connection-HasNotGrown p (new_connection now conn id device ip protocol) e
                room))
    ]

-- The subject's connections, addresses and devices are within the limits of the policy, and its quota
-- is not used up.
abbrev pub IsWithin : Policy → ℕ → Enforcer → Type 0
IsWithin p id e =
    Within p.max_connections (length (conns_of id e))
    × Within p.max_ips (length (ips_of id e))
    × Within p.max_devices (length (devs_of id e))
    × (¬ Exhausted p.quota_bytes p.quota_used_bytes)

still-Within :
    (limit : Option ℤ) (old new : List String)
    → Within limit (length old)
    → Within limit (length new) ⊎ (new ≡ old)
    → Within limit (length new)
still-Within limit old new before (inl within) = within
still-Within limit old new before (inr same) = rw same before

-- When CheckAndRegisterConnection accepts a connection that was not known, of a subject with a policy
-- whose addresses and devices were within the limits on them, then afterwards the subject's
-- connections, addresses and devices are within the limits of the policy, and its quota was not
-- used up. A limit that is not set admits any number.
pub check_and_register-IsWithin :
    (now : ℕ) (conn : String) (id : ℕ) (device ip protocol : String) (e : Enforcer) (p : Policy)
    → Maps.get String_discrete conn e.connections ≡ none
    → Maps.get ℕ_discrete id e.policies ≡ some p
    → Within p.max_ips (length (ips_of id e))
    → Within p.max_devices (length (devs_of id e))
    → (check_and_register now conn id device ip protocol e).0 ≡ none
    → IsWithin p id (check_and_register now conn id device ip protocol e).1
check_and_register-IsWithin now conn id device ip protocol e p fresh has ips_before devs_before h =
    let after = (check_and_register now conn id device ip protocol e).1 in
    let (conns, ips, devs, quota) =
      check_and_register-HasNotGrown now conn id device ip protocol e p fresh has h in
    (
      conns,
      still-Within p.max_ips (ips_of id e) (ips_of id after) ips_before ips,
      still-Within p.max_devices (devs_of id e) (devs_of id after) devs_before devs,
      quota,
    )
