-- ===== src/Agent/Enforcement/Removal.antt =====
-- internal/node/enforcement/enforcement.go: how connections end, and the update of the policies.
use antimage.Common.{
  contains, zero, suc, ◌-◌, leb, ℕ, zero, suc, ◌+◌, ◌-◌, ℕ_discrete, String, String_discrete,
  Option, none, some, List, [], ◌∷◌, ite, length, ltb, leb, if◌then◌else◌,
}
use antimage.Common.Int.{pos, negsuc, ℤ, pos, negsuc}
use antimage.Common.Maps
use antimage.Agent.Enforcement.{Policy, Connection, Enforcer, conns_of, add_to_set}

-- `append(conns[:i], conns[i+1:]...)` at the first equal entry.
unfoldable pub remove_first : String → List String → List String
remove_first conn [] = []
remove_first conn (c ∷ rest) =
    let others = remove_first conn rest in ite (String_discrete c conn) rest (c ∷ others)

-- An entry of an index that became empty is deleted.
abbrev pub store_index : ℕ → List String → List (ℕ × List String) → List (ℕ × List String)
store_index id [] m = Maps.delete ℕ_discrete id m
store_index id (x ∷ xs) m = Maps.put ℕ_discrete id (x ∷ xs) m

-- removeSubjectConnLocked; without the entry nothing changes.
unfoldable pub remove_subject_conn : ℕ → String → Enforcer → Enforcer
remove_subject_conn id conn e = elim (Maps.get ℕ_discrete id e.subject_conns) [
  | none ↦ e
  | some conns ↦
      if contains String_discrete conn conns
      then record e { subject_conns = store_index id (remove_first conn conns) e.subject_conns }
      else e
]

-- The set of a field over the connections that are still there.
unfoldable pub collect :
    (Connection → String) → List String → List (String × Connection) → List String → List String
collect field [] m acc = acc
collect field (c ∷ rest) m acc = elim (Maps.get String_discrete c m) [
  | none ↦ collect field rest m acc
  | some conn ↦ collect field rest m (add_to_set (field conn) acc)
]

-- rebuildIPIndexLocked
unfoldable pub rebuild_ip_index : ℕ → Enforcer → Enforcer
rebuild_ip_index id e = record e {
  subject_ips =
      store_index id (collect (λ c. c.source_ip) (conns_of id e) e.connections []) e.subject_ips;
}

-- rebuildDeviceIndexLocked
unfoldable pub rebuild_device_index : ℕ → Enforcer → Enforcer
rebuild_device_index id e = record e {
  subject_devs =
      store_index id (collect (λ c. c.device_id) (conns_of id e) e.connections []) e.subject_devs;
}

-- UnregisterConnection
unfoldable pub unregister_connection : String → Enforcer → Enforcer
unregister_connection conn e = elim (Maps.get String_discrete conn e.connections) [
  | none ↦ e
  | some c ↦
      let gone = record e { connections = Maps.delete String_discrete conn e.connections } in
      rebuild_device_index c.subject_id
        (rebuild_ip_index c.subject_id (remove_subject_conn c.subject_id conn gone))
]

unfoldable pub stale : ℕ → ℕ → List (String × Connection) → List String
stale now threshold [] = []
stale now threshold (entry ∷ rest) =
    let others = stale now threshold rest in
    if ltb (entry.1.last_seen_at + threshold) now then entry.0 ∷ others else others

-- A missing entry reads as the zero Connection. The second loop of CleanupStale, and the loop of enforceConnectionLimitLocked.
unfoldable pub drop_connections : List String → Enforcer → Enforcer
drop_connections [] e = e
drop_connections (conn ∷ rest) e = elim (Maps.get String_discrete conn e.connections) [
  | none ↦ drop_connections rest (remove_subject_conn 0 conn e)
  | some c ↦ drop_connections rest (
      remove_subject_conn c.subject_id conn
        (record e { connections = Maps.delete String_discrete conn e.connections }))
]

-- `affected`: the subjects of those removed connections that are found in `e.connections`.
unfoldable pub affected : List String → Enforcer → List ℕ
affected [] e = []
affected (conn ∷ rest) e = elim (Maps.get String_discrete conn e.connections) [
  | none ↦ affected rest e
  | some c ↦ c.subject_id ∷ affected rest e
]

unfoldable pub rebuild_all : List ℕ → Enforcer → Enforcer
rebuild_all [] e = e
rebuild_all (id ∷ rest) e = rebuild_all rest (rebuild_device_index id (rebuild_ip_index id e))

-- CleanupStale
unfoldable pub cleanup_stale : ℕ → ℕ → Enforcer → ℕ × Enforcer
cleanup_stale now threshold e =
    let removed = stale now threshold e.connections in
    let dropped = drop_connections removed e in
    (length removed, rebuild_all (affected removed dropped) dropped)

unfoldable pub delete_connections :
    List String → List (String × Connection) → List (String × Connection)
delete_connections [] m = m
delete_connections (conn ∷ rest) m = delete_connections rest (Maps.delete String_discrete conn m)

-- terminateSubjectLocked
unfoldable pub terminate_subject : ℕ → Enforcer → Enforcer
terminate_subject id e = record e {
  connections = delete_connections (conns_of id e) e.connections;
  subject_conns = Maps.delete ℕ_discrete id e.subject_conns;
  subject_ips = Maps.delete ℕ_discrete id e.subject_ips;
  subject_devs = Maps.delete ℕ_discrete id e.subject_devs;
}

-- The connections of a subject that are there, with the times of their start.
unfoldable pub with_times : List String → List (String × Connection) → List (String × ℕ)
with_times [] m = []
with_times (conn ∷ rest) m =
    let others = with_times rest m in
    elim (Maps.get String_discrete conn m) [
      | none ↦ others
      | some c ↦ (conn, c.connected_at) ∷ others
    ]

-- One run of the inner loop: the entry at `i` is exchanged with each later one that is older.
unfoldable pub exchange : String × ℕ → List (String × ℕ) → (String × ℕ) × List (String × ℕ)
exchange x [] = (x, [])
exchange x (y ∷ rest) =
    let older = exchange y rest in
    let same = exchange x rest in
    if ltb y.1 x.1 then (older.0, x ∷ older.1) else (same.0, y ∷ same.1)

-- The outer loop, with as many turns as there are entries.
unfoldable pub exchange_sort : ℕ → List (String × ℕ) → List (String × ℕ)
exchange_sort zero xs = xs
exchange_sort (suc n) [] = []
exchange_sort (suc n) (x ∷ rest) =
    let (least, others) = exchange x rest in least ∷ exchange_sort n others

abbrev pub first_ids : ℕ → List (String × ℕ) → List String
first_ids zero xs = []
first_ids (suc n) [] = []
first_ids (suc n) (x ∷ rest) = x.0 ∷ first_ids n rest

-- enforceConnectionLimitLocked
unfoldable pub enforce_connection_limit : ℕ → Option ℤ → Enforcer → Enforcer
enforce_connection_limit id none e = e
enforce_connection_limit id (some (negsuc n)) e = terminate_subject id e
enforce_connection_limit id (some (pos limit)) e =
    if leb (length (conns_of id e)) limit
    then e
    else let conns = with_times (conns_of id e) e.connections in
      let oldest = first_ids (length conns - limit) (exchange_sort (length conns) conns) in
      rebuild_device_index id (rebuild_ip_index id (drop_connections oldest e))

unfoldable pub index_policies : List Policy → List (ℕ × Policy) → List (ℕ × Policy)
index_policies [] m = m
index_policies (p ∷ rest) m = index_policies rest (Maps.put ℕ_discrete p.subject_id p m)

-- The loop over the old policies.
unfoldable pub terminate_removed : List (ℕ × Policy) → List (ℕ × Policy) → Enforcer → Enforcer
terminate_removed [] new e = e
terminate_removed (old ∷ rest) new e = elim (Maps.get ℕ_discrete old.0 new) [
  | some p ↦ terminate_removed rest new e
  | none ↦ terminate_removed rest new (terminate_subject old.0 e)
]

-- The loop over the new policies.
unfoldable pub enforce_all : List (ℕ × Policy) → Enforcer → Enforcer
enforce_all [] e = e
enforce_all (new ∷ rest) e =
    enforce_all rest (enforce_connection_limit new.0 new.1.max_connections e)

-- UpdatePolicies
unfoldable pub update_policies : List Policy → Enforcer → Enforcer
update_policies policies e =
    let new = index_policies policies [] in
    enforce_all new (record (terminate_removed e.policies new e) { policies = new })

-- GetSpeedLimits
abbrev pub get_speed_limits : ℕ → Enforcer → Option ℤ × Option ℤ
get_speed_limits id e = elim (Maps.get ℕ_discrete id e.policies) [
  | none ↦ (none, none)
  | some p ↦ (p.speed_limit_up_kbps, p.speed_limit_down_kbps)
]

-- The loop of GetActiveConnections.
unfoldable pub found_connections : List String → List (String × Connection) → List Connection
found_connections [] m = []
found_connections (conn ∷ rest) m =
    let others = found_connections rest m in
    elim (Maps.get String_discrete conn m) [ none ↦ others | some c ↦ c ∷ others ]

-- GetActiveConnections
unfoldable pub get_active_connections : ℕ → Enforcer → List Connection
get_active_connections id e = found_connections (conns_of id e) e.connections
