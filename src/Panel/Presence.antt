-- ===== src/Panel/Presence.antt =====
-- internal/panel/nodes/convergence.go and registry.go: what a node's hello and heartbeat write.
-- The health samples themselves (node_health) are rows that no decision reads.
use antimage.Common.{ℕ, String, String_discrete, Bool, Option, none, some, List, [], ◌∷◌, map}
use antimage.Common.Maps
use antimage.NodeStatus.{Status, pending, enrolling, online, offline}
use antimage.Panel.Db.{
  Db, AdapterEntry, Result, ok, err, write, no_such_node, registry_key, get_node, update_node,
}

-- AdapterInfo
pub record AdapterInfo : Type 0 where
  pub kind : String
  pub version : String
  pub capabilities : List String
  pub service_schema : String
  pub hot_user_add : Bool
  pub self_accounting : Bool
  pub requires_pki : Bool

-- CASE WHEN status IN ('pending','enrolling','offline') THEN 'online' ELSE status END
unfoldable pub hello_status : Status → Status
hello_status pending = online
hello_status enrolling = online
hello_status offline = online
hello_status s = s

-- CASE WHEN status = 'offline' THEN 'online' ELSE status END
unfoldable pub heartbeat_status : Status → Status
heartbeat_status offline = online
heartbeat_status s = s

-- `if len(info.ServiceSchema) > 0 { schema = … }`: otherwise the column is written as NULL.
schema_column : String → Option String
unfolding String_discrete
schema_column s = elim (String_discrete s "") [ yes h ↦ none | no h ↦ some s ]

-- COALESCE(excluded.service_schema, adapter_registry.service_schema)
coalesce : Option String → Option String → Option String
coalesce (some s) stored = some s
coalesce none stored = stored

stored_schema : Option AdapterEntry → Option String
stored_schema none = none
stored_schema (some e) = e.service_schema

abbrev reported : AdapterInfo → ℕ → Option String → AdapterEntry
reported info now schema = record {
  version = info.version;
  capabilities = info.capabilities;
  reported_at = now;
  service_schema = schema;
  hot_user_add = info.hot_user_add;
  self_accounting = info.self_accounting;
  requires_pki = info.requires_pki;
}

-- UpsertAdapter; the row refers to its node.
unfoldable pub upsert_adapter : {C : Type 0} → ℕ → AdapterInfo → ℕ → Db C → Result (Unit {0} × Db C)
unfolding schema_column coalesce stored_schema
upsert_adapter node info now db =
    let old = Maps.get registry_key (node, info.kind) db.registry in
    let entry =
      reported info now (coalesce (schema_column info.service_schema) (stored_schema old)) in
    elim (get_node node db) [
      | none ↦ err no_such_node
      | some n ↦
          ok
            (tt, record db { registry = Maps.put registry_key (node, info.kind) entry db.registry })
    ]

-- The loop over the adapters; each has a transaction of its own, and the first error ends it.
unfoldable pub upsert_adapters :
    {C : Type 0} → ℕ → List AdapterInfo → ℕ → Db C → Result (Unit {0}) × Db C
upsert_adapters node [] now db = (ok tt, db)
upsert_adapters node (a ∷ rest) now db =
    let (r, db') = write (upsert_adapter node a now) db in
    let others = upsert_adapters node rest now db' in
    elim r [ ok u ↦ others | err e ↦ (err e, db') ]

-- RecordHello
unfoldable pub record_hello :
    {C : Type 0} → ℕ → List AdapterInfo → ℕ → Db C → Result (Unit {0}) × Db C
record_hello node adapters now db = upsert_adapters node adapters now (
    update_node node
      (λ n. record n {
        adapter_kinds = map (λ a. a.kind) adapters;
        last_seen_at = some now;
        status = hello_status n.status;
      })
      db)

-- RecordHeartbeat; the sample's row refers to its node.
unfoldable pub heartbeat_tx : {C : Type 0} → ℕ → ℕ → Db C → Result (Unit {0} × Db C)
heartbeat_tx node now db = elim (get_node node db) [
  | none ↦ err no_such_node
  | some n ↦ ok (
    tt,
    update_node node (λ n. record n { last_seen_at = some now; status = heartbeat_status n.status })
        db,
  )
]

unfoldable pub record_heartbeat : {C : Type 0} → ℕ → ℕ → Db C → Result (Unit {0}) × Db C
record_heartbeat node now db = write (heartbeat_tx node now) db
