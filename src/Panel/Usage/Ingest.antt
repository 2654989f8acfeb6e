-- ===== src/Panel/Usage/Ingest.antt =====
-- internal/panel/nodes/accounting.go: IngestUsageReport, resolveService, activateIfOnHold and
-- PruneUsageDeltas, each as the function of its transaction.
use antimage.Common.{
  ℕ, ◌+◌, ◌-◌, ◌%◌, ◌^◌, ◌==◌, Bool, true, false, Option, none, some, List, [], ◌∷◌, ◌++◌, ite,
  if◌then◌else◌, ℕ_discrete, contains, ltb, ◌&&◌, suc,
}
use antimage.Common.Maps
use antimage.Common.Outcome.{Outcome, ok, err, ◌>>=◌, ◌>>◌, ◌refuses◌}
use antimage.Panel.Usage.Tables.{
  Delta, Subject, Usage, UsageError, constraint, high_bit, overflow, int64,
}

-- UsageDelta
pub record UsageDelta : Type 0 where
  pub subject_id : ℕ
  pub service_id : ℕ
  pub uplink_bytes : ℕ
  pub downlink_bytes : ℕ

-- SELECT 1 FROM usage_deltas WHERE node_id = ? AND sequence = ?
unfoldable pub has_report : ℕ → ℕ → List Delta → Bool
has_report node sequence [] = false
has_report node sequence (d ∷ rest) =
    let others = has_report node sequence rest in
    if d.node_id == node && (d.sequence == sequence) then true else others

-- resolveService
abbrev pub resolve_service : ℕ → ℕ → Usage → Option ℕ
resolve_service node reported db =
    if reported == 0 then none else elim (Maps.get ℕ_discrete reported db.services) [
      | none ↦ none
      | some owner ↦ if owner == node then some reported else none
    ]

-- UNIQUE (node_id, sequence, subject_id, service_id), in which NULL differs from NULL.
abbrev pub same_service : Option ℕ → Option ℕ → Bool
same_service (some a) (some b) = a == b
same_service _ _ = false

unfoldable pub is_taken : ℕ → ℕ → ℕ → Option ℕ → List Delta → Bool
is_taken node sequence subject service [] = false
is_taken node sequence subject service (d ∷ rest) =
    let others = is_taken node sequence subject service rest in
    if d.node_id == node
      && (d.sequence == sequence)
      && (d.subject_id == subject)
      && same_service d.service_id service
    then true
    else others

-- UPDATE subjects SET … WHERE id = ?
unfoldable pub set_subject : ℕ → (Subject → Subject) → List (ℕ × Subject) → List (ℕ × Subject)
unfolding ℕ_discrete
set_subject id change [] = []
set_subject id change (s ∷ rest) =
    let others = set_subject id change rest in
    ite (ℕ_discrete s.0 id) ((s.0, change s.1) ∷ others) (s ∷ others)

-- activateIfOnHold
abbrev pub activated : Bool → ℕ → Subject → Subject
activated used now s =
    if used
    then (elim s.on_hold_seconds [
      | none ↦ s
      | some seconds ↦ record s {
        expires_at = some (now + seconds);
        on_hold_seconds = none;
        status_changed_at = some now;
      }
    ])
    else s

-- sample.UplinkBytes+sample.DownlinkBytes
abbrev pub total_bytes : UsageDelta → ℕ
total_bytes s = (s.uplink_bytes + s.downlink_bytes) % 2 ^ 64

abbrev pub row_of : ℕ → ℕ → ℕ → UsageDelta → Usage → Delta
row_of node sequence now s db = record {
  id = suc db.last_id;
  node_id = node;
  subject_id = s.subject_id;
  service_id = resolve_service node s.service_id db;
  sequence = sequence;
  uplink_bytes = s.uplink_bytes;
  downlink_bytes = s.downlink_bytes;
  created_at = now;
}

-- The INSERT of a delta.
unfoldable pub insert_delta : ℕ → ℕ → ℕ → UsageDelta → Usage → Outcome UsageError Usage
unfolding contains
insert_delta node sequence now s db = do
  _ ← int64 high_bit s.uplink_bytes
  _ ← int64 high_bit s.downlink_bytes
  (if contains ℕ_discrete node db.nodes then false else true) refuses constraint "node_id"
  elim (Maps.get ℕ_discrete s.subject_id db.subjects) [
    | none ↦ err (constraint "subject_id")
    | some row ↦ do
      is_taken node sequence s.subject_id (resolve_service node s.service_id db) db.deltas
          refuses constraint "UNIQUE (node_id, sequence, subject_id, service_id)"
      ok (record db {
        deltas = db.deltas ++ row_of node sequence now s db ∷ [];
        last_id = suc db.last_id;
      })
  ]

-- The two UPDATEs of a sample's subject.
abbrev pub count_bytes : UsageDelta → ℕ → Subject → Subject
count_bytes s now row =
    activated (ltb 0 (total_bytes s)) now
      (record row { quota_used_bytes = row.quota_used_bytes + total_bytes s })

unfoldable pub update_subject : ℕ → UsageDelta → Usage → Outcome UsageError Usage
update_subject now s db = do
  _ ← int64 high_bit (total_bytes s)
  elim (Maps.get ℕ_discrete s.subject_id db.subjects) [
    | none ↦ ok db
    | some row ↦ do
      _ ← int64 overflow (row.quota_used_bytes + total_bytes s)
      ok (record db { subjects = set_subject s.subject_id (count_bytes s now) db.subjects })
  ]

-- The loop over the samples.
unfoldable pub apply_samples : ℕ → ℕ → ℕ → List UsageDelta → Usage → Outcome UsageError Usage
apply_samples node sequence now [] db = ok db
apply_samples node sequence now (s ∷ rest) db =
    insert_delta node sequence now s db
    >>= (λ db₁. update_subject now s db₁ >>= (λ db₂. apply_samples node sequence now rest db₂))

-- IngestUsageReport
unfoldable pub ingest : ℕ → ℕ → List UsageDelta → ℕ → Usage → Outcome UsageError Usage
ingest node sequence samples now db =
    if has_report node sequence db.deltas then ok db else apply_samples node sequence now samples db

-- PruneUsageDeltas, where the retention is not longer than the time since the epoch; the number
-- of rows that it returns is for the log.
unfoldable pub older_deleted : ℕ → List Delta → List Delta
older_deleted cutoff [] = []
older_deleted cutoff (d ∷ rest) =
    let others = older_deleted cutoff rest in if ltb d.created_at cutoff then others else d ∷ others

abbrev pub prune : ℕ → ℕ → Usage → Usage
prune retention now db = record db { deltas = older_deleted (now - retention) db.deltas }
