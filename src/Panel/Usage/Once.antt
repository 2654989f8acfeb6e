-- ===== src/Panel/Usage/Once.antt =====
-- What an accepted report adds, and which reports are refused: internal/panel/nodes/accounting.go.
use antimage.Common.{
  ℕ, ◌+◌, ◌%◌, ◌^◌, ◌==◌, ◌≡◌, refl, sym, arith, true, false, Option, none, some, List, [], ◌∷◌,
  ◌++◌, ite, if◌then◌else◌, ℕ_discrete, ◌&&◌, inl, inr,
}
use antimage.Common.Maps
use antimage.Common.Outcome.{ok, err, ok-injective, Outcome-cases}
use antimage.Panel.Usage.Tables.{Delta, Subject, Usage, UsageError}
use antimage.Panel.Usage.Ingest.{
  UsageDelta, has_report, is_taken, resolve_service, row_of, total_bytes, set_subject, count_bytes,
  apply_samples, ingest, same_service,
}
use antimage.Panel.Usage.Counted.{Step, counted, apply_samples-ok}
use mathlib.Core.Option

is_taken-append :
    (node sequence subject : ℕ) (service : Option ℕ) (deltas : List Delta) (d : Delta)
    → is_taken node sequence subject service (deltas ++ d ∷ []) ≡ (
        if is_taken node sequence subject service deltas
        then true
        else if d.node_id == node
            && (d.sequence == sequence)
            && (d.subject_id == subject)
            && same_service d.service_id service
        then true
        else false)
unfolding is_taken
is_taken-append node sequence subject service [] d = refl
is_taken-append node sequence subject service (x ∷ deltas) d =
    ground (arith, is_taken-append node sequence subject service deltas d)

-- The bytes that samples, deltas and the counter have for a subject.
unfoldable pub reported_bytes : ℕ → List UsageDelta → ℕ
unfolding ℕ_discrete
reported_bytes subject [] = 0
reported_bytes subject (s ∷ rest) =
    let others = reported_bytes subject rest in
    ite (ℕ_discrete subject s.subject_id) (s.uplink_bytes + s.downlink_bytes + others) others

unfoldable pub stored_bytes : ℕ → List Delta → ℕ
unfolding ℕ_discrete
stored_bytes subject [] = 0
stored_bytes subject (d ∷ rest) =
    let others = stored_bytes subject rest in
    ite (ℕ_discrete subject d.subject_id) (d.uplink_bytes + d.downlink_bytes + others) others

abbrev pub used_by : Option Subject → ℕ
used_by none = 0
used_by (some s) = s.quota_used_bytes

abbrev pub used_bytes : ℕ → Usage → ℕ
used_bytes subject db = used_by (Maps.get ℕ_discrete subject db.subjects)

stored_bytes-append :
    (subject : ℕ) (deltas : List Delta) (d : Delta)
    → stored_bytes subject (deltas ++ d ∷ [])
      ≡ stored_bytes subject deltas
        + ite (ℕ_discrete subject d.subject_id) (d.uplink_bytes + d.downlink_bytes) 0
unfolding stored_bytes
stored_bytes-append subject [] d = ground arith
stored_bytes-append subject (x ∷ deltas) d = ground (arith, stored_bytes-append subject deltas d)

get-set_subject :
    (id j : ℕ) (change : Subject → Subject) (rows : List (ℕ × Subject))
    → Maps.get ℕ_discrete j (set_subject id change rows)
      ≡ ite
          (ℕ_discrete j id)
          (Option.map change (Maps.get ℕ_discrete j rows))
          (Maps.get ℕ_discrete j rows)
unfolding set_subject Maps.get
get-set_subject id j change [] = ground arith
get-set_subject id j change (x ∷ rows) = ground (arith, get-set_subject id j change rows)

count_bytes-used :
    (s : UsageDelta) (now : ℕ) (row : Subject)
    → (count_bytes s now row).quota_used_bytes ≡ row.quota_used_bytes + total_bytes s
count_bytes-used s now row = ground arith

counted-used :
    (node sequence now subject : ℕ) (s : UsageDelta) (rest : List UsageDelta) (db db' : Usage)
    → Step node sequence now s rest db db'
    → used_bytes subject (counted node sequence now s db)
      ≡ used_bytes subject db
        + ite (ℕ_discrete subject s.subject_id) (s.uplink_bytes + s.downlink_bytes) 0
counted-used node sequence now subject s rest db db' step =
    let small : (s.uplink_bytes + s.downlink_bytes) % 2 ^ 64 ≡ s.uplink_bytes + s.downlink_bytes =
      let up = step.uplink in let down = step.downlink in omega arith in
    rw (get-set_subject s.subject_id subject (count_bytes s now) db.subjects)
      (elim (ℕ_discrete subject s.subject_id) [
        | no other ↦ ground arith
        | yes same ↦ rw (same, step.found) (ground (arith, count_bytes-used s now step.row))
      ])

apply_samples-used :
    (node sequence now subject : ℕ) (samples : List UsageDelta) (db db' : Usage)
    → apply_samples node sequence now samples db ≡ ok db'
    → (used_bytes subject db' ≡ used_bytes subject db + reported_bytes subject samples)
      × (stored_bytes subject db'.deltas
          ≡ stored_bytes subject db.deltas + reported_bytes subject samples)
unfolding apply_samples reported_bytes
apply_samples-used node sequence now subject [] db db' h =
    rw (sym (ok-injective h)) (omega arith, omega arith)
apply_samples-used node sequence now subject (s ∷ rest) db db' h =
    let step = apply_samples-ok node sequence now s rest db db' h in
    let (used, stored) =
      apply_samples-used node sequence now subject rest (counted node sequence now s db) db'
        step.next in
    let one = counted-used node sequence now subject s rest db db' step in
    let row = stored_bytes-append subject db.deltas (row_of node sequence now s db) in
    (ground arith, ground arith)

-- No byte is lost or invented: when a report under a new sequence is accepted, for every subject the
-- counter quota_used_bytes and the sum of the stored deltas both grow by exactly the bytes that the
-- report has for the subject.
pub ingest-used_bytes :
    (node sequence : ℕ) (samples : List UsageDelta) (now subject : ℕ) (db db' : Usage)
    → has_report node sequence db.deltas ≡ false
    → ingest node sequence samples now db ≡ ok db'
    → (used_bytes subject db' ≡ used_bytes subject db + reported_bytes subject samples)
      × (stored_bytes subject db'.deltas
          ≡ stored_bytes subject db.deltas + reported_bytes subject samples)
unfolding ingest
ingest-used_bytes node sequence samples now subject db db' new h =
    apply_samples-used node sequence now subject samples db db' (rw (ingest, new) at h)

apply_samples-is_free :
    (node sequence now subject : ℕ) (service : Option ℕ) (reported : ℕ) (before : List UsageDelta)
    (s : UsageDelta) (rest : List UsageDelta) (db db' : Usage)
    → apply_samples node sequence now (before ++ s ∷ rest) db ≡ ok db'
    → s.subject_id ≡ subject
    → s.service_id ≡ reported
    → resolve_service node reported db ≡ service
    → is_taken node sequence subject service db.deltas ≡ false
unfolding apply_samples
apply_samples-is_free node sequence now subject service reported [] s rest db db' h e f g =
    let step = apply_samples-ok node sequence now s rest db db' h in cc (step.free, e, f, g)
apply_samples-is_free node sequence now subject service reported (x ∷ before) s rest db db' h e f
      g =
    let step = apply_samples-ok node sequence now x (before ++ s ∷ rest) db db' h in
    let later =
      apply_samples-is_free node sequence now subject service reported before s rest
        (counted node sequence now x db) db' step.next e f g in
    let row =
      is_taken-append node sequence subject service db.deltas (row_of node sequence now x db) in
    ground arith

clash :
    (node sequence now service : ℕ) (before between after : List UsageDelta) (s t : UsageDelta)
    (db db' : Usage)
    → apply_samples node sequence now (before ++ s ∷ between ++ t ∷ after) db ≡ ok db'
    → s.subject_id ≡ t.subject_id
    → s.service_id ≡ t.service_id
    → resolve_service node s.service_id db ≡ some service
    → ⊥
clash node sequence now service [] between after s t db db' h e f g =
    let step = apply_samples-ok node sequence now s (between ++ t ∷ after) db db' h in
    let free =
      apply_samples-is_free node sequence now s.subject_id (some service) s.service_id between t
        after (counted node sequence now s db) db' step.next (sym e) (sym f) g in
    let row =
      is_taken-append node sequence s.subject_id (some service) db.deltas
        (row_of node sequence now s db) in
    let taken : same_service (resolve_service node s.service_id db) (some service) ≡ true =
      rw g (ground arith) in
    ground arith
clash node sequence now service (x ∷ before) between after s t db db' h e f g =
    let step = apply_samples-ok node sequence now x (before ++ s ∷ between ++ t ∷ after) db db' h in
    clash node sequence now service before between after s t (counted node sequence now x db) db'
      step.next e f g

-- The constraint on the rows of a report: a report under a new sequence is refused, with an error,
-- if two of its samples have the same subject and the same service of the reporting node.
pub ingest-same_subject :
    (node sequence : ℕ) (before between after : List UsageDelta) (s t : UsageDelta)
    (now service : ℕ) (db : Usage)
    → has_report node sequence db.deltas ≡ false
    → s.subject_id ≡ t.subject_id
    → s.service_id ≡ t.service_id
    → resolve_service node s.service_id db ≡ some service
    → (e : UsageError) × (ingest node sequence (before ++ s ∷ between ++ t ∷ after) now db ≡ err e)
unfolding ingest
ingest-same_subject node sequence before between after s t now service db new same same_service
      known =
    rw new
      (elim (Outcome-cases
        (apply_samples node sequence now (before ++ s ∷ between ++ t ∷ after) db)) [
          | inr refused ↦ refused
          | inl (db', h) ↦ absurd (
              clash node sequence now service before between after s t db db' h same same_service
                known)
        ])
