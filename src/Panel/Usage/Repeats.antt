-- ===== src/Panel/Usage/Repeats.antt =====
-- Repeats of a report, whatever is written in between: internal/panel/nodes/accounting.go.
use antimage.Common.{
  ℕ, ◌-◌, ◌≤◌, ◌==◌, ◌&&◌, ◌≡◌, refl, sym, arith, Bool, true, false, List, [], ◌∷◌, ◌++◌, leb,
  if◌then◌else◌, Bool-cases, inl, inr,
}
use antimage.Common.Outcome.{ok, ok-injective, bind-eq-ok}
use antimage.Panel.Usage.Tables.{Delta, Usage}
use antimage.Panel.Usage.Ingest.{
  UsageDelta, has_report, row_of, apply_samples, ingest, older_deleted, prune,
}
use antimage.Panel.Usage.Counted.{counted, apply_samples-ok}
use antimage.Panel.Usage.Rollup.{
  rollup_hourly, rollup_daily, grouped, elapsed, upsert_all, same_bucket, overwritten,
}
use antimage.Panel.Usage.History.{rollup_hourly-ok}

-- A row of the report that was written at `since` or later.
unfoldable pub has_row_since : ℕ → ℕ → ℕ → List Delta → Bool
has_row_since since node sequence [] = false
has_row_since since node sequence (d ∷ rest) =
    let others = has_row_since since node sequence rest in
    if (d.node_id == node) && (d.sequence == sequence) && leb since d.created_at
    then true
    else others

has_row_since-has_report :
    (since node sequence : ℕ) (deltas : List Delta)
    → has_row_since since node sequence deltas ≡ true
    → has_report node sequence deltas ≡ true
unfolding has_row_since has_report
has_row_since-has_report since node sequence [] h = cc
has_row_since-has_report since node sequence (d ∷ rest) h =
    ground (arith, has_row_since-has_report since node sequence rest)

has_row_since-append :
    (since node sequence : ℕ) (deltas : List Delta) (d : Delta)
    → has_row_since since node sequence (deltas ++ d ∷ []) ≡ (
        if has_row_since since node sequence deltas
        then true
        else if (d.node_id == node) && (d.sequence == sequence) && leb since d.created_at
        then true
        else false)
unfolding has_row_since
has_row_since-append since node sequence [] d = refl
has_row_since-append since node sequence (x ∷ rest) d =
    ground (arith, has_row_since-append since node sequence rest d)

has_row_since-older_deleted :
    (since node sequence cutoff : ℕ) (deltas : List Delta)
    → cutoff ≤ since
    → has_row_since since node sequence deltas ≡ true
    → has_row_since since node sequence (older_deleted cutoff deltas) ≡ true
unfolding has_row_since older_deleted
has_row_since-older_deleted since node sequence cutoff [] le h = h
has_row_since-older_deleted since node sequence cutoff (d ∷ rest) le h =
    ground (arith, has_row_since-older_deleted since node sequence cutoff rest le)

apply_samples-has_row_since :
    (since n q node sequence now : ℕ) (samples : List UsageDelta) (db db' : Usage)
    → apply_samples node sequence now samples db ≡ ok db'
    → has_row_since since n q db.deltas ≡ true
    → has_row_since since n q db'.deltas ≡ true
unfolding apply_samples
apply_samples-has_row_since since n q node sequence now [] db db' h seen =
    rw (sym (ok-injective h)) seen
apply_samples-has_row_since since n q node sequence now (s ∷ rest) db db' h seen =
    let step = apply_samples-ok node sequence now s rest db db' h in
    apply_samples-has_row_since since n q node sequence now rest (counted node sequence now s db)
      db' step.next
      (ground (arith, has_row_since-append since n q db.deltas (row_of node sequence now s db)))

-- Reports, roll-ups and prunings that succeed, one after the other. No pruning has a cutoff above
-- `since`.
pub data LaterWrites (since : ℕ) (db : Usage) : Usage → Type 0 where
  start : LaterWrites since db db
  reports :
      {mid after : Usage} (node sequence : ℕ) (samples : List UsageDelta) (now : ℕ)
      → LaterWrites since db mid
      → ingest node sequence samples now mid ≡ ok after
      → LaterWrites since db after
  rolls_up :
      {mid after : Usage}
      → LaterWrites since db mid
      → rollup_hourly mid ≡ ok after
      → LaterWrites since db after
  rolls_up_days :
      {mid after : Usage} (now : ℕ)
      → LaterWrites since db mid
      → rollup_daily now mid ≡ ok after
      → LaterWrites since db after
  prunes :
      {mid : Usage} (retention now : ℕ)
      → LaterWrites since db mid
      → now - retention ≤ since
      → LaterWrites since db (prune retention now mid)

rollup_daily-deltas :
    (now : ℕ) (db db' : Usage) → rollup_daily now db ≡ ok db' → db'.deltas ≡ db.deltas
unfolding rollup_daily
rollup_daily-deltas now db db' h =
    let (groups, _, h₁) = bind-eq-ok (grouped (elapsed now db.hourly)) _ h in
    let (daily, _, done) =
      bind-eq-ok (upsert_all same_bucket overwritten groups db.daily)
        (λ daily. ok (record db { daily = daily })) h₁ in
    rw (sym (ok-injective done)) refl

rollup_hourly-deltas : (db db' : Usage) → rollup_hourly db ≡ ok db' → db'.deltas ≡ db.deltas
rollup_hourly-deltas db db' h = elim (rollup_hourly-ok db db' h) [
  | inl same ↦ rw same refl
  | inr (hourly, same) ↦ rw same refl
]

ingest-has_row_since :
    (since n q node sequence now : ℕ) (samples : List UsageDelta) (db db' : Usage)
    → ingest node sequence samples now db ≡ ok db'
    → has_row_since since n q db.deltas ≡ true
    → has_row_since since n q db'.deltas ≡ true
unfolding ingest
ingest-has_row_since since n q node sequence now samples db db' h seen =
    elim (Bool-cases (has_report node sequence db.deltas)) [
      | inl e ↦ rw (sym (ok-injective (rw e at h))) seen
      | inr e ↦
          apply_samples-has_row_since since n q node sequence now samples db db' (rw e at h) seen
    ]

LaterWrites-has_row_since :
    (since node sequence : ℕ) (db after : Usage)
    → has_row_since since node sequence db.deltas ≡ true
    → LaterWrites since db after
    → has_row_since since node sequence after.deltas ≡ true
LaterWrites-has_row_since since node sequence db _ h start = h
LaterWrites-has_row_since since node sequence db _ h
      (reports {mid = mid} {after = after} n q samples now past e) =
    ingest-has_row_since since node sequence n q now samples mid after e
      (LaterWrites-has_row_since since node sequence db mid h past)
LaterWrites-has_row_since since node sequence db _ h (rolls_up {mid = mid} {after = after} past e) =
    rw (rollup_hourly-deltas mid after e)
      (LaterWrites-has_row_since since node sequence db mid h past)
LaterWrites-has_row_since since node sequence db _ h
      (rolls_up_days {mid = mid} {after = after} now past e) =
    rw (rollup_daily-deltas now mid after e)
      (LaterWrites-has_row_since since node sequence db mid h past)
LaterWrites-has_row_since since node sequence db _ h (prunes {mid = mid} retention now past le) =
    has_row_since-older_deleted since node sequence (now - retention) mid.deltas le
      (LaterWrites-has_row_since since node sequence db mid h past)

accepted-has_row_since :
    (node sequence now : ℕ) (s : UsageDelta) (rest : List UsageDelta) (db db' : Usage)
    → has_report node sequence db.deltas ≡ false
    → ingest node sequence (s ∷ rest) now db ≡ ok db'
    → has_row_since now node sequence db'.deltas ≡ true
unfolding ingest
accepted-has_row_since node sequence now s rest db db' new h =
    let step = apply_samples-ok node sequence now s rest db db' (rw new at h) in
    apply_samples-has_row_since now node sequence node sequence now rest
      (counted node sequence now s db) db' step.next
      (ground
        (arith, has_row_since-append now node sequence db.deltas (row_of node sequence now s db)))

-- A report counts once, as long as its rows are kept: after a report with samples under a new
-- sequence was accepted, and after any reports, roll-ups and prunings that succeed, whatever arrives
-- under the same node and sequence is accepted too and changes nothing, if no pruning had a cutoff
-- above the time at which the report was accepted.
pub ingest_once :
    (node sequence : ℕ) (s : UsageDelta) (rest again : List UsageDelta) (now later : ℕ)
    (db db' after : Usage)
    → has_report node sequence db.deltas ≡ false
    → ingest node sequence (s ∷ rest) now db ≡ ok db'
    → LaterWrites now db' after
    → ingest node sequence again later after ≡ ok after
unfolding ingest
ingest_once node sequence s rest again now later db db' after new h writes =
    let row = accepted-has_row_since node sequence now s rest db db' new h in
    rw
      (has_row_since-has_report now node sequence after.deltas
        (LaterWrites-has_row_since now node sequence db' after row writes))
      refl
