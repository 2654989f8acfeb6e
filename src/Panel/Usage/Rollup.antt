-- ===== src/Panel/Usage/Rollup.antt =====
-- internal/panel/nodes/accounting.go: RollupHourly and RollupDaily, each as the function of its
-- transaction.
use antimage.Common.{
  ℕ, ◌+◌, ◌*◌, ◌/◌, ◌==◌, Bool, true, false, Option, none, some, List, [], ◌∷◌, ◌&&◌, ltb, leb,
  if◌then◌else◌,
}
use antimage.Common.Outcome.{Outcome, ok, ◌>>=◌}
use antimage.Panel.Usage.Tables.{Delta, Rollup, Usage, UsageError, overflow, int64}

-- COALESCE(…, 0)
abbrev pub coalesce : Option ℕ → ℕ
coalesce none = 0
coalesce (some n) = n

-- The unique index on (subject_id, start, COALESCE(node_id, 0), COALESCE(service_id, 0)).
abbrev pub same_bucket : Rollup → Rollup → Bool
same_bucket a b =
    (a.subject_id == b.subject_id)
    && (a.start == b.start)
    && (coalesce a.node_id == coalesce b.node_id)
    && (coalesce a.service_id == coalesce b.service_id)

abbrev pub same_option : Option ℕ → Option ℕ → Bool
same_option none none = true
same_option (some a) (some b) = a == b
same_option _ _ = false

-- GROUP BY, for which NULL equals NULL.
abbrev pub same_group : Rollup → Rollup → Bool
same_group a b =
    (a.subject_id == b.subject_id)
    && (a.start == b.start)
    && same_option a.node_id b.node_id
    && same_option a.service_id b.service_id

-- Both columns added, as SUM and `+` do.
abbrev pub added : Rollup → Rollup → Outcome UsageError Rollup
added into r = do
  up ← int64 overflow (into.uplink_bytes + r.uplink_bytes)
  down ← int64 overflow (into.downlink_bytes + r.downlink_bytes)
  ok (record into { uplink_bytes = up; downlink_bytes = down })

abbrev pub overwritten : Rollup → Rollup → Outcome UsageError Rollup
overwritten into r =
    ok (record into { uplink_bytes = r.uplink_bytes; downlink_bytes = r.downlink_bytes })

-- INSERT … ON CONFLICT DO UPDATE: a row that is `same` is merged, or a new one is inserted.
unfoldable pub upsert :
    (Rollup → Rollup → Bool)
    → (Rollup → Rollup → Outcome UsageError Rollup)
    → Rollup
    → List Rollup
    → Outcome UsageError (List Rollup)
upsert same merge r [] = ok (r ∷ [])
upsert same merge r (old ∷ rest) =
    let others = upsert same merge r rest in
    if same old r
    then merge old r >>= (λ new. ok (new ∷ rest))
    else others >>= (λ more. ok (old ∷ more))

unfoldable pub upsert_all :
    (Rollup → Rollup → Bool)
    → (Rollup → Rollup → Outcome UsageError Rollup)
    → List Rollup
    → List Rollup
    → Outcome UsageError (List Rollup)
upsert_all same merge [] table = ok table
upsert_all same merge (r ∷ rows) table =
    upsert same merge r table >>= (λ next. upsert_all same merge rows next)

-- SELECT …, SUM(…) … GROUP BY
abbrev pub grouped : List Rollup → Outcome UsageError (List Rollup)
grouped rows = upsert_all same_group added rows []

-- A delta in the hour of its time.
abbrev pub hour_of : Delta → Rollup
hour_of d = record {
  subject_id = d.subject_id;
  node_id = some d.node_id;
  service_id = d.service_id;
  start = d.created_at / 3600 * 3600;
  uplink_bytes = d.uplink_bytes;
  downlink_bytes = d.downlink_bytes;
}

-- WHERE id > ? AND id <= ?
unfoldable pub selected : ℕ → ℕ → List Delta → List Rollup
selected watermark ceiling [] = []
selected watermark ceiling (d ∷ rest) =
    let others = selected watermark ceiling rest in
    if ltb watermark d.id && leb d.id ceiling then hour_of d ∷ others else others

-- SELECT COALESCE(MAX(id), ?) FROM usage_deltas WHERE id > ?
unfoldable pub ceiling_of : ℕ → List Delta → ℕ
ceiling_of watermark [] = watermark
ceiling_of watermark (d ∷ rest) =
    let others = ceiling_of watermark rest in if ltb others d.id then d.id else others

-- RollupHourly
unfoldable pub rollup_hourly : Usage → Outcome UsageError Usage
rollup_hourly db =
    let watermark = coalesce db.watermark in
    let ceiling = ceiling_of watermark db.deltas in
    if leb ceiling watermark then ok db else do
      groups ← grouped (selected watermark ceiling db.deltas)
      hourly ← upsert_all same_bucket added groups db.hourly
      ok (record db { hourly = hourly; watermark = some ceiling })

-- An hour in its day.
abbrev pub day_of : Rollup → Rollup
day_of h = record h { start = h.start / 86400 * 86400 }

-- WHERE hour_start < ?
unfoldable pub elapsed : ℕ → List Rollup → List Rollup
elapsed now [] = []
elapsed now (h ∷ rest) =
    let others = elapsed now rest in if ltb h.start now then day_of h ∷ others else others

-- RollupDaily
unfoldable pub rollup_daily : ℕ → Usage → Outcome UsageError Usage
rollup_daily now db = do
  groups ← grouped (elapsed now db.hourly)
  daily ← upsert_all same_bucket overwritten groups db.daily
  ok (record db { daily = daily })
