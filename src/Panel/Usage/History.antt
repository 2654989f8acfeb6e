-- ===== src/Panel/Usage/History.antt =====
-- Reports and roll-ups in any order: what a subject used against what its buckets hold.
use antimage.Common.{
  ℕ, ◌+◌, ◌≤◌, ◌<◌, ◌==◌, ◌≡◌, refl, sym, arith, Bool, some, List, [], ◌∷◌, ◌++◌, ite, leb, suc,
  All, All-append, ℕ_discrete, Bool-cases, inl, inr, ◌⊎◌,
}
use antimage.Common.Outcome.{ok, ok-injective, bind-eq-ok}
use antimage.Panel.Usage.Tables.{Delta, Rollup, Usage}
use antimage.Panel.Usage.Ingest.{UsageDelta, has_report, row_of, apply_samples, ingest}
use antimage.Panel.Usage.Counted.{counted, apply_samples-ok}
use antimage.Panel.Usage.Once.{used_bytes, reported_bytes, ingest-used_bytes}
use antimage.Panel.Usage.Rollup.{
  coalesce, hour_of, ceiling_of, rollup_hourly, grouped, selected, upsert_all, same_bucket, added,
}
use antimage.Panel.Usage.Folded.{
  Direction, uplink, downlink, total, unfolded, IsBucketTest, rollup_hourly-total,
}

-- Ids were given out in order, and the watermark is one of them.
abbrev pub IsNumbered : Usage → Type 0
IsNumbered db = All (λ d. d.id ≤ db.last_id) db.deltas × (coalesce db.watermark ≤ db.last_id)

abbrev pub of_subject : ℕ → Rollup → Bool
of_subject subject r = r.subject_id == subject

-- The bytes of a subject in the hourly buckets and in the deltas that no bucket has yet.
abbrev pub recorded : ℕ → Usage → ℕ
recorded subject db =
    let waiting = unfolded (coalesce db.watermark) db.deltas in
    total (of_subject subject) uplink db.hourly
    + total (of_subject subject) downlink db.hourly
    + total (of_subject subject) uplink waiting
    + total (of_subject subject) downlink waiting

-- Accepted reports and successful roll-ups, one after the other.
pub data History (db : Usage) : Usage → Type 0 where
  start : History db db
  report :
      {mid : Usage} {after : Usage} (node sequence : ℕ) (samples : List UsageDelta) (now : ℕ)
      → History db mid
      → ingest node sequence samples now mid ≡ ok after
      → History db after
  rollup :
      {mid : Usage} {after : Usage}
      → History db mid
      → rollup_hourly mid ≡ ok after
      → History db after

total-append :
    (test : Rollup → Bool) (dir : Direction) (rows : List Rollup) (r : Rollup)
    → total test dir (rows ++ r ∷ []) ≡ total test dir rows + total test dir (r ∷ [])
unfolding total
total-append test dir [] r = omega arith
total-append test dir (x ∷ rows) r = ground (arith, total-append test dir rows r)

unfolded-append :
    (watermark : ℕ) (deltas : List Delta) (d : Delta)
    → watermark < d.id
    → unfolded watermark (deltas ++ d ∷ []) ≡ unfolded watermark deltas ++ hour_of d ∷ []
unfolding unfolded
unfolded-append watermark [] d h = ground arith
unfolded-append watermark (x ∷ deltas) d h = ground (arith, unfolded-append watermark deltas d h)

All-le :
    (n m : ℕ) (deltas : List Delta)
    → n ≤ m
    → All (λ d. d.id ≤ n) deltas
    → All (λ d. d.id ≤ m) deltas
All-le n m [] le all = tt
All-le n m (d ∷ deltas) le all = (omega (arith, all.0), All-le n m deltas le all.1)

counted-IsNumbered :
    (node sequence now : ℕ) (s : UsageDelta) (db : Usage)
    → IsNumbered db
    → IsNumbered (counted node sequence now s db)
counted-IsNumbered node sequence now s db (ids, mark) = (
  All-append (λ d. d.id ≤ suc db.last_id) db.deltas (row_of node sequence now s db ∷ [])
      (All-le db.last_id (suc db.last_id) db.deltas (omega arith) ids) (omega arith, tt),
  omega arith,
)

pub of_subject-IsBucketTest : (subject : ℕ) → IsBucketTest (of_subject subject)
of_subject-IsBucketTest subject = (λ a b h. ground arith, λ r up down. refl)

counted-recorded :
    (node sequence now subject : ℕ) (s : UsageDelta) (db : Usage)
    → IsNumbered db
    → recorded subject (counted node sequence now s db)
      ≡ recorded subject db
        + ite (ℕ_discrete subject s.subject_id) (s.uplink_bytes + s.downlink_bytes) 0
unfolding total
counted-recorded node sequence now subject s db (ids, mark) =
    let d = row_of node sequence now s db in
    let waiting = unfolded (coalesce db.watermark) db.deltas in
    rw (unfolded-append (coalesce db.watermark) db.deltas d (omega arith)) (
      ground (
        arith,
        total-append (of_subject subject) uplink waiting (hour_of d),
        total-append (of_subject subject) downlink waiting (hour_of d),
      ))

apply_samples-recorded :
    (node sequence now subject : ℕ) (samples : List UsageDelta) (db db' : Usage)
    → IsNumbered db
    → apply_samples node sequence now samples db ≡ ok db'
    → IsNumbered db' × (recorded subject db' ≡ recorded subject db + reported_bytes subject samples)
unfolding apply_samples reported_bytes
apply_samples-recorded node sequence now subject [] db db' v h =
    rw (sym (ok-injective h)) (v, omega arith)
apply_samples-recorded node sequence now subject (s ∷ rest) db db' v h =
    let step = apply_samples-ok node sequence now s rest db db' h in
    let (w, later) =
      apply_samples-recorded node sequence now subject rest (counted node sequence now s db) db'
        (counted-IsNumbered node sequence now s db v) step.next in
    let one = counted-recorded node sequence now subject s db v in (w, ground arith)

ceiling_of-le :
    (watermark n : ℕ) (deltas : List Delta)
    → watermark ≤ n
    → All (λ d. d.id ≤ n) deltas
    → ceiling_of watermark deltas ≤ n
unfolding ceiling_of
ceiling_of-le watermark n [] h all = h
ceiling_of-le watermark n (d ∷ deltas) h all =
    let first = all.0 in ground (arith, ceiling_of-le watermark n deltas h all.1)

-- A run that succeeds folds nothing, or writes the buckets and the ceiling.
pub rollup_hourly-ok :
    (db db' : Usage)
    → rollup_hourly db ≡ ok db'
    → (db' ≡ db)
      ⊎ ((hourly : List Rollup) × (db' ≡ record db {
        hourly = hourly;
        watermark = some (ceiling_of (coalesce db.watermark) db.deltas);
      }))
unfolding rollup_hourly
rollup_hourly-ok db db' h =
    let wm = coalesce db.watermark in
    elim (Bool-cases (leb (ceiling_of wm db.deltas) wm)) [
      | inl e ↦ inl (sym (ok-injective (rw e at h)))
      | inr e ↦
          let (groups, _, h₁) =
            bind-eq-ok (grouped (selected wm (ceiling_of wm db.deltas) db.deltas)) _ (rw e at h) in
          let (hourly, _, done) =
            bind-eq-ok (upsert_all same_bucket added groups db.hourly)
              (λ hourly.
                ok (record db { hourly = hourly; watermark = some (ceiling_of wm db.deltas) }))
              h₁ in
          inr (hourly, sym (ok-injective done))
    ]

rollup_hourly-IsNumbered :
    (db db' : Usage) → IsNumbered db → rollup_hourly db ≡ ok db' → IsNumbered db'
rollup_hourly-IsNumbered db db' (ids, mark) h = elim (rollup_hourly-ok db db' h) [
  | inl same ↦ rw same (ids, mark)
  | inr (hourly, same) ↦
      rw same (ids, ceiling_of-le (coalesce db.watermark) db.last_id db.deltas mark ids)
]

rollup_hourly-used :
    (db db' : Usage) (subject : ℕ)
    → rollup_hourly db ≡ ok db'
    → used_bytes subject db' ≡ used_bytes subject db
rollup_hourly-used db db' subject h = elim (rollup_hourly-ok db db' h) [
  | inl same ↦ rw same refl
  | inr (hourly, same) ↦ rw same refl
]

rollup_hourly-recorded :
    (db db' : Usage) (subject : ℕ)
    → rollup_hourly db ≡ ok db'
    → recorded subject db' ≡ recorded subject db
unfolding total
rollup_hourly-recorded db db' subject h =
    let bucketed = of_subject-IsBucketTest subject in
    let (up, empty) = rollup_hourly-total (of_subject subject) uplink db db' bucketed h in
    let (down, _) = rollup_hourly-total (of_subject subject) downlink db db' bucketed h in
    rw empty (omega arith)

ingest-recorded :
    (node sequence now subject : ℕ) (samples : List UsageDelta) (db db' : Usage)
    → IsNumbered db
    → ingest node sequence samples now db ≡ ok db'
    → IsNumbered db'
      × (used_bytes subject db' + recorded subject db
          ≡ used_bytes subject db + recorded subject db')
unfolding ingest
ingest-recorded node sequence now subject samples db db' v h =
    elim (Bool-cases (has_report node sequence db.deltas)) [
      | inl e ↦ rw (sym (ok-injective (rw e at h))) (v, refl)
      | inr e ↦
          let (used, _) = ingest-used_bytes node sequence samples now subject db db' e h in
          let (w, held) =
            apply_samples-recorded node sequence now subject samples db db' v (rw e at h) in
          (w, omega arith)
    ]

History-kept :
    (db after : Usage) (subject : ℕ)
    → IsNumbered db
    → History db after
    → IsNumbered after
      × (used_bytes subject after + recorded subject db
          ≡ used_bytes subject db + recorded subject after)
History-kept db _ subject v start = (v, refl)
History-kept db _ subject v (report {mid = mid} {after = after} node sequence samples now past h) =
    let (w, same) = History-kept db mid subject v past in
    let (x, more) = ingest-recorded node sequence now subject samples mid after w h in
    (x, omega arith)
History-kept db _ subject v (rollup {mid = mid} {after = after} past h) =
    let (w, same) = History-kept db mid subject v past in
    let used = rollup_hourly-used mid after subject h in
    let held = rollup_hourly-recorded mid after subject h in
    (rollup_hourly-IsNumbered mid after w h, omega arith)

-- Accounting neither loses nor doubles traffic: whatever accepted reports, repeated ones included, and
-- whatever successful runs of RollupHourly follow tables in which the ids of the deltas and the
-- watermark do not exceed the last id, for every subject the counter quota_used_bytes grows
-- exactly as much as the hourly buckets and the deltas above the watermark together.
pub History-used_bytes :
    (db after : Usage) (subject : ℕ)
    → IsNumbered db
    → History db after
    → used_bytes subject after + recorded subject db
      ≡ used_bytes subject db + recorded subject after
History-used_bytes db after subject v past = (History-kept db after subject v past).1
