-- ===== src/Panel/Usage/Folded.antt =====
-- What a roll-up does to the totals of any set of buckets.
use antimage.Common.{
  ℕ, ◌+◌, ◌≤◌, ◌≡◌, refl, sym, arith, Bool, true, some, List, [], ◌∷◌, if◌then◌else◌, ltb, leb,
  Bool-cases, inl, inr,
}
use antimage.Common.Outcome.{ok, bind-eq-ok, ok-injective}
use antimage.Panel.Usage.Tables.{Delta, Rollup, Usage}
use antimage.Panel.Usage.Rollup.{
  coalesce, same_bucket, same_group, added, upsert, upsert_all, grouped, hour_of, selected,
  ceiling_of, rollup_hourly,
}

-- What is counted of a row.
pub data Direction : Type 0 where
  uplink downlink : Direction

abbrev pub bytes : Direction → Rollup → ℕ
bytes uplink r = r.uplink_bytes
bytes downlink r = r.downlink_bytes

-- The bytes of the rows that a test selects.
unfoldable pub total : (Rollup → Bool) → Direction → List Rollup → ℕ
total test dir [] = 0
total test dir (r ∷ rest) =
    let others = total test dir rest in if test r then bytes dir r + others else others

-- The hours of the deltas above the watermark.
unfoldable pub unfolded : ℕ → List Delta → List Rollup
unfolded watermark [] = []
unfolded watermark (d ∷ rest) =
    let others = unfolded watermark rest in
    if ltb watermark d.id then hour_of d ∷ others else others

-- A test that rows of one bucket, as the unique index sees it, pass or fail together.
abbrev pub RespectsBuckets : (Rollup → Bool) → Type 0
RespectsBuckets test = (a b : Rollup) → same_bucket a b ≡ true → test a ≡ test b

-- The same, and `added` keeps it.
abbrev pub IsBucketTest : (Rollup → Bool) → Type 0
IsBucketTest test =
    RespectsBuckets test
    × ((r : Rollup) (up down : ℕ)
        → test (record r { uplink_bytes = up; downlink_bytes = down }) ≡ test r)

same_group-same_bucket : (a b : Rollup) → same_group a b ≡ true → same_bucket a b ≡ true
same_group-same_bucket a b h = ground arith

added-ok :
    (a b r : Rollup)
    → added a b ≡ ok r
    → r ≡ record a {
      uplink_bytes = a.uplink_bytes + b.uplink_bytes;
      downlink_bytes = a.downlink_bytes + b.downlink_bytes;
    }
added-ok a b r h = ground arith

module _ (test : Rollup → Bool) (bucketed : IsBucketTest test) where
  summed :
      (dir : Direction) (old r : Rollup) (rest : List Rollup)
      → test (record old {
        uplink_bytes = old.uplink_bytes + r.uplink_bytes;
        downlink_bytes = old.downlink_bytes + r.downlink_bytes;
      })
        ≡ test old
      → test old ≡ test r
      → total test dir (
          record old {
            uplink_bytes = old.uplink_bytes + r.uplink_bytes;
            downlink_bytes = old.downlink_bytes + r.downlink_bytes;
          }
          ∷ rest)
        ≡ total test dir (old ∷ rest) + total test dir (r ∷ [])
  unfolding total
  summed uplink old r rest one both = ground arith
  summed downlink old r rest one both = ground arith

  upsert-total :
      (same : Rollup → Rollup → Bool)
      → ((a b : Rollup) → same a b ≡ true → test a ≡ test b)
      → (dir : Direction) (r : Rollup) (table table' : List Rollup)
      → upsert same added r table ≡ ok table'
      → total test dir table' ≡ total test dir table + total test dir (r ∷ [])
  unfolding upsert total
  upsert-total same agree dir r [] table' h = rw (sym (ok-injective h)) (omega arith)
  upsert-total same agree dir r (old ∷ rest) table' h = elim (Bool-cases (same old r)) [
    | inl e ↦
        let (new, sum, done) = bind-eq-ok (added old r) (λ new. ok (new ∷ rest)) (rw e at h) in
        let row = added-ok old r new sum in
        let one =
          bucketed.1 old (old.uplink_bytes + r.uplink_bytes)
            (old.downlink_bytes + r.downlink_bytes) in
        let both = agree old r e in
        rw (sym (ok-injective done), row) (summed dir old r rest one both)
    | inr e ↦
        let (more, inside, done) =
          bind-eq-ok (upsert same added r rest) (λ more. ok (old ∷ more)) (rw e at h) in
        let later = upsert-total same agree dir r rest more inside in
        rw (sym (ok-injective done)) (ground arith)
  ]

  upsert_all-total :
      (same : Rollup → Rollup → Bool)
      → ((a b : Rollup) → same a b ≡ true → test a ≡ test b)
      → (dir : Direction) (rows table table' : List Rollup)
      → upsert_all same added rows table ≡ ok table'
      → total test dir table' ≡ total test dir table + total test dir rows
  unfolding upsert_all total
  upsert_all-total same agree dir [] table table' h = rw (sym (ok-injective h)) (omega arith)
  upsert_all-total same agree dir (r ∷ rows) table table' h =
      let (next, first, rest) =
        bind-eq-ok (upsert same added r table) (λ next. upsert_all same added rows next) h in
      let one = upsert-total same agree dir r table next first in
      let later = upsert_all-total same agree dir rows next table' rest in ground arith

  grouped-total :
      (dir : Direction) (rows groups : List Rollup)
      → grouped rows ≡ ok groups
      → total test dir groups ≡ total test dir rows
  unfolding total
  grouped-total dir rows groups h =
      let all =
        upsert_all-total same_group (λ a b e. bucketed.0 a b (same_group-same_bucket a b e)) dir
          rows [] groups h in
      omega arith

ceiling_of-ge : (watermark : ℕ) (deltas : List Delta) → watermark ≤ ceiling_of watermark deltas
unfolding ceiling_of
ceiling_of-ge watermark [] = omega arith
ceiling_of-ge watermark (d ∷ rest) = ground (arith, ceiling_of-ge watermark rest)

-- Above the ceiling there is nothing to fold, and below it everything is.
unfolded-none :
    (watermark ceiling : ℕ) (deltas : List Delta)
    → ceiling_of watermark deltas ≤ ceiling
    → unfolded ceiling deltas ≡ []
unfolding unfolded ceiling_of
unfolded-none watermark ceiling [] h = refl
unfolded-none watermark ceiling (d ∷ rest) h = ground (arith, unfolded-none watermark ceiling rest)

selected-unfolded :
    (watermark ceiling : ℕ) (deltas : List Delta)
    → ceiling_of watermark deltas ≤ ceiling
    → selected watermark ceiling deltas ≡ unfolded watermark deltas
unfolding unfolded ceiling_of selected
selected-unfolded watermark ceiling [] h = refl
selected-unfolded watermark ceiling (d ∷ rest) h =
    ground (arith, selected-unfolded watermark ceiling rest)

-- RollupHourly folds each delta exactly once: when it succeeds, every set of buckets has gained,
-- in uplink and in downlink, exactly the bytes of the deltas above the watermark, and no delta is
-- left above the new watermark.
pub rollup_hourly-total :
    (test : Rollup → Bool) (dir : Direction) (db db' : Usage)
    → IsBucketTest test
    → rollup_hourly db ≡ ok db'
    → (total test dir db'.hourly
        ≡ total test dir db.hourly + total test dir (unfolded (coalesce db.watermark) db.deltas))
      × (unfolded (coalesce db'.watermark) db'.deltas ≡ [])
unfolding rollup_hourly total
rollup_hourly-total test dir db db' bucketed h =
    elim (Bool-cases (leb (ceiling_of (coalesce db.watermark) db.deltas) (coalesce db.watermark))) [
      | inl e ↦
          let same : db ≡ db' = ok-injective (rw e at h) in
          let empty =
            unfolded-none (coalesce db.watermark) (coalesce db.watermark) db.deltas
              (ground arith) in
          rw (sym same, empty) (omega arith, refl)
      | inr e ↦
          let (groups, first, h₁) =
            bind-eq-ok
              (grouped (
                selected (coalesce db.watermark) (ceiling_of (coalesce db.watermark) db.deltas)
                  db.deltas))
              _ (rw e at h) in
          let (hourly, second, done) =
            bind-eq-ok (upsert_all same_bucket added groups db.hourly)
              (λ hourly. ok (record db {
                hourly = hourly;
                watermark = some (ceiling_of (coalesce db.watermark) db.deltas);
              }))
              h₁ in
          let all =
            upsert_all-total test bucketed same_bucket bucketed.0 dir groups db.hourly hourly
              second in
          let some_of = grouped-total test bucketed dir _ groups first in
          let every =
            selected-unfolded (coalesce db.watermark) (ceiling_of (coalesce db.watermark) db.deltas)
              db.deltas (omega arith) in
          let nothing =
            unfolded-none (coalesce db.watermark) (ceiling_of (coalesce db.watermark) db.deltas)
              db.deltas (omega arith) in
          rw (sym (ok-injective done)) (rw (all, some_of, every) refl, nothing)
    ]
