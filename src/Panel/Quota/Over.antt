-- ===== src/Panel/Quota/Over.antt =====
-- internal/panel/nodes/quota_billable.go: findSubjectsOverQuota.
use antimage.Common.{
  ℕ, ◌+◌, ◌==◌, Bool, false, ◌&&◌, Option, none, some, List, [], ◌∷◌, ◌++◌, ltb, leb, ℕ_discrete,
  if◌then◌else◌,
}
use antimage.Common.Int.{ℤ, pos, ◌+ℤ◌, ltb_ℤ, wrap_64}
use antimage.Common.Maps
use antimage.Common.Outcome.{Outcome, ok, err, ◌>>=◌}
use antimage.Panel.Billing.{BillError, Priced, coefficient_unit, billable}
use antimage.Panel.Subjects.Tables.{Subject, Tables}
use antimage.Panel.Usage.Tables.{Delta, Rollup, Usage}
use antimage.Panel.Usage.Rollup.{coalesce}

pub data QuotaError : Type 0 where
  sum_overflow panicked : QuotaError
  unbillable : ℕ → BillError → QuotaError

-- A row of `raw`, for one subject.
pub record Raw : Type 0 where
  pub node_id : Option ℕ
  pub service_id : Option ℕ
  pub bytes : ℕ

-- A row of the query.
pub record Group : Type 0 where
  pub subject_id : ℕ
  pub quota : ℤ
  pub subject_coef : ℤ
  pub reseller_coef : ℤ
  pub node_coef : ℤ
  pub service_coef : ℤ
  pub bytes : ℕ

-- overQuota
pub record OverQuota : Type 0 where
  pub subject_id : ℕ
  pub billable : ℤ
  pub quota : ℤ

abbrev pub unit_coef : ℤ
unit_coef = pos coefficient_unit

-- COALESCE(quota_period_start, created_at)
abbrev pub period_start : Subject → ℕ
period_start s = elim s.quota_period_start [ none ↦ s.created_at | some start ↦ start ]

abbrev pub in_window : ℕ → ℕ → ℕ → Bool
in_window start now at = leb start at && ltb at now

-- The buckets of the period.
unfoldable pub bucket_rows : ℕ → ℕ → ℕ → List Rollup → List Raw
bucket_rows id start now [] = []
bucket_rows id start now (h ∷ rest) =
    let others = bucket_rows id start now rest in
    if (h.subject_id == id) && in_window start now h.start
    then record {
      node_id = h.node_id;
      service_id = h.service_id;
      bytes = h.uplink_bytes + h.downlink_bytes;
    }
      ∷ others
    else others

-- The deltas of the period above the watermark.
unfoldable pub delta_rows : ℕ → ℕ → ℕ → ℕ → List Delta → List Raw
delta_rows id start now watermark [] = []
delta_rows id start now watermark (d ∷ rest) =
    let others = delta_rows id start now watermark rest in
    if (d.subject_id == id) && in_window start now d.created_at && ltb watermark d.id
    then record {
      node_id = some d.node_id;
      service_id = d.service_id;
      bytes = d.uplink_bytes + d.downlink_bytes;
    }
      ∷ others
    else others

abbrev pub raw_rows : ℕ → Subject → ℕ → Usage → List Raw
raw_rows id s now usage =
    bucket_rows id (period_start s) now usage.hourly
    ++ delta_rows id (period_start s) now (coalesce usage.watermark) usage.deltas

-- GROUP BY … COALESCE(node_id, 0), COALESCE(service_id, 0), with the sum, which is an int64.
unfoldable pub add_raw : Raw → List Raw → Outcome QuotaError (List Raw)
add_raw r [] = if ltb r.bytes 9223372036854775808 then ok (r ∷ []) else err sum_overflow
add_raw r (g ∷ rest) =
    let others = add_raw r rest in
    if (coalesce g.node_id == coalesce r.node_id)
      && (coalesce g.service_id == coalesce r.service_id)
    then (if ltb (g.bytes + r.bytes) 9223372036854775808
        then ok (record g { bytes = g.bytes + r.bytes } ∷ rest)
        else err sum_overflow)
    else others >>= (λ more. ok (g ∷ more))

unfoldable pub sum_groups : List Raw → List Raw → Outcome QuotaError (List Raw)
sum_groups [] into = ok into
sum_groups (r ∷ rows) into = add_raw r into >>= (λ next. sum_groups rows next)

-- COALESCE(r.usage_coefficient, ?), through both joins
abbrev pub reseller_coef : ℕ → Tables → ℤ
reseller_coef id db = elim (Maps.get ℕ_discrete id db.owners) [
  | none ↦ unit_coef
  | some owner ↦ elim (Maps.get ℕ_discrete owner db.sellers) [
    | none ↦ unit_coef
    | some seller ↦ seller.usage_coefficient
  ]
]

abbrev pub node_coef : Option ℕ → Tables → ℤ
node_coef none db = unit_coef
node_coef (some node) db = elim (Maps.get ℕ_discrete node db.nodes) [
  | none ↦ unit_coef
  | some k ↦ k
]

abbrev pub service_coef : Option ℕ → Tables → ℤ
service_coef none db = unit_coef
service_coef (some service) db = elim (Maps.get ℕ_discrete service db.services) [
  | none ↦ unit_coef
  | some s ↦ s.usage_coefficient
]

unfoldable pub group_rows : ℕ → ℤ → Subject → Tables → List Raw → List Group
group_rows id quota s db [] = []
group_rows id quota s db (r ∷ rest) =
    record {
      subject_id = id;
      quota = quota;
      subject_coef = s.usage_coefficient;
      reseller_coef = reseller_coef id db;
      node_coef = node_coef r.node_id db;
      service_coef = service_coef r.service_id db;
      bytes = r.bytes;
    }
    ∷ group_rows id quota s db rest

-- The subject's quota, if it is eligible.
abbrev pub eligible_quota : Subject → Option ℤ
eligible_quota s =
    if s.enabled then (elim s.frozen_at [ none ↦ s.quota_bytes | some t ↦ none ]) else none

-- The rows of the query for one subject, and for all, in the order of their ids.
unfoldable pub subject_rows : ℕ → Subject → Tables → Usage → ℕ → Outcome QuotaError (List Group)
subject_rows id s db usage now = elim (eligible_quota s) [
  | none ↦ ok []
  | some quota ↦
      sum_groups (raw_rows id s now usage) [] >>= (λ sums. ok (group_rows id quota s db sums))
]

unfoldable pub query_rows :
    List (ℕ × Subject) → Tables → Usage → ℕ → Outcome QuotaError (List Group)
query_rows [] db usage now = ok []
query_rows (e ∷ rest) db usage now =
    subject_rows e.0 e.1 db usage now
    >>= (λ rows. query_rows rest db usage now >>= (λ more. ok (rows ++ more)))

-- The bill of a row.
unfoldable pub price_group : Group → Outcome QuotaError ℤ
price_group g =
    elim (billable (pos g.bytes) (record {
      node = g.node_coef;
      service = g.service_coef;
      subject = g.subject_coef;
      reseller = g.reseller_coef;
      outbound = unit_coef;
    })) [
      | Priced.ok amount ↦ ok amount
      | Priced.err e ↦ err (unbillable g.subject_id e)
      | Priced.panics ↦ err panicked
    ]

-- `flush`, with `current` where there is one.
abbrev pub flush : Option OverQuota → List OverQuota → List OverQuota
flush none out = out
flush (some current) out = if ltb_ℤ current.billable current.quota then out else out ++ current ∷ []

abbrev pub fresh_current : Group → OverQuota
fresh_current g = record { subject_id = g.subject_id; billable = pos 0; quota = g.quota }

abbrev pub is_same : Group → Option OverQuota → Bool
is_same g none = false
is_same g (some current) = current.subject_id == g.subject_id

abbrev pub current_or : OverQuota → Option OverQuota → OverQuota
current_or new none = new
current_or new (some current) = current

-- The loop; `+=` wraps.
unfoldable pub scan_rows :
    List Group → Option OverQuota → List OverQuota → Outcome QuotaError (List OverQuota)
scan_rows [] current out = ok (flush current out)
scan_rows (g ∷ rest) current out =
    let now_at =
      (if is_same g current then current_or (fresh_current g) current else fresh_current g) in
    let before = (if is_same g current then out else flush current out) in
    price_group g >>= (λ amount.
      scan_rows rest (some (record now_at { billable = wrap_64 (now_at.billable +ℤ amount) }))
        before)

-- findSubjectsOverQuota
unfoldable pub find_subjects_over_quota : Tables → Usage → ℕ → Outcome QuotaError (List OverQuota)
find_subjects_over_quota db usage now =
    query_rows db.subjects db usage now >>= (λ rows. scan_rows rows none [])
