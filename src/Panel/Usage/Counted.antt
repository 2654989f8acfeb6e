-- ===== src/Panel/Usage/Counted.antt =====
-- What an accepted report counts, and how often.
use antimage.Common.{
  ℕ, ◌+◌, ◌^◌, ◌<◌, ◌≡◌, sym, arith, true, false, some, List, [], ◌∷◌, ◌++◌, if◌then◌else◌,
  ℕ_discrete, contains, suc, Option-cases, inl, inr,
}
use antimage.Common.Maps
use antimage.Common.Outcome.{ok, bind-eq-ok, refuses-eq-ok, ok-injective}
use antimage.Panel.Usage.Tables.{Subject, Usage, UsageError, int64, constraint, high_bit, overflow}
use antimage.Panel.Usage.Ingest.{
  UsageDelta, is_taken, resolve_service, row_of, total_bytes, set_subject, count_bytes,
  insert_delta, update_subject, apply_samples,
}

int64-ok : (e : UsageError) (n m : ℕ) → int64 e n ≡ ok m → n < 2 ^ 63
int64-ok e n m h = ground arith

-- The tables after one sample.
abbrev pub counted : ℕ → ℕ → ℕ → UsageDelta → Usage → Usage
counted node sequence now s db = record db {
  deltas = db.deltas ++ row_of node sequence now s db ∷ [];
  last_id = suc db.last_id;
  subjects = set_subject s.subject_id (count_bytes s now) db.subjects;
}

-- What the first sample of an accepted report went through.
pub record Step (node sequence now : ℕ) (s : UsageDelta) (rest : List UsageDelta) (db db' : Usage)
    : Type 0 where
  pub row : Subject
  pub found : Maps.get ℕ_discrete s.subject_id db.subjects ≡ some row
  pub uplink : s.uplink_bytes < 2 ^ 63
  pub downlink : s.downlink_bytes < 2 ^ 63
  pub free :
      is_taken node sequence s.subject_id (resolve_service node s.service_id db) db.deltas ≡ false
  pub next : apply_samples node sequence now rest (counted node sequence now s db) ≡ ok db'

abbrev inserted : ℕ → ℕ → ℕ → UsageDelta → Usage → Usage
inserted node sequence now s db = record db {
  deltas = db.deltas ++ row_of node sequence now s db ∷ [];
  last_id = suc db.last_id;
}

insert_delta-ok :
    (node sequence now : ℕ) (s : UsageDelta) (db db₁ : Usage)
    → insert_delta node sequence now s db ≡ ok db₁
    → (s.uplink_bytes < 2 ^ 63)
      × (s.downlink_bytes < 2 ^ 63)
      × (row : Subject) × (Maps.get ℕ_discrete s.subject_id db.subjects ≡ some row)
      × (is_taken node sequence s.subject_id (resolve_service node s.service_id db) db.deltas
          ≡ false)
      × (db₁ ≡ inserted node sequence now s db)
unfolding insert_delta
insert_delta-ok node sequence now s db db₁ h =
    let (u, up, h₁) = bind-eq-ok (int64 high_bit s.uplink_bytes) _ h in
    let (d, down, h₂) = bind-eq-ok (int64 high_bit s.downlink_bytes) _ h₁ in
    let (_, h₃) =
      refuses-eq-ok (if contains ℕ_discrete node db.nodes then false else true)
        (constraint "node_id") _ h₂ in
    elim (Option-cases (Maps.get ℕ_discrete s.subject_id db.subjects)) [
      | inl e ↦ absurd (cc (rw e at h₃))
      | inr (row, e) ↦
          let (free, done) =
            refuses-eq-ok
              (is_taken node sequence s.subject_id (resolve_service node s.service_id db) db.deltas)
              (constraint "UNIQUE (node_id, sequence, subject_id, service_id)")
              (ok (inserted node sequence now s db)) (rw e at h₃) in
          (
            int64-ok high_bit s.uplink_bytes u up,
            int64-ok high_bit s.downlink_bytes d down,
            row,
            e,
            free,
            sym (ok-injective done),
          )
    ]

update_subject-ok :
    (now : ℕ) (s : UsageDelta) (db db₂ : Usage) (row : Subject)
    → Maps.get ℕ_discrete s.subject_id db.subjects ≡ some row
    → update_subject now s db ≡ ok db₂
    → db₂ ≡ record db { subjects = set_subject s.subject_id (count_bytes s now) db.subjects }
unfolding update_subject
update_subject-ok now s db db₂ row found h =
    let (_, _, h₁) = bind-eq-ok (int64 high_bit (total_bytes s)) _ h in
    let (_, _, h₂) =
      bind-eq-ok (int64 overflow (row.quota_used_bytes + total_bytes s))
        (λ n.
          ok (record db { subjects = set_subject s.subject_id (count_bytes s now) db.subjects }))
        (rw found at h₁) in
    sym (ok-injective h₂)

pub apply_samples-ok :
    (node sequence now : ℕ) (s : UsageDelta) (rest : List UsageDelta) (db db' : Usage)
    → apply_samples node sequence now (s ∷ rest) db ≡ ok db'
    → Step node sequence now s rest db db'
unfolding apply_samples
apply_samples-ok node sequence now s rest db db' h =
    let (db₁, first, h₁) = bind-eq-ok (insert_delta node sequence now s db) _ h in
    let (db₂, second, h₂) =
      bind-eq-ok (update_subject now s db₁) (λ t. apply_samples node sequence now rest t) h₁ in
    let (up, down, row, found, free, same) = insert_delta-ok node sequence now s db db₁ first in
    let after : db₂ ≡ counted node sequence now s db =
      update_subject-ok now s (inserted node sequence now s db) db₂ row found (rw same at second) in
    record {
      row = row;
      found = found;
      uplink = up;
      downlink = down;
      free = free;
      next = rw after at h₂;
    }
