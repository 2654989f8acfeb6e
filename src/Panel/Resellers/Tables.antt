-- ===== src/Panel/Resellers/Tables.antt =====
-- The tables of the commercial layer (internal/panel/store/migrations/00023_reseller_engine.sql)
-- and the interface `subjectCreator` of internal/panel/resellers/resellers.go. `S` is the content of
-- all other tables. Money, quotas and limits are int64 values; a row's id is a positive number that
-- SQLite assigns as one more than the largest.
use antimage.Common.{
  ℕ, ◌+◌, String, Bool, Option, none, some, List, [], ◌∷◌, ◌++◌, ◌≡◌, ite, if◌then◌else◌, leb,
  ℕ_discrete, String_discrete,
}
use antimage.Common.Int.{ℤ, ◌+ℤ◌, is_int64}
use antimage.Common.Maps
use antimage.Common.Outcome.{Outcome, ok, err}

-- The errors of the package; `constraint` is a statement that breaks a constraint of the schema,
-- `subject_store` an error of the subject store.
pub data ResellerError : Type 0 where
  insufficient_credit limit_exceeded disabled not_found : ResellerError
  zero_movement no_idempotency_key unknown_reason negative_cost no_subject_store : ResellerError
  no_display_name no_admin_id no_rows sum_overflow : ResellerError
  has_customers : ℕ → ResellerError
  constraint : String → ResellerError
  subject_store : String → ResellerError

-- Reseller, a row of `resellers`.
pub record Reseller : Type 0 where
  pub admin_id : ℕ
  pub display_name : String
  pub enabled : Bool
  pub max_subjects : Option ℤ
  pub max_quota_bytes : Option ℤ
  pub credit_floor : ℤ
  pub created_at : ℕ
  pub updated_at : ℕ

-- A row of `reseller_credit_ledger`.
pub record Movement : Type 0 where
  pub id : ℕ
  pub reseller_id : ℕ
  pub delta : ℤ
  pub reason : String
  pub subject_id : Option ℕ
  pub actor_admin_id : Option ℕ
  pub note : String
  pub idempotency_key : String
  pub at : ℕ

-- A row of `reseller_subjects`.
pub record Ownership : Type 0 where
  pub reseller_id : ℕ
  pub cost : ℤ
  pub created_at : ℕ

-- The audit record of a provision.
pub record ProvisionRecord : Type 0 where
  pub subject_id : ℕ
  pub reseller_id : ℕ
  pub cost : ℤ
  pub quota_bytes : ℤ

-- `subjects` has a row for each key of `quotas`, the column `quota_bytes`.
pub record Tables (S : Type 0) : Type 0 where
  pub others : S
  pub admins : List ℕ
  pub resellers : List (ℕ × Reseller)
  pub ledger : List Movement
  pub owned : List (ℕ × Ownership)
  pub quotas : List (ℕ × Option ℤ)
  pub audit : List ProvisionRecord

-- What the commercial layer relies on: a subject that was created is one new row.
pub record IsCreated {S : Type 0} (db : Tables S) (id : ℕ) (db' : Tables S) : Type 0 where
  pub quota : Option ℤ
  pub fresh : Maps.get ℕ_discrete id db.quotas ≡ none
  pub quotas : db'.quotas ≡ db.quotas ++ (id, quota) ∷ []
  pub resellers : db'.resellers ≡ db.resellers
  pub ledger : db'.ledger ≡ db.ledger
  pub owned : db'.owned ≡ db.owned
  pub audit : db'.audit ≡ db.audit

-- subjectCreator; `In` is subjects.CreateInput.
pub record SubjectCreator (S In : Type 0) : Type 1 where
  pub create : In → Tables S → Outcome ResellerError (ℕ × Tables S)
  pub node_ids_for : ℕ → Tables S → Outcome ResellerError (List ℕ)
  pub create_lem :
      (subject : In) (db : Tables S) (id : ℕ) (db' : Tables S)
      → create subject db ≡ ok (id, db')
      → IsCreated db id db'

-- SQLite's sum(delta): an error once the total so far is outside int64.
abbrev pub sum_int64 : ℤ → List ℤ → Outcome ResellerError ℤ
sum_int64 total [] = ok total
sum_int64 total (d ∷ rest) =
    let others = sum_int64 (total +ℤ d) rest in
    if is_int64 (total +ℤ d) then others else err sum_overflow

-- The deltas of a reseller, in the order of the index (reseller_id, id).
unfoldable pub deltas : ℕ → List Movement → List ℤ
unfolding ℕ_discrete
deltas id [] = []
deltas id (m ∷ rest) =
    let others = deltas id rest in ite (ℕ_discrete m.reseller_id id) (m.delta ∷ others) others

-- SELECT … WHERE reseller_id = ? AND idempotency_key = ?
unfoldable pub find_key : ℕ → String → List Movement → Option Movement
unfolding ℕ_discrete String_discrete
find_key id key [] = none
find_key id key (m ∷ rest) =
    let other = find_key id key rest in
    ite (ℕ_discrete m.reseller_id id) (ite (String_discrete m.idempotency_key key) (some m) other)
      other

-- The ids of an INTEGER PRIMARY KEY.
abbrev pub next_id : List ℕ → ℕ
next_id [] = 1
next_id (id ∷ rest) = let others = next_id rest in if leb others id then id + 1 else others
