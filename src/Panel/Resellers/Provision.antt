-- ===== src/Panel/Resellers/Provision.antt =====
-- internal/panel/resellers/resellers.go: ProvisionSubject, checkLimits and OwnerOf. The differences
-- and sums of int64 values wrap.
use antimage.Common.{
  ℕ, ◌+◌, String, not, Option, none, some, List, [], ◌∷◌, ◌++◌, ite, if◌then◌else◌, ℕ_discrete, suc,
  String_discrete,
}
use antimage.Common.Int.{ℤ, pos, ltb_ℤ, ◌+ℤ◌, ◌-ℤ◌, wrap_64}
use antimage.Common.Maps
use antimage.Common.Outcome.{Outcome, ok, err, ◌>>=◌, ◌>>◌, ◌refuses◌}
use antimage.Panel.Resellers.Tables.{
  ResellerError, not_found, no_subject_store, negative_cost, no_idempotency_key, disabled,
  limit_exceeded, insufficient_credit, constraint, Reseller, Movement, Ownership, Tables,
  SubjectCreator, sum_int64, find_key,
}
use antimage.Panel.Resellers.Ledger.{balance, get, CreditInput, credit, is_empty_text, has_row}

-- ProvisionInput; the names that only the audit record carries are left out.
pub record ProvisionInput (In : Type 0) : Type 0 where
  pub reseller_id : ℕ
  pub cost : ℤ
  pub subject : In
  pub quota_bytes : ℤ
  pub actor_admin_id : Option ℕ
  pub idempotency_key : String

-- ProvisionResult; 0 for an id that is not set.
pub record ProvisionResult : Type 0 where
  pub subject_id : ℕ
  pub ledger_id : ℕ
  pub balance : ℤ
  pub node_ids : List ℕ

-- SELECT count(*) FROM reseller_subjects WHERE reseller_id = ?
unfoldable pub count_owned : ℕ → List (ℕ × Ownership) → ℕ
unfolding ℕ_discrete
count_owned id [] = 0
count_owned id (o ∷ rest) =
    let others = count_owned id rest in ite (ℕ_discrete o.1.reseller_id id) (suc others) others

abbrev pub quota_of : Option (Option ℤ) → List ℤ → List ℤ
quota_of (some (some q)) rest = q ∷ rest
quota_of _ rest = rest

-- The quotas that checkLimits sums: those of the reseller's customers which are not NULL.
unfoldable pub allocations : ℕ → List (ℕ × Option ℤ) → List (ℕ × Ownership) → List ℤ
unfolding ℕ_discrete Maps.get
allocations id quotas [] = []
allocations id quotas (o ∷ rest) =
    let others = allocations id quotas rest in
    ite (ℕ_discrete o.1.reseller_id id) (quota_of (Maps.get ℕ_discrete o.0 quotas) others) others

-- `if r.MaxSubjects != nil`
abbrev pub check_count : {S : Type 0} → ℕ → Reseller → Tables S → Outcome ResellerError (Unit {0})
check_count id r db = elim r.max_subjects [
  | none ↦ ok tt
  | some limit ↦ ltb_ℤ limit (pos (count_owned id db.owned + 1)) refuses limit_exceeded
]

-- `if r.MaxQuotaBytes != nil && addedQuota > 0`
abbrev pub check_quota :
    {S : Type 0} → ℕ → Reseller → ℤ → Tables S → Outcome ResellerError (Unit {0})
check_quota id r added db = elim r.max_quota_bytes [
  | none ↦ ok tt
  | some limit ↦
      if ltb_ℤ (pos 0) added
      then (do
        allocated ← sum_int64 (pos 0) (allocations id db.quotas db.owned)
        ltb_ℤ limit (wrap_64 (allocated +ℤ added)) refuses limit_exceeded)
      else ok tt
]

-- checkLimits
unfoldable pub check_limits :
    {S : Type 0} → ℕ → Reseller → ℤ → Tables S → Outcome ResellerError (Unit {0})
check_limits id r added db = do check_count id r db; check_quota id r added db

-- OwnerOf
abbrev pub owner_of : {S : Type 0} → ℕ → Tables S → Outcome ResellerError ℕ
owner_of subject db = elim (Maps.get ℕ_discrete subject db.owned) [
  | some o ↦ ok o.reseller_id
  | none ↦ err not_found
]

-- INSERT INTO reseller_subjects
unfoldable pub record_ownership :
    {S : Type 0} → ℕ → Ownership → Tables S → Outcome ResellerError (Tables S)
record_ownership subject row db =
    if has_row db.owned subject
    then err (constraint "reseller_subjects.subject_id")
    else if has_row db.quotas subject
    then ok (record db { owned = db.owned ++ (subject, row) ∷ [] })
    else err (constraint "subject_id")

-- UPDATE subjects SET quota_bytes = ? WHERE id = ?
abbrev pub set_quota : ℕ → ℤ → List (ℕ × Option ℤ) → List (ℕ × Option ℤ)
set_quota subject quota quotas =
    if has_row quotas subject then Maps.put ℕ_discrete subject (some quota) quotas else quotas

-- `if in.QuotaBytes > 0`
abbrev pub record_quota : {S : Type 0} → ℕ → ℤ → Tables S → Tables S
record_quota subject quota db = record db {
  quotas = if ltb_ℤ (pos 0) quota then set_quota subject quota db.quotas else db.quotas;
}

abbrev pub charge_of : {In : Type 0} → ProvisionInput In → ℕ → CreditInput
charge_of input subject = record {
  reseller_id = input.reseller_id;
  delta = pos 0 -ℤ input.cost;
  reason = "provision";
  note = "";
  subject_id = some subject;
  actor_admin_id = input.actor_admin_id;
  idempotency_key = input.idempotency_key;
}

-- `if in.Cost > 0 { ledgerID, err = s.Credit(…) }`
abbrev pub charge_cost :
    {S In : Type 0}
    → (String → String)
    → ProvisionInput In
    → ℕ
    → ℕ
    → Tables S
    → Outcome ResellerError (ℕ × Tables S)
charge_cost trim input subject now db =
    if ltb_ℤ (pos 0) input.cost then credit trim (charge_of input subject) now db else ok (0, db)

module _ {S In : Type 0} (trim : String → String) (subj : SubjectCreator S In) where
  -- The outcome of a provision whose key the ledger has.
  abbrev pub replayed : Movement → ℤ → Tables S → ProvisionResult
  replayed prior total db = elim prior.subject_id [
    | none ↦ record { subject_id = 0; ledger_id = prior.id; balance = total; node_ids = [] }
    | some subject ↦ elim (subj.node_ids_for subject db) [
      | ok ids ↦ record {
        subject_id = subject;
        ledger_id = prior.id;
        balance = total;
        node_ids = ids;
      }
      | err e ↦ record {
        subject_id = subject;
        ledger_id = prior.id;
        balance = total;
        node_ids = [];
      }
    ]
  ]

  -- audit.InTx
  abbrev pub audited : ProvisionInput In → ℕ → Tables S → Tables S
  audited input subject db = record db {
    audit =
        db.audit
        ++ record {
          subject_id = subject;
          reseller_id = input.reseller_id;
          cost = input.cost;
          quota_bytes = input.quota_bytes;
        }
          ∷ [];
  }

  abbrev pub result_of : ProvisionInput In → ℤ → ℕ → ℕ → List ℕ → ProvisionResult
  result_of input total subject ledger_id ids = record {
    subject_id = subject;
    ledger_id = ledger_id;
    balance = wrap_64 (total -ℤ input.cost);
    node_ids = ids;
  }

  -- ProvisionSubject, from the creation of the customer on.
  unfoldable pub provision_new :
      ProvisionInput In → ℤ → ℕ → Tables S → Outcome ResellerError (ProvisionResult × Tables S)
  provision_new input total now db = do
    (subject, db₁) ← subj.create input.subject db
    db₂ ←
        record_ownership subject
          (record { reseller_id = input.reseller_id; cost = input.cost; created_at = now }) db₁
    (ledger_id, db₃) ←
        charge_cost trim input subject now (record_quota subject input.quota_bytes db₂)
    ids ← subj.node_ids_for subject (audited input subject db₃)
    ok (result_of input total subject ledger_id ids, audited input subject db₃)

  -- The ceilings and the credit check of a provision whose key is new.
  unfoldable pub provision_checked :
      ProvisionInput In
      → Reseller
      → ℕ
      → Tables S
      → Outcome ResellerError (ProvisionResult × Tables S)
  provision_checked input r now db = do
    check_limits input.reseller_id r input.quota_bytes db
    total ← balance input.reseller_id db
    ltb_ℤ (wrap_64 (total -ℤ input.cost)) r.credit_floor refuses insufficient_credit
    provision_new input total now db

  -- A repeat of an applied provision returns its outcome.
  abbrev pub replay_or_check :
      ProvisionInput In
      → Reseller
      → ℕ
      → Tables S
      → Outcome ResellerError (ProvisionResult × Tables S)
  replay_or_check input r now db =
      elim (find_key input.reseller_id input.idempotency_key db.ledger) [
        | some prior ↦ (do total ← balance input.reseller_id db; ok (replayed prior total db, db))
        | none ↦ provision_checked input r now db
      ]

  unfoldable pub provision :
      ProvisionInput In → ℕ → Tables S → Outcome ResellerError (ProvisionResult × Tables S)
  unfolding String_discrete
  provision input now db = do
    ltb_ℤ input.cost (pos 0) refuses negative_cost
    is_empty_text (trim input.idempotency_key) refuses no_idempotency_key
    r ← get input.reseller_id db
    not r.enabled refuses disabled
    replay_or_check input r now db

-- ProvisionSubject; `none` is a Store without a subject store.
abbrev pub provision_subject :
    {S In : Type 0}
    → (String → String)
    → Option (SubjectCreator S In)
    → ProvisionInput In
    → ℕ
    → Tables S
    → Outcome ResellerError (ProvisionResult × Tables S)
provision_subject trim none input now db = err no_subject_store
provision_subject trim (some subj) input now db = provision trim subj input now db
