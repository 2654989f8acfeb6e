-- ===== src/Panel/Resellers/Ledger.antt =====
-- internal/panel/resellers/resellers.go: Balance, Get and Credit.
use antimage.Common.{
  ℕ, zero, String, Bool, true, false, Option, none, some, List, [], ◌∷◌, ◌++◌, ite, if◌then◌else◌,
  ℕ_discrete, String_discrete, contains, map,
}
use antimage.Common.Int.{ℤ, pos}
use antimage.Common.Maps
use antimage.Common.Outcome.{Outcome, ok, err, ◌>>◌, ◌refuses◌}
use antimage.Panel.Resellers.Tables.{
  ResellerError, not_found, zero_movement, no_idempotency_key, unknown_reason, constraint, Reseller,
  Movement, Tables, sum_int64, deltas, find_key, next_id,
}

-- Balance
abbrev pub balance : {S : Type 0} → ℕ → Tables S → Outcome ResellerError ℤ
balance id db = sum_int64 (pos 0) (deltas id db.ledger)

-- Get
abbrev pub get : {S : Type 0} → ℕ → Tables S → Outcome ResellerError Reseller
get id db = elim (Maps.get ℕ_discrete id db.resellers) [ some r ↦ ok r | none ↦ err not_found ]

-- ReasonTopup, …
abbrev pub reasons : List String
reasons = "topup" ∷ "provision" ∷ "renew" ∷ "refund" ∷ "adjustment" ∷ []

-- CreditInput
pub record CreditInput : Type 0 where
  pub reseller_id : ℕ
  pub delta : ℤ
  pub reason : String
  pub note : String
  pub subject_id : Option ℕ
  pub actor_admin_id : Option ℕ
  pub idempotency_key : String

abbrev pub is_zero : ℤ → Bool
is_zero (pos zero) = true
is_zero _ = false

abbrev pub is_empty_text : String → Bool
is_empty_text s = ite (String_discrete s "") true false

-- The foreign key of a column that can be NULL.
abbrev pub refers_to {ℓ} : {A : Type ℓ} → (A → Bool) → Option A → Bool
refers_to has none = true
refers_to has (some id) = has id

abbrev pub has_row : {A : Type 0} → List (ℕ × A) → ℕ → Bool
has_row rows id = elim (Maps.get ℕ_discrete id rows) [ some a ↦ true | none ↦ false ]

-- The row that Credit appends.
abbrev pub movement : CreditInput → ℕ → List Movement → Movement
movement input now ledger = record {
  id = next_id (map (λ (m : Movement). m.id) ledger);
  reseller_id = input.reseller_id;
  delta = input.delta;
  reason = input.reason;
  subject_id = input.subject_id;
  actor_admin_id = input.actor_admin_id;
  note = input.note;
  idempotency_key = input.idempotency_key;
  at = now;
}

-- The INSERT of Credit; the row's other constraints hold by the tests before it.
unfoldable pub append_movement :
    {S : Type 0} → CreditInput → ℕ → Tables S → Outcome ResellerError (ℕ × Tables S)
append_movement input now db =
    let row = movement input now db.ledger in
    if has_row db.resellers input.reseller_id
    then if refers_to (has_row db.quotas) input.subject_id
      then if refers_to (λ id. contains ℕ_discrete id db.admins) input.actor_admin_id
        then ok (row.id, record db { ledger = db.ledger ++ row ∷ [] })
        else err (constraint "actor_admin_id")
      else err (constraint "subject_id")
    else err (constraint "reseller_id")

-- Credit, once its input is checked: the existing movement wins.
abbrev pub find_or_append :
    {S : Type 0} → CreditInput → ℕ → Tables S → Outcome ResellerError (ℕ × Tables S)
find_or_append input now db = elim (find_key input.reseller_id input.idempotency_key db.ledger) [
  | some existing ↦ ok (existing.id, db)
  | none ↦ append_movement input now db
]

-- Credit
unfoldable pub credit :
    {S : Type 0}
    → (String → String)
    → CreditInput
    → ℕ
    → Tables S
    → Outcome ResellerError (ℕ × Tables S)
unfolding String_discrete contains
credit trim input now db = do
  is_zero input.delta refuses zero_movement
  is_empty_text (trim input.idempotency_key) refuses no_idempotency_key
  (if contains String_discrete input.reason reasons then false else true) refuses unknown_reason
  find_or_append input now db
