-- ===== src/Panel/Resellers/Tenants.antt =====
-- internal/panel/resellers/resellers.go: Create, Update and Delete. `same_name` is the collation
-- NOCASE of the unique index on display names.
use antimage.Common.{
  ℕ, ◌==◌, String, Bool, true, false, Option, none, some, List, [], ◌∷◌, ◌++◌, ite, if◌then◌else◌,
  ℕ_discrete, contains, map, ltb,
}
use antimage.Common.Int.{ℤ, pos, negsuc, ltb_ℤ}
use antimage.Common.Maps
use antimage.Common.Outcome.{Outcome, ok, err, ◌>>=◌, ◌>>◌, ◌refuses◌}
use antimage.Panel.Resellers.Tables.{
  ResellerError, no_display_name, no_admin_id, no_rows, has_customers, constraint, Reseller,
  Movement, Tables, next_id,
}
use antimage.Panel.Resellers.Ledger.{is_empty_text, has_row}
use antimage.Panel.Resellers.Provision.{count_owned}

-- CreateInput
pub record CreateInput : Type 0 where
  pub admin_id : ℤ
  pub display_name : String
  pub max_subjects : Option ℤ
  pub max_quota_bytes : Option ℤ
  pub credit_floor : ℤ

-- UpdateInput; the outer `none` leaves the column alone.
pub record UpdateInput : Type 0 where
  pub display_name : Option String
  pub enabled : Option Bool
  pub max_subjects : Option (Option ℤ)
  pub max_quota_bytes : Option (Option ℤ)
  pub credit_floor : Option ℤ

-- CHECK (max_subjects IS NULL OR max_subjects >= 0)
abbrev pub is_negative : Option ℤ → Bool
is_negative none = false
is_negative (some limit) = ltb_ℤ limit (pos 0)

-- admin_id REFERENCES admins(id), for an id above zero.
abbrev pub admin_of : ℤ → ℕ
admin_of (pos n) = n
admin_of (negsuc n) = 0

-- An index entry of another row.
unfoldable pub has_admin : ℕ → List (ℕ × Reseller) → Bool
has_admin admin [] = false
has_admin admin (r ∷ rest) =
    let others = has_admin admin rest in if r.1.admin_id == admin then true else others

unfoldable pub has_name : (String → String → Bool) → Option ℕ → String → List (ℕ × Reseller) → Bool
has_name same_name self name [] = false
has_name same_name self name (r ∷ rest) =
    let others = has_name same_name self name rest in
    elim self [
      | none ↦ if same_name r.1.display_name name then true else others
      | some id ↦
          if r.0 == id then others else if same_name r.1.display_name name then true else others
    ]

unfoldable pub set_row : ℕ → (Reseller → Reseller) → List (ℕ × Reseller) → List (ℕ × Reseller)
unfolding ℕ_discrete
set_row id change [] = []
set_row id change (r ∷ rest) =
    let others = set_row id change rest in
    ite (ℕ_discrete r.0 id) ((r.0, change r.1) ∷ others) (r ∷ others)

-- UPDATE resellers SET … WHERE id = ?
abbrev pub update_reseller : {S : Type 0} → ℕ → (Reseller → Reseller) → Tables S → Tables S
update_reseller id change db = record db { resellers = set_row id change db.resellers }

-- ON DELETE CASCADE of the ledger.
unfoldable pub delete_movements : ℕ → List Movement → List Movement
unfolding ℕ_discrete
delete_movements id [] = []
delete_movements id (m ∷ rest) =
    let others = delete_movements id rest in ite (ℕ_discrete m.reseller_id id) others (m ∷ others)

-- `if in.… != nil { UPDATE … }`
abbrev pub when_set :
    {S A : Type 0}
    → Option A
    → (A → Tables S → Outcome ResellerError (Tables S))
    → Tables S
    → Outcome ResellerError (Tables S)
when_set none statement db = ok db
when_set (some a) statement db = statement a db

abbrev pub set_enabled : {S : Type 0} → ℕ → Bool → Tables S → Outcome ResellerError (Tables S)
set_enabled id enabled db = ok (update_reseller id (λ r. record r { enabled = enabled }) db)

abbrev pub set_max_subjects :
    {S : Type 0} → ℕ → Option ℤ → Tables S → Outcome ResellerError (Tables S)
set_max_subjects id limit db =
    if is_negative limit
    then err (constraint "max_subjects")
    else ok (update_reseller id (λ r. record r { max_subjects = limit }) db)

abbrev pub set_max_quota_bytes :
    {S : Type 0} → ℕ → Option ℤ → Tables S → Outcome ResellerError (Tables S)
set_max_quota_bytes id limit db =
    if is_negative limit
    then err (constraint "max_quota_bytes")
    else ok (update_reseller id (λ r. record r { max_quota_bytes = limit }) db)

abbrev pub set_credit_floor : {S : Type 0} → ℕ → ℤ → Tables S → Outcome ResellerError (Tables S)
set_credit_floor id floor db = ok (update_reseller id (λ r. record r { credit_floor = floor }) db)

module _ {S : Type 0} (trim : String → String) (same_name : String → String → Bool) where
  -- Create
  unfoldable pub create : CreateInput → ℕ → Tables S → Outcome ResellerError (ℕ × Tables S)
  create input now db = do
    let name = trim input.display_name
    is_empty_text name refuses no_display_name
    (if ltb_ℤ (pos 0) input.admin_id then false else true) refuses no_admin_id
    let admin = admin_of input.admin_id
    (if contains ℕ_discrete admin db.admins then false else true) refuses constraint "admins"
    has_admin admin db.resellers refuses constraint "admin_id"
    has_name same_name none name db.resellers refuses constraint "display_name"
    is_negative input.max_subjects refuses constraint "max_subjects"
    is_negative input.max_quota_bytes refuses constraint "max_quota_bytes"
    let id = next_id (map (λ (r : ℕ × Reseller). r.0) db.resellers)
    ok (
      id,
      record db {
        resellers =
            db.resellers
            ++ (
              id,
              record {
                admin_id = admin;
                display_name = name;
                enabled = true;
                max_subjects = input.max_subjects;
                max_quota_bytes = input.max_quota_bytes;
                credit_floor = input.credit_floor;
                created_at = now;
                updated_at = now;
              },
            )
              ∷ [];
      },
    )

  abbrev pub set_display_name : ℕ → String → Tables S → Outcome ResellerError (Tables S)
  set_display_name id display_name db =
      if is_empty_text (trim display_name)
      then err no_display_name
      else if has_name same_name (some id) (trim display_name) db.resellers
      then err (constraint "display_name")
      else ok (update_reseller id (λ r. record r { display_name = trim display_name }) db)

  -- Update
  unfoldable pub update : ℕ → UpdateInput → ℕ → Tables S → Outcome ResellerError (Tables S)
  update id input now db = do
    (if has_row db.resellers id then false else true) refuses no_rows
    db₁ ← when_set input.display_name (set_display_name id) db
    db₂ ← when_set input.enabled (set_enabled id) db₁
    db₃ ← when_set input.max_subjects (set_max_subjects id) db₂
    db₄ ← when_set input.max_quota_bytes (set_max_quota_bytes id) db₃
    db₅ ← when_set input.credit_floor (set_credit_floor id) db₄
    ok (update_reseller id (λ r. record r { updated_at = now }) db₅)

-- DELETE FROM resellers WHERE id = ?
abbrev pub delete_reseller : {S : Type 0} → ℕ → Tables S → Tables S
delete_reseller id db = record db {
  resellers = Maps.delete ℕ_discrete id db.resellers;
  ledger = delete_movements id db.ledger;
}

-- Delete
unfoldable pub delete : {S : Type 0} → ℕ → Tables S → Outcome ResellerError (Tables S)
delete id db = do
  ltb 0 (count_owned id db.owned) refuses has_customers (count_owned id db.owned)
  (if has_row db.resellers id then false else true) refuses no_rows
  ok (delete_reseller id db)
