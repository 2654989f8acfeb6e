-- ===== src/Panel/Resellers/Tenancy.antt =====
-- What changing and deleting a reseller does to it and to the others.
use antimage.Common.{
  ℕ, ◌≡◌, ◌≢◌, refl, sym, ◌∙◌, arith, String, ℕ_discrete, Bool, true, false, Option, none, some,
  List, [], ◌∷◌, ite, if◌then◌else◌, Bool-cases, inl, inr, ltb,
}
use antimage.Common.Int.{ℤ}
use antimage.Common.Maps
use mathlib.Core.Option
use antimage.Common.Outcome.{Outcome, ok, err, refuses-eq-ok, bind-eq-ok, ok-injective}
use antimage.Panel.Resellers.Tables.{
  Movement, Tables, Reseller, deltas, ResellerError, not_found, has_customers, no_rows,
}
use antimage.Panel.Resellers.Ledger.{get, has_row, is_empty_text}
use antimage.Panel.Resellers.Account.{account, keys}
use antimage.Panel.Resellers.Provision.{count_owned}
use antimage.Panel.Resellers.Tenants.{
  UpdateInput, set_row, update_reseller, delete_movements, when_set, set_enabled, set_max_subjects,
  set_max_quota_bytes, set_credit_floor, set_display_name, update, delete, is_negative, has_name,
  delete_reseller,
}

abbrev or_else : {A : Type 0} → Option A → A → A
or_else none a = a
or_else (some a) b = a

-- The reseller after an update, in one step.
abbrev merged : (String → String) → UpdateInput → ℕ → Reseller → Reseller
merged trim input now r = record {
  admin_id = r.admin_id;
  display_name = elim input.display_name [ none ↦ r.display_name | some d ↦ trim d ];
  enabled = or_else input.enabled r.enabled;
  max_subjects = or_else input.max_subjects r.max_subjects;
  max_quota_bytes = or_else input.max_quota_bytes r.max_quota_bytes;
  credit_floor = or_else input.credit_floor r.credit_floor;
  created_at = r.created_at;
  updated_at = now;
}

abbrev named : (String → String) → Option String → Reseller → Reseller
named trim o r = record r { display_name = elim o [ none ↦ r.display_name | some d ↦ trim d ] }

set_row_same : (id : ℕ) (rows : List (ℕ × Reseller)) → set_row id (λ r. r) rows ≡ rows
unfolding set_row
set_row_same id [] = refl
set_row_same id (x ∷ rows) = ground (arith, set_row_same id rows)

set_row_twice :
    (id : ℕ) (f g : Reseller → Reseller) (rows : List (ℕ × Reseller))
    → set_row id g (set_row id f rows) ≡ set_row id (λ r. g (f r)) rows
unfolding set_row
set_row_twice id f g [] = refl
set_row_twice id f g (x ∷ rows) = ground (arith, set_row_twice id f g rows)

get-set_row :
    (id j : ℕ) (change : Reseller → Reseller) (rows : List (ℕ × Reseller))
    → Maps.get ℕ_discrete j (set_row id change rows)
      ≡ ite
          (ℕ_discrete j id)
          (Option.map change (Maps.get ℕ_discrete j rows))
          (Maps.get ℕ_discrete j rows)
unfolding set_row Maps.get
get-set_row id j change [] = ground arith
get-set_row id j change (x ∷ rows) = ground (arith, get-set_row id j change rows)

unset : {S : Type 0} (id : ℕ) (db : Tables S) → db ≡ update_reseller id (λ r. r) db
unset id db = rw (set_row_same id db.resellers) refl

when_set-ok :
    {S A : Type 0} (id : ℕ) (o : Option A)
    (statement : A → Tables S → Outcome ResellerError (Tables S))
    (change : Option A → Reseller → Reseller) (db db' : Tables S)
    → (λ r. r) ≡ change none
    → ((a : A) → statement a db ≡ ok db' → db' ≡ update_reseller id (change (some a)) db)
    → when_set o statement db ≡ ok db'
    → db' ≡ update_reseller id (change o) db
when_set-ok id none statement change db db' same each h = rw (sym same) (cc h ∙ unset id db)
when_set-ok id (some a) statement change db db' same each h = each a h

limit-ok :
    {S : Type 0} (limit : Option ℤ) (e : ResellerError) (db db' : Tables S)
    → (if is_negative limit then err e else ok db) ≡ ok db'
    → db' ≡ db
limit-ok limit e db db' h = elim (Bool-cases (is_negative limit)) [
  | inl f ↦ absurd (cc (rw f at h))
  | inr f ↦ cc (rw f at h)
]

module _ {S : Type 0} (trim : String → String) (same_name : String → String → Bool) where
  display_name-ok :
      (id : ℕ) (display_name : String) (db db' : Tables S)
      → set_display_name trim same_name id display_name db ≡ ok db'
      → db' ≡ update_reseller id (named trim (some display_name)) db
  display_name-ok id display_name db db' h = elim (Bool-cases (is_empty_text (trim display_name))) [
    | inl e ↦ absurd (cc (rw e at h))
    | inr e ↦ elim (Bool-cases (has_name same_name (some id) (trim display_name) db.resellers)) [
      | inl f ↦ absurd (cc (rw (e, f) at h))
      | inr f ↦ cc (rw (e, f) at h)
    ]
  ]

  update_steps :
      (id : ℕ) (input : UpdateInput) (now : ℕ) (db db₁ db₂ db₃ db₄ db₅ db' : Tables S)
      → when_set input.display_name (set_display_name trim same_name id) db ≡ ok db₁
      → when_set input.enabled (set_enabled id) db₁ ≡ ok db₂
      → when_set input.max_subjects (set_max_subjects id) db₂ ≡ ok db₃
      → when_set input.max_quota_bytes (set_max_quota_bytes id) db₃ ≡ ok db₄
      → when_set input.credit_floor (set_credit_floor id) db₄ ≡ ok db₅
      → db' ≡ update_reseller id (λ r. record r { updated_at = now }) db₅
      → db' ≡ update_reseller id (merged trim input now) db
  update_steps id input now db db₁ db₂ db₃ db₄ db₅ db' h₁ h₂ h₃ h₄ h₅ last =
      let e₁ =
        when_set-ok id input.display_name (set_display_name trim same_name id) (named trim) db db₁
          refl (λ a h. display_name-ok id a db db₁ h) h₁ in
      let e₂ =
        when_set-ok id input.enabled (set_enabled id)
          (λ o r. record r { enabled = or_else o r.enabled }) db₁ db₂ refl (λ a h. cc h) h₂ in
      let e₃ =
        when_set-ok id input.max_subjects (set_max_subjects id)
          (λ o r. record r { max_subjects = or_else o r.max_subjects }) db₂ db₃ refl
          (λ a h. limit-ok a _ _ _ h) h₃ in
      let e₄ =
        when_set-ok id input.max_quota_bytes (set_max_quota_bytes id)
          (λ o r. record r { max_quota_bytes = or_else o r.max_quota_bytes }) db₃ db₄ refl
          (λ a h. limit-ok a _ _ _ h) h₄ in
      let e₅ =
        when_set-ok id input.credit_floor (set_credit_floor id)
          (λ o r. record r { credit_floor = or_else o r.credit_floor }) db₄ db₅ refl (λ a h. cc h)
          h₅ in
      rw (last, e₅, e₄, e₃, e₂, e₁)
        (rw (set_row_twice, set_row_twice, set_row_twice, set_row_twice, set_row_twice) refl)

  update-ok :
      (id : ℕ) (input : UpdateInput) (now : ℕ) (db db' : Tables S)
      → update trim same_name id input now db ≡ ok db'
      → db' ≡ update_reseller id (merged trim input now) db
  unfolding update
  update-ok id input now db db' h =
      let (_, h₀) = refuses-eq-ok _ _ _ h in
      let (db₁, s₁, h₁) = bind-eq-ok _ _ h₀ in
      let (db₂, s₂, h₂) = bind-eq-ok _ _ h₁ in
      let (db₃, s₃, h₃) = bind-eq-ok _ _ h₂ in
      let (db₄, s₄, h₄) = bind-eq-ok _ _ h₃ in
      let (db₅, s₅, h₅) = bind-eq-ok _ _ h₄ in
      update_steps id input now db db₁ db₂ db₃ db₄ db₅ db' s₁ s₂ s₃ s₄ s₅ (sym (ok-injective h₅))

  -- A successful Update leaves the ledger and the customers alone.
  pub update-accounts :
      (id : ℕ) (input : UpdateInput) (now : ℕ) (db db' : Tables S)
      → update trim same_name id input now db ≡ ok db'
      → (db'.ledger ≡ db.ledger) × (db'.owned ≡ db.owned)
  update-accounts id input now db db' h = rw (update-ok id input now db db' h) (refl, refl)

  -- A successful Update sets, in one step, the columns that its input names and the time of the
  -- update of this reseller, keeps its other columns, and changes no other reseller.
  pub update-merged :
      (id : ℕ) (input : UpdateInput) (now j : ℕ) (db db' : Tables S)
      → update trim same_name id input now db ≡ ok db'
      → Maps.get ℕ_discrete j db'.resellers
        ≡ ite
            (ℕ_discrete j id)
            (Option.map (merged trim input now) (Maps.get ℕ_discrete j db.resellers))
            (Maps.get ℕ_discrete j db.resellers)
  update-merged id input now j db db' h =
      rw (update-ok id input now db db' h) (get-set_row id j (merged trim input now) db.resellers)

deltas-delete :
    (id j : ℕ) (ledger : List Movement)
    → deltas j (delete_movements id ledger) ≡ ite (ℕ_discrete j id) [] (deltas j ledger)
unfolding deltas delete_movements
deltas-delete id j [] = ground arith
deltas-delete id j (m ∷ ledger) = ground (arith, deltas-delete id j ledger)

keys-delete :
    (id j : ℕ) (ledger : List Movement)
    → keys j (delete_movements id ledger) ≡ ite (ℕ_discrete j id) [] (keys j ledger)
unfolding keys delete_movements
keys-delete id j [] = ground arith
keys-delete id j (m ∷ ledger) = ground (arith, keys-delete id j ledger)

pub delete-ok :
    {S : Type 0} (id : ℕ) (db db' : Tables S)
    → delete id db ≡ ok db'
    → (count_owned id db.owned ≡ 0) × (db' ≡ delete_reseller id db)
unfolding delete
delete-ok id db db' h =
    let (free, h₁) =
      refuses-eq-ok (ltb 0 (count_owned id db.owned)) (has_customers (count_owned id db.owned)) _
        h in
    let (_, h₂) =
      refuses-eq-ok (if has_row db.resellers id then false else true) no_rows
        (ok (delete_reseller id db)) h₁ in
    (ground arith, sym (ok-injective h₂))

-- A successful Delete was of a reseller without customers; afterwards the reseller is not found, and
-- every other reseller and its account are what they were.
pub delete-others :
    {S : Type 0} (id : ℕ) (db db' : Tables S)
    → delete id db ≡ ok db'
    → (count_owned id db.owned ≡ 0)
      × (get id db' ≡ err not_found)
      × ((j : ℕ) → j ≢ id → (get j db' ≡ get j db) × (account j db'.ledger ≡ account j db.ledger))
delete-others id db db' h =
    let (free, tables) = delete-ok id db db' h in
    (
      free,
      rw tables (ground (arith, Maps.get-delete ℕ_discrete id id db.resellers)),
      λ j other. (
        rw tables (ground (arith, Maps.get-delete ℕ_discrete id j db.resellers)),
        rw tables (ground (arith, deltas-delete id j db.ledger, keys-delete id j db.ledger)),
      ),
    )
