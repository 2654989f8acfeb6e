-- ===== src/Panel/Resellers/Provisions.antt =====
-- What a successful ProvisionSubject did.
use antimage.Common.{
  ℕ, ◌≡◌, inl, inr, refl, sym, arith, String, true, false, none, List, [], ◌∷◌, ◌++◌, if◌then◌else◌,
  Bool-cases, not,
}
use antimage.Common.Int.{ℤ, pos, ltb_ℤ, ◌-ℤ◌, wrap_64}
use antimage.Common.Outcome.{ok, then-eq-ok, refuses-eq-ok, bind-eq-ok, ok-pair}
use antimage.Panel.Resellers.Tables.{
  Movement, Tables, SubjectCreator, IsCreated, find_key, Ownership, Reseller, disabled,
}
use antimage.Panel.Resellers.Ledger.{balance, get, movement, has_row, credit, is_empty_text}
use antimage.Panel.Resellers.Account.{credit-ok}
use antimage.Panel.Resellers.Provision.{
  ProvisionInput, ProvisionResult, charge_of, charge_cost, check_limits, record_ownership,
  record_quota, provision_new, provision_checked, provision, audited, result_of, replay_or_check,
}

record_ownership-ok :
    {S : Type 0} (subject : ℕ) (row : Ownership) (db db' : Tables S)
    → record_ownership subject row db ≡ ok db'
    → (has_row db.owned subject ≡ false)
      × (db' ≡ record db { owned = db.owned ++ (subject, row) ∷ [] })
unfolding record_ownership
record_ownership-ok subject row db db' h = elim (Bool-cases (has_row db.owned subject)) [
  | inl e ↦ absurd (cc (rw e at h))
  | inr e ↦ elim (Bool-cases (has_row db.quotas subject)) [
    | inr f ↦ absurd (cc (rw (e, f) at h))
    | inl f ↦ (e, cc (rw (e, f) at h))
  ]
]

-- The ledger after the charge of a new key.
abbrev pub charged : {In : Type 0} → ProvisionInput In → ℕ → ℕ → List Movement → ℕ × List Movement
charged input subject now ledger =
    if ltb_ℤ (pos 0) input.cost
    then (
      (movement (charge_of input subject) now ledger).id,
      ledger ++ movement (charge_of input subject) now ledger ∷ [],
    )
    else (0, ledger)

charge_cost-ok :
    {S In : Type 0} (trim : String → String) (input : ProvisionInput In) (subject now : ℕ)
    (db : Tables S) (id : ℕ) (db' : Tables S)
    → find_key input.reseller_id input.idempotency_key db.ledger ≡ none
    → charge_cost trim input subject now db ≡ ok (id, db')
    → (id ≡ (charged input subject now db.ledger).0)
      × (db' ≡ record db { ledger = (charged input subject now db.ledger).1 })
charge_cost-ok {S} trim input subject now db id db' new h =
    elim (Bool-cases (ltb_ℤ (pos 0) input.cost)) [
      | inr e ↦ let done = rw e at h in rw e (cc done, cc done)
      | inl e ↦ elim (credit-ok trim (charge_of input subject) now db id db' (rw e at h)) [
        | inl (m, found, _, _) ↦ absurd (cc (new, found))
        | inr (_, same, tables) ↦ rw e (same, tables)
      ]
    ]

module _ {S In : Type 0} (trim : String → String) (subj : SubjectCreator S In) where
  -- A provision of a key that the ledger did not have.
  pub record Provisioned (input : ProvisionInput In) (total : ℤ) (now : ℕ) (db : Tables S)
      (out : ProvisionResult) (db' : Tables S) : Type 0 where
    pub created : Tables S
    pub create : IsCreated db out.subject_id created
    pub unowned : has_row db.owned out.subject_id ≡ false
    pub owned :
        db'.owned
        ≡ db.owned
          ++ (
            out.subject_id,
            record { reseller_id = input.reseller_id; cost = input.cost; created_at = now },
          )
            ∷ []
    pub ledger_id : out.ledger_id ≡ (charged input out.subject_id now db.ledger).0
    pub ledger : db'.ledger ≡ (charged input out.subject_id now db.ledger).1
    pub balance : out.balance ≡ wrap_64 (total -ℤ input.cost)
    pub nodes : subj.node_ids_for out.subject_id db' ≡ ok out.node_ids
    pub resellers : db'.resellers ≡ db.resellers
    pub quotas : db'.quotas ≡ (record_quota out.subject_id input.quota_bytes created).quotas
    pub audit :
        db'.audit
        ≡ db.audit
          ++ record {
            subject_id = out.subject_id;
            reseller_id = input.reseller_id;
            cost = input.cost;
            quota_bytes = input.quota_bytes;
          }
            ∷ []

  abbrev owner_row : ProvisionInput In → ℕ → Ownership
  owner_row input now = record {
    reseller_id = input.reseller_id;
    cost = input.cost;
    created_at = now;
  }

  -- The tables when the charge is made.
  abbrev owning : ProvisionInput In → ℕ → ℕ → Tables S → Tables S
  owning input subject now db =
      record_quota subject input.quota_bytes
        (record db { owned = db.owned ++ (subject, owner_row input now) ∷ [] })

  provision_new-steps :
      (input : ProvisionInput In) (total : ℤ) (now : ℕ) (db : Tables S) (out : ProvisionResult)
      (db' : Tables S) (subject : ℕ) (db₁ db₂ : Tables S) (ledger_id : ℕ) (db₃ : Tables S)
      → find_key input.reseller_id input.idempotency_key db.ledger ≡ none
      → IsCreated db subject db₁
      → record_ownership subject (owner_row input now) db₁ ≡ ok db₂
      → charge_cost trim input subject now (record_quota subject input.quota_bytes db₂)
        ≡ ok (ledger_id, db₃)
      → (ids : List ℕ) → subj.node_ids_for subject (audited trim subj input subject db₃) ≡ ok ids
      → out ≡ result_of trim subj input total subject ledger_id ids
      → db' ≡ audited trim subj input subject db₃
      → Provisioned input total now db out db'
  provision_new-steps input total now db out db' subject db₁ db₂ ledger_id db₃ new c own paid ids
        nodes result tables =
      let (unowned, owned) = record_ownership-ok _ _ _ _ own in
      let (same_id, after) =
        charge_cost-ok trim input subject now (owning input subject now db₁) ledger_id db₃
          (rw c.ledger new) (rw owned at paid) in
      record {
        created = db₁;
        create = rw result c;
        unowned = rw (result, sym c.owned) unowned;
        owned = rw (tables, after, result, c.owned) refl;
        ledger_id = rw (result, same_id, c.ledger) refl;
        ledger = rw (tables, after, result, c.ledger) refl;
        balance = rw result refl;
        nodes = rw (tables, result) nodes;
        resellers = rw (tables, after) c.resellers;
        quotas = rw (tables, after, result) refl;
        audit = rw (tables, after, result, c.audit) refl;
      }

  provision_new-ok :
      (input : ProvisionInput In) (total : ℤ) (now : ℕ) (db : Tables S) (out : ProvisionResult)
      (db' : Tables S)
      → find_key input.reseller_id input.idempotency_key db.ledger ≡ none
      → provision_new trim subj input total now db ≡ ok (out, db')
      → Provisioned input total now db out db'
  unfolding provision_new
  provision_new-ok input total now db out db' new h =
      let ((subject, db₁), made, h₁) = bind-eq-ok _ _ h in
      let (db₂, own, h₂) = bind-eq-ok _ _ h₁ in
      let ((ledger_id, db₃), paid, h₃) = bind-eq-ok _ _ h₂ in
      let (ids, nodes, done) =
        bind-eq-ok (subj.node_ids_for subject (audited trim subj input subject db₃))
          (λ ids. ok (
            result_of trim subj input total subject ledger_id ids,
            audited trim subj input subject db₃,
          ))
          h₃ in
      provision_new-steps input total now db out db' subject db₁ db₂ ledger_id db₃ new
        (subj.create_lem input.subject db subject db₁ made) own paid ids nodes
        (ok-pair (sym done)).0 (ok-pair (sym done)).1

  -- The checks that a provision of a new key passed.
  pub record Admitted (input : ProvisionInput In) (now : ℕ) (db : Tables S) (out : ProvisionResult)
      (db' : Tables S) : Type 0 where
    pub reseller : Reseller
    pub found : get input.reseller_id db ≡ ok reseller
    pub enabled : reseller.enabled ≡ true
    pub limits : check_limits input.reseller_id reseller input.quota_bytes db ≡ ok tt
    pub total : ℤ
    pub read : balance input.reseller_id db ≡ ok total
    pub cost : ltb_ℤ input.cost (pos 0) ≡ false
    pub key : is_empty_text (trim input.idempotency_key) ≡ false
    pub credit : ltb_ℤ (wrap_64 (total -ℤ input.cost)) reseller.credit_floor ≡ false
    pub done : Provisioned input total now db out db'

  provision_checked-ok :
      (input : ProvisionInput In) (r : Reseller) (now : ℕ) (db : Tables S) (out : ProvisionResult)
      (db' : Tables S)
      → find_key input.reseller_id input.idempotency_key db.ledger ≡ none
      → provision_checked trim subj input r now db ≡ ok (out, db')
      → (check_limits input.reseller_id r input.quota_bytes db ≡ ok tt)
        × (total : ℤ) × (balance input.reseller_id db ≡ ok total)
        × (ltb_ℤ (wrap_64 (total -ℤ input.cost)) r.credit_floor ≡ false)
        × Provisioned input total now db out db'
  unfolding provision_checked
  provision_checked-ok input r now db out db' new h =
      let (limits, h₁) = then-eq-ok _ _ h in
      let (total, read, h₂) = bind-eq-ok _ _ h₁ in
      let (credit, rest) = refuses-eq-ok _ _ _ h₂ in
      (limits, total, read, credit, provision_new-ok input total now db out db' new rest)

  pub provision-ok :
      (input : ProvisionInput In) (now : ℕ) (db : Tables S) (out : ProvisionResult) (db' : Tables S)
      → find_key input.reseller_id input.idempotency_key db.ledger ≡ none
      → provision trim subj input now db ≡ ok (out, db')
      → Admitted input now db out db'
  unfolding provision
  provision-ok input now db out db' new h =
      let (cost, h₁) = refuses-eq-ok _ _ _ h in
      let (key, h₂) = refuses-eq-ok _ _ _ h₁ in
      let (r, found, h₃) = bind-eq-ok _ _ h₂ in
      let (enabled, h₄) =
        refuses-eq-ok (not r.enabled) disabled (replay_or_check trim subj input r now db) h₃ in
      let (limits, total, read, credit, done) =
        provision_checked-ok input r now db out db' new (rw (new, replay_or_check) at h₄) in
      record {
        reseller = r;
        found = found;
        enabled = ground arith;
        limits = limits;
        total = total;
        read = read;
        cost = cost;
        key = key;
        credit = credit;
        done = done;
      }
