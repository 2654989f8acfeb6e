-- ===== src/Tests/Resellers.antt =====
-- A panel with two resellers, and a subject store that numbers its rows.
use antimage.Common.{
  ℕ, ◌+◌, ◌≤◌, ◌≡◌, ◌≢◌, refl, arith, String, Option, none, some, List, [], ◌∷◌, ◌++◌, ite,
  ℕ_discrete, map, true, false, Bool, String_discrete,
}
use antimage.Common.Int.{ℤ, pos, negsuc, ◌-ℤ◌, ◌≤ℤ◌, ◌+ℤ◌, wrap_64, IsInt64}
use antimage.Common.Maps
use antimage.Common.Outcome.{Outcome, ok, ◌>>=◌}
use antimage.Panel.Resellers.Tables.{
  Reseller, Movement, Tables, SubjectCreator, IsCreated, next_id, ResellerError, find_key, deltas,
}
use antimage.Panel.Resellers.Ledger.{CreditInput, credit, get, append_movement, balance}
use antimage.Panel.Resellers.Account.{account, post, credit-account, sum_from}
use antimage.Panel.Resellers.Provision.{
  ProvisionInput, ProvisionResult, provision, owner_of, count_owned, provision_checked,
  check_limits, provision_new, allocations, record_ownership,
}
use antimage.Panel.Resellers.Replay.{provision_retry}
use antimage.Panel.Resellers.Kept.{later, start, credits}
use antimage.Panel.Resellers.Promises.{provision_once, provision-floor, provision-max_subjects}
use antimage.Panel.Resellers.Tenants.{
  UpdateInput, update, delete, has_name, delete_movements, set_row,
}
use antimage.Panel.Resellers.Tenancy.{}

next_id-is_free :
    (n : ℕ) (m : List (ℕ × Option ℤ))
    → next_id (map (λ (e : ℕ × Option ℤ). e.0) m) ≤ n
    → Maps.get ℕ_discrete n m ≡ none
unfolding Maps.get
next_id-is_free n [] h = refl
next_id-is_free n (e ∷ m) h = ground (arith, next_id-is_free n m)

abbrev quota_keys : Tables (Unit {0}) → List ℕ
quota_keys db = map (λ (e : ℕ × Option ℤ). e.0) db.quotas

abbrev with_row : Option ℤ → Tables (Unit {0}) → Tables (Unit {0})
with_row quota db = record db { quotas = db.quotas ++ (next_id (quota_keys db), quota) ∷ [] }

with_row-IsCreated :
    (quota : Option ℤ) (db : Tables (Unit {0})) (id : ℕ) (db' : Tables (Unit {0}))
    → ◌≡◌ {A = Outcome ResellerError (ℕ × Tables (Unit {0}))}
        (ok (next_id (quota_keys db), with_row quota db))
        (ok (id, db'))
    → IsCreated db id db'
with_row-IsCreated quota db id db' h =
    let same : id ≡ next_id (quota_keys db) = cc h in
    let tables : db' ≡ with_row quota db = cc h in
    record {
      quota = quota;
      fresh = rw same (next_id-is_free (next_id (quota_keys db)) db.quotas (omega arith));
      quotas = rw (tables, same) refl;
      resellers = rw tables refl;
      ledger = rw tables refl;
      owned = rw tables refl;
      audit = rw tables refl;
    }

-- The input of a creation is the quota of the new subject.
abbrev numbering : SubjectCreator (Unit {0}) (Option ℤ)
numbering = record {
  create = λ quota db. ok (next_id (quota_keys db), with_row quota db);
  node_ids_for = λ subject db. ok (subject ∷ []);
  create_lem = with_row-IsCreated;
}

abbrev plain : String → String
plain s = s

abbrev tenant : ℕ → String → ℤ → Reseller
tenant admin name floor = record {
  admin_id = admin;
  display_name = name;
  enabled = true;
  max_subjects = some (pos 2);
  max_quota_bytes = some (pos 1000);
  credit_floor = floor;
  created_at = 0;
  updated_at = 0;
}

abbrev panel : Tables (Unit {0})
panel = record {
  others = tt;
  admins = 1 ∷ 2 ∷ [];
  resellers = (1, tenant 1 "north" (pos 0)) ∷ (2, tenant 2 "south" (negsuc 99)) ∷ [];
  ledger = [];
  owned = [];
  quotas = (1, none) ∷ [];
  audit = [];
}

abbrev topup : CreditInput
topup = record {
  reseller_id = 1;
  delta = pos 500;
  reason = "topup";
  note = "";
  subject_id = none;
  actor_admin_id = some 2;
  idempotency_key = "first";
}

abbrev top_row : Movement
top_row = record {
  id = 1;
  reseller_id = 1;
  delta = pos 500;
  reason = "topup";
  subject_id = none;
  actor_admin_id = some 2;
  note = "";
  idempotency_key = "first";
  at = 10;
}

abbrev funded : Tables (Unit {0})
funded = record panel { ledger = top_row ∷ [] }

topup_run : credit plain topup 10 panel ≡ ok (1, funded)
unfolding credit find_key append_movement Maps.get
topup_run = refl

abbrev sale : ProvisionInput (Option ℤ)
sale = record {
  reseller_id = 1;
  cost = pos 200;
  subject = none;
  quota_bytes = pos 900;
  actor_admin_id = some 1;
  idempotency_key = "sale";
}

abbrev sold : ProvisionResult
sold = record { subject_id = 2; ledger_id = 2; balance = pos 300; node_ids = 2 ∷ [] }

abbrev sale_row : Movement
sale_row = record {
  id = 2;
  reseller_id = 1;
  delta = negsuc 199;
  reason = "provision";
  subject_id = some 2;
  actor_admin_id = some 1;
  note = "";
  idempotency_key = "sale";
  at = 20;
}

abbrev after_sale : Tables (Unit {0})
after_sale = record funded {
  ledger = top_row ∷ sale_row ∷ [];
  owned = (2, record { reseller_id = 1; cost = pos 200; created_at = 20 }) ∷ [];
  quotas = (1, none) ∷ (2, some (pos 900)) ∷ [];
  audit = record { subject_id = 2; reseller_id = 1; cost = pos 200; quota_bytes = pos 900 } ∷ [];
}

sale_run : provision plain numbering sale 20 funded ≡ ok (sold, after_sale)
unfolding provision provision_checked provision_new check_limits record_ownership credit find_key
    append_movement Maps.get Maps.put deltas count_owned allocations ◌+ℤ◌ ◌-ℤ◌ wrap_64
sale_run = refl

-- A quota for which the sum with the allocated bytes wraps passes the ceiling.
huge_quota_run :
    check_limits 1 (tenant 1 "north" (pos 0)) (pos 9223372036854775807) after_sale ≡ ok tt
unfolding check_limits allocations Maps.get count_owned ◌+ℤ◌ wrap_64
huge_quota_run = refl

-- Under a floor below zero, so does a cost for which the difference wraps.
abbrev indebted : Tables (Unit {0})
indebted = record panel { ledger = record top_row { reseller_id = 2; delta = negsuc 49 } ∷ [] }

abbrev huge_sale : ProvisionInput (Option ℤ)
huge_sale = record sale { reseller_id = 2; cost = pos 9223372036854775807 }

huge_cost_run :
    (provision plain numbering huge_sale 20 indebted)
    ≡ ok (
      record {
        subject_id = 2;
        ledger_id = 2;
        balance = pos 9223372036854775759;
        node_ids = 2 ∷ [];
      },
      record indebted {
        ledger =
            record top_row { reseller_id = 2; delta = negsuc 49 }
            ∷ record sale_row { reseller_id = 2; delta = negsuc 9223372036854775806 }
            ∷ [];
        owned =
            (2, record { reseller_id = 2; cost = pos 9223372036854775807; created_at = 20 }) ∷ [];
        quotas = (1, none) ∷ (2, some (pos 900)) ∷ [];
        audit =
            record {
              subject_id = 2;
              reseller_id = 2;
              cost = pos 9223372036854775807;
              quota_bytes = pos 900;
            }
            ∷ [];
      },
    )
unfolding provision provision_checked provision_new check_limits record_ownership credit find_key
    append_movement Maps.get Maps.put deltas count_owned allocations ◌+ℤ◌ ◌-ℤ◌ wrap_64
huge_cost_run = refl

funded_new : find_key 1 "sale" funded.ledger ≡ none
unfolding find_key
funded_new = refl

funded_found : get 1 funded ≡ ok (tenant 1 "north" (pos 0))
unfolding Maps.get ℕ_discrete
funded_found = refl

funded_small : IsInt64 ((account 1 funded.ledger).total -ℤ pos 200)
unfolding deltas sum_from ◌+ℤ◌ ◌-ℤ◌
funded_small = (omega arith, omega arith)

credit-account_example :
    account 1 funded.ledger
    ≡ ite (ℕ_discrete 1 1) (post (pos 500) "first" (account 1 [])) (account 1 [])
credit-account_example = credit-account plain topup 10 panel 1 funded 1 topup_run

provision_once_example :
    (owner_of 2 after_sale ≡ ok 1)
    × (count_owned 1 after_sale.owned ≡ count_owned 1 [] + 1)
    × ((account 1 after_sale.ledger).total ≡ (account 1 funded.ledger).total -ℤ pos 200)
    × ((other : ℕ)
        → ◌≢◌ {A = ℕ} 1 other
        → (account other after_sale.ledger).total ≡ (account other funded.ledger).total)
provision_once_example =
    provision_once plain numbering sale 20 funded sold after_sale funded_new sale_run

provision-floor_example :
    (pos 0 ≤ℤ (account 1 after_sale.ledger).total) × (pos 300 ≡ (account 1 after_sale.ledger).total)
provision-floor_example =
    provision-floor plain numbering sale (tenant 1 "north" (pos 0)) 20 funded sold after_sale
      funded_new funded_found funded_small sale_run

provision-max_subjects_example : pos (count_owned 1 after_sale.owned) ≤ℤ pos 2
provision-max_subjects_example =
    provision-max_subjects plain numbering sale (tenant 1 "north" (pos 0)) (pos 2) 20 funded sold
      after_sale funded_new funded_found refl sale_run

-- A retry after another top-up returns the balance of that time.
abbrev more : CreditInput
more = record topup { idempotency_key = "second" }

abbrev topped_up : Tables (Unit {0})
topped_up = record after_sale {
  ledger = top_row ∷ sale_row ∷ record top_row { id = 3; idempotency_key = "second"; at = 30 } ∷ [];
}

more_run : credit plain more 30 after_sale ≡ ok (3, topped_up)
unfolding credit find_key append_movement Maps.get
more_run = refl

topped_up_found : get 1 topped_up ≡ ok (tenant 1 "north" (pos 0))
unfolding Maps.get ℕ_discrete
topped_up_found = refl

topped_up_balance : balance 1 topped_up ≡ ok (pos 800)
unfolding deltas ◌+ℤ◌
topped_up_balance = refl

abbrev unlike : String → String → Bool
unlike a b = false

provision_retry_example : provision plain numbering sale 50 topped_up ≡ (
    balance 1 topped_up >>= (λ total.
      ok (record { subject_id = 2; ledger_id = 2; balance = total; node_ids = 2 ∷ [] }, topped_up)))
provision_retry_example =
    provision_retry plain unlike numbering sale 20 50 funded after_sale topped_up sold
      (tenant 1 "north" (pos 0)) funded_new refl sale_run (later start (credits more 30 3 more_run))
      topped_up_found

-- Without a cost the key is not recorded, and a retry makes a second customer.
abbrev gift : ProvisionInput (Option ℤ)
gift = record sale { cost = pos 0; quota_bytes = pos 0 }

gift_runs :
    (provision plain numbering gift 20 funded
      >>= (λ first. provision plain numbering gift 21 first.1)
      >>= (λ second. ok (count_owned 1 second.1.owned)))
    ≡ ok 2
unfolding provision provision_checked provision_new check_limits record_ownership credit find_key
    append_movement Maps.get Maps.put deltas count_owned allocations ◌+ℤ◌ ◌-ℤ◌ wrap_64
gift_runs = refl

abbrev same_text : String → String → Bool
same_text a b = false

abbrev renaming : UpdateInput
renaming = record {
  display_name = some "east";
  enabled = some false;
  max_subjects = some none;
  max_quota_bytes = none;
  credit_floor = none;
}

abbrev renamed : Reseller
renamed = record (tenant 1 "east" (pos 0)) { enabled = false; max_subjects = none; updated_at = 9 }

abbrev renamed_panel : Tables (Unit {0})
renamed_panel = record panel { resellers = (1, renamed) ∷ (2, tenant 2 "south" (negsuc 99)) ∷ [] }

renaming_run : update plain same_text 1 renaming 9 panel ≡ ok renamed_panel
unfolding update has_name set_row Maps.get String_discrete
renaming_run = refl

abbrev closed_panel : Tables (Unit {0})
closed_panel = record panel { resellers = (2, tenant 2 "south" (negsuc 99)) ∷ [] }

closing_run : delete 1 funded ≡ ok closed_panel
unfolding delete Maps.get Maps.delete delete_movements count_owned
closing_run = refl
