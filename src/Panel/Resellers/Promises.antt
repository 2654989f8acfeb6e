-- ===== src/Panel/Resellers/Promises.antt =====
-- What a reseller can rely on: a provision is paid for once, within credit and ceilings.
use antimage.Common.{
  ℕ, ◌+◌, ◌≡◌, ◌≢◌, arith, String, ℕ_discrete, false, none, some, List, [], ◌∷◌, ◌++◌, ite,
  if◌then◌else◌, Option-cases, inr, inl,
}
use antimage.Common.Int.{
  ℤ, pos, ltb_ℤ, ◌+ℤ◌, ◌-ℤ◌, ◌≤ℤ◌, wrap_64, wrap_64-of_int64, IsInt64, int_laws,
}
use antimage.Common.Maps
use antimage.Common.Outcome.{ok, then-eq-ok}
use antimage.Panel.Resellers.Tables.{
  Movement, Tables, SubjectCreator, Ownership, find_key, deltas, Reseller,
}
use antimage.Panel.Resellers.Ledger.{get, movement, has_row}
use antimage.Panel.Resellers.Account.{
  account, sum_from, sum_from-append, deltas-append, sum_int64-ok,
}
use antimage.Panel.Resellers.Provision.{
  ProvisionInput, ProvisionResult, charge_of, count_owned, owner_of, provision, check_limits,
  check_count, check_quota,
}
use antimage.Panel.Resellers.Provisions.{charged, provision-ok}

owner_of-append :
    {S : Type 0} (db db' : Tables S) (subject : ℕ) (row : Ownership)
    → has_row db.owned subject ≡ false
    → db'.owned ≡ db.owned ++ (subject, row) ∷ []
    → owner_of subject db' ≡ ok row.reseller_id
owner_of-append db db' subject row free owned =
    elim (Option-cases (Maps.get ℕ_discrete subject db.owned)) [
      | inr (o, e) ↦ absurd (cc (rw (has_row, e) at free))
      | inl e ↦
          rw (owned, owner_of, Maps.get-append_none ℕ_discrete subject db.owned (subject, row) e)
            (ground arith)
    ]

pub count_owned-append :
    (id : ℕ) (rows : List (ℕ × Ownership)) (e : ℕ × Ownership)
    → count_owned id (rows ++ e ∷ [])
      ≡ ite (ℕ_discrete e.1.reseller_id id) (count_owned id rows + 1) (count_owned id rows)
unfolding count_owned
count_owned-append id [] e = ground arith
count_owned-append id (x ∷ rows) e = ground (arith, count_owned-append id rows e)

charged-deltas :
    {In : Type 0} (input : ProvisionInput In) (subject now r : ℕ) (ledger : List Movement)
    → deltas r (charged input subject now ledger).1
      ≡ ite
          (ℕ_discrete input.reseller_id r)
          (if ltb_ℤ (pos 0) input.cost
            then deltas r ledger ++ (pos 0 -ℤ input.cost) ∷ []
            else deltas r ledger)
          (deltas r ledger)
charged-deltas input subject now r ledger =
    ground (arith, deltas-append r ledger (movement (charge_of input subject) now ledger))

add-negated : (t c : ℤ) → t +ℤ (pos 0 -ℤ c) ≡ t -ℤ c
add-negated t c = grind int_laws

sub-zero : (t c : ℤ) → ltb_ℤ c (pos 0) ≡ false → ltb_ℤ (pos 0) c ≡ false → t ≡ t -ℤ c
sub-zero t c h k = grind int_laws

total-charged :
    {In : Type 0} (input : ProvisionInput In) (subject now : ℕ) (ledger : List Movement)
    → ltb_ℤ input.cost (pos 0) ≡ false
    → sum_from (pos 0) (deltas input.reseller_id (charged input subject now ledger).1)
      ≡ sum_from (pos 0) (deltas input.reseller_id ledger) -ℤ input.cost
total-charged input subject now ledger paid = ground (
  arith,
  charged-deltas input subject now input.reseller_id ledger,
  sum_from-append (pos 0) (deltas input.reseller_id ledger) (pos 0 -ℤ input.cost),
  add-negated (sum_from (pos 0) (deltas input.reseller_id ledger)) input.cost,
  sub-zero (sum_from (pos 0) (deltas input.reseller_id ledger)) input.cost paid,
)

floor_of :
    (t c floor : ℤ) → IsInt64 (t -ℤ c) → ltb_ℤ (wrap_64 (t -ℤ c)) floor ≡ false → floor ≤ℤ (t -ℤ c)
floor_of t c floor small h = let exact = rw (wrap_64-of_int64 (t -ℤ c) small) at h in ground arith

count-within :
    {S : Type 0} (id : ℕ) (r : Reseller) (db : Tables S) (limit : ℤ)
    → r.max_subjects ≡ some limit
    → check_count id r db ≡ ok tt
    → pos (count_owned id db.owned + 1) ≤ℤ limit
count-within id r db limit capped h = let passed = rw (check_count, capped) at h in ground arith

module _ {S In : Type 0} (trim : String → String) (subj : SubjectCreator S In) where
  -- A successful ProvisionSubject whose key is new creates one customer and charges for that one:
  -- the customer belongs to the reseller, the reseller has one customer more, the total of its
  -- ledger goes down by exactly the cost, and that of every other reseller stays.
  pub provision_once :
      (input : ProvisionInput In) (now : ℕ) (db : Tables S) (out : ProvisionResult) (db' : Tables S)
      → find_key input.reseller_id input.idempotency_key db.ledger ≡ none
      → provision trim subj input now db ≡ ok (out, db')
      → (owner_of out.subject_id db' ≡ ok input.reseller_id)
        × (count_owned input.reseller_id db'.owned ≡ count_owned input.reseller_id db.owned + 1)
        × ((account input.reseller_id db'.ledger).total
            ≡ (account input.reseller_id db.ledger).total -ℤ input.cost)
        × ((other : ℕ)
            → input.reseller_id ≢ other
            → (account other db'.ledger).total ≡ (account other db.ledger).total)
  provision_once input now db out db' new h =
      let a = provision-ok trim subj input now db out db' new h in
      let row : Ownership = record {
        reseller_id = input.reseller_id;
        cost = input.cost;
        created_at = now;
      } in
      (
        owner_of-append db db' out.subject_id row a.done.unowned a.done.owned,
        rw a.done.owned
            (ground (arith, count_owned-append input.reseller_id db.owned (out.subject_id, row))),
        rw a.done.ledger (total-charged input out.subject_id now db.ledger a.cost),
        λ other distinct.
            rw a.done.ledger
              (ground (arith, charged-deltas input out.subject_id now other db.ledger)),
      )

  -- Credit floor: if the balance less the cost is an int64, a successful ProvisionSubject whose key is
  -- new leaves the total of the reseller's ledger at the reseller's floor or above, and reports
  -- exactly that total.
  pub provision-floor :
      (input : ProvisionInput In) (r : Reseller) (now : ℕ) (db : Tables S) (out : ProvisionResult)
      (db' : Tables S)
      → find_key input.reseller_id input.idempotency_key db.ledger ≡ none
      → get input.reseller_id db ≡ ok r
      → IsInt64 ((account input.reseller_id db.ledger).total -ℤ input.cost)
      → provision trim subj input now db ≡ ok (out, db')
      → (r.credit_floor ≤ℤ (account input.reseller_id db'.ledger).total)
        × (out.balance ≡ (account input.reseller_id db'.ledger).total)
  provision-floor input r now db out db' new found small h =
      let a = provision-ok trim subj input now db out db' new h in
      let same : a.reseller ≡ r = cc (a.found, found) in
      let exact = sum_int64-ok (pos 0) (deltas input.reseller_id db.ledger) a.total a.read in
      let after : (account input.reseller_id db'.ledger).total
          ≡ (account input.reseller_id db.ledger).total -ℤ input.cost =
        (provision_once input now db out db' new h).2 in
      (
        rw after (floor_of _ input.cost r.credit_floor small (rw (exact, same) at a.credit)),
        rw (after, a.done.balance, exact) (wrap_64-of_int64 _ small),
      )

  -- Ceiling on customers: after a successful ProvisionSubject whose key is new, a reseller with a
  -- limit has at most that many customers.
  pub provision-max_subjects :
      (input : ProvisionInput In) (r : Reseller) (limit : ℤ) (now : ℕ) (db : Tables S)
      (out : ProvisionResult) (db' : Tables S)
      → find_key input.reseller_id input.idempotency_key db.ledger ≡ none
      → get input.reseller_id db ≡ ok r
      → r.max_subjects ≡ some limit
      → provision trim subj input now db ≡ ok (out, db')
      → pos (count_owned input.reseller_id db'.owned) ≤ℤ limit
  unfolding check_limits
  provision-max_subjects input r limit now db out db' new found capped h =
      let a = provision-ok trim subj input now db out db' new h in
      let same : a.reseller ≡ r = cc (a.found, found) in
      let (counted, _) =
        then-eq-ok (check_count input.reseller_id a.reseller db)
          (check_quota input.reseller_id a.reseller input.quota_bytes db) a.limits in
      let grown = (provision_once input now db out db' new h).1 in
      rw grown (count-within input.reseller_id r db limit capped (rw same at counted))
