-- ===== src/Panel/Resellers/Kept.antt =====
-- Calls of the store of resellers in any order, and the movements of a reseller with customers:
-- internal/panel/resellers/resellers.go.
use antimage.Common.{
  ℕ, ◌≡◌, refl, sym, arith, String, Bool, some, List, [], ◌∷◌, Option-cases, not, inr, inl, ◌∙◌,
}
use antimage.Common.Int.{pos, ltb_ℤ}
use antimage.Common.Outcome.{ok, refuses-eq-ok, bind-eq-ok, ok-pair}
use antimage.Panel.Resellers.Tables.{
  Movement, Tables, SubjectCreator, Ownership, find_key, Reseller, disabled, negative_cost,
  no_idempotency_key,
}
use antimage.Panel.Resellers.Ledger.{is_empty_text, balance, get, movement, credit, CreditInput}
use antimage.Panel.Resellers.Account.{credit-ok, find_key-append_some}
use antimage.Panel.Resellers.Provision.{
  ProvisionInput, ProvisionResult, charge_of, count_owned, provision, replay_or_check, replayed,
}
use antimage.Panel.Resellers.Provisions.{provision-ok}
use antimage.Panel.Resellers.Promises.{count_owned-append}
use antimage.Panel.Resellers.Tenants.{
  CreateInput, UpdateInput, create, update, delete, delete_movements,
}
use antimage.Panel.Resellers.Tenancy.{update-accounts, delete-ok}

-- A movement of a reseller that has customers.
abbrev pub IsKept : {S : Type 0} → ℕ → String → Movement → Tables S → Type 0
IsKept id key prior db =
    (find_key id key db.ledger ≡ some prior) × (count_owned id db.owned ≡ 0 → ⊥)

find_key-delete_movements :
    (other id : ℕ) (key : String) (ledger : List Movement)
    → (other ≡ id → ⊥)
    → find_key id key (delete_movements other ledger) ≡ find_key id key ledger
unfolding find_key delete_movements
find_key-delete_movements other id key [] distinct = refl
find_key-delete_movements other id key (m ∷ ledger) distinct =
    ground (arith, find_key-delete_movements other id key ledger distinct)

module _ {S In : Type 0} (trim : String → String) (same_name : String → String → Bool)
    (subj : SubjectCreator S In) where
  -- A call that succeeds, or a change of other tables.
  pub data Call (db : Tables S) : Tables S → Type 0 where
    credits :
        {after : Tables S} (input : CreditInput) (now id : ℕ)
        → credit trim input now db ≡ ok (id, after)
        → Call db after
    provisions :
        {after : Tables S} (input : ProvisionInput In) (now : ℕ) (out : ProvisionResult)
        → provision trim subj input now db ≡ ok (out, after)
        → Call db after
    creates :
        {after : Tables S} (input : CreateInput) (now id : ℕ)
        → create trim same_name input now db ≡ ok (id, after)
        → Call db after
    updates :
        {after : Tables S} (id : ℕ) (input : UpdateInput) (now : ℕ)
        → update trim same_name id input now db ≡ ok after
        → Call db after
    deletes : {after : Tables S} (id : ℕ) → delete id db ≡ ok after → Call db after
    elsewhere :
        {after : Tables S} → after.ledger ≡ db.ledger → after.owned ≡ db.owned → Call db after

  pub data History (db : Tables S) : Tables S → Type 0 where
    start : History db db
    later : {mid after : Tables S} → History db mid → Call mid after → History db after

  credit-IsKept :
      (id : ℕ) (key : String) (prior : Movement) (input : CreditInput) (now movement_id : ℕ)
      (db after : Tables S)
      → IsKept id key prior db
      → credit trim input now db ≡ ok (movement_id, after)
      → IsKept id key prior after
  credit-IsKept id key prior input now movement_id db after (found, owns) h =
      elim (credit-ok trim input now db movement_id after h) [
        | inl (m, _, _, same) ↦ rw same (found, owns)
        | inr (_, _, same) ↦ rw same (
          find_key-append_some id key db.ledger (movement input now db.ledger) {x = prior} found,
          owns,
        )
      ]

  replayed-same :
      (input : ProvisionInput In) (r : Reseller) (now : ℕ) (db : Tables S) (out : ProvisionResult)
      (after : Tables S) (m : Movement)
      → find_key input.reseller_id input.idempotency_key db.ledger ≡ some m
      → replay_or_check trim subj input r now db ≡ ok (out, after)
      → after ≡ db
  replayed-same input r now db out after m seen h =
      let (total, _, done) =
        bind-eq-ok (balance input.reseller_id db) (λ total. ok (replayed trim subj m total db, db))
          (rw (seen, replay_or_check) at h) in
      (ok-pair (sym done)).1

  provision-seen :
      (input : ProvisionInput In) (now : ℕ) (db : Tables S) (out : ProvisionResult)
      (after : Tables S) (m : Movement)
      → find_key input.reseller_id input.idempotency_key db.ledger ≡ some m
      → provision trim subj input now db ≡ ok (out, after)
      → after ≡ db
  unfolding provision
  provision-seen input now db out after m seen h =
      let (_, h₁) = refuses-eq-ok (ltb_ℤ input.cost (pos 0)) negative_cost _ h in
      let (_, h₂) =
        refuses-eq-ok (is_empty_text (trim input.idempotency_key)) no_idempotency_key _ h₁ in
      let (r, _, h₃) = bind-eq-ok (get input.reseller_id db) _ h₂ in
      let (_, h₄) =
        refuses-eq-ok (not r.enabled) disabled (replay_or_check trim subj input r now db) h₃ in
      replayed-same input r now db out after m seen h₄

  provision-IsKept :
      (id : ℕ) (key : String) (prior : Movement) (input : ProvisionInput In) (now : ℕ)
      (db : Tables S) (out : ProvisionResult) (after : Tables S)
      → IsKept id key prior db
      → provision trim subj input now db ≡ ok (out, after)
      → IsKept id key prior after
  provision-IsKept id key prior input now db out after (found, owns) h =
      elim (Option-cases (find_key input.reseller_id input.idempotency_key db.ledger)) [
        | inr (m, seen) ↦ rw (provision-seen input now db out after m seen h) (found, owns)
        | inl new ↦
            let a = provision-ok trim subj input now db out after new h in
            let row = movement (charge_of input out.subject_id) now db.ledger in
            let owner : Ownership = record {
              reseller_id = input.reseller_id;
              cost = input.cost;
              created_at = now;
            } in
            (
              rw a.done.ledger (
                  ground
                    (arith, found, find_key-append_some id key db.ledger row {x = prior} found)),
              λ empty. owns (
                  ground (
                    arith,
                    rw a.done.owned at empty,
                    count_owned-append id db.owned (out.subject_id, owner),
                  )),
            )
      ]

  create-accounts :
      (input : CreateInput) (now id : ℕ) (db after : Tables S)
      → create trim same_name input now db ≡ ok (id, after)
      → (after.ledger ≡ db.ledger) × (after.owned ≡ db.owned)
  unfolding create
  create-accounts input now id db after h = ground (arith, h)

  delete-IsKept :
      (id : ℕ) (key : String) (prior : Movement) (other : ℕ) (db after : Tables S)
      → IsKept id key prior db
      → delete other db ≡ ok after
      → IsKept id key prior after
  delete-IsKept id key prior other db after (found, owns) h =
      let (empty, same) = delete-ok other db after h in
      let distinct = λ (e : other ≡ id). owns (rw e at empty) in
      rw same (find_key-delete_movements other id key db.ledger distinct ∙ found, owns)

  Call-IsKept :
      (id : ℕ) (key : String) (prior : Movement) (db after : Tables S)
      → IsKept id key prior db
      → Call db after
      → IsKept id key prior after
  Call-IsKept id key prior db _ k (credits {after = after} input now n h) =
      credit-IsKept id key prior input now n db after k h
  Call-IsKept id key prior db _ k (provisions {after = after} input now out h) =
      provision-IsKept id key prior input now db out after k h
  Call-IsKept id key prior db _ k (creates {after = after} input now n h) =
      let (l, o) = create-accounts input now n db after h in rw (l, o) k
  Call-IsKept id key prior db _ k (updates {after = after} n input now h) =
      let (l, o) = update-accounts trim same_name n input now db after h in rw (l, o) k
  Call-IsKept id key prior db _ k (deletes {after = after} n h) =
      delete-IsKept id key prior n db after k h
  Call-IsKept id key prior db _ k (elsewhere {after = after} l o) = rw (l, o) k

  pub History-IsKept :
      (id : ℕ) (key : String) (prior : Movement) (db after : Tables S)
      → IsKept id key prior db
      → History db after
      → IsKept id key prior after
  History-IsKept id key prior db _ k start = k
  History-IsKept id key prior db _ k (later {mid = mid} {after = after} past call) =
      Call-IsKept id key prior mid after (History-IsKept id key prior db mid k past) call
