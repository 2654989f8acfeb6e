-- ===== src/Panel/Resellers/Replay.antt =====
-- Retries of a provision, whatever is called in between: internal/panel/resellers/resellers.go.
use antimage.Common.{
  ℕ, ◌≡◌, refl, arith, String, Bool, true, none, some, List, [], ◌∷◌, ◌++◌, if◌then◌else◌,
  Bool-cases, inr, inl, ap,
}
use antimage.Common.Int.{ℤ, pos, ltb_ℤ}
use antimage.Common.Outcome.{ok, err, ◌>>=◌, Outcome-cases}
use antimage.Panel.Resellers.Tables.{Movement, Tables, SubjectCreator, find_key, Reseller, disabled}
use antimage.Panel.Resellers.Ledger.{balance, get, movement}
use antimage.Panel.Resellers.Account.{find_key-append_new}
use antimage.Panel.Resellers.Provision.{
  ProvisionInput, ProvisionResult, charge_of, provision, replay_or_check, replayed,
}
use antimage.Panel.Resellers.Provisions.{provision-ok}
use antimage.Panel.Resellers.Promises.{count_owned-append}
use antimage.Panel.Resellers.Tenants.{}
use antimage.Panel.Resellers.Tenancy.{}
use antimage.Panel.Resellers.Kept.{IsKept, History, History-IsKept}

module _ {S In : Type 0} (trim : String → String) (same_name : String → String → Bool)
    (subj : SubjectCreator S In) where
  -- The nodes of a customer, or none if they cannot be read.
  abbrev pub nodes_of : ℕ → Tables S → List ℕ
  nodes_of subject db = elim (subj.node_ids_for subject db) [ ok ids ↦ ids | err e ↦ [] ]

  replayed-prior :
      (prior : Movement) (subject ledger_id : ℕ) (total : ℤ) (db : Tables S)
      → prior.subject_id ≡ some subject
      → ledger_id ≡ prior.id
      → replayed trim subj prior total db ≡ record {
        subject_id = subject;
        ledger_id = ledger_id;
        balance = total;
        node_ids = nodes_of subject db;
      }
  replayed-prior prior subject ledger_id total db h k =
      elim (Outcome-cases (subj.node_ids_for subject db)) [
        | inl (ids, e) ↦ rw (h, k) (rw (e, replayed, nodes_of) refl)
        | inr (x, e) ↦ rw (h, k) (rw (e, replayed, nodes_of) refl)
      ]

  provisioned-IsKept :
      (input : ProvisionInput In) (now : ℕ) (db : Tables S) (out : ProvisionResult) (db' : Tables S)
      → find_key input.reseller_id input.idempotency_key db.ledger ≡ none
      → ltb_ℤ (pos 0) input.cost ≡ true
      → provision trim subj input now db ≡ ok (out, db')
      → IsKept input.reseller_id input.idempotency_key
          (movement (charge_of input out.subject_id) now db.ledger)
          db'
  provisioned-IsKept input now db out db' new costs h =
      let a = provision-ok trim subj input now db out db' new h in
      let prior = movement (charge_of input out.subject_id) now db.ledger in
      let ledger : db'.ledger ≡ db.ledger ++ prior ∷ [] = rw costs at a.done.ledger in
      (
        rw ledger (find_key-append_new db.ledger prior new),
        λ empty. ground (
          arith,
          rw a.done.owned at empty,
          count_owned-append input.reseller_id db.owned (
            out.subject_id,
            record { reseller_id = input.reseller_id; cost = input.cost; created_at = now },
          ),
        ),
      )

  -- A retry of a successful ProvisionSubject with a cost above zero whose key was new, after any
  -- successful calls of Credit, ProvisionSubject, Create, Update and Delete and any changes of other
  -- tables than the ledger and the customers, if the reseller is found: for an enabled reseller it
  -- changes no table and returns the customer and the movement of the first call, with the balance
  -- and the nodes of the time of the retry, whatever the credit and the ceilings are by then; it
  -- fails only if the balance cannot be summed. For a disabled reseller it is refused.
  pub provision_retry :
      (input : ProvisionInput In) (now time : ℕ) (db db' after : Tables S) (out : ProvisionResult)
      (r : Reseller)
      → find_key input.reseller_id input.idempotency_key db.ledger ≡ none
      → ltb_ℤ (pos 0) input.cost ≡ true
      → provision trim subj input now db ≡ ok (out, db')
      → History trim same_name subj db' after
      → get input.reseller_id after ≡ ok r
      → provision trim subj input time after ≡ (
          if r.enabled
          then balance input.reseller_id after >>= (λ total. ok (
            record {
              subject_id = out.subject_id;
              ledger_id = out.ledger_id;
              balance = total;
              node_ids = nodes_of out.subject_id after;
            },
            after,
          ))
          else err disabled)
  unfolding provision
  provision_retry input now time db db' after out r new costs h past has =
      let a = provision-ok trim subj input now db out db' new h in
      let prior = movement (charge_of input out.subject_id) now db.ledger in
      let (seen, _) =
        History-IsKept trim same_name subj input.reseller_id input.idempotency_key prior db' after
          (provisioned-IsKept input now db out db' new costs h) past in
      let id : out.ledger_id ≡ prior.id = rw costs at a.done.ledger_id in
      rw (a.cost, a.key)
        (rw (has, ◌>>=◌)
          (elim (Bool-cases r.enabled) [
            | inl e ↦ rw e (
                rw (seen, replay_or_check)
                  (elim (Outcome-cases (balance input.reseller_id after)) [
                    | inl (total, f) ↦ rw f (
                        ap (λ x. ok (x, after))
                          (replayed-prior prior out.subject_id out.ledger_id total after refl id))
                    | inr (x, f) ↦ rw f refl
                  ]))
            | inr e ↦ rw e refl
          ]))
