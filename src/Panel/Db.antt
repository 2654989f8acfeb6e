-- ===== src/Panel/Db.antt =====
-- The panel's tables that carry node state (internal/panel/store/migrations), and the transactions
-- of internal/panel/store/store.go. `C` is the content of all other tables, from which the desired
-- documents are built. A statement of a transaction succeeds or breaks a constraint of the schema;
-- failures of the disk and of the driver are not modelled.
pub mod Rows
use antimage.Common.{
  true, false, if◌then◌else◌, ite, ◌≡◌, ◌⊎◌, inl, inr, refl, arith, ℕ, String, String_discrete,
  ℕ_discrete, Bool, Option, none, some, List, ◌∷◌, [],
}
use antimage.Common.Int.{ℤ}
use antimage.Common.Maps
use antimage.NodeStatus.{Status}

-- A row of `nodes`.
pub record Node : Type 0 where
  pub status : Status
  pub desired_revision : ℕ
  pub applied_revision : ℤ
  pub last_error : String
  pub adapter_kinds : List String
  pub last_seen_at : Option ℕ

-- A row of `adapter_registry`.
pub record AdapterEntry : Type 0 where
  pub version : String
  pub capabilities : List String
  pub reported_at : ℕ
  pub service_schema : Option String
  pub hot_user_add : Bool
  pub self_accounting : Bool
  pub requires_pki : Bool

-- The column `outcome` of `node_apply_runs`.
pub data RunOutcome : Type 0 where
  converged partial deferred failed integrity : RunOutcome

-- A row of `node_apply_runs`; its id is its position in the table.
pub record ApplyRun : Type 0 where
  pub node_id : ℕ
  pub target_revision : ℤ
  pub started_at : ℕ
  pub finished_at : ℕ
  pub outcome : RunOutcome

-- A row of `node_apply_steps`.
pub record ApplyStep : Type 0 where
  pub run_id : ℕ
  pub seq : ℕ
  pub step_kind : String
  pub disruption : String
  pub succeeded : Bool
  pub error : String
  pub duration_ms : ℕ

-- A row of `audit_log`, by its action.
pub data AuditRow : Type 0 where
  node_revision : (node revision : ℕ) (sha256 reason actor : String) → AuditRow
  integrity_fault :
      (node : ℕ) (reason : String) (revision : ℤ) (expected reported : String) → AuditRow

-- A row of `node_revisions`.
pub record Revision : Type 0 where
  pub created_at : ℕ
  pub actor : String
  pub reason : String
  pub doc_sha256 : String

pub record Db (C : Type 0) : Type 0 where
  pub content : C
  pub nodes : List (ℕ × Node)
  pub revisions : List ((ℕ × ℕ) × Revision)
  pub registry : List ((ℕ × String) × AdapterEntry)
  pub runs : List ApplyRun
  pub steps : List ApplyStep
  pub audit : List AuditRow

pub data DbError : Type 0 where
  no_such_node : DbError
  duplicate_step : ℕ → DbError
  duplicate_revision : ℕ → DbError
  revision_gap : ℕ → DbError
  applied_above_desired : DbError
  refused : String → DbError

pub data Result {ℓ} (A : Type ℓ) : Type ℓ where
  ok : A → Result A
  err : DbError → Result A

infixl 5 ◌>>=◌
abbrev pub ◌>>=◌ {κ ℓ} :
    {Row : Type κ} {Out : Type ℓ} → Result Row → (Row → Result Out) → Result Out
err cause >>= next = err cause
ok row >>= next = next row

-- Store.Write: the changes are kept when `fn` returns no error, and rolled back otherwise.
abbrev pub write : {C A : Type 0} → (Db C → Result (A × Db C)) → Db C → Result A × Db C
write fn db = elim (fn db) [ ok (a, db') ↦ (ok a, db') | err e ↦ (err e, db) ]

-- The primary keys (node_id, revision) and (node_id, kind).
unfoldable pub revision_key : Discrete (ℕ × ℕ)
unfolding ℕ_discrete
revision_key = hlevel ℕ_discrete

unfoldable pub registry_key : Discrete (ℕ × String)
unfolding ℕ_discrete String_discrete
registry_key = hlevel (ℕ_discrete, String_discrete)

-- SELECT … FROM nodes WHERE id = ?
abbrev pub get_node : {C : Type 0} → ℕ → Db C → Option Node
get_node id db = Maps.get ℕ_discrete id db.nodes

unfoldable pub update_row : ℕ → (Node → Node) → List (ℕ × Node) → List (ℕ × Node)
unfolding ℕ_discrete
update_row id change [] = []
update_row id change (e ∷ rest) =
    let others = update_row id change rest in
    ite (ℕ_discrete e.0 id) ((e.0, change e.1) ∷ others) (e ∷ others)

-- UPDATE nodes SET … WHERE id = ?; no row, no change.
abbrev pub update_node : {C : Type 0} → ℕ → (Node → Node) → Db C → Db C
update_node id change db = record db { nodes = update_row id change db.nodes }

-- Inversion of a statement that succeeded: so did what came before it.
pub >>=-eq-ok {κ ℓ} :
    {Row : Type κ} {Out : Type ℓ} (first : Result Row) (next : Row → Result Out) {out : Out}
    → (first >>= next) ≡ ok out
    → (row : Row) × (first ≡ ok row) × (next row ≡ ok out)
>>=-eq-ok (err cause) next done = cc
>>=-eq-ok (ok row) next done = (row, refl, done)

pub unless-eq-ok {ℓ} :
    {A : Type ℓ} (b : Bool) (e : DbError) (r : Result A) {a : A}
    → (if b then err e else r) ≡ ok a
    → (b ≡ false) × (r ≡ ok a)
unless-eq-ok true e r h = cc
unless-eq-ok false e r h = (refl, h)

pub Result-cases {ℓ} :
    {A : Type ℓ} (r : Result A) → ((a : A) × (r ≡ ok a)) ⊎ ((e : DbError) × (r ≡ err e))
Result-cases (ok a) = inl (a, refl)
Result-cases (err e) = inr (e, refl)

-- A transaction that succeeds keeps its changes.
pub write-eq-ok :
    {C A : Type 0} (fn : Db C → Result (A × Db C)) (db : Db C) {a : A}
    → (write fn db).0 ≡ ok a
    → fn db ≡ ok (a, (write fn db).1)
write-eq-ok fn db h = ground arith

-- A transaction that fails leaves the tables as they were.
pub write-eq-err :
    {C A : Type 0} (fn : Db C → Result (A × Db C)) (db : Db C) {e : DbError}
    → (write fn db).0 ≡ err e
    → (write fn db).1 ≡ db
write-eq-err fn db h = ground arith

pub write-of_ok :
    {C A : Type 0} (fn : Db C → Result (A × Db C)) (db : Db C) {a : A} {db' : Db C}
    → fn db ≡ ok (a, db')
    → write fn db ≡ (ok a, db')
write-of_ok fn db h = rw (h, write)

-- What holds before a transaction and after its function holds after it, rolled back or not.
pub write-preserves {ℓ} :
    {C A : Type 0} (P : Db C → Type ℓ) (fn : Db C → Result (A × Db C)) (db : Db C)
    → P db
    → ((a : A) (db' : Db C) → fn db ≡ ok (a, db') → P db')
    → P (write fn db).1
write-preserves P fn db h k = elim (Result-cases (fn db)) [
  | inl ((a, db'), e) ↦ rw (e, write) (k a db' e)
  | inr (x, e) ↦ rw (e, write) h
]
