-- ===== src/Panel/ApplyRuns/Effects.antt =====
-- What a transaction of RecordApplyRun that succeeds has written.
use antimage.Common.{
  ℕ, ℕ_discrete, Bool, false, ◌||◌, Option, none, some, List, [], ◌∷◌, ◌++◌, ite, length,
  if◌then◌else◌, ◌≡◌, ◌≢◌, refl, sym, ap, ◌∙◌, arith, Option-cases, Bool-cases, inl, inr,
}
use antimage.Panel.Db.{
  Db, Node, Revision, ApplyRun, ApplyStep, applied_above_desired, Result, ok, err, ◌>>=◌, get_node,
  >>=-eq-ok, unless-eq-ok,
}
use antimage.Panel.Db.Rows.{get_node-update_node}
use antimage.Panel.ApplyRuns.{
  ApplyRunInput, Outcome, Verdict, expected_sha, is_unissued, is_mismatch, classify, insert_steps,
  advanced, kept, fault, breaks_check, settle, read_back, apply_run_tx,
}
use mathlib.Core.Option

module _ {C : Type 0} (input : ApplyRunInput) (db : Db C) where
  abbrev pub known : Option Revision
  known = expected_sha input.node_id input.target_revision db

  abbrev pub is_fault : Bool
  is_fault = is_unissued input known || is_mismatch input known

  abbrev pub verdict : Verdict
  verdict = classify is_fault input

  -- The tables after the inserts.
  abbrev pub with_run : List ApplyStep → Db C
  with_run steps =
      let run : ApplyRun = record {
        node_id = input.node_id;
        target_revision = input.target_revision;
        started_at = input.now;
        finished_at = input.now;
        outcome = verdict.outcome;
      } in
      record db { runs = db.runs ++ run ∷ []; steps = steps }

  abbrev pub settled : List ApplyStep → Db C
  settled steps = settle input known verdict (with_run steps)

  -- What the two UPDATE statements make of the node's row.
  abbrev pub written : Node → Node
  written = if verdict.advance then advanced input verdict.status else kept input verdict.status

get_node-settle :
    {C : Type 0} (input : ApplyRunInput) (row : Option Revision) (v : Verdict) (db : Db C) (j : ℕ)
    → get_node j (settle input row v db)
      ≡ ite
          (ℕ_discrete j input.node_id)
          (Option.map
            (if v.advance then advanced input v.status else kept input v.status)
            (get_node j db))
          (get_node j db)
unfolding settle
get_node-settle input row v db j =
    elim (Bool-cases (is_unissued input row || is_mismatch input row)) [
      | inl e ↦ rw e (get_node-update_node input.node_id j _ db)
      | inr e ↦ rw e (get_node-update_node input.node_id j _ db)
    ]

settle-frame :
    {C : Type 0} (input : ApplyRunInput) (row : Option Revision) (v : Verdict) (db : Db C)
    → settle input row v db ≡ record db {
      nodes = (settle input row v db).nodes;
      audit =
          if is_unissued input row || is_mismatch input row
          then db.audit ++ fault input row ∷ []
          else db.audit;
    }
unfolding settle
settle-frame input row v db = elim (Bool-cases (is_unissued input row || is_mismatch input row)) [
  | inl e ↦ rw e refl
  | inr e ↦ rw e refl
]

module _ {C : Type 0} (input : ApplyRunInput) (db : Db C) where
  -- Besides the node's row a transaction writes only the run, its steps and the audit log.
  pub settled-frame :
      (steps : List ApplyStep)
      → settled input db steps ≡ record (with_run input db steps) {
        nodes = (settled input db steps).nodes;
        audit =
            if is_fault input db then db.audit ++ fault input (known input db) ∷ [] else db.audit;
      }
  settled-frame steps =
      settle-frame input (known input db) (verdict input db) (with_run input db steps)

  pub get_node-settled :
      (steps : List ApplyStep) (j : ℕ)
      → get_node j (settled input db steps)
        ≡ ite
            (ℕ_discrete j input.node_id)
            (Option.map (written input db) (get_node j db))
            (get_node j db)
  get_node-settled steps j =
      get_node-settle input (known input db) (verdict input db) (with_run input db steps) j

  -- A transaction that succeeds found the node and inserted its steps, and this is its result.
  pub record Succeeded (out : Outcome) (db' : Db C) : Type 0 where
    pub node : Node
    pub steps : List ApplyStep
    pub found : get_node input.node_id db ≡ some node
    pub inserted : insert_steps (length db.runs) input.steps db.steps ≡ ok steps
    pub in_bounds : breaks_check (verdict input db) input node ≡ false
    pub tables : db' ≡ settled input db steps
    pub status : out.status ≡ (verdict input db).status
    pub integrity : out.integrity ≡ is_fault input db
    pub applied : out.applied_revision ≡ (written input db node).applied_revision

  -- The transaction from the inserts on, for a node that is there.
  unfoldable pub after_found : Node → Result (Outcome × Db C)
  after_found node = do
    steps ← insert_steps (length db.runs) input.steps db.steps
    if breaks_check (verdict input db) input node
        then err applied_above_desired
        else read_back input (is_fault input db) (verdict input db) (settled input db steps)

  pub apply_run_tx-found :
      (n : Node) → get_node input.node_id db ≡ some n → apply_run_tx input db ≡ after_found n
  unfolding apply_run_tx after_found
  apply_run_tx-found n e = rw (e, apply_run_tx) refl

  apply_run_tx-missing :
      {r : Outcome × Db C} → get_node input.node_id db ≡ none → apply_run_tx input db ≢ ok r
  unfolding apply_run_tx
  apply_run_tx-missing e = rw (e, apply_run_tx) (λ h. cc)

  read_back-settled :
      (n : Node) (steps : List ApplyStep) (out : Outcome) (db' : Db C)
      → get_node input.node_id db ≡ some n
      → read_back input (is_fault input db) (verdict input db) (settled input db steps)
        ≡ ok (out, db')
      → (db' ≡ settled input db steps)
        × (out ≡ record {
          status = (verdict input db).status;
          applied_revision = (written input db n).applied_revision;
          integrity = is_fault input db;
        })
  unfolding read_back
  read_back-settled n steps out db' e h = ground (arith, get_node-settled steps input.node_id)

  after_found-Succeeded :
      (n : Node)
      → get_node input.node_id db ≡ some n
      → (out : Outcome) (db' : Db C) → after_found n ≡ ok (out, db')
      → Succeeded out db'
  unfolding after_found
  after_found-Succeeded n e out db' h =
      let (steps, inserted, rest) =
        >>=-eq-ok (insert_steps (length db.runs) input.steps db.steps) _ h in
      let (in_bounds, read) = unless-eq-ok (breaks_check (verdict input db) input n) _ _ rest in
      let (tables, result) = read_back-settled n steps out db' e read in
      record {
        node = n;
        steps = steps;
        found = e;
        inserted = inserted;
        in_bounds = in_bounds;
        tables = tables;
        status = ap (λ o. o.status) result;
        integrity = ap (λ o. o.integrity) result;
        applied = ap (λ o. o.applied_revision) result;
      }

  pub apply_run_tx-Succeeded :
      (out : Outcome) (db' : Db C) → apply_run_tx input db ≡ ok (out, db') → Succeeded out db'
  apply_run_tx-Succeeded out db' h = elim (Option-cases (get_node input.node_id db)) [
    | inl e ↦ absurd (apply_run_tx-missing e h)
    | inr (n, e) ↦ after_found-Succeeded n e out db' (sym (apply_run_tx-found n e) ∙ h)
  ]
