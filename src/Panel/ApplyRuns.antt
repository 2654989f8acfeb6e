-- ===== src/Panel/ApplyRuns.antt =====
-- internal/panel/nodes/convergence.go: RecordApplyRun, which decides what a node's report means.
pub mod Effects
pub mod Total
pub mod Verdicts
use antimage.Common.{
  ℕ, String, String_discrete, ℕ_discrete, Bool, true, false, ◌&&◌, ◌||◌, Option, none, some, List,
  [], ◌∷◌, ◌++◌, ite, length, if◌then◌else◌, ◌==◌,
}
use antimage.Common.Int.{ℤ, pos, negsuc, ltb_ℤ}
use antimage.Common.Maps
use antimage.NodeStatus.{Status, online, degraded}
use antimage.Panel.Db.{
  Db, Node, Revision, ApplyRun, ApplyStep, RunOutcome, AuditRow, integrity_fault, no_such_node,
  duplicate_step, applied_above_desired, Result, ok, err, ◌>>=◌, write, revision_key, get_node,
  update_node,
}

-- StepOutcome
pub record StepOutcome : Type 0 where
  pub seq : ℕ
  pub kind : String
  pub disruption : String
  pub succeeded : Bool
  pub error : String
  pub duration_ms : ℕ

-- ApplyRunInput
pub record ApplyRunInput : Type 0 where
  pub node_id : ℕ
  pub target_revision : ℤ
  pub converged : Bool
  pub deferred : Bool
  pub error : String
  pub doc_sha256 : String
  pub steps : List StepOutcome
  pub now : ℕ

-- Outcome
pub record Outcome : Type 0 where
  pub status : Status
  pub applied_revision : ℤ
  pub integrity : Bool

-- SELECT doc_sha256 FROM node_revisions WHERE node_id = ? AND revision = ?; a stored revision is
-- a positive number.
abbrev pub expected_sha : {C : Type 0} → ℕ → ℤ → Db C → Option Revision
expected_sha id (pos r) db = Maps.get revision_key (id, r) db.revisions
expected_sha id (negsuc r) db = none

-- The local variables `unissued` and `mismatch`.
abbrev pub is_unissued : ApplyRunInput → Option Revision → Bool
is_unissued input (some row) = false
is_unissued input none = input.converged && ltb_ℤ (pos 0) input.target_revision

abbrev pub is_mismatch : ApplyRunInput → Option Revision → Bool
is_mismatch input none = false
is_mismatch input (some row) =
    input.converged && ite (String_discrete input.doc_sha256 row.doc_sha256) false true

pub record Verdict : Type 0 where
  pub outcome : RunOutcome
  pub status : Status
  pub advance : Bool

-- The `switch` on the report.
unfoldable pub classify : Bool → ApplyRunInput → Verdict
unfolding String_discrete
classify integrity input =
    if integrity
    then record { outcome = RunOutcome.integrity; status = Status.integrity; advance = false }
    else if input.deferred
    then record { outcome = RunOutcome.deferred; status = online; advance = false }
    else if input.converged
    then record { outcome = RunOutcome.converged; status = online; advance = true }
    else ite (String_discrete input.error "")
        (record { outcome = RunOutcome.partial; status = degraded; advance = false })
        (record { outcome = RunOutcome.failed; status = degraded; advance = false })

-- The inner `switch`: a text that is no known disruption is stored as "unknown".
unfoldable pub known_disruption : String → String
unfolding String_discrete
known_disruption d =
    ite (String_discrete d "none") d
      (ite (String_discrete d "reload") d (ite (String_discrete d "restart") d "unknown"))

-- Is (run_id, seq) among the primary keys of node_apply_steps?
unfoldable pub has_step : ℕ → ℕ → List ApplyStep → Bool
has_step run seq [] = false
has_step run seq (s ∷ rest) = (s.run_id == run && s.seq == seq) || has_step run seq rest

-- The loop over `in.Steps`.
unfoldable pub insert_steps : ℕ → List StepOutcome → List ApplyStep → Result (List ApplyStep)
unfolding has_step known_disruption
insert_steps run [] table = ok table
insert_steps run (st ∷ rest) table =
    let row : ApplyStep = record {
      run_id = run;
      seq = st.seq;
      step_kind = st.kind;
      disruption = known_disruption st.disruption;
      succeeded = st.succeeded;
      error = st.error;
      duration_ms = st.duration_ms;
    } in
    let inserted = insert_steps run rest (table ++ row ∷ []) in
    if has_step run st.seq table then err (duplicate_step st.seq) else inserted

-- UPDATE nodes SET applied_revision = ?, status = ?, last_error = ''
abbrev pub advanced : ApplyRunInput → Status → Node → Node
advanced input status n = record n {
  applied_revision = input.target_revision;
  status = status;
  last_error = "";
}

-- UPDATE nodes SET status = ?, last_error = ?
abbrev pub kept : ApplyRunInput → Status → Node → Node
kept input status n = record n { status = status; last_error = input.error }

-- The audit record of an integrity fault.
abbrev pub fault : ApplyRunInput → Option Revision → AuditRow
fault input known =
    integrity_fault input.node_id
      (if is_unissued input known then "unissued_revision" else "hash_mismatch")
      input.target_revision (elim known [ none ↦ "" | some row ↦ row.doc_sha256 ]) input.doc_sha256

-- CHECK (applied_revision <= desired_revision), when `applied_revision` is written.
abbrev pub breaks_check : Verdict → ApplyRunInput → Node → Bool
breaks_check v input n = v.advance && ltb_ℤ (pos n.desired_revision) input.target_revision

-- The tables after the inserts, with the verdict written to the node.
unfoldable pub settle : {C : Type 0} → ApplyRunInput → Option Revision → Verdict → Db C → Db C
settle input known v db =
    let written =
      update_node input.node_id (if v.advance then advanced input v.status else kept input v.status)
        db in
    if is_unissued input known || is_mismatch input known
    then record written { audit = written.audit ++ fault input known ∷ [] }
    else written

-- SELECT applied_revision FROM nodes WHERE id = ?, for the result.
unfoldable pub read_back :
    {C : Type 0} → ApplyRunInput → Bool → Verdict → Db C → Result (Outcome × Db C)
unfolding Maps.get ℕ_discrete
read_back input integrity v db = elim (get_node input.node_id db) [
  | none ↦ err no_such_node
  | some node ↦ ok (
    record { status = v.status; applied_revision = node.applied_revision; integrity = integrity },
    db,
  )
]

-- The function that RecordApplyRun runs inside Store.Write. The insert into node_apply_runs refers
-- to the node, so a missing node fails there.
unfoldable pub apply_run_tx : {C : Type 0} → ApplyRunInput → Db C → Result (Outcome × Db C)
apply_run_tx input db =
    let known = expected_sha input.node_id input.target_revision db in
    let integrity = is_unissued input known || is_mismatch input known in
    let v = classify integrity input in
    elim (get_node input.node_id db) [
      | none ↦ err no_such_node
      | some node ↦ do
        steps ← insert_steps (length db.runs) input.steps db.steps
        if breaks_check v input node then err applied_above_desired else do
          let run : ApplyRun = record {
            node_id = input.node_id;
            target_revision = input.target_revision;
            started_at = input.now;
            finished_at = input.now;
            outcome = v.outcome;
          }
          let inserted = record db { runs = db.runs ++ run ∷ []; steps = steps }
          read_back input integrity v (settle input known v inserted)
    ]

-- RecordApplyRun
unfoldable pub record_apply_run : {C : Type 0} → ApplyRunInput → Db C → Result Outcome × Db C
record_apply_run input db = write (apply_run_tx input) db
