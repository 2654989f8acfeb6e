-- ===== src/Panel/ApplyRuns/Total.antt =====
-- When RecordApplyRun succeeds: the primary key of node_apply_steps and the CHECK on revisions.
use antimage.Common.{
  ℕ, ◌<◌, false, ◌&&◌, ◌||◌, some, List, [], ◌∷◌, ◌++◌, length, All, ◌==◌, ◌≡◌, ◌≢◌, refl, ap, ◌∙◌,
  arith, Bool-cases, inl, inr,
}
use antimage.Common.Int.{pos, ◌≤ℤ◌}
use antimage.Panel.Db.{Db, Node, ApplyStep, ok, ◌>>=◌, get_node, write-of_ok}
use antimage.Panel.ApplyRuns.{
  ApplyRunInput, Outcome, StepOutcome, has_step, insert_steps, breaks_check, read_back,
  apply_run_tx, record_apply_run,
}
use antimage.Panel.ApplyRuns.Effects.{
  known, is_fault, verdict, written, settled, get_node-settled, after_found, apply_run_tx-found,
}
use antimage.Panel.ApplyRuns.Verdicts.{Accepted, verdict-advance}

-- No two steps of a report have the same number.
abbrev pub Distinct : List StepOutcome → Type 0
Distinct [] = Unit
Distinct (s ∷ rest) = All (λ t. s.seq ≢ t.seq) rest × Distinct rest

-- The ids of the runs in node_apply_steps are those of rows of node_apply_runs.
abbrev pub RunsKnown : {C : Type 0} → Db C → Type 0
RunsKnown db = All (λ (s : ApplyStep). s.run_id < length db.runs) db.steps

has_step-append :
    (run seq : ℕ) (table : List ApplyStep) (row : ApplyStep)
    → has_step run seq (table ++ row ∷ [])
      ≡ (has_step run seq table || (row.run_id == run && row.seq == seq))
unfolding has_step
has_step-append run seq [] row = ground arith
has_step-append run seq (s ∷ table) row = ground (arith, has_step-append run seq table row)

has_step_fresh :
    (run seq : ℕ) (table : List ApplyStep)
    → All (λ (s : ApplyStep). s.run_id < run) table
    → has_step run seq table ≡ false
unfolding has_step
has_step_fresh run seq [] h = refl
has_step_fresh run seq (s ∷ table) h = ground (arith, has_step_fresh run seq table h.1)

abbrev Absent : ℕ → List ApplyStep → List StepOutcome → Type 0
Absent run table steps = All (λ (t : StepOutcome). has_step run t.seq table ≡ false) steps

Absent-fresh :
    (run : ℕ) (table : List ApplyStep) (steps : List StepOutcome)
    → All (λ (s : ApplyStep). s.run_id < run) table
    → Absent run table steps
Absent-fresh run table [] h = tt
Absent-fresh run table (s ∷ steps) h =
    (has_step_fresh run s.seq table h, Absent-fresh run table steps h)

Absent-append :
    (run : ℕ) (table : List ApplyStep) (row : ApplyStep) (steps : List StepOutcome)
    → Absent run table steps
    → All (λ (t : StepOutcome). row.seq ≢ t.seq) steps
    → Absent run (table ++ row ∷ []) steps
Absent-append run table row [] h d = tt
Absent-append run table row (s ∷ steps) h d =
    (ground (arith, has_step-append run s.seq table row), Absent-append run table row steps h.1 d.1)

insert_steps_total :
    (run : ℕ) (steps : List StepOutcome) (table : List ApplyStep)
    → Absent run table steps
    → Distinct steps
    → (table' : List ApplyStep) × (insert_steps run steps table ≡ ok table')
unfolding insert_steps
insert_steps_total run [] table h d = (table, refl)
insert_steps_total run (s ∷ steps) table h d =
    rw h.0 (insert_steps_total run steps _ (Absent-append run table _ steps h.1 d.0) d.1)

module _ {C : Type 0} (input : ApplyRunInput) (db : Db C) where
  within-breaks_check :
      (node : Node)
      → (Accepted input (known input db) → input.target_revision ≤ℤ pos node.desired_revision)
      → breaks_check (verdict input db) input node ≡ false
  within-breaks_check node within = elim (Bool-cases (verdict input db).advance) [
    | inl e ↦ ground (arith, within ((verdict-advance input db).0 e))
    | inr e ↦ rw e refl
  ]

  after_found_total :
      (node : Node) (steps : List ApplyStep)
      → get_node input.node_id db ≡ some node
      → insert_steps (length db.runs) input.steps db.steps ≡ ok steps
      → breaks_check (verdict input db) input node ≡ false
      → (out : Outcome) × (after_found input db node ≡ ok (out, settled input db steps))
  unfolding after_found read_back
  after_found_total node steps found inserted within = (
    record {
      status = (verdict input db).status;
      applied_revision = (written input db node).applied_revision;
      integrity = is_fault input db;
    },
    rw (inserted, ◌>>=◌)
        (rw within (ground (arith, get_node-settled input db steps input.node_id))),
  )

-- RecordApplyRun returns no error for a node that is there, when no two reported steps have the same
-- number, the ids of the stored steps are those of stored runs, and an accepted report names no
-- revision above the desired one.
pub record_apply_run_total :
    {C : Type 0} (input : ApplyRunInput) (db : Db C) (node : Node)
    → get_node input.node_id db ≡ some node
    → Distinct input.steps
    → RunsKnown db
    → (Accepted input (known input db) → input.target_revision ≤ℤ pos node.desired_revision)
    → (out : Outcome) × ((record_apply_run input db).0 ≡ ok out)
unfolding record_apply_run
record_apply_run_total input db node found distinct runs within =
    let (steps, inserted) =
      insert_steps_total (length db.runs) input.steps db.steps
        (Absent-fresh (length db.runs) db.steps input.steps runs) distinct in
    let (out, done) =
      after_found_total input db node steps found inserted
        (within-breaks_check input db node within) in
    (
      out,
      ap (λ r. r.0)
          (write-of_ok (apply_run_tx input) db (apply_run_tx-found input db node found ∙ done)),
    )
