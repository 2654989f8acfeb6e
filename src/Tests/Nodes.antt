-- ===== src/Tests/Nodes.antt =====
-- A node from its first revision to its first report.
use antimage.Common.{
  ℕ, zero, suc, String, String_discrete, ℕ_discrete, true, false, none, some, [], ◌∷◌, ◌++◌, ◌≡◌,
  ◌≢◌, ◌↔◌, ◌⊎◌, refl, arith,
}
use antimage.Common.Int.{pos}
use antimage.Common.Maps
use antimage.NodeStatus.{Status, pending, online}
use antimage.Panel.Db.{Db, Node, Result, ok, get_node, revision_key, update_row}
use antimage.Panel.Commit.{
  Change, CommitResult, commit_tx, commit_node_change, snapshot, issue, insert_revision, latest,
}
use antimage.Panel.ApplyRuns.{
  ApplyRunInput, Outcome, StepOutcome, record_apply_run, apply_run_tx, classify, settle, read_back,
  insert_steps, has_step, known_disruption, fault,
}
use antimage.Panel.ApplyRuns.Effects.{known}
use antimage.Panel.ApplyRuns.Verdicts.{
  Vouched, RowAfter, record_apply_run-row, record_apply_run-integrity,
}
use antimage.Panel.ApplyRuns.Total.{record_apply_run_total}
use antimage.Panel.Consistency.{IsConsistent}
use antimage.Panel.Publishing.{
  IsPublished, commit_node_change-IsPublished, commit_node_change_total,
}
use antimage.Panel.Publishing.Reports.{IsApplied, published_report}
use antimage.Panel.Publishing.History.{commits, reports, start, later, History-IsConsistent}

abbrev node_one : Node
node_one = record {
  status = pending;
  desired_revision = 0;
  applied_revision = pos 0;
  last_error = "";
  adapter_kinds = [];
  last_seen_at = none;
}

-- The content is the number of services, and the hash tells none from some.
abbrev empty_tables : Db ℕ
empty_tables = record {
  content = 0;
  nodes = (1, node_one) ∷ [];
  revisions = [];
  registry = [];
  runs = [];
  steps = [];
  audit = [];
}

abbrev hash_of : ℕ → String
hash_of zero = "e3b0"
hash_of (suc n) = "5feb"

abbrev build_hash : ℕ → ℕ → ℕ → ℕ → Result String
build_hash content now id revision = ok (hash_of content)

hash_of-filled : (n : ℕ) → hash_of n ≢ ""
hash_of-filled zero h = cc
hash_of-filled (suc n) h = cc

build_hash-filled : (content now id revision : ℕ) → build_hash content now id revision ≢ ok ""
build_hash-filled content now id revision h = hash_of-filled content (cc h)

empty_tables-IsConsistent : IsConsistent empty_tables
unfolding Maps.get
empty_tables-IsConsistent = record {
  bounded = λ id n h. ground arith;
  has_row = λ id r n h pos_r below. absurd (ground arith);
  row_bounds = λ id r n row h stored. cc;
}

abbrev add_service : Change ℕ
add_service = record {
  node_id = 1;
  actor = "admin";
  reason = "add service";
  mutate = λ content. ok (suc content);
  now = 10;
  later = 10;
  inserted_at = 10;
}

abbrev first_result : CommitResult
first_result = record { changed = true; revision = 1; sha256 = "5feb" }

first_commit : (commit_node_change build_hash add_service empty_tables).0 ≡ ok first_result
unfolding commit_node_change commit_tx snapshot issue insert_revision latest Maps.get update_row
    String_discrete ℕ_discrete revision_key
first_commit = refl

commit_node_change-IsPublished_example :
    IsPublished (commit_node_change build_hash add_service empty_tables).1 1 first_result
commit_node_change-IsPublished_example =
    commit_node_change-IsPublished build_hash add_service empty_tables first_result
      build_hash-filled empty_tables-IsConsistent first_commit

found_first : get_node 1 empty_tables ≡ some node_one
unfolding Maps.get ℕ_discrete
found_first = refl

commit_node_change_total_example :
    (r : CommitResult) × ((commit_node_change build_hash add_service empty_tables).0 ≡ ok r)
commit_node_change_total_example =
    commit_node_change_total build_hash add_service empty_tables 1 node_one
      empty_tables-IsConsistent refl found_first (λ now revision. ("5feb", refl))

-- The tables after the first commit.
abbrev issued_tables : Db ℕ
issued_tables = record empty_tables {
  content = 1;
  nodes = (1, record node_one { desired_revision = 1 }) ∷ [];
  revisions =
      (
        (1, 1),
        record { created_at = 10; actor = "admin"; reason = "add service"; doc_sha256 = "5feb" },
      )
      ∷ [];
}

abbrev first_step : StepOutcome
first_step = record {
  seq = 0;
  kind = "create_service";
  disruption = "reload";
  succeeded = true;
  error = "";
  duration_ms = 12;
}

abbrev first_report : ApplyRunInput
first_report = record {
  node_id = 1;
  target_revision = pos 1;
  converged = true;
  deferred = false;
  error = "";
  doc_sha256 = "5feb";
  steps = first_step ∷ record first_step { seq = 1 } ∷ [];
  now = 20;
}

abbrev forged_report : ApplyRunInput
forged_report = record first_report { doc_sha256 = "0000" }

abbrev accepted_outcome : Outcome
accepted_outcome = record { status = online; applied_revision = pos 1; integrity = false }

abbrev fault_outcome : Outcome
fault_outcome = record { status = Status.integrity; applied_revision = pos 0; integrity = true }

accepts : (record_apply_run first_report issued_tables).0 ≡ ok accepted_outcome
unfolding record_apply_run apply_run_tx classify settle read_back insert_steps has_step
    known_disruption Maps.get update_row revision_key String_discrete ℕ_discrete
accepts = refl

refuses : (record_apply_run forged_report issued_tables).0 ≡ ok fault_outcome
unfolding record_apply_run apply_run_tx classify settle read_back insert_steps has_step
    known_disruption Maps.get update_row revision_key String_discrete ℕ_discrete
refuses = refl

record_apply_run-row_example :
    (node node' : Node) × (get_node 1 issued_tables ≡ some node)
    × (get_node 1 (record_apply_run first_report issued_tables).1 ≡ some node')
    × RowAfter first_report issued_tables accepted_outcome node node'
record_apply_run-row_example =
    record_apply_run-row first_report issued_tables accepted_outcome accepts

record_apply_run-integrity_example :
    ((true ≡ true)
      ↔ ((true ≡ true) × (¬ Vouched forged_report (known forged_report issued_tables))))
    × ((true ≡ false) ⊎ (Status.integrity ≡ Status.integrity))
    × ((record_apply_run forged_report issued_tables).1.audit
        ≡ [] ++ fault forged_report (known forged_report issued_tables) ∷ [])
record_apply_run-integrity_example =
    record_apply_run-integrity forged_report issued_tables fault_outcome refuses

found_issued : get_node 1 issued_tables ≡ some (record node_one { desired_revision = 1 })
unfolding Maps.get ℕ_discrete
found_issued = refl

record_apply_run_total_example :
    (out : Outcome) × ((record_apply_run first_report issued_tables).0 ≡ ok out)
record_apply_run_total_example =
    record_apply_run_total first_report issued_tables (record node_one { desired_revision = 1 })
      found_issued ((ground arith, tt), (tt, tt)) tt (λ a. omega arith)

History-IsConsistent_example :
    IsConsistent
      (record_apply_run first_report (commit_node_change build_hash add_service empty_tables).1).1
History-IsConsistent_example =
    History-IsConsistent build_hash empty_tables
      (record_apply_run first_report (commit_node_change build_hash add_service empty_tables).1).1
      empty_tables-IsConsistent (later (later start (commits add_service)) (reports first_report))

first-IsPublished : IsPublished issued_tables 1 first_result
unfolding Maps.get ℕ_discrete revision_key
first-IsPublished = record {
  node = record node_one { desired_revision = 1 };
  found = refl;
  desired = refl;
  row = record { created_at = 10; actor = "admin"; reason = "add service"; doc_sha256 = "5feb" };
  stored = refl;
  hash = refl;
}

published_report_example :
    (("5feb" ≡ first_result.sha256) × IsApplied (record_apply_run first_report issued_tables).1 1 1)
    ⊎ (("5feb" ≢ first_result.sha256) × (false ≡ true))
published_report_example =
    published_report issued_tables first_result first_report accepted_outcome first-IsPublished refl
      refl refl accepts
