-- ===== src/Panel/Publishing/Reports.antt =====
-- internal/panel/nodes/convergence.go: the report of a node on the revision that a change published.
use antimage.Common.{ℕ, String_discrete, true, false, some, ◌≡◌, ◌≢◌, ◌⊎◌, refl, sym, ◌∙◌, inl, inr}
use antimage.Common.Int.{pos}
use antimage.NodeStatus.{online}
use antimage.Panel.Db.{Db, Node, ok, get_node}
use antimage.Panel.Commit.{CommitResult}
use antimage.Panel.ApplyRuns.{ApplyRunInput, Outcome, record_apply_run}
use antimage.Panel.ApplyRuns.Effects.{known}
use antimage.Panel.ApplyRuns.Verdicts.{Vouched, record_apply_run-row, record_apply_run-integrity}
use antimage.Panel.Publishing.{IsPublished}

-- The node was brought to the revision.
pub record IsApplied {C : Type 0} (db : Db C) (id revision : ℕ) : Type 0 where
  pub node : Node
  pub found : get_node id db ≡ some node
  pub applied : node.applied_revision ≡ pos revision
  pub status : node.status ≡ online

module _ {C : Type 0} (db : Db C) (r : CommitResult) (input : ApplyRunInput) (out : Outcome) where
  known_published :
      (p : IsPublished db input.node_id r)
      → input.target_revision ≡ pos r.revision
      → known input db ≡ some p.row
  known_published p target = rw target p.stored

  not-Vouched :
      (p : IsPublished db input.node_id r)
      → known input db ≡ some p.row
      → input.doc_sha256 ≢ r.sha256
      → ¬ Vouched input (known input db)
  not-Vouched p stored other (inl (row, q, same)) =
      let one : row ≡ p.row = cc in other (same ∙ rw one p.hash)
  not-Vouched p stored other (inr (q, _)) = cc

  matching_report :
      IsPublished db input.node_id r
      → input.target_revision ≡ pos r.revision
      → input.converged ≡ true
      → input.deferred ≡ false
      → input.doc_sha256 ≡ r.sha256
      → (record_apply_run input db).0 ≡ ok out
      → IsApplied (record_apply_run input db).1 input.node_id r.revision
  matching_report p target converged here same h =
      let (node, node', _, found, cases) = record_apply_run-row input db out h in
      elim cases [
        | inl (accepted, q) ↦ record {
          node = node';
          found = found;
          applied = rw q target;
          status = rw q refl;
        }
        | inr (refused, q) ↦
            absurd
              (refused (converged, here, inl (p.row, known_published p target, same ∙ sym p.hash)))
      ]

  other_report :
      IsPublished db input.node_id r
      → input.target_revision ≡ pos r.revision
      → input.converged ≡ true
      → input.doc_sha256 ≢ r.sha256
      → (record_apply_run input db).0 ≡ ok out
      → out.integrity ≡ true
  other_report p target converged other h =
      let faults = (record_apply_run-integrity input db out h).0 in
      faults.1 (converged, not-Vouched p (known_published p target) other)

  -- When a change has published a revision, and the node reports that it converged on it without
  -- deferring anything, then RecordApplyRun, if it returns no error, puts the node online at that
  -- revision if the reported hash is the published one, and reports an integrity fault otherwise.
  pub published_report :
      IsPublished db input.node_id r
      → input.target_revision ≡ pos r.revision
      → input.converged ≡ true
      → input.deferred ≡ false
      → (record_apply_run input db).0 ≡ ok out
      → ((input.doc_sha256 ≡ r.sha256)
          × IsApplied (record_apply_run input db).1 input.node_id r.revision)
        ⊎ ((input.doc_sha256 ≢ r.sha256) × (out.integrity ≡ true))
  published_report p target converged here h = elim (String_discrete input.doc_sha256 r.sha256) [
    | yes same ↦ inl (same, matching_report p target converged here same h)
    | no other ↦ inr (other, other_report p target converged other h)
  ]
