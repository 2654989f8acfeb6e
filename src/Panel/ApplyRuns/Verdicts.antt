-- ===== src/Panel/ApplyRuns/Verdicts.antt =====
-- What RecordApplyRun believes of a report: invariants 6 and 7 of the design.
use antimage.Common.{
  true, false, Option, none, some, [], ◌∷◌, ◌++◌, if◌then◌else◌, ◌≡◌, ◌↔◌, ◌⊎◌, ap, arith,
  Option-cases, Bool-cases, inl, inr,
}
use antimage.Common.Int.{pos, ◌≤ℤ◌}
use antimage.NodeStatus.{Status, online}
use antimage.Panel.Db.{Db, Node, Revision, ok, write-eq-ok, get_node}
use antimage.Panel.ApplyRuns.{
  ApplyRunInput, Outcome, classify, apply_run_tx, record_apply_run, fault,
}
use antimage.Panel.ApplyRuns.Effects.{
  known, is_fault, verdict, written, settled-frame, get_node-settled, Succeeded,
  apply_run_tx-Succeeded,
}

-- The panel can vouch for the reported document: it issued the revision with that hash, or the
-- revision is not positive and no row for it can exist.
abbrev pub Vouched : ApplyRunInput → Option Revision → Type 0
Vouched input row =
    ((r : Revision) × (row ≡ some r) × (input.doc_sha256 ≡ r.doc_sha256))
    ⊎ ((row ≡ none) × (input.target_revision ≤ℤ pos 0))

abbrev pub Accepted : ApplyRunInput → Option Revision → Type 0
Accepted input row = (input.converged ≡ true) × (input.deferred ≡ false) × Vouched input row

module _ {C : Type 0} (input : ApplyRunInput) (db : Db C) where
  -- The fault flag is raised exactly for a report of convergence that the panel cannot vouch for.
  is_fault_iff :
      (is_fault input db ≡ true) ↔ ((input.converged ≡ true) × (¬ Vouched input (known input db)))
  is_fault_iff = elim (Option-cases (known input db)) [
    | inl e ↦ rw e (ground arith)
    | inr (r, e) ↦ rw e (ground arith)
  ]

  -- The verdict advances the revision exactly for an accepted report, which puts the node online.
  pub verdict-advance : ((verdict input db).advance ≡ true) ↔ Accepted input (known input db)
  unfolding classify
  verdict-advance = ground (arith, is_fault_iff)

  verdict-advance_status : (verdict input db).advance ≡ true → (verdict input db).status ≡ online
  unfolding classify
  verdict-advance_status h = ground arith

  verdict-fault_status : is_fault input db ≡ true → (verdict input db).status ≡ Status.integrity
  unfolding classify
  verdict-fault_status h = ground arith

  fault_status : (is_fault input db ≡ false) ⊎ ((verdict input db).status ≡ Status.integrity)
  fault_status = elim (Bool-cases (is_fault input db)) [
    | inl e ↦ inr (verdict-fault_status e)
    | inr e ↦ inl e
  ]

  abbrev pub RowAfter : Outcome → Node → Node → Type 0
  RowAfter out node node' =
      (Accepted input (known input db)
        × (node' ≡ record node {
          applied_revision = input.target_revision;
          status = online;
          last_error = "";
        }))
      ⊎ ((¬ Accepted input (known input db))
          × (node' ≡ record node { status = out.status; last_error = input.error }))

  RowAfter-written :
      (out : Outcome) (db' : Db C) (s : Succeeded input db out db')
      → RowAfter out s.node (written input db s.node)
  RowAfter-written out db' s = elim (Bool-cases (verdict input db).advance) [
    | inl e ↦ inl (verdict-advance.0 e, rw (e, verdict-advance_status e))
    | inr e ↦ inr (λ acc. cc (verdict-advance.1 acc), rw (e, s.status))
  ]

-- Whenever RecordApplyRun returns no error, the node was there, and its row is changed in one of two
-- ways. If the report says converged and not deferred and the panel can vouch for its hash, the
-- applied revision becomes the reported one, the status becomes online and the error is cleared.
-- Otherwise the applied revision stays, and only the status and the error are written.
pub record_apply_run-row :
    {C : Type 0} (input : ApplyRunInput) (db : Db C) (out : Outcome)
    → (record_apply_run input db).0 ≡ ok out
    → (node node' : Node) × (get_node input.node_id db ≡ some node)
      × (get_node input.node_id (record_apply_run input db).1 ≡ some node')
      × RowAfter input db out node node'
unfolding record_apply_run
record_apply_run-row input db out h =
    let s = apply_run_tx-Succeeded input db out _ (write-eq-ok (apply_run_tx input) db h) in
    (
      s.node,
      written input db s.node,
      s.found,
      rw s.tables (rw (get_node-settled input db s.steps input.node_id, s.found) (ground arith)),
      RowAfter-written input db out _ s,
    )

-- A successful RecordApplyRun reports an integrity fault exactly when the agent says converged and
-- the panel cannot vouch for the hash. It then sets the status to integrity and appends the
-- fault to the audit log; otherwise the audit log is as before.
pub record_apply_run-integrity :
    {C : Type 0} (input : ApplyRunInput) (db : Db C) (out : Outcome)
    → (record_apply_run input db).0 ≡ ok out
    → ((out.integrity ≡ true) ↔ ((input.converged ≡ true) × (¬ Vouched input (known input db))))
      × ((out.integrity ≡ false) ⊎ (out.status ≡ Status.integrity))
      × ((record_apply_run input db).1.audit
          ≡ (if out.integrity then db.audit ++ fault input (known input db) ∷ [] else db.audit))
unfolding record_apply_run
record_apply_run-integrity input db out h =
    let s = apply_run_tx-Succeeded input db out _ (write-eq-ok (apply_run_tx input) db h) in
    (
      rw s.integrity (is_fault_iff input db),
      rw (s.integrity, s.status) (fault_status input db),
      rw (s.integrity, s.tables) (ap (λ t. t.audit) (settled-frame input db s.steps)),
    )
