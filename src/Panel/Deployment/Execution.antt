-- ===== src/Panel/Deployment/Execution.antt =====
-- internal/panel/deployment/orchestrator.go: CreateDeployment, ExecuteDeployment with its strategies,
-- and the roll-back. `now` reads the clock; `sleep` is a pause of so many seconds, in which others
-- write; `validate` is the validator's ValidateRevision. What is returned is the error, if any.
use antimage.Common.{
  take, drop, ℕ, ◌+◌, ◌-◌, ◌/◌, ◌==◌, Bool, true, false, not, Option, none, some, List, [], ◌∷◌,
  length, suc, ltb, leb, if◌then◌else◌,
}
use antimage.Common.Outcome.{Outcome, ok, err, ◌>>◌, ◌refuses◌}
use antimage.Panel.Deployment.Tables.{
  Strategy, all_at_once, canary, staged, rolling, other_strategy, DeploymentStatus, pending,
  in_progress, completed, failed, rolled_back, applying, applied, broken, reverted, DeployError,
  no_deployment, no_revisions, no_nodes, unknown_strategy, invalid_revision, canary_unhealthy,
  no_previous_revision, not_pending, not_rollbackable, nodes_failed, node_failed, node_unhealthy,
  rollback_failed, Deployment, Tables, is_awaiting, is_deployed, get_deployment, nodes_with,
  latest_below, is_healthy,
}
use antimage.Panel.Deployment.Writes.{
  update_deployment, update_rollout, update_node_status, update_deployment_status,
  insert_deployment, claim, complete,
}

abbrev pub is_pending : DeploymentStatus → Bool
is_pending pending = true
is_pending _ = false

-- Completed or failed.
abbrev pub is_rollbackable : DeploymentStatus → Bool
is_rollbackable completed = true
is_rollbackable failed = true
is_rollbackable _ = false

-- getPendingNodes
abbrev pub pending_nodes : ℕ → Tables → List ℕ
pending_nodes id db = nodes_with is_awaiting id db.rollouts

-- The end of a stage.
abbrev pub stage_count : ℕ → ℕ → ℕ → ℕ
stage_count planned deployed nodes =
    let count = (if leb planned deployed then deployed + 1 else planned) in
    if ltb nodes count then nodes else count

-- int(float64(n) * p), which is exact below 2^50.
abbrev pub stages_of : ℕ → List ℕ
stages_of n = n / 10 ∷ n / 2 ∷ n ∷ []

module _ (now : Tables → ℕ) (sleep : ℕ → Tables → Tables) where
  -- CreateDeployment, with the id
  unfoldable pub create_deployment :
      (ℕ → ℕ → Tables → Bool) → ℕ → Strategy → ℕ → Tables → Outcome DeployError (ℕ × Tables)
  create_deployment validate node strategy admin db = do
    let current = latest_below (λ r. true) node db.revisions
    (current == 0) refuses no_revisions
    not (validate node current db) refuses invalid_revision
    insert_deployment node current strategy admin (now db) db

  -- applyToNode; its applyErr is nil.
  unfoldable pub apply_to_node : ℕ → ℕ → Tables → Option DeployError × Tables
  apply_to_node id node db =
      let db₁ = update_node_status id node applying db in
      let db₂ = update_rollout id node (λ r. record r { started_at = some (now db₁) }) db₁ in
      (
        none,
        update_rollout id node
            (λ r. record r { status = applied; completed_at = some (now db₂); error = none }) db₂,
      )

  -- The loop of executeAllAtOnce, with the number of failures.
  unfoldable pub apply_counting : ℕ → List ℕ → ℕ → Tables → ℕ × Tables
  apply_counting id [] failures db = (failures, db)
  apply_counting id (node ∷ rest) failures db =
      let (e, db') = apply_to_node id node db in
      elim e [
        | none ↦ apply_counting id rest failures db'
        | some x ↦ apply_counting id rest (suc failures) db'
      ]

  abbrev pub execute_all_at_once : ℕ → Tables → Option DeployError × Tables
  execute_all_at_once id db =
      let nodes = pending_nodes id db in
      let (failures, db') = apply_counting id nodes 0 db in
      (if ltb 0 failures then some (nodes_failed failures (length nodes)) else none, db')

  -- The loops that stop at the first failure.
  unfoldable pub apply_each : ℕ → List ℕ → Tables → Option DeployError × Tables
  apply_each id [] db = (none, db)
  apply_each id (node ∷ rest) db =
      let (e, db') = apply_to_node id node db in
      elim e [ some x ↦ (some (node_failed node x), db') | none ↦ apply_each id rest db' ]

  -- executeCanary, with its nodes.
  unfoldable pub canary_first : ℕ → List ℕ → Tables → Option DeployError × Tables
  canary_first id [] db = (some no_nodes, db)
  canary_first id (node ∷ rest) db =
      let (e, db₁) = apply_to_node id node db in
      elim e [
        | some x ↦ (some (node_failed node x), db₁)
        | none ↦
            let db₂ = sleep 30 db₁ in
            let others = apply_each id rest db₂ in
            if is_healthy node db₂ then others else (
              some canary_unhealthy,
              update_rollout id node
                  (λ r. record r { status = broken; error = some canary_unhealthy }) db₂,
            )
      ]

  abbrev pub execute_canary : ℕ → Tables → Option DeployError × Tables
  execute_canary id db = canary_first id (pending_nodes id db) db

  -- The stages of 10 %, 50 % and 100 %, from the nodes that are left.
  unfoldable pub run_stages : ℕ → ℕ → List ℕ → ℕ → List ℕ → Tables → Option DeployError × Tables
  run_stages id nodes [] deployed left db = (none, db)
  run_stages id nodes (planned ∷ stages) deployed left db =
      let count = stage_count planned deployed nodes in
      let (e, db₁) = apply_each id (take (count - deployed) left) db in
      elim e [
        | some x ↦ (some x, db₁)
        | none ↦
            run_stages id nodes stages count (drop (count - deployed) left)
              (if ltb count nodes then sleep 30 db₁ else db₁)
      ]

  -- executeStaged, with its nodes.
  unfoldable pub staged_through : ℕ → List ℕ → Tables → Option DeployError × Tables
  staged_through id [] db = (some no_nodes, db)
  staged_through id (node ∷ rest) db =
      run_stages id (length (node ∷ rest)) (stages_of (length (node ∷ rest))) 0 (node ∷ rest) db

  abbrev pub execute_staged : ℕ → Tables → Option DeployError × Tables
  execute_staged id db = staged_through id (pending_nodes id db) db

  unfoldable pub roll_through : ℕ → List ℕ → Tables → Option DeployError × Tables
  roll_through id [] db = (none, db)
  roll_through id (node ∷ rest) db =
      let (e, db₁) = apply_to_node id node db in
      elim e [
        | some x ↦ (some (node_failed node x), db₁)
        | none ↦
            let db₂ = sleep 10 db₁ in
            let others = roll_through id rest db₂ in
            if is_healthy node db₂ then others else (some (node_unhealthy node), db₂)
      ]

  abbrev pub execute_rolling : ℕ → Tables → Option DeployError × Tables
  execute_rolling id db = roll_through id (pending_nodes id db) db

  unfoldable pub execute_strategy : Strategy → ℕ → Tables → Option DeployError × Tables
  execute_strategy all_at_once id db = execute_all_at_once id db
  execute_strategy canary id db = execute_canary id db
  execute_strategy staged id db = execute_staged id db
  execute_strategy rolling id db = execute_rolling id db
  execute_strategy other_strategy id db = (some unknown_strategy, db)

  -- The loop over rollbackNode.
  unfoldable pub rollback_nodes : ℕ → List ℕ → Tables → Tables
  rollback_nodes id [] db = db
  rollback_nodes id (node ∷ rest) db =
      rollback_nodes id rest (update_node_status id node reverted db)

  -- SELECT node_id FROM deployment_node_status WHERE deployment_id = ? LIMIT 1
  abbrev pub first_node : ℕ → Tables → ℕ
  first_node id db = elim (nodes_with (λ s. true) id db.rollouts) [ [] ↦ 0 | node ∷ rest ↦ node ]

  -- initiateRollback, with its nodes and the deployment; rollbackNode does not fail.
  unfoldable pub rollback_to : ℕ → List ℕ → Option Deployment → Tables → Option DeployError × Tables
  rollback_to id [] d db = (none, db)
  rollback_to id (node ∷ rest) none db = (some no_deployment, db)
  rollback_to id (node ∷ rest) (some d) db =
      if latest_below (λ r. ltb r d.revision_id) (first_node id db) db.revisions == 0
      then (some no_previous_revision, db)
      else (none, rollback_nodes id (node ∷ rest) db)

  abbrev pub initiate_rollback : ℕ → Tables → Option DeployError × Tables
  initiate_rollback id db =
      rollback_to id (nodes_with is_deployed id db.rollouts) (get_deployment id db) db

  -- The final status of ExecuteDeployment and the text of its error, with the roll-back's writes.
  unfoldable pub conclude :
      ℕ → Option DeployError → Tables → (DeploymentStatus × Option DeployError) × Tables
  conclude id none db = ((completed, none), db)
  conclude id (some e) db =
      let (r, db') = initiate_rollback id db in
      elim r [
        | none ↦ ((rolled_back, some e), db')
        | some x ↦ ((failed, some (rollback_failed e x)), db')
      ]

  -- ExecuteDeployment, once the deployment is marked as in progress.
  unfoldable pub run_claimed : ℕ → Strategy → Tables → Option DeployError × Tables
  run_claimed id strategy db =
      let db₂ = update_deployment id (λ d. record d { started_at = some (now db) }) db in
      let (e, db₃) = execute_strategy strategy id db₂ in
      let ((status, error), db₄) = conclude id e db₃ in (e, complete id status (now db₄) error db₄)

  -- ExecuteDeployment
  unfoldable pub execute_deployment : ℕ → Tables → Option DeployError × Tables
  execute_deployment id db = elim (get_deployment id db) [
    | none ↦ (some no_deployment, db)
    | some d ↦
        if is_pending d.status
        then (elim (claim id db) [
          | err e ↦ (some e, db)
          | ok claimed ↦ run_claimed id d.strategy claimed
        ])
        else (some (not_pending d.status), db)
  ]

  -- RollbackDeployment
  unfoldable pub rollback_deployment : ℕ → Tables → Option DeployError × Tables
  rollback_deployment id db = elim (get_deployment id db) [
    | none ↦ (some no_deployment, db)
    | some d ↦
        if is_rollbackable d.status
        then (let (r, db₂) = initiate_rollback id (update_deployment_status id in_progress db) in
            elim r [
              | none ↦ (none, complete id rolled_back (now db₂) none db₂)
              | some x ↦ (some x, complete id failed (now db₂) (some x) db₂)
            ])
        else (some (not_rollbackable d.status), db)
  ]
