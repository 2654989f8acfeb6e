-- ===== src/Panel/Deployment/Writes.antt =====
-- internal/panel/deployment: each write, as the function of its transaction.
use antimage.Common.{
  ℕ, ◌+◌, Bool, true, false, Option, none, some, List, [], ◌∷◌, ◌++◌, ltb, leb, ite, if◌then◌else◌,
  map, ℕ_discrete, contains, ◌==◌, ◌&&◌,
}
use antimage.Common.Outcome.{Outcome, ok, err, ◌>>◌, ◌refuses◌}
use antimage.NodeStatus.{Status}
use antimage.Panel.Deployment.Tables.{
  Strategy, other_strategy, DeploymentStatus, pending, in_progress, RolloutStatus, awaiting,
  applying, broken, DeployError, constraint, overlapping, Deployment, Rollout, Tables, count_active,
}

unfoldable pub update_deployment_rows :
    ℕ → (Deployment → Deployment) → List (ℕ × Deployment) → List (ℕ × Deployment)
unfolding ℕ_discrete
update_deployment_rows id change [] = []
update_deployment_rows id change (d ∷ rest) =
    let others = update_deployment_rows id change rest in
    ite (ℕ_discrete d.0 id) ((d.0, change d.1) ∷ others) (d ∷ others)

unfoldable pub update_rollout_rows :
    ℕ → (ℕ → Bool) → (Rollout → Rollout) → List ((ℕ × ℕ) × Rollout) → List ((ℕ × ℕ) × Rollout)
update_rollout_rows id of_node change [] = []
update_rollout_rows id of_node change (r ∷ rest) =
    let others = update_rollout_rows id of_node change rest in
    if (r.0.0 == id) && of_node r.0.1 then (r.0, change r.1) ∷ others else r ∷ others

-- UPDATE deployments SET … WHERE id = ?
unfoldable pub update_deployment : ℕ → (Deployment → Deployment) → Tables → Tables
update_deployment id change db = record db {
  deployments = update_deployment_rows id change db.deployments;
}

-- UPDATE deployment_node_status SET … WHERE deployment_id = ? AND node_id = ?
unfoldable pub update_rollout : ℕ → ℕ → (Rollout → Rollout) → Tables → Tables
update_rollout id node change db = record db {
  rollouts = update_rollout_rows id (λ n. n == node) change db.rollouts;
}

-- updateNodeStatus
abbrev pub update_node_status : ℕ → ℕ → RolloutStatus → Tables → Tables
update_node_status id node status =
    update_rollout id node (λ r. record r { status = status; error = none })

-- updateDeploymentStatus
abbrev pub update_deployment_status : ℕ → DeploymentStatus → Tables → Tables
update_deployment_status id status = update_deployment id (λ d. record d { status = status })

abbrev pub is_known : Strategy → Bool
is_known other_strategy = false
is_known _ = true

-- The ids of an INTEGER PRIMARY KEY.
unfoldable pub next_deployment_id : List (ℕ × Deployment) → ℕ
next_deployment_id [] = 1
next_deployment_id (d ∷ rest) =
    let others = next_deployment_id rest in if leb others d.0 then d.0 + 1 else others

-- The two INSERTs of CreateDeployment.
abbrev pub inserted_deployment : ℕ → ℕ → Strategy → ℕ → ℕ → Tables → Tables
inserted_deployment node revision strategy admin now db = record db {
  deployments =
      db.deployments
      ++ (
        next_deployment_id db.deployments,
        record {
          node_id = some node;
          revision_id = revision;
          strategy = strategy;
          status = pending;
          created_by = admin;
          created_at = now;
          started_at = none;
          completed_at = none;
          error = none;
        },
      )
        ∷ [];
  rollouts =
      db.rollouts
      ++ (
        (next_deployment_id db.deployments, node),
        record { status = awaiting; started_at = none; completed_at = none; error = none },
      )
        ∷ [];
}

-- The transaction of CreateDeployment; the foreign keys are those of the admin and the node.
unfoldable pub insert_deployment :
    ℕ → ℕ → Strategy → ℕ → ℕ → Tables → Outcome DeployError (ℕ × Tables)
unfolding ℕ_discrete contains
insert_deployment node revision strategy admin now db =
    if is_known strategy
      && contains ℕ_discrete admin db.admins
      && contains ℕ_discrete node (map (λ (e : ℕ × Status). e.0) db.nodes)
    then ok
        (next_deployment_id db.deployments, inserted_deployment node revision strategy admin now db)
    else err constraint

-- The transaction of ExecuteDeployment that marks it as in progress.
unfoldable pub claim : ℕ → Tables → Outcome DeployError Tables
claim id db = do
  ltb 0 (count_active id db.rollouts db.deployments)
      refuses overlapping (count_active id db.rollouts db.deployments)
  ok (update_deployment_status id in_progress db)

-- UPDATE deployments SET status = ?, completed_at = ?, error = ?
abbrev pub complete : ℕ → DeploymentStatus → ℕ → Option DeployError → Tables → Tables
complete id status now error =
    update_deployment id (λ d. record d { status = status; completed_at = some now; error = error })

-- status IN ('pending', 'applying')
abbrev pub interrupted : Rollout → Rollout
interrupted r = elim r.status [
  | awaiting ↦ record r { status = broken }
  | applying ↦ record r { status = broken }
  | _ ↦ r
]

abbrev pub interrupt_rollouts : ℕ → Tables → Tables
interrupt_rollouts id db = record db {
  rollouts = update_rollout_rows id (λ n. true) interrupted db.rollouts;
}
