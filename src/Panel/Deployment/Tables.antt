-- ===== src/Panel/Deployment/Tables.antt =====
-- The tables of deployments (internal/panel/store/migrations/00021_deployment_orchestration.sql),
-- and the queries on them.
use antimage.Common.{
  ℕ, ◌==◌, Bool, true, false, not, ◌&&◌, Option, none, some, List, [], ◌∷◌, suc, ltb, leb,
  if◌then◌else◌, ℕ_discrete,
}
use antimage.Common.Maps
use antimage.NodeStatus.{Status, online}

-- Strategy; the column admits the four.
pub data Strategy : Type 0 where
  all_at_once canary staged rolling other_strategy : Strategy

-- DeploymentStatus
pub data DeploymentStatus : Type 0 where
  pending validating in_progress completed failed rolled_back : DeploymentStatus

-- NodeDeploymentStatus
pub data RolloutStatus : Type 0 where
  awaiting applying applied broken reverted skipped : RolloutStatus

pub data DeployError : Type 0 where
  no_deployment no_revisions constraint no_nodes unknown_strategy : DeployError
  invalid_revision canary_unhealthy no_previous_revision : DeployError
  not_pending not_rollbackable : DeploymentStatus → DeployError
  overlapping : ℕ → DeployError
  nodes_failed rollback_failures : (failures nodes : ℕ) → DeployError
  node_failed : ℕ → DeployError → DeployError
  node_unhealthy : ℕ → DeployError
  rollback_failed : (executing rolling_back : DeployError) → DeployError
  timed_out : ℕ → DeployError

-- Deployment, a row of `deployments`; an error stands for its text.
pub record Deployment : Type 0 where
  pub node_id : Option ℕ
  pub revision_id : ℕ
  pub strategy : Strategy
  pub status : DeploymentStatus
  pub created_by : ℕ
  pub created_at : ℕ
  pub started_at : Option ℕ
  pub completed_at : Option ℕ
  pub error : Option DeployError

-- A row of `deployment_node_status`.
pub record Rollout : Type 0 where
  pub status : RolloutStatus
  pub started_at : Option ℕ
  pub completed_at : Option ℕ
  pub error : Option DeployError

-- `nodes` holds the statuses, `revisions` the keys (node_id, revision) of node_revisions.
pub record Tables : Type 0 where
  pub admins : List ℕ
  pub nodes : List (ℕ × Status)
  pub revisions : List (ℕ × ℕ)
  pub deployments : List (ℕ × Deployment)
  pub rollouts : List ((ℕ × ℕ) × Rollout)

abbrev pub is_active : DeploymentStatus → Bool
is_active in_progress = true
is_active _ = false

abbrev pub is_awaiting : RolloutStatus → Bool
is_awaiting awaiting = true
is_awaiting _ = false

-- status IN ('completed', 'applying')
abbrev pub is_deployed : RolloutStatus → Bool
is_deployed applied = true
is_deployed applying = true
is_deployed _ = false

-- getDeployment
abbrev pub get_deployment : ℕ → Tables → Option Deployment
get_deployment id db = Maps.get ℕ_discrete id db.deployments

-- ORDER BY node_id
unfoldable pub insert_sorted : ℕ → List ℕ → List ℕ
insert_sorted n [] = n ∷ []
insert_sorted n (m ∷ rest) =
    let more = insert_sorted n rest in if leb n m then n ∷ m ∷ rest else m ∷ more

-- SELECT node_id FROM deployment_node_status WHERE deployment_id = ? AND status …
unfoldable pub nodes_with : (RolloutStatus → Bool) → ℕ → List ((ℕ × ℕ) × Rollout) → List ℕ
nodes_with test id [] = []
nodes_with test id (r ∷ rest) =
    let others = nodes_with test id rest in
    if (r.0.0 == id) && test r.1.status then insert_sorted r.0.1 others else others

-- A node of the deployment, in any status.
unfoldable pub has_node : ℕ → ℕ → List ((ℕ × ℕ) × Rollout) → Bool
has_node id node [] = false
has_node id node (r ∷ rest) =
    let others = has_node id node rest in if (r.0.0 == id) && (r.0.1 == node) then true else others

-- The join of the check for concurrent deployments: a node of the one is a node of the other.
unfoldable pub share_node : ℕ → ℕ → List ((ℕ × ℕ) × Rollout) → List ((ℕ × ℕ) × Rollout) → Bool
share_node a b all [] = false
share_node a b all (r ∷ rest) =
    let others = share_node a b all rest in
    if (r.0.0 == a) && has_node b r.0.1 all then true else others

-- SELECT COUNT(DISTINCT d.id) …
unfoldable pub count_active : ℕ → List ((ℕ × ℕ) × Rollout) → List (ℕ × Deployment) → ℕ
count_active id rollouts [] = 0
count_active id rollouts (d ∷ rest) =
    let others = count_active id rollouts rest in
    if is_active d.1.status && share_node d.0 id rollouts rollouts && not (d.0 == id)
    then suc others
    else others

-- SELECT COALESCE(MAX(revision), 0) FROM node_revisions WHERE node_id = ? AND revision < ?
unfoldable pub latest_below : (ℕ → Bool) → ℕ → List (ℕ × ℕ) → ℕ
latest_below test node [] = 0
latest_below test node (r ∷ rest) =
    let others = latest_below test node rest in
    if (r.0 == node) && test r.1 && ltb others r.1 then r.1 else others

-- CheckNodeHealth, for one node: `healthy` or not.
abbrev pub is_online : Status → Bool
is_online online = true
is_online _ = false

abbrev pub is_healthy : ℕ → Tables → Bool
is_healthy node db = elim (Maps.get ℕ_discrete node db.nodes) [
  | none ↦ false
  | some status ↦ is_online status
]
