-- ===== src/Tests/Deployment.antt =====
-- Deployments to one node, which is online.
use antimage.Common.{ℕ, ◌≡◌, refl, Bool, true, none, [], ◌∷◌, ℕ_discrete, contains}
use antimage.Common.Maps
use antimage.Common.Outcome.{ok, err}
use antimage.NodeStatus.{online}
use antimage.Panel.Deployment.Tables.{
  failed, Rollout, Tables, rolling, canary, in_progress, completed, overlapping, nodes_with,
  latest_below, share_node, has_node, count_active, insert_sorted, awaiting,
}
use antimage.Panel.Deployment.Writes.{
  update_deployment_rows, update_rollout_rows, update_deployment, update_rollout, insert_deployment,
  claim, next_deployment_id, inserted_deployment, update_deployment_status, complete,
}
use antimage.Panel.Deployment.Execution.{
  rollback_deployment, pending_nodes, execute_staged, create_deployment, execute_deployment,
  run_claimed, execute_strategy, roll_through, apply_to_node, conclude, apply_each,
}
use antimage.Panel.Deployment.Stages.{execute_staged-each}
use antimage.Panel.Deployment.Exclusive.{IsExclusive}
use antimage.Panel.Deployment.Calls.{
  start, later, creates, executes, rolls_back, History-IsExclusive,
}
use antimage.Panel.Deployment.Pauses.{then_one, none_yet, completes}

abbrev clock : Tables → ℕ
clock db = 100

abbrev no_pause : ℕ → Tables → Tables
no_pause seconds db = db

abbrev accepts : ℕ → ℕ → Tables → Bool
accepts node revision db = true

abbrev panel : Tables
panel = record {
  admins = 1 ∷ [];
  nodes = (7, online) ∷ [];
  revisions = (7, 1) ∷ (7, 2) ∷ [];
  deployments = [];
  rollouts = [];
}

abbrev created : Tables
created = inserted_deployment 7 2 rolling 1 100 panel

create_deployment_run : create_deployment clock no_pause accepts 7 rolling 1 panel ≡ ok (1, created)
unfolding create_deployment insert_deployment next_deployment_id latest_below contains ℕ_discrete
create_deployment_run = refl

execute_deployment_run : (execute_deployment clock no_pause 1 created).0 ≡ none
unfolding create_deployment insert_deployment next_deployment_id latest_below contains ℕ_discrete
    execute_deployment claim count_active run_claimed execute_strategy roll_through apply_to_node
    conclude Maps.get update_deployment_rows update_rollout_rows update_deployment update_rollout
    share_node has_node nodes_with insert_sorted
execute_deployment_run = refl

-- A second deployment waits for one that is in progress.
abbrev busy : Tables
busy = update_deployment_status 1 in_progress (inserted_deployment 7 2 canary 1 100 created)

claim_clash_run : claim 2 busy ≡ err (overlapping 1)
unfolding claim count_active update_deployment update_deployment_rows share_node has_node
    next_deployment_id ℕ_discrete
claim_clash_run = refl

-- A roll-back does not: between its writes, another deployment to the node is in progress too.
abbrev rolling_back : Tables
rolling_back = update_deployment_status 1 in_progress (
    update_deployment_status 2 in_progress
      (complete 1 completed 100 none (inserted_deployment 7 2 canary 1 100 created)))

rollback_overlap_run : count_active 2 rolling_back.rollouts rolling_back.deployments ≡ 1
unfolding count_active update_deployment update_deployment_rows share_node has_node
    next_deployment_id ℕ_discrete
rollback_overlap_run = refl

panel-IsExclusive : IsExclusive panel
unfolding has_node
panel-IsExclusive a b node x y h k = cc h

-- During a pause a deployment that has stopped is marked as failed.
abbrev pause : ℕ → Tables → Tables
pause seconds db = complete 9 failed 90 none db

abbrev executed : Tables
executed = (execute_deployment clock pause 1 created).1

create_with_pauses : create_deployment clock pause accepts 7 rolling 1 panel ≡ ok (1, created)
unfolding create_deployment insert_deployment next_deployment_id latest_below contains ℕ_discrete
create_with_pauses = refl

executed_alone : count_active 1 executed.rollouts executed.deployments ≡ 0
unfolding create_deployment insert_deployment next_deployment_id latest_below contains ℕ_discrete
    execute_deployment claim count_active run_claimed execute_strategy roll_through apply_to_node
    conclude Maps.get update_deployment_rows update_rollout_rows update_deployment update_rollout
    share_node has_node nodes_with insert_sorted
executed_alone = refl

History-IsExclusive_example : IsExclusive (rollback_deployment clock pause 1 executed).1
History-IsExclusive_example =
    History-IsExclusive clock pause panel (rollback_deployment clock pause 1 executed).1
      (λ seconds t. then_one none_yet (completes 9 failed 90 none refl)) panel-IsExclusive
      (later (later (later start (creates accepts 7 rolling 1 1 create_with_pauses)) (executes 1))
        (rolls_back 1 executed_alone))

-- A deployment to three nodes.
abbrev waiting : ℕ → (ℕ × ℕ) × Rollout
waiting node =
    ((1, node), record { status = awaiting; started_at = none; completed_at = none; error = none })

abbrev fleet : Tables
fleet = record created { rollouts = waiting 9 ∷ waiting 7 ∷ waiting 8 ∷ [] }

fleet_nodes : pending_nodes 1 fleet ≡ 7 ∷ 8 ∷ 9 ∷ []
unfolding nodes_with insert_sorted
fleet_nodes = refl

execute_staged-each_example :
    execute_staged clock no_pause 1 fleet
    ≡ apply_each clock no_pause 1 (pending_nodes 1 fleet) fleet
execute_staged-each_example =
    execute_staged-each clock no_pause 1 fleet (λ seconds t. refl) (λ h. cc (h, fleet_nodes))
