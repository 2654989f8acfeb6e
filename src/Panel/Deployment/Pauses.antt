-- ===== src/Panel/Deployment/Pauses.antt =====
-- internal/panel/deployment: the transactions that others run while an execution pauses.
use antimage.Common.{ℕ, ◌==◌, ◌≡◌, refl, true, false, Option, some, List, [], ◌∷◌}
use antimage.Common.Outcome.{ok}
use antimage.Panel.Deployment.Tables.{
  Strategy, Rollout, Tables, DeployError, is_active, failed, DeploymentStatus, timed_out,
  count_active, in_progress,
}
use antimage.Panel.Deployment.Writes.{
  update_deployment, update_rollout, insert_deployment, claim, complete, interrupt_rollouts,
  interrupted, update_deployment_status,
}
use antimage.Panel.Deployment.Execution.{}
use antimage.Panel.Deployment.Sweeps.{
  TimeoutConfig, enforce_timeouts, timed_out_rows, fail_all, recover_all, active_ids,
  recover_stale_deployments,
}
use antimage.Panel.Deployment.Exclusive.{
  IsExclusive, update_rollouts-IsExclusive, update_deployment-IsExclusive, claim-IsExclusive,
  insert_deployment-IsExclusive,
}
use antimage.Panel.Deployment.Keeps.{}

pub update_rollout-IsExclusive :
    (id node : ℕ) (change : Rollout → Rollout) (db : Tables)
    → IsExclusive db
    → IsExclusive (update_rollout id node change db)
unfolding update_rollout
update_rollout-IsExclusive id node change db v =
    update_rollouts-IsExclusive id (λ n. n == node) change db v

pub complete-IsExclusive :
    (id : ℕ) (status : DeploymentStatus) (time : ℕ) (error : Option DeployError) (db : Tables)
    → is_active status ≡ false
    → IsExclusive db
    → IsExclusive (complete id status time error db)
complete-IsExclusive id status time error db ended v =
    update_deployment-IsExclusive id _ db (λ d h. cc (h, ended)) v

fail_all-IsExclusive :
    (time : ℕ) (rows : List (ℕ × ℕ)) (db : Tables)
    → IsExclusive db
    → IsExclusive (fail_all time rows db)
unfolding fail_all
fail_all-IsExclusive time [] db v = v
fail_all-IsExclusive time (d ∷ rows) db v =
    let ended : Tables = complete d.0 failed time (some (timed_out d.1)) db in
    fail_all-IsExclusive time rows (interrupt_rollouts d.0 ended) (
      update_rollouts-IsExclusive d.0 (λ n. true) interrupted ended
        (complete-IsExclusive d.0 failed time (some (timed_out d.1)) db refl v))

recover_all-IsExclusive :
    (time : ℕ) (ids : List ℕ) (db : Tables) → IsExclusive db → IsExclusive (recover_all time ids db)
unfolding recover_all
recover_all-IsExclusive time [] db v = v
recover_all-IsExclusive time (id ∷ ids) db v =
    let ended : Tables =
      update_deployment id (λ d. record d { status = failed; completed_at = some time }) db in
    recover_all-IsExclusive time ids (interrupt_rollouts id ended) (
      update_rollouts-IsExclusive id (λ n. true) interrupted ended
        (update_deployment-IsExclusive id
          (λ d. record d { status = failed; completed_at = some time }) db (λ d h. cc h) v))

pub times_out-IsExclusive :
    (config : TimeoutConfig) (time : ℕ) (db : Tables)
    → IsExclusive db
    → IsExclusive (enforce_timeouts config time db)
unfolding enforce_timeouts
times_out-IsExclusive config time db v =
    fail_all-IsExclusive time (timed_out_rows config time db.deployments) db v

pub recovers-IsExclusive :
    (time : ℕ) (db : Tables) → IsExclusive db → IsExclusive (recover_stale_deployments time db)
unfolding recover_stale_deployments
recovers-IsExclusive time db v = recover_all-IsExclusive time (active_ids db.deployments) db v

-- What others write while an execution pauses: single transactions of any call, of which a roll-back
-- takes the check for other deployments, as `claims` has it.
pub data Write (db : Tables) : Tables → Type 0 where
  inserts :
      {after : Tables} (node revision : ℕ) (strategy : Strategy) (admin time id : ℕ)
      → insert_deployment node revision strategy admin time db ≡ ok (id, after)
      → Write db after
  claims : {after : Tables} (id : ℕ) → claim id db ≡ ok after → Write db after
  starts :
      (id time : ℕ) → Write db (update_deployment id (λ d. record d { started_at = some time }) db)
  writes_node :
      (id node : ℕ) (change : Rollout → Rollout) → Write db (update_rollout id node change db)
  completes :
      (id : ℕ) (status : DeploymentStatus) (time : ℕ) (error : Option DeployError)
      → is_active status ≡ false
      → Write db (complete id status time error db)
  interrupts : (id : ℕ) → Write db (interrupt_rollouts id db)
  times_out_all : (config : TimeoutConfig) (time : ℕ) → Write db (enforce_timeouts config time db)
  recovers_all : (time : ℕ) → Write db (recover_stale_deployments time db)

pub data Writes (db : Tables) : Tables → Type 0 where
  none_yet : Writes db db
  then_one : {mid after : Tables} → Writes db mid → Write mid after → Writes db after

Write-IsExclusive : (db after : Tables) → IsExclusive db → Write db after → IsExclusive after
Write-IsExclusive db _ v (inserts {after = after} node revision strategy admin time id h) =
    insert_deployment-IsExclusive node revision strategy admin time db after id v h
Write-IsExclusive db _ v (claims {after = after} id h) = claim-IsExclusive id db after v h
Write-IsExclusive db _ v (starts id time) =
    update_deployment-IsExclusive id (λ d. record d { started_at = some time }) db (λ d h. h) v
Write-IsExclusive db _ v (writes_node id node change) =
    update_rollout-IsExclusive id node change db v
Write-IsExclusive db _ v (completes id status time error ended) =
    complete-IsExclusive id status time error db ended v
Write-IsExclusive db _ v (interrupts id) =
    update_rollouts-IsExclusive id (λ n. true) interrupted db v
Write-IsExclusive db _ v (times_out_all config time) = times_out-IsExclusive config time db v
Write-IsExclusive db _ v (recovers_all time) = recovers-IsExclusive time db v

pub Writes-IsExclusive : (db after : Tables) → IsExclusive db → Writes db after → IsExclusive after
Writes-IsExclusive db _ v none_yet = v
Writes-IsExclusive db _ v (then_one {mid = mid} {after = after} past write) =
    Write-IsExclusive mid after (Writes-IsExclusive db mid v past) write

pub marked-IsExclusive :
    (id : ℕ) (db : Tables)
    → count_active id db.rollouts db.deployments ≡ 0
    → IsExclusive db
    → IsExclusive (update_deployment_status id in_progress db)
unfolding claim
marked-IsExclusive id db alone v =
    claim-IsExclusive id db (update_deployment_status id in_progress db) v (rw (alone, claim) refl)
