-- ===== src/Panel/Deployment/Calls.antt =====
-- Whole calls of the orchestrator, one after the other.
use antimage.Common.{
  ℕ, ◌==◌, ◌≡◌, refl, Bool, true, false, not, Option, none, some, Option-cases, Bool-cases, inl,
  inr,
}
use antimage.Common.Outcome.{ok, Outcome-cases, refuses-eq-ok}
use antimage.Panel.Deployment.Tables.{
  Strategy, Tables, DeployError, no_revisions, invalid_revision, get_deployment, latest_below,
  is_active, failed, count_active, in_progress, rolled_back,
}
use antimage.Panel.Deployment.Writes.{
  update_deployment, insert_deployment, claim, update_deployment_status,
}
use antimage.Panel.Deployment.Execution.{
  create_deployment, execute_strategy, initiate_rollback, conclude, execute_deployment, is_pending,
  run_claimed, rollback_deployment, is_rollbackable,
}
use antimage.Panel.Deployment.Sweeps.{TimeoutConfig, enforce_timeouts, recover_stale_deployments}
use antimage.Panel.Deployment.Exclusive.{
  IsExclusive, update_deployment-IsExclusive, claim-IsExclusive, insert_deployment-IsExclusive,
}
use antimage.Panel.Deployment.Pauses.{
  Writes, update_rollout-IsExclusive, complete-IsExclusive, times_out-IsExclusive,
  recovers-IsExclusive, marked-IsExclusive, Writes-IsExclusive,
}
use antimage.Panel.Deployment.Keeps.{
  execute_strategy-keeps, conclude-keeps, initiate_rollback-keeps,
}

module _ (now : Tables → ℕ) (sleep : ℕ → Tables → Tables) where
  conclude-ended :
      (id : ℕ) (e : Option DeployError) (db : Tables)
      → is_active (conclude now sleep id e db).0.0 ≡ false
  unfolding conclude
  conclude-ended id none db = refl
  conclude-ended id (some e) db = elim (Option-cases (initiate_rollback now sleep id db).0) [
    | inl f ↦ rw (f, conclude) refl
    | inr (x, f) ↦ rw (f, conclude) refl
  ]

  claimed-IsExclusive :
      (id : ℕ) (strategy : Strategy) (db : Tables)
      → ((seconds : ℕ) (t : Tables) → IsExclusive t → IsExclusive (sleep seconds t))
      → IsExclusive db
      → IsExclusive (run_claimed now sleep id strategy db).1
  unfolding run_claimed
  claimed-IsExclusive id strategy db pauses v =
      let started : Tables =
        update_deployment id (λ d. record d { started_at = some (now db) }) db in
      let w =
        update_deployment-IsExclusive id (λ d. record d { started_at = some (now db) }) db
          (λ d h. h) v in
      let ran = execute_strategy now sleep strategy id started in
      let x =
        execute_strategy-keeps now sleep IsExclusive update_rollout-IsExclusive pauses strategy id
          started w in
      complete-IsExclusive id _ _ _ _ (conclude-ended id ran.0 ran.1)
        (conclude-keeps now sleep IsExclusive update_rollout-IsExclusive pauses id ran.0 ran.1 x)

  execute_deployment-IsExclusive :
      (id : ℕ) (db : Tables)
      → ((seconds : ℕ) (t : Tables) → IsExclusive t → IsExclusive (sleep seconds t))
      → IsExclusive db
      → IsExclusive (execute_deployment now sleep id db).1
  unfolding execute_deployment
  execute_deployment-IsExclusive id db pauses v = elim (Option-cases (get_deployment id db)) [
    | inl e ↦ rw (e, execute_deployment) v
    | inr (d, e) ↦ elim (Bool-cases (is_pending d.status)) [
      | inr f ↦ rw (e, execute_deployment) (rw (f, execute_deployment) v)
      | inl f ↦ elim (Outcome-cases (claim id db)) [
        | inr (x, g) ↦ rw (e, execute_deployment) (rw f (rw (g, execute_deployment) v))
        | inl (claimed, g) ↦
            rw (e, execute_deployment)
              (rw f (
                rw (g, execute_deployment)
                  (claimed-IsExclusive id d.strategy claimed pauses
                    (claim-IsExclusive id db claimed v g))))
      ]
    ]
  ]

  create_deployment-IsExclusive :
      (validate : ℕ → ℕ → Tables → Bool) (node : ℕ) (strategy : Strategy) (admin : ℕ)
      (db after : Tables) (id : ℕ)
      → IsExclusive db
      → create_deployment now sleep validate node strategy admin db ≡ ok (id, after)
      → IsExclusive after
  unfolding create_deployment
  create_deployment-IsExclusive validate node strategy admin db after id v h =
      let current = latest_below (λ r. true) node db.revisions in
      let (_, h₁) = refuses-eq-ok (current == 0) no_revisions _ h in
      let (_, h₂) =
        refuses-eq-ok (not (validate node current db)) invalid_revision
          (insert_deployment node current strategy admin (now db) db) h₁ in
      insert_deployment-IsExclusive node current strategy admin (now db) db after id v h₂

  -- One call; those that fail may have written too.
  pub data Call (db : Tables) : Tables → Type 0 where
    creates :
        {after : Tables} (validate : ℕ → ℕ → Tables → Bool) (node : ℕ) (strategy : Strategy)
        (admin id : ℕ)
        → create_deployment now sleep validate node strategy admin db ≡ ok (id, after)
        → Call db after
    executes : (id : ℕ) → Call db (execute_deployment now sleep id db).1
    times_out : (config : TimeoutConfig) (time : ℕ) → Call db (enforce_timeouts config time db)
    recovers : (time : ℕ) → Call db (recover_stale_deployments time db)
    -- A roll-back while no other deployment is in progress on its nodes: RollbackDeployment, which
    -- lacks the check of ExecuteDeployment, relies on it.
    rolls_back :
        (id : ℕ)
        → count_active id db.rollouts db.deployments ≡ 0
        → Call db (rollback_deployment now sleep id db).1

  pub data History (db : Tables) : Tables → Type 0 where
    start : History db db
    later : {mid after : Tables} → History db mid → Call mid after → History db after

  rollback_deployment-IsExclusive :
      (id : ℕ) (db : Tables)
      → ((seconds : ℕ) (t : Tables) → IsExclusive t → IsExclusive (sleep seconds t))
      → count_active id db.rollouts db.deployments ≡ 0
      → IsExclusive db
      → IsExclusive (rollback_deployment now sleep id db).1
  unfolding rollback_deployment
  rollback_deployment-IsExclusive id db pauses alone v =
      elim (Option-cases (get_deployment id db)) [
        | inl e ↦ rw (e, rollback_deployment) v
        | inr (d, e) ↦ elim (Bool-cases (is_rollbackable d.status)) [
          | inr f ↦ rw (e, rollback_deployment) (rw (f, rollback_deployment) v)
          | inl f ↦
              let marked = update_deployment_status id in_progress db in
              let w =
                initiate_rollback-keeps now sleep IsExclusive update_rollout-IsExclusive pauses id
                  marked (marked-IsExclusive id db alone v) in
              elim (Option-cases (initiate_rollback now sleep id marked).0) [
                | inl g ↦
                    rw (e, rollback_deployment)
                      (rw f (
                        rw (g, rollback_deployment)
                          (complete-IsExclusive id rolled_back _ _ _ refl w)))
                | inr (x, g) ↦
                    rw (e, rollback_deployment)
                      (rw f
                        (rw (g, rollback_deployment) (complete-IsExclusive id failed _ _ _ refl w)))
              ]
        ]
      ]

  Call-IsExclusive :
      (db after : Tables)
      → ((seconds : ℕ) (t : Tables) → IsExclusive t → IsExclusive (sleep seconds t))
      → IsExclusive db
      → Call db after
      → IsExclusive after
  Call-IsExclusive db _ pauses v (creates {after = after} validate node strategy admin id h) =
      create_deployment-IsExclusive validate node strategy admin db after id v h
  Call-IsExclusive db _ pauses v (executes id) = execute_deployment-IsExclusive id db pauses v
  Call-IsExclusive db _ pauses v (times_out config time) = times_out-IsExclusive config time db v
  Call-IsExclusive db _ pauses v (recovers time) = recovers-IsExclusive time db v
  Call-IsExclusive db _ pauses v (rolls_back id alone) =
      rollback_deployment-IsExclusive id db pauses alone v

  -- One deployment at a time: if no two deployments in progress have a node in common, none do after
  -- any sequence of calls of CreateDeployment, ExecuteDeployment, EnforceTimeouts,
  -- RecoverStaleDeployments and RollbackDeployment, whatever their outcomes, if each roll-back
  -- finds no other deployment in progress on its nodes. During the pauses of an execution others
  -- write any sequence of the transactions of these calls, a roll-back's with the same condition.
  pub History-IsExclusive :
      (db after : Tables)
      → ((seconds : ℕ) (t : Tables) → Writes t (sleep seconds t))
      → IsExclusive db
      → History db after
      → IsExclusive after
  History-IsExclusive db _ others v start = v
  History-IsExclusive db _ others v (later {mid = mid} {after = after} past call) =
      Call-IsExclusive mid after
        (λ seconds t w. Writes-IsExclusive t (sleep seconds t) w (others seconds t))
        (History-IsExclusive db mid others v past) call
