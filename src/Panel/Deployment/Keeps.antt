-- ===== src/Panel/Deployment/Keeps.antt =====
-- What the steps of an execution keep: each writes the rows of its nodes and waits, no more.
use antimage.Common.{
  take, drop, ℕ, ◌==◌, Option, none, some, List, [], ◌∷◌, ltb, ◌-◌, if◌then◌else◌, Option-cases,
  Bool-cases, inl, inr,
}
use antimage.Panel.Deployment.Tables.{
  Strategy, all_at_once, canary, staged, rolling, other_strategy, Rollout, Tables, DeployError,
  get_deployment, nodes_with, latest_below, is_healthy, is_deployed, Deployment,
}
use antimage.Panel.Deployment.Writes.{update_rollout}
use antimage.Panel.Deployment.Execution.{
  pending_nodes, apply_to_node, apply_counting, apply_each, run_stages, roll_through,
  execute_strategy, rollback_nodes, initiate_rollback, conclude, stage_count, canary_first,
  staged_through, rollback_to, first_node,
}

-- A property that the updates of node rows keep, and the pauses.
module _ (now : Tables → ℕ) (sleep : ℕ → Tables → Tables) (P : Tables → Type 0)
    (rolls : (id node : ℕ) (change : Rollout → Rollout) (db : Tables)
      → P db
      → P (update_rollout id node change db))
    (pauses : (seconds : ℕ) (db : Tables) → P db → P (sleep seconds db)) where
  apply_to_node-keeps :
      (id node : ℕ) (db : Tables) → P db → P (apply_to_node now sleep id node db).1
  unfolding apply_to_node
  apply_to_node-keeps id node db v = rolls id node _ _ (rolls id node _ _ (rolls id node _ db v))

  apply_counting-keeps :
      (id : ℕ) (nodes : List ℕ) (failures : ℕ) (db : Tables)
      → P db
      → P (apply_counting now sleep id nodes failures db).1
  unfolding apply_counting apply_to_node
  apply_counting-keeps id [] failures db v = v
  apply_counting-keeps id (node ∷ rest) failures db v =
      apply_counting-keeps id rest failures (apply_to_node now sleep id node db).1
        (apply_to_node-keeps id node db v)

  apply_each-keeps :
      (id : ℕ) (nodes : List ℕ) (db : Tables) → P db → P (apply_each now sleep id nodes db).1
  unfolding apply_each apply_to_node
  apply_each-keeps id [] db v = v
  apply_each-keeps id (node ∷ rest) db v =
      apply_each-keeps id rest (apply_to_node now sleep id node db).1
        (apply_to_node-keeps id node db v)

  rollback_nodes-keeps :
      (id : ℕ) (nodes : List ℕ) (db : Tables) → P db → P (rollback_nodes now sleep id nodes db)
  unfolding rollback_nodes
  rollback_nodes-keeps id [] db v = v
  rollback_nodes-keeps id (node ∷ rest) db v = rollback_nodes-keeps id rest _ (rolls id node _ db v)

  run_stages-keeps :
      (id nodes : ℕ) (stages : List ℕ) (deployed : ℕ) (left : List ℕ) (db : Tables)
      → P db
      → P (run_stages now sleep id nodes stages deployed left db).1
  unfolding run_stages
  run_stages-keeps id nodes [] deployed left db v = v
  run_stages-keeps id nodes (planned ∷ stages) deployed left db v =
      let count = stage_count planned deployed nodes in
      let first = apply_each now sleep id (take (count - deployed) left) db in
      let w = apply_each-keeps id (take (count - deployed) left) db v in
      elim (Option-cases first.0) [
        | inr (x, e) ↦ rw (e, run_stages) w
        | inl e ↦
            rw (e, run_stages)
              (run_stages-keeps id nodes stages count (drop (count - deployed) left)
                (if ltb count nodes then sleep 30 first.1 else first.1)
                (elim (Bool-cases (ltb count nodes)) [
                  | inl f ↦ rw f (pauses 30 first.1 w)
                  | inr f ↦ rw f w
                ]))
      ]

  roll_through-keeps :
      (id : ℕ) (nodes : List ℕ) (db : Tables) → P db → P (roll_through now sleep id nodes db).1
  unfolding roll_through apply_to_node
  roll_through-keeps id [] db v = v
  roll_through-keeps id (node ∷ rest) db v =
      let slept = sleep 10 (apply_to_node now sleep id node db).1 in
      let w = pauses 10 _ (apply_to_node-keeps id node db v) in
      elim (Bool-cases (is_healthy node slept)) [
        | inl e ↦ rw (e, roll_through) (roll_through-keeps id rest slept w)
        | inr e ↦ rw (e, roll_through) w
      ]

  canary_first-keeps :
      (id : ℕ) (nodes : List ℕ) (db : Tables) → P db → P (canary_first now sleep id nodes db).1
  unfolding canary_first apply_to_node
  canary_first-keeps id [] db v = v
  canary_first-keeps id (node ∷ rest) db v =
      let slept = sleep 30 (apply_to_node now sleep id node db).1 in
      let w = pauses 30 _ (apply_to_node-keeps id node db v) in
      elim (Bool-cases (is_healthy node slept)) [
        | inl e ↦ rw (e, canary_first) (apply_each-keeps id rest slept w)
        | inr e ↦ rw (e, canary_first) (rolls id node _ slept w)
      ]

  staged_through-keeps :
      (id : ℕ) (nodes : List ℕ) (db : Tables) → P db → P (staged_through now sleep id nodes db).1
  unfolding staged_through
  staged_through-keeps id [] db v = v
  staged_through-keeps id (node ∷ rest) db v = run_stages-keeps id _ _ 0 (node ∷ rest) db v

  pub execute_strategy-keeps :
      (strategy : Strategy) (id : ℕ) (db : Tables)
      → P db
      → P (execute_strategy now sleep strategy id db).1
  unfolding execute_strategy
  execute_strategy-keeps all_at_once id db v = apply_counting-keeps id (pending_nodes id db) 0 db v
  execute_strategy-keeps canary id db v = canary_first-keeps id (pending_nodes id db) db v
  execute_strategy-keeps staged id db v = staged_through-keeps id (pending_nodes id db) db v
  execute_strategy-keeps rolling id db v = roll_through-keeps id (pending_nodes id db) db v
  execute_strategy-keeps other_strategy id db v = v

  rollback_to-keeps :
      (id : ℕ) (nodes : List ℕ) (d : Option Deployment) (db : Tables)
      → P db
      → P (rollback_to now sleep id nodes d db).1
  unfolding rollback_to
  rollback_to-keeps id [] d db v = v
  rollback_to-keeps id (node ∷ rest) none db v = v
  rollback_to-keeps id (node ∷ rest) (some d) db v =
      elim (Bool-cases
        (latest_below (λ r. ltb r d.revision_id) (first_node now sleep id db) db.revisions == 0)) [
          | inl e ↦ rw (e, rollback_to) v
          | inr e ↦ rw (e, rollback_to) (rollback_nodes-keeps id (node ∷ rest) db v)
        ]

  pub initiate_rollback-keeps :
      (id : ℕ) (db : Tables) → P db → P (initiate_rollback now sleep id db).1
  initiate_rollback-keeps id db v =
      rollback_to-keeps id (nodes_with is_deployed id db.rollouts) (get_deployment id db) db v

  pub conclude-keeps :
      (id : ℕ) (e : Option DeployError) (db : Tables) → P db → P (conclude now sleep id e db).1
  unfolding conclude
  conclude-keeps id none db v = v
  conclude-keeps id (some e) db v =
      let w = initiate_rollback-keeps id db v in
      elim (Option-cases (initiate_rollback now sleep id db).0) [
        | inl f ↦ rw (f, conclude) w
        | inr (x, f) ↦ rw (f, conclude) w
      ]
