-- ===== src/Panel/Deployment/Exclusive.antt =====
-- No two deployments in progress share a node: each write by itself.
use antimage.Common.{
  ℕ, ◌≤◌, ◌==◌, ◌≡◌, ◌≢◌, refl, sym, ◌∙◌, arith, Bool, true, false, Option, none, some, List, [],
  ◌∷◌, ◌++◌, ◌&&◌, ite, if◌then◌else◌, ℕ_discrete, ltb, Option-cases, inl, inr,
}
use antimage.Common.Maps
use antimage.Common.Outcome.{ok, refuses-eq-ok, ok-injective}
use antimage.Panel.Deployment.Tables.{
  Deployment, Rollout, Tables, Strategy, is_active, has_node, share_node, count_active, in_progress,
  overlapping, awaiting, pending,
}
use antimage.Panel.Deployment.Writes.{
  update_deployment_rows, update_rollout_rows, update_deployment, next_deployment_id,
  insert_deployment, claim, update_deployment_status, inserted_deployment,
}
use mathlib.Core.Option

abbrev pub active_in : Option Deployment → Bool
active_in none = false
active_in (some d) = is_active d.status

abbrev pub active : ℕ → Tables → Bool
active id db = active_in (Maps.get ℕ_discrete id db.deployments)

-- Two deployments in progress with a node in common are the same.
abbrev pub IsExclusive : Tables → Type 0
IsExclusive db =
    (a b node : ℕ)
    → active a db ≡ true
    → active b db ≡ true
    → has_node a node db.rollouts ≡ true
    → has_node b node db.rollouts ≡ true
    → a ≡ b

get-update_deployment_rows :
    (id j : ℕ) (change : Deployment → Deployment) (rows : List (ℕ × Deployment))
    → Maps.get ℕ_discrete j (update_deployment_rows id change rows)
      ≡ ite
          (ℕ_discrete j id)
          (Option.map change (Maps.get ℕ_discrete j rows))
          (Maps.get ℕ_discrete j rows)
unfolding update_deployment_rows Maps.get
get-update_deployment_rows id j change [] = ground arith
get-update_deployment_rows id j change (x ∷ rows) =
    ground (arith, get-update_deployment_rows id j change rows)

has_node-update :
    (id a node : ℕ) (of_node : ℕ → Bool) (change : Rollout → Rollout)
    (rows : List ((ℕ × ℕ) × Rollout))
    → has_node a node (update_rollout_rows id of_node change rows) ≡ has_node a node rows
unfolding has_node update_rollout_rows
has_node-update id a node of_node change [] = refl
has_node-update id a node of_node change (x ∷ rows) =
    ground (arith, has_node-update id a node of_node change rows)

has_node-append :
    (a node : ℕ) (rows : List ((ℕ × ℕ) × Rollout)) (r : (ℕ × ℕ) × Rollout)
    → has_node a node (rows ++ r ∷ []) ≡ (
        if has_node a node rows
        then true
        else if (r.0.0 == a) && (r.0.1 == node)
        then true
        else false)
unfolding has_node
has_node-append a node [] r = refl
has_node-append a node (x ∷ rows) r = ground (arith, has_node-append a node rows r)

share_node-false :
    (a b node : ℕ) (all rows : List ((ℕ × ℕ) × Rollout))
    → share_node a b all rows ≡ false
    → has_node a node rows ≡ true
    → has_node b node all ≡ true
    → ⊥
unfolding share_node has_node
share_node-false a b node all [] apart h k = cc
share_node-false a b node all (r ∷ rows) apart h k =
    ground (arith, share_node-false a b node all rows)

count_active-zero :
    (id a : ℕ) (rollouts : List ((ℕ × ℕ) × Rollout)) (rows : List (ℕ × Deployment))
    → ltb 0 (count_active id rollouts rows) ≡ false
    → active_in (Maps.get ℕ_discrete a rows) ≡ true
    → a ≢ id
    → share_node a id rollouts rollouts ≡ false
unfolding count_active Maps.get
count_active-zero id a rollouts [] none_active h other = cc
count_active-zero id a rollouts (d ∷ rows) none_active h other =
    ground (arith, count_active-zero id a rollouts rows)

next_deployment_id-is_free :
    (n : ℕ) (rows : List (ℕ × Deployment))
    → next_deployment_id rows ≤ n
    → Maps.get ℕ_discrete n rows ≡ none
unfolding next_deployment_id Maps.get
next_deployment_id-is_free n [] h = refl
next_deployment_id-is_free n (d ∷ rows) h = ground (arith, next_deployment_id-is_free n rows)

was_active :
    (id a : ℕ) (change : Deployment → Deployment) (db : Tables)
    → ((d : Deployment) → is_active (change d).status ≡ true → is_active d.status ≡ true)
    → active a (update_deployment id change db) ≡ true
    → active a db ≡ true
unfolding update_deployment
was_active id a change db calm h = elim (Option-cases (Maps.get ℕ_discrete a db.deployments)) [
  | inl e ↦ ground (arith, get-update_deployment_rows id a change db.deployments)
  | inr (d, e) ↦ ground (arith, get-update_deployment_rows id a change db.deployments, calm d)
]

-- An update of node rows, by one node or all.
pub update_rollouts-IsExclusive :
    (id : ℕ) (of_node : ℕ → Bool) (change : Rollout → Rollout) (db : Tables)
    → IsExclusive db
    → IsExclusive (record db { rollouts = update_rollout_rows id of_node change db.rollouts })
update_rollouts-IsExclusive id of_node change db v = λ a b node h k p q.
    v a b node h k (rw (sym (has_node-update id a node of_node change db.rollouts)) p)
      (rw (sym (has_node-update id b node of_node change db.rollouts)) q)

-- A change of a deployment that does not put it in progress.
pub update_deployment-IsExclusive :
    (id : ℕ) (change : Deployment → Deployment) (db : Tables)
    → ((d : Deployment) → is_active (change d).status ≡ true → is_active d.status ≡ true)
    → IsExclusive db
    → IsExclusive (update_deployment id change db)
unfolding update_deployment
update_deployment-IsExclusive id change db calm v = λ a b node h k p q.
    v a b node (was_active id a change db calm h) (was_active id b change db calm k) p q

still_active :
    (id a : ℕ) (db : Tables)
    → a ≢ id
    → active a (update_deployment_status id in_progress db) ≡ true
    → active a db ≡ true
unfolding update_deployment
still_active id a db other h =
    ground (
      arith,
      get-update_deployment_rows id a (λ d. record d { status = in_progress }) db.deployments,
    )

claim_clash :
    (id a node : ℕ) (db : Tables)
    → ltb 0 (count_active id db.rollouts db.deployments) ≡ false
    → active a db ≡ true
    → a ≢ id
    → has_node a node db.rollouts ≡ true
    → has_node id node db.rollouts ≡ true
    → ⊥
claim_clash id a node db free h other p q =
    share_node-false a id node db.rollouts db.rollouts
      (count_active-zero id a db.rollouts db.deployments free h other) p q

pub claim-IsExclusive :
    (id : ℕ) (db after : Tables) → IsExclusive db → claim id db ≡ ok after → IsExclusive after
unfolding claim update_deployment
claim-IsExclusive id db after v h =
    let (free, done) =
      refuses-eq-ok (ltb 0 (count_active id db.rollouts db.deployments))
        (overlapping (count_active id db.rollouts db.deployments))
        (ok (update_deployment_status id in_progress db)) h in
    rw (sym (ok-injective done)) (λ a b node x y p q. elim (ℕ_discrete a id) [
      | yes e ↦ elim (ℕ_discrete b id) [
        | yes f ↦ e ∙ sym f
        | no other ↦
            absurd
              (claim_clash id b node db free (still_active id b db other y) other q (rw e at p))
      ]
      | no other ↦ elim (ℕ_discrete b id) [
        | yes f ↦
            absurd
              (claim_clash id a node db free (still_active id a db other x) other p (rw f at q))
        | no another ↦
            v a b node (still_active id a db other x) (still_active id b db another y) p q
      ]
    ])

inserted_deployment-active :
    (node revision : ℕ) (strategy : Strategy) (admin now a : ℕ) (db : Tables)
    → active a (inserted_deployment node revision strategy admin now db) ≡ true
    → (active a db ≡ true) × (a ≢ next_deployment_id db.deployments)
inserted_deployment-active node revision strategy admin now a db h =
    let id = next_deployment_id db.deployments in
    let row : Deployment = record {
      node_id = some node;
      revision_id = revision;
      strategy = strategy;
      status = pending;
      created_by = admin;
      created_at = now;
      started_at = none;
      completed_at = none;
      error = none;
    } in
    elim (Option-cases (Maps.get ℕ_discrete a db.deployments)) [
      | inl e ↦
          absurd (ground (arith, Maps.get-append_none ℕ_discrete a db.deployments (id, row) e))
      | inr (d, e) ↦
          let kept = Maps.get-append_some ℕ_discrete a db.deployments (id, row) e in
          let free = next_deployment_id-is_free id db.deployments (omega arith) in
          (rw e (rw kept at h), λ same. cc (rw same at e, free))
    ]

pub insert_deployment-IsExclusive :
    (node revision : ℕ) (strategy : Strategy) (admin now : ℕ) (db after : Tables) (id : ℕ)
    → IsExclusive db
    → insert_deployment node revision strategy admin now db ≡ ok (id, after)
    → IsExclusive after
unfolding insert_deployment
insert_deployment-IsExclusive node revision strategy admin now db after id v h =
    let tables : after ≡ inserted_deployment node revision strategy admin now db = ground arith in
    rw tables (λ a b n x y p q.
      let (old_a, other_a) = inserted_deployment-active node revision strategy admin now a db x in
      let (old_b, other_b) = inserted_deployment-active node revision strategy admin now b db y in
      let row : Rollout = record {
        status = awaiting;
        started_at = none;
        completed_at = none;
        error = none;
      } in
      v a b n old_a old_b
        (ground
          (arith, has_node-append a n db.rollouts ((next_deployment_id db.deployments, node), row)))
        (ground (
          arith,
          has_node-append b n db.rollouts ((next_deployment_id db.deployments, node), row),
        )))
