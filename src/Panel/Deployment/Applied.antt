-- ===== src/Panel/Deployment/Applied.antt =====
-- What the strategy `all_at_once` of orchestrator.go leaves behind.
use antimage.Common.{
  ℕ, ◌==◌, ◌≡◌, refl, sym, Bool, true, false, none, List, [], ◌∷◌, ◌&&◌, if◌then◌else◌, Bool-cases,
  inl, inr, arith,
}
use antimage.Panel.Deployment.Tables.{Tables, Rollout, is_awaiting, nodes_with, insert_sorted}
use antimage.Panel.Deployment.Writes.{update_rollout_rows, update_rollout}
use antimage.Panel.Deployment.Execution.{
  pending_nodes, apply_to_node, apply_counting, execute_all_at_once,
}

-- The node has a row of the deployment that is pending.
unfoldable awaits : ℕ → ℕ → List ((ℕ × ℕ) × Rollout) → Bool
awaits id node [] = false
awaits id node (r ∷ rest) =
    let others = awaits id node rest in
    if ((r.0.0 == id) && (r.0.1 == node)) && is_awaiting r.1.status then true else others

unfoldable has : ℕ → List ℕ → Bool
has node [] = false
has node (n ∷ rest) = let others = has node rest in if n == node then true else others

awaits-head :
    (key before after rest others : Bool)
    → (after ≡ true → before ≡ true)
    → (others ≡ true → rest ≡ true)
    → (if key && after then true else others) ≡ true
    → (if key && before then true else rest) ≡ true
awaits-head false before after rest others f g h = g h
awaits-head true true after rest others f g h = refl
awaits-head true false true rest others f g h = absurd (cc (f refl))
awaits-head true false false rest others f g h = g h

awaits-update :
    (id m node : ℕ) (change : Rollout → Rollout) (rows : List ((ℕ × ℕ) × Rollout))
    → ((r : Rollout) → is_awaiting (change r).status ≡ true → is_awaiting r.status ≡ true)
    → awaits id m (update_rollout_rows id (λ n. n == node) change rows) ≡ true
    → awaits id m rows ≡ true
unfolding awaits update_rollout_rows
awaits-update id m node change [] fair h = h
awaits-update id m node change (x ∷ rows) fair h =
    elim (Bool-cases ((x.0.0 == id) && (x.0.1 == node))) [
      | inl e ↦
          awaits-head ((x.0.0 == id) && (x.0.1 == m)) _ _ _ _ (fair x.1)
            (awaits-update id m node change rows fair) (rw (e, update_rollout_rows) at h)
      | inr e ↦
          awaits-head ((x.0.0 == id) && (x.0.1 == m)) _ _ _ _ (λ a. a)
            (awaits-update id m node change rows fair) (rw (e, update_rollout_rows) at h)
    ]

awaits-written :
    (id node : ℕ) (change : Rollout → Rollout) (rows : List ((ℕ × ℕ) × Rollout))
    → ((r : Rollout) → is_awaiting (change r).status ≡ false)
    → awaits id node (update_rollout_rows id (λ n. n == node) change rows) ≡ false
unfolding awaits update_rollout_rows
awaits-written id node change [] done = refl
awaits-written id node change (x ∷ rows) done =
    ground (arith, awaits-written id node change rows done, done x.1)

has-insert_sorted :
    (m n : ℕ) (nodes : List ℕ)
    → has m (insert_sorted n nodes) ≡ (if n == m then true else has m nodes)
unfolding has insert_sorted
has-insert_sorted m n [] = refl
has-insert_sorted m n (x ∷ nodes) = ground (arith, has-insert_sorted m n nodes)

awaits-has :
    (id m : ℕ) (rows : List ((ℕ × ℕ) × Rollout))
    → awaits id m rows ≡ true
    → has m (nodes_with is_awaiting id rows) ≡ true
unfolding awaits nodes_with
awaits-has id m [] h = absurd (cc h)
awaits-has id m (x ∷ rows) h =
    ground (arith, awaits-has id m rows, has-insert_sorted m x.0.1 (nodes_with is_awaiting id rows))

nodes_with-empty :
    (id : ℕ) (rows : List ((ℕ × ℕ) × Rollout))
    → ((m : ℕ) → awaits id m rows ≡ false)
    → nodes_with is_awaiting id rows ≡ []
unfolding awaits nodes_with
nodes_with-empty id [] free = refl
nodes_with-empty id (x ∷ rows) free =
    let rest = nodes_with-empty id rows (λ m. ground (arith, free m)) in
    ground (arith, free x.0.1, rest)

module _ (now : Tables → ℕ) (sleep : ℕ → Tables → Tables) where
  apply_to_node-awaits :
      (id m node : ℕ) (db : Tables)
      → awaits id m (apply_to_node now sleep id node db).1.rollouts ≡ true
      → awaits id m db.rollouts ≡ true
  unfolding apply_to_node update_rollout
  apply_to_node-awaits id m node db h =
      awaits-update id m node _ db.rollouts (λ r a. absurd (cc a))
        (awaits-update id m node _ _ (λ r a. a)
          (awaits-update id m node _ _ (λ r a. absurd (cc a)) h))

  apply_to_node-written :
      (id node : ℕ) (db : Tables)
      → awaits id node (apply_to_node now sleep id node db).1.rollouts ≡ false
  unfolding apply_to_node update_rollout
  apply_to_node-written id node db = awaits-written id node _ _ (λ r. refl)

  written_same :
      (id node m : ℕ) (db : Tables)
      → node ≡ m
      → awaits id m (apply_to_node now sleep id node db).1.rollouts ≡ false
  written_same id node m db same = rw (sym same) (apply_to_node-written id node db)

  apply_counting-awaits :
      (id m : ℕ) (nodes : List ℕ) (failures : ℕ) (db : Tables)
      → awaits id m (apply_counting now sleep id nodes failures db).1.rollouts ≡ true
      → awaits id m db.rollouts ≡ true
  unfolding apply_counting apply_to_node
  apply_counting-awaits id m [] failures db h = h
  apply_counting-awaits id m (node ∷ rest) failures db h =
      apply_to_node-awaits id m node db
        (apply_counting-awaits id m rest failures (apply_to_node now sleep id node db).1 h)

  apply_counting-written :
      (id m : ℕ) (nodes : List ℕ) (failures : ℕ) (db : Tables)
      → has m nodes ≡ true
      → awaits id m (apply_counting now sleep id nodes failures db).1.rollouts ≡ false
  unfolding apply_counting apply_to_node has
  apply_counting-written id m [] failures db h = absurd (cc h)
  apply_counting-written id m (node ∷ rest) failures db h =
      let next = (apply_to_node now sleep id node db).1 in
      elim (Bool-cases (awaits id m (apply_counting now sleep id rest failures next).1.rollouts)) [
        | inr e ↦ e
        | inl e ↦ elim (Bool-cases (node == m)) [
          | inl same ↦ absurd (
              cc (
                apply_counting-awaits id m rest failures next e,
                written_same id node m db (ground arith),
              ))
          | inr other ↦ apply_counting-written id m rest failures next (rw other at h)
        ]
      ]

  apply_counting-failures :
      (id : ℕ) (nodes : List ℕ) (failures : ℕ) (db : Tables)
      → (apply_counting now sleep id nodes failures db).0 ≡ failures
  unfolding apply_counting apply_to_node
  apply_counting-failures id [] failures db = refl
  apply_counting-failures id (node ∷ rest) failures db =
      apply_counting-failures id rest failures (apply_to_node now sleep id node db).1

  -- executeAllAtOnce succeeds and leaves no node of the deployment pending, from any tables.
  pub execute_all_at_once-none :
      (id : ℕ) (db : Tables)
      → ((execute_all_at_once now sleep id db).0 ≡ none)
        × (pending_nodes id (execute_all_at_once now sleep id db).1 ≡ [])
  execute_all_at_once-none id db =
      let nodes = pending_nodes id db in
      (
        rw (apply_counting-failures id nodes 0 db) refl,
        nodes_with-empty id (apply_counting now sleep id nodes 0 db).1.rollouts (λ m.
            elim (Bool-cases (awaits id m db.rollouts)) [
              | inl e ↦ apply_counting-written id m nodes 0 db (awaits-has id m db.rollouts e)
              | inr e ↦
                  elim (Bool-cases
                    (awaits id m (apply_counting now sleep id nodes 0 db).1.rollouts)) [
                      | inr f ↦ f
                      | inl f ↦ absurd (cc (apply_counting-awaits id m nodes 0 db f, e))
                    ]
            ]),
      )
