-- ===== src/Panel/Deployment/Stages.antt =====
-- The strategy `staged` of orchestrator.go against the plain loop over the nodes.
use antimage.Common.{
  take, drop, ℕ, ◌+◌, ◌-◌, ◌/◌, ◌≤◌, ◌≡◌, ◌≢◌, refl, sym, Bool, true, false, none, List, [], ◌∷◌,
  ◌++◌, ltb, length, zero, suc, if◌then◌else◌, arith, ◌∙◌,
}
use antimage.Panel.Deployment.Tables.{Tables}
use antimage.Panel.Deployment.Execution.{
  pending_nodes, apply_to_node, apply_each, stage_count, run_stages, staged_through, execute_staged,
}

length-drop : (k m : ℕ) (left : List ℕ) → length left ≡ k + m → length (drop k left) ≡ m
unfolding drop
length-drop k m [] h = ground arith
length-drop zero m (x ∷ left) h = ground arith
length-drop (suc k) m (x ∷ left) h = length-drop k m left (omega arith)

take-length : (left : List ℕ) → take (length left) left ≡ left
unfolding take
take-length [] = refl
take-length (x ∷ left) = rw (take-length left) refl

stage_count-le : (planned deployed n : ℕ) → deployed ≤ n → deployed ≤ stage_count planned deployed n
stage_count-le planned deployed n h = ground arith

stage_count-bound : (planned deployed n : ℕ) → stage_count planned deployed n ≤ n
stage_count-bound planned deployed n = ground arith

stage_count-last : (deployed n : ℕ) → deployed ≤ n → stage_count n deployed n ≡ n
stage_count-last deployed n h = ground arith

module _ (now : Tables → ℕ) (sleep : ℕ → Tables → Tables) where
  apply_each-none :
      (id : ℕ) (nodes : List ℕ) (db : Tables) → (apply_each now sleep id nodes db).0 ≡ none
  unfolding apply_each apply_to_node
  apply_each-none id [] db = refl
  apply_each-none id (node ∷ rest) db =
      apply_each-none id rest (apply_to_node now sleep id node db).1

  apply_each-drop :
      (id k : ℕ) (nodes : List ℕ) (db : Tables)
      → apply_each now sleep id (drop k nodes) (apply_each now sleep id (take k nodes) db).1
        ≡ apply_each now sleep id nodes db
  unfolding apply_each apply_to_node take drop
  apply_each-drop id k [] db = refl
  apply_each-drop id zero (node ∷ rest) db = refl
  apply_each-drop id (suc k) (node ∷ rest) db =
      apply_each-drop id k rest (apply_to_node now sleep id node db).1

  rested :
      ((seconds : ℕ) (t : Tables) → sleep seconds t ≡ t)
      → (b : Bool) (t : Tables) → (if b then sleep 30 t else t) ≡ t
  rested calm true t = calm 30 t
  rested calm false t = refl

  run_stages-step :
      (id n planned : ℕ) (stages : List ℕ) (deployed : ℕ) (left : List ℕ) (db : Tables)
      → ((seconds : ℕ) (t : Tables) → sleep seconds t ≡ t)
      → run_stages now sleep id n (planned ∷ stages) deployed left db
        ≡ run_stages now sleep id n stages
            (stage_count planned deployed n)
            (drop (stage_count planned deployed n - deployed) left)
            (apply_each now sleep id (take (stage_count planned deployed n - deployed) left) db).1
  unfolding run_stages
  run_stages-step id n planned stages deployed left db calm =
      let count = stage_count planned deployed n in
      let first = take (count - deployed) left in
      rw (apply_each-none id first db, run_stages)
        (rw (rested calm (ltb count n) (apply_each now sleep id first db).1) refl)

  run_stages-each :
      (id n : ℕ) (stages : List ℕ) (deployed : ℕ) (left : List ℕ) (db : Tables)
      → ((seconds : ℕ) (t : Tables) → sleep seconds t ≡ t)
      → deployed + length left ≡ n
      → run_stages now sleep id n (stages ++ n ∷ []) deployed left db
        ≡ apply_each now sleep id left db
  unfolding run_stages
  run_stages-each id n [] deployed left db calm h =
      let all : stage_count n deployed n - deployed ≡ length left = ground arith in
      rw (run_stages-step id n n [] deployed left db calm) (
        rw all (
          rw (take-length left)
            (λ i. (sym (apply_each-none id left db) i, (apply_each now sleep id left db).1))))
  run_stages-each id n (planned ∷ stages) deployed left db calm h =
      let count = stage_count planned deployed n in
      let k = count - deployed in
      let fits : length (drop k left) ≡ n - count = length-drop k (n - count) left (ground arith) in
      rw (run_stages-step id n planned (stages ++ n ∷ []) deployed left db calm) (
        run_stages-each id n stages count (drop k left) (apply_each now sleep id (take k left) db).1
          calm (ground (arith, fits))
        ∙ apply_each-drop id k left db)

  staged_through-each :
      (id : ℕ) (nodes : List ℕ) (db : Tables)
      → ((seconds : ℕ) (t : Tables) → sleep seconds t ≡ t)
      → nodes ≢ []
      → staged_through now sleep id nodes db ≡ apply_each now sleep id nodes db
  unfolding staged_through
  staged_through-each id [] db calm filled = absurd (filled refl)
  staged_through-each id (node ∷ rest) db calm filled =
      let n = length (node ∷ rest) in
      run_stages-each id n (n / 10 ∷ n / 2 ∷ []) 0 (node ∷ rest) db calm (omega arith)

  -- The stages of executeStaged together apply every pending node exactly once and in order, as the
  -- plain loop does, when there is a pending node and nothing else writes during the pauses.
  pub execute_staged-each :
      (id : ℕ) (db : Tables)
      → ((seconds : ℕ) (t : Tables) → sleep seconds t ≡ t)
      → pending_nodes id db ≢ []
      → execute_staged now sleep id db ≡ apply_each now sleep id (pending_nodes id db) db
  execute_staged-each id db calm some_left =
      staged_through-each id (pending_nodes id db) db calm some_left
