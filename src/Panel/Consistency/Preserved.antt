-- ===== src/Panel/Consistency/Preserved.antt =====
-- The invariant across hellos, heartbeats and reports.
use antimage.Common.{
  ◌≢◌, ℕ, ◌≡◌, some, arith, Option-cases, List, ◌⊎◌, inl, ◌∷◌, inr, [], refl, subst, map, false, ap,
  Bool-cases, ◌∙◌,
}
use antimage.Common.Int.{pos, ◌≤ℤ◌}
use antimage.Panel.Db.{
  Db, Node, get_node, update_node, write, write-preserves, Result-cases, ApplyStep,
}
use antimage.Panel.Db.Rows.{get_node-update_node}
use antimage.Panel.ApplyRuns.{ApplyRunInput, record_apply_run, apply_run_tx, breaks_check}
use antimage.Panel.ApplyRuns.Effects.{
  verdict, written, settled, settled-frame, get_node-settled, apply_run_tx-Succeeded,
}
use antimage.Panel.Presence.{
  AdapterInfo, upsert_adapter, upsert_adapters, record_hello, heartbeat_tx, record_heartbeat,
  heartbeat_status, hello_status,
}
use antimage.Panel.Consistency.{IsConsistent, Keeps, Keeps-IsConsistent}

module _ {C : Type 0} where
  -- The cases of a row that was read after an update.
  pub rows_of_update :
      (id j : ℕ) (change : Node → Node) (db : Db C) (n' : Node)
      → get_node j (update_node id change db) ≡ some n'
      → (n : Node) × (get_node j db ≡ some n)
        × (((j ≡ id) × (n' ≡ change n)) ⊎ ((j ≢ id) × (n' ≡ n)))
  rows_of_update id j change db n' h = elim (Option-cases (get_node j db)) [
    | inl e ↦ absurd (ground (arith, get_node-update_node id j change db))
    | inr (n, e) ↦ (n, e, ground (arith, get_node-update_node id j change db))
  ]

  update_node-Keeps :
      (id : ℕ) (change : Node → Node) (db : Db C)
      → IsConsistent db
      → ((n : Node)
          → ((change n).desired_revision ≡ n.desired_revision)
            × ((change n).applied_revision ≡ n.applied_revision))
      → Keeps db (update_node id change db)
  update_node-Keeps id change db v same = record {
    revisions = refl;
    rows = λ j n' found.
        let (n, old, cases) = rows_of_update id j change db n' found in
        let inside = v.bounded j n old in (n, old, ground (arith, same n), ground (arith, same n));
  }

  pub same-Keeps :
      {db db' : Db C}
      → IsConsistent db
      → db'.nodes ≡ db.nodes
      → db'.revisions ≡ db.revisions
      → Keeps db db'
  same-Keeps v nodes revisions = record {
    revisions = revisions;
    rows = λ j n' found. let old = rw nodes at found in (n', old, refl, v.bounded j n' old);
  }

  pub heartbeat-IsConsistent :
      (id now : ℕ) (db : Db C) → IsConsistent db → IsConsistent (record_heartbeat id now db).1
  unfolding record_heartbeat heartbeat_tx
  heartbeat-IsConsistent id now db v =
      write-preserves IsConsistent (heartbeat_tx id now) db v λ a db' h.
        elim (Option-cases (get_node id db)) [
          | inl e ↦ absurd (cc (rw (e, heartbeat_tx) at h))
          | inr (n, e) ↦ subst IsConsistent (cc (rw (e, heartbeat_tx) at h)) (
              Keeps-IsConsistent
                (update_node-Keeps id
                  (λ n. record n { last_seen_at = some now; status = heartbeat_status n.status }) db
                  v (λ n. (refl, refl)))
                v)
        ]

  upsert_adapter-IsConsistent :
      (id : ℕ) (a : AdapterInfo) (now : ℕ) (db : Db C)
      → IsConsistent db
      → IsConsistent (write (upsert_adapter id a now) db).1
  unfolding upsert_adapter
  upsert_adapter-IsConsistent id a now db v =
      write-preserves IsConsistent (upsert_adapter id a now) db v λ u db' h.
        elim (Option-cases (get_node id db)) [
          | inl e ↦ absurd (cc (rw (e, upsert_adapter) at h))
          | inr (n, e) ↦ Keeps-IsConsistent (same-Keeps v (ground arith) (ground arith)) v
        ]

  upsert_adapters-IsConsistent :
      (id : ℕ) (adapters : List AdapterInfo) (now : ℕ) (db : Db C)
      → IsConsistent db
      → IsConsistent (upsert_adapters id adapters now db).1
  unfolding upsert_adapters
  upsert_adapters-IsConsistent id [] now db v = v
  upsert_adapters-IsConsistent id (a ∷ rest) now db v =
      let w = upsert_adapter-IsConsistent id a now db v in
      elim (Result-cases (write (upsert_adapter id a now) db).0) [
        | inl (u, e) ↦ rw (e, upsert_adapters) (upsert_adapters-IsConsistent id rest now _ w)
        | inr (x, e) ↦ rw (e, upsert_adapters) w
      ]

  pub hello-IsConsistent :
      (id : ℕ) (adapters : List AdapterInfo) (now : ℕ) (db : Db C)
      → IsConsistent db
      → IsConsistent (record_hello id adapters now db).1
  unfolding record_hello
  hello-IsConsistent id adapters now db v = upsert_adapters-IsConsistent id adapters now _ (
      Keeps-IsConsistent
        (update_node-Keeps id
          (λ n. record n {
            adapter_kinds = map (λ a. a.kind) adapters;
            last_seen_at = some now;
            status = hello_status n.status;
          })
          db v (λ n. (refl, refl)))
        v)

  rows_of_settled :
      (input : ApplyRunInput) (db : Db C) (steps : List ApplyStep) (j : ℕ) (n' : Node)
      → get_node j (settled input db steps) ≡ some n'
      → (n : Node) × (get_node j db ≡ some n)
        × (((j ≡ input.node_id) × (n' ≡ written input db n)) ⊎ (n' ≡ n))
  rows_of_settled input db steps j n' h = elim (Option-cases (get_node j db)) [
    | inl e ↦ absurd (ground (arith, get_node-settled input db steps j))
    | inr (n, e) ↦ (n, e, ground (arith, get_node-settled input db steps j))
  ]

  written-bounded :
      (input : ApplyRunInput) (db : Db C) (n : Node)
      → breaks_check (verdict input db) input n ≡ false
      → n.applied_revision ≤ℤ pos n.desired_revision
      → ((written input db n).desired_revision ≡ n.desired_revision)
        × ((written input db n).applied_revision ≤ℤ pos n.desired_revision)
  written-bounded input db n within h = elim (Bool-cases (verdict input db).advance) [
    | inl e ↦ rw e (ground arith)
    | inr e ↦ rw e (refl, h)
  ]

  kept_row :
      (input : ApplyRunInput) (db : Db C) (j : ℕ) (n n' m : Node)
      → get_node input.node_id db ≡ some m
      → breaks_check (verdict input db) input m ≡ false
      → get_node j db ≡ some n
      → n.applied_revision ≤ℤ pos n.desired_revision
      → ((j ≡ input.node_id) × (n' ≡ written input db n)) ⊎ (n' ≡ n)
      → (n'.desired_revision ≡ n.desired_revision)
        × (n'.applied_revision ≤ℤ pos n'.desired_revision)
  kept_row input db j n n' m found within old below (inl (p, q)) =
      let same : m ≡ n = cc in
      let w = written-bounded input db n (rw same at within) below in rw q (w.0, rw w.0 w.1)
  kept_row input db j n n' m found within old below (inr q) = rw q (refl, below)

  pub apply_run-IsConsistent :
      (input : ApplyRunInput) (db : Db C)
      → IsConsistent db
      → IsConsistent (record_apply_run input db).1
  unfolding record_apply_run
  apply_run-IsConsistent input db v =
      write-preserves IsConsistent (apply_run_tx input) db v λ out db' h.
        let s = apply_run_tx-Succeeded input db out db' h in
        Keeps-IsConsistent
          (record {
            revisions =
                ap (λ t. t.revisions) s.tables
                ∙ ap (λ t. t.revisions) (settled-frame input db s.steps);
            rows = λ j n' found.
                let (n, old, cases) =
                  rows_of_settled input db s.steps j n' (rw s.tables at found) in
                let kept =
                  kept_row input db j n n' s.node s.found s.in_bounds old (v.bounded j n old)
                    cases in
                (n, old, kept.0, kept.1);
          })
          v
