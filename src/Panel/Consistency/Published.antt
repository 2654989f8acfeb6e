-- ===== src/Panel/Consistency/Published.antt =====
-- The invariant across a committed change.
use antimage.Common.{
  ℕ, ◌+◌, ◌≤◌, ◌<◌, String, none, some, List, [], ◌∷◌, ◌++◌, ◌≡◌, ◌⊎◌, refl, arith, Option-cases,
  inl, inr, subst, sym, ◌≢◌, ℕ_discrete,
}
use antimage.Common.Int.{pos, ◌≤ℤ◌}
use antimage.Common.Maps
use antimage.Panel.Db.{Db, Node, Revision, Result, revision_key, get_node, write-preserves}
use antimage.Panel.Commit.{Change, CommitResult, commit_tx, commit_node_change}
use antimage.Panel.Commit.Effects.{Issued, issued_row, mutated, commit_tx-ok}
use antimage.Panel.Consistency.{IsConsistent, Keeps-IsConsistent}
use antimage.Panel.Consistency.Preserved.{rows_of_update, same-Keeps}

append_row_cases :
    (j r id q : ℕ) (m : List ((ℕ × ℕ) × Revision)) (new row : Revision)
    → Maps.get revision_key (j, r) (m ++ ((id, q), new) ∷ []) ≡ some row
    → (Maps.get revision_key (j, r) m ≡ some row) ⊎ ((j ≡ id) × (r ≡ q) × (row ≡ new))
append_row_cases j r id q m new row h = elim (Option-cases (Maps.get revision_key (j, r) m)) [
  | inl e ↦ ground (arith, Maps.get-append_none revision_key (j, r) m ((id, q), new))
  | inr (old, e) ↦
      ground (arith, Maps.get-append_some revision_key (j, r) m ((id, q), new) {v = old})
]

pub append_new :
    (id q : ℕ) (m : List ((ℕ × ℕ) × Revision)) (new : Revision)
    → Maps.get revision_key (id, q) m ≡ none
    → Maps.get revision_key (id, q) (m ++ ((id, q), new) ∷ []) ≡ some new
append_new id q m new e = ground (arith, Maps.get-append_none revision_key (id, q) m ((id, q), new))

Case : ℕ → ℕ → ℕ → Node → Node → Type 0
Case j id d n' n = ((j ≡ id) × (n' ≡ record n { desired_revision = d + 1 })) ⊎ ((j ≢ id) × (n' ≡ n))

module _ {C : Type 0} (db : Db C) (v : IsConsistent db) (id : ℕ) (m : Node) (new : Revision) where
  bounded_after :
      (j : ℕ) (n n' : Node)
      → get_node id db ≡ some m
      → get_node j db ≡ some n
      → Case j id m.desired_revision n' n
      → n'.applied_revision ≤ℤ pos n'.desired_revision
  unfolding Case
  bounded_after j n n' found old (inl (p, q)) =
      let same : m ≡ n = cc in let below = v.bounded j n old in rw (q, same) (omega arith)
  bounded_after j n n' found old (inr (p, q)) = rw q (v.bounded j n old)

  has_row_after :
      (j r : ℕ) (n n' : Node)
      → get_node id db ≡ some m
      → Maps.get revision_key (id, m.desired_revision + 1) db.revisions ≡ none
      → get_node j db ≡ some n
      → Case j id m.desired_revision n' n
      → 0 < r
      → r ≤ n'.desired_revision
      → (row : Revision) × (Maps.get revision_key
            (j, r)
            (db.revisions ++ ((id, m.desired_revision + 1), new) ∷ [])
          ≡ some row)
  unfolding Case
  has_row_after j r n n' found fresh old (inr (p, q)) pos_r below =
      let (row, stored) = v.has_row j r n old pos_r (rw q at below) in
      (
        row,
        Maps.get-append_some revision_key (j, r) db.revisions ((id, m.desired_revision + 1), new)
            stored,
      )
  has_row_after j r n n' found fresh old (inl (p, q)) pos_r below =
      let same : m ≡ n = cc in
      let top : r ≤ m.desired_revision + 1 = rw q at below in
      elim (ℕ_discrete r (m.desired_revision + 1)) [
        | yes e ↦ (new, rw (p, e) (append_new id (m.desired_revision + 1) db.revisions new fresh))
        | no other ↦
            let (row, stored) = v.has_row id r m found pos_r (omega arith) in
            (
              row,
              rw p (
                  Maps.get-append_some revision_key (id, r) db.revisions
                    ((id, m.desired_revision + 1), new) stored),
            )
      ]

  row_bounds_after :
      (j r : ℕ) (n n' : Node) (row : Revision)
      → get_node id db ≡ some m
      → get_node j db ≡ some n
      → Case j id m.desired_revision n' n
      → (Maps.get revision_key (j, r) db.revisions ≡ some row)
        ⊎ ((j ≡ id) × (r ≡ m.desired_revision + 1) × (row ≡ new))
      → (0 < r) × (r ≤ n'.desired_revision)
  unfolding Case
  row_bounds_after j r n n' row found old (inr (p, q)) (inl stored) =
      rw q (v.row_bounds j r n row old stored)
  row_bounds_after j r n n' row found old (inr (p, q)) (inr (e, _, _)) = absurd (p e)
  row_bounds_after j r n n' row found old (inl (p, q)) (inl stored) =
      let same : m ≡ n = cc in
      let b = v.row_bounds j r n row old stored in rw (q, same) (b.0, omega arith)
  row_bounds_after j r n n' row found old (inl (p, q)) (inr (e, s, _)) =
      rw (q, s) (omega arith, omega arith)

module _ {C : Type 0} (build : C → ℕ → ℕ → ℕ → Result String) (ch : Change C) where
  Issued-IsConsistent :
      (db : Db C) (r : CommitResult) (db' : Db C)
      → Issued build ch db r db'
      → IsConsistent db
      → IsConsistent db'
  unfolding Case
  Issued-IsConsistent db r db' i v =
      let d = i.before.node.desired_revision in
      let new = issued_row build ch i.final in
      let found = i.before.found in
      subst IsConsistent (sym i.tables) (record {
        bounded = λ j n' h.
            let (n, old, which) =
              rows_of_update ch.node_id j (λ n. record n { desired_revision = d + 1 })
                (mutated build ch i.content db) n' h in
            bounded_after db v ch.node_id i.before.node new j n n' found old which;
        has_row = λ j q n' h pos_q below.
            let (n, old, which) =
              rows_of_update ch.node_id j (λ n. record n { desired_revision = d + 1 })
                (mutated build ch i.content db) n' h in
            has_row_after db v ch.node_id i.before.node new j q n n' found i.fresh old which pos_q
              below;
        row_bounds = λ j q n' row h stored.
            let (n, old, which) =
              rows_of_update ch.node_id j (λ n. record n { desired_revision = d + 1 })
                (mutated build ch i.content db) n' h in
            row_bounds_after db v ch.node_id i.before.node new j q n n' row found old which
              (append_row_cases j q ch.node_id (d + 1) db.revisions new row stored);
      })

  pub commit-IsConsistent :
      (db : Db C) → IsConsistent db → IsConsistent (commit_node_change build ch db).1
  unfolding commit_node_change
  commit-IsConsistent db v = write-preserves IsConsistent (commit_tx build ch) db v λ r db' h.
      elim (commit_tx-ok build ch db r db' h) [
        | inl u ↦ subst IsConsistent (sym u.tables) (Keeps-IsConsistent (same-Keeps v refl refl) v)
        | inr i ↦ Issued-IsConsistent db r db' i v
      ]
