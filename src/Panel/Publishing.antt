-- ===== src/Panel/Publishing.antt =====
-- internal/panel/nodes/commit.go in consistent tables: the revision that a change publishes.
pub mod History
pub mod Reports
use antimage.Common.{
  ◌==◌, ℕ, ◌≡◌, String, some, ◌≢◌, ◌+◌, arith, Option-cases, refl, inl, ◌∙◌, inr, ap, sym, none,
  String_discrete, if_pos, if_neg, ite, true, Bool-cases,
}
use antimage.Common.Maps
use antimage.Panel.Db.{
  Db, Node, Revision, Result, ok, err, revision_key, get_node, write-eq-ok, write-of_ok,
}
use antimage.Panel.Db.Rows.{get_node-update_node}
use antimage.Panel.Commit.{
  next_number, Change, CommitResult, latest, sha_or_empty, commit_tx, commit_node_change, issue,
}
use antimage.Panel.Commit.Latest.{get-latest, get-latest-none, latest-le}
use antimage.Panel.Commit.Effects.{
  Found, Unchanged, Issued, issued, issued_row, bumped, mutated, commit_tx-ok, commit_tx-decided,
  issue_lem, get_node-bumped, decided,
}
use antimage.Panel.Consistency.{IsConsistent}
use antimage.Panel.Consistency.Published.{append_new}

-- The node's desired revision is the returned one, and the stored row has the returned hash.
pub record IsPublished {C : Type 0} (db : Db C) (id : ℕ) (r : CommitResult) : Type 0 where
  pub node : Node
  pub found : get_node id db ≡ some node
  pub desired : node.desired_revision ≡ r.revision
  pub row : Revision
  pub stored : Maps.get revision_key (id, r.revision) db.revisions ≡ some row
  pub hash : row.doc_sha256 ≡ r.sha256

latest-desired :
    {C : Type 0} (id : ℕ) (db : Db C) (n : Node) (q : ℕ) (row : Revision)
    → IsConsistent db
    → get_node id db ≡ some n
    → latest id db.revisions ≡ some (q, row)
    → q ≡ n.desired_revision
latest-desired id db n q row v found h =
    let at = get-latest id db.revisions q row h in
    let bounds = v.row_bounds id q n row found at in
    let (top, stored) = v.has_row id n.desired_revision n found (omega arith) (omega arith) in
    let below = latest-le id db.revisions n.desired_revision q top row stored h in omega arith

ite-ok :
    {P A : Type 0} (d : Dec P) {x y : Result A} {a b : A}
    → x ≡ ok a
    → y ≡ ok b
    → (c : A) × (ite d x y ≡ ok c)
ite-ok (yes p) {a = a} h k = (a, h)
ite-ok (no p) {b = b} h k = (b, k)

next_in_order :
    {C : Type 0} (db : Db C) (id : ℕ) (n : Node)
    → IsConsistent db
    → get_node id db ≡ some n
    → (n.desired_revision + 1 == next_number (latest id db.revisions)) ≡ true
next_in_order db id n v found = elim (Option-cases (latest id db.revisions)) [
  | inr ((q, row), e) ↦ let same = latest-desired id db n q row v found e in rw e (ground arith)
  | inl e ↦ elim (Bool-cases (n.desired_revision == 0)) [
    | inl z ↦ rw e (ground arith)
    | inr z ↦
        let (row, stored) = v.has_row id n.desired_revision n found (ground arith) (omega arith) in
        absurd (cc (stored, get-latest-none id db.revisions n.desired_revision e))
  ]
]

next_free :
    {C : Type 0} (db : Db C) (id : ℕ) (n : Node)
    → IsConsistent db
    → get_node id db ≡ some n
    → Maps.get revision_key (id, n.desired_revision + 1) db.revisions ≡ none
next_free db id n v found =
    elim (Option-cases (Maps.get revision_key (id, n.desired_revision + 1) db.revisions)) [
      | inl e ↦ e
      | inr (row, e) ↦
          let bounds = v.row_bounds id (n.desired_revision + 1) n row found e in
          absurd (omega arith)
    ]

module _ {C : Type 0} (build : C → ℕ → ℕ → ℕ → Result String) (ch : Change C) where
  Unchanged-IsPublished :
      (db : Db C) (r : CommitResult) (db' : Db C)
      → ((content : C) (now id revision : ℕ) → build content now id revision ≢ ok "")
      → IsConsistent db
      → Unchanged build ch db r db'
      → IsPublished db' ch.node_id r
  Unchanged-IsPublished db r db' filled v u = elim (Option-cases (latest ch.node_id db.revisions)) [
    | inl e ↦ absurd (
        filled u.content ch.now ch.node_id u.before.node.desired_revision
          (u.before.built ∙ ap ok (sym (rw e at u.same))))
    | inr ((q, row), e) ↦
        let here = latest-desired ch.node_id db u.before.node q row v u.before.found e in
        record {
          node = u.before.node;
          found = rw u.tables u.before.found;
          desired = rw u.result refl;
          row = row;
          stored =
              rw (u.tables, u.result) (rw here at (get-latest ch.node_id db.revisions q row e));
          hash = rw u.result (rw e at u.same);
        }
  ]

  Issued-IsPublished :
      (db : Db C) (r : CommitResult) (db' : Db C)
      → Issued build ch db r db'
      → IsPublished db' ch.node_id r
  Issued-IsPublished db r db' i = record {
    node = record i.before.node { desired_revision = i.before.node.desired_revision + 1 };
    found = rw i.tables (
        get_node-bumped build ch i.content (i.before.node.desired_revision + 1) db i.before.node
          i.before.found);
    desired = rw i.result refl;
    row = issued_row build ch i.final;
    stored =
        rw (i.tables, i.result)
          (append_new ch.node_id (i.before.node.desired_revision + 1) db.revisions
            (issued_row build ch i.final) i.fresh);
    hash = rw i.result refl;
  }

  -- In consistent tables, and if the hash of a document is never the empty text, a call of
  -- CommitNodeChange that succeeds returns the node's desired revision and the hash that is stored
  -- for that revision, whether or not it issued a new one.
  pub commit_node_change-IsPublished :
      (db : Db C) (r : CommitResult)
      → ((content : C) (now id revision : ℕ) → build content now id revision ≢ ok "")
      → IsConsistent db
      → (commit_node_change build ch db).0 ≡ ok r
      → IsPublished (commit_node_change build ch db).1 ch.node_id r
  unfolding commit_node_change
  commit_node_change-IsPublished db r filled v h =
      elim (commit_tx-ok build ch db r _ (write-eq-ok (commit_tx build ch) db h)) [
        | inl u ↦ Unchanged-IsPublished db r _ filled v u
        | inr i ↦ Issued-IsPublished db r _ i
      ]

  decided_total :
      (content : C) (db : Db C) (n : Node) (sha final : String)
      → get_node ch.node_id db ≡ some n
      → build content ch.later ch.node_id (n.desired_revision + 1) ≡ ok final
      → (n.desired_revision + 1 == next_number (latest ch.node_id db.revisions)) ≡ true
      → Maps.get revision_key (ch.node_id, n.desired_revision + 1) db.revisions ≡ none
      → (r : CommitResult) × (db' : Db C) × (decided build ch content db n sha ≡ ok (r, db'))
  decided_total content db n sha final found built next fresh =
      let ((r, db'), h) =
        ite-ok (String_discrete (sha_or_empty (latest ch.node_id db.revisions)) sha) refl
          (issue_lem build ch content db n final found built next fresh) in
      (r, db', h)

  -- In consistent tables, CommitNodeChange succeeds whenever the mutation succeeds, the node is
  -- there and every document of it can be built: the number of the next revision is the one
  -- that the trigger wants, and it is free.
  pub commit_node_change_total :
      (db : Db C) (content : C) (node : Node)
      → IsConsistent db
      → ch.mutate db.content ≡ ok content
      → get_node ch.node_id db ≡ some node
      → ((now revision : ℕ) → (sha : String) × (build content now ch.node_id revision ≡ ok sha))
      → (r : CommitResult) × ((commit_node_change build ch db).0 ≡ ok r)
  unfolding commit_node_change
  commit_node_change_total db content node v done found builds =
      let (sha, first) = builds ch.now node.desired_revision in
      let (final, second) = builds ch.later (node.desired_revision + 1) in
      let (r, db', h) =
        decided_total content db node sha final found second
          (next_in_order db ch.node_id node v found) (next_free db ch.node_id node v found) in
      (
        r,
        ap (λ t. t.0)
            (write-of_ok (commit_tx build ch) db
              (commit_tx-decided build ch db content node sha done found first ∙ h)),
      )
