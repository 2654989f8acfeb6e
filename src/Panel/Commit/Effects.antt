-- ===== src/Panel/Commit/Effects.antt =====
-- What a transaction of CommitNodeChange that succeeds has written.
use antimage.Common.{
  ℕ, ◌+◌, String, String_discrete, true, false, none, some, [], ◌∷◌, ◌++◌, ite, if_pos, if_neg, ◌≡◌,
  ◌≢◌, ◌⊎◌, refl, sym, ◌∙◌, arith, Option-cases, inl, inr, ◌==◌, Bool-cases,
}
use antimage.Common.Maps
use antimage.Panel.Db.{
  Db, Node, Revision, node_revision, Result, ok, ◌>>=◌, >>=-eq-ok, revision_key, get_node,
  update_node, Result-cases,
}
use antimage.Panel.Db.Rows.{get_node-update_node}
use antimage.Panel.Commit.{
  Change, CommitResult, latest, sha_or_empty, insert_revision, snapshot, issue, commit_tx,
  next_number,
}

-- An insert that succeeds has passed the trigger and the primary key.
insert_revision-ok :
    {C : Type 0} (id r : ℕ) (row : Revision) (db : Db C) {db' : Db C}
    → insert_revision id r row db ≡ ok db'
    → ((r == next_number (latest id db.revisions)) ≡ true)
      × (Maps.get revision_key (id, r) db.revisions ≡ none)
unfolding insert_revision
insert_revision-ok id r row db h = elim (Bool-cases (r == next_number (latest id db.revisions))) [
  | inr e ↦ absurd (cc (rw (e, insert_revision) at h))
  | inl e ↦ elim (Option-cases (Maps.get revision_key (id, r) db.revisions)) [
    | inl free ↦ (e, free)
    | inr (old, taken) ↦ absurd (cc (rw (taken, insert_revision) at (rw (e, insert_revision) at h)))
  ]
]

module _ {C : Type 0} (build : C → ℕ → ℕ → ℕ → Result String) (ch : Change C) where
  -- The tables after the mutation, and after a new revision was issued.
  abbrev pub mutated : C → Db C → Db C
  mutated content db = record db { content = content }

  abbrev pub bumped : C → ℕ → Db C → Db C
  bumped content next db =
      update_node ch.node_id (λ n. record n { desired_revision = next }) (mutated content db)

  abbrev pub issued_row : String → Revision
  issued_row sha = record {
    created_at = ch.inserted_at;
    actor = ch.actor;
    reason = ch.reason;
    doc_sha256 = sha;
  }

  abbrev pub issued : C → ℕ → String → Db C → Db C
  issued content next sha db = record (bumped content next db) {
    revisions = db.revisions ++ ((ch.node_id, next), issued_row sha) ∷ [];
    audit = db.audit ++ node_revision ch.node_id next sha ch.reason ch.actor ∷ [];
  }

  pub record Found (db : Db C) (content : C) (sha : String) : Type 0 where
    pub node : Node
    pub found : get_node ch.node_id db ≡ some node
    pub built : build content ch.now ch.node_id node.desired_revision ≡ ok sha

  pub record Unchanged (db : Db C) (r : CommitResult) (db' : Db C) : Type 0 where
    pub content : C
    pub sha : String
    pub before : Found db content sha
    pub same : sha_or_empty (latest ch.node_id db.revisions) ≡ sha
    pub result :
        r ≡ record { changed = false; revision = before.node.desired_revision; sha256 = sha }
    pub tables : db' ≡ mutated content db

  pub record Issued (db : Db C) (r : CommitResult) (db' : Db C) : Type 0 where
    pub content : C
    pub sha : String
    pub before : Found db content sha
    pub different : sha_or_empty (latest ch.node_id db.revisions) ≢ sha
    pub final : String
    pub built : build content ch.later ch.node_id (before.node.desired_revision + 1) ≡ ok final
    pub fresh :
        Maps.get revision_key (ch.node_id, before.node.desired_revision + 1) db.revisions ≡ none
    pub result :
        r ≡ record { changed = true; revision = before.node.desired_revision + 1; sha256 = final }
    pub tables : db' ≡ issued content (before.node.desired_revision + 1) final db

  pub get_node-bumped :
      (content : C) (next : ℕ) (db : Db C) (n : Node)
      → get_node ch.node_id db ≡ some n
      → get_node ch.node_id (bumped content next db) ≡ some (record n { desired_revision = next })
  get_node-bumped content next db n found = ground (
    arith,
    get_node-update_node ch.node_id ch.node_id (λ (n : Node). record n { desired_revision = next })
        (mutated content db),
  )

  snapshot-bumped :
      (content : C) (next : ℕ) (db : Db C) (n : Node)
      → get_node ch.node_id db ≡ some n
      → snapshot build ch.later ch.node_id (bumped content next db)
        ≡ (do sha ← build content ch.later ch.node_id next; ok (next, sha))
  unfolding snapshot
  snapshot-bumped content next db n found =
      rw (get_node-bumped content next db n found, snapshot) refl

  pub issue_lem :
      (content : C) (db : Db C) (n : Node) (final : String)
      → get_node ch.node_id db ≡ some n
      → build content ch.later ch.node_id (n.desired_revision + 1) ≡ ok final
      → (n.desired_revision + 1 == next_number (latest ch.node_id db.revisions)) ≡ true
      → Maps.get revision_key (ch.node_id, n.desired_revision + 1) db.revisions ≡ none
      → issue build ch n.desired_revision (mutated content db)
        ≡ ok (
          record { changed = true; revision = n.desired_revision + 1; sha256 = final },
          issued content (n.desired_revision + 1) final db,
        )
  unfolding issue insert_revision
  issue_lem content db n final found built next fresh =
      rw (snapshot-bumped content (n.desired_revision + 1) db n found, built, ◌>>=◌)
        (rw (next, insert_revision) (rw (fresh, insert_revision) refl))

  issue-ok :
      (content : C) (db : Db C) (n : Node) (r : CommitResult) (db' : Db C)
      → get_node ch.node_id db ≡ some n
      → issue build ch n.desired_revision (mutated content db) ≡ ok (r, db')
      → (final : String) × (build content ch.later ch.node_id (n.desired_revision + 1) ≡ ok final)
        × (Maps.get revision_key (ch.node_id, n.desired_revision + 1) db.revisions ≡ none)
        × (r ≡ record { changed = true; revision = n.desired_revision + 1; sha256 = final })
        × (db' ≡ issued content (n.desired_revision + 1) final db)
  unfolding issue
  issue-ok content db n r db' found h =
      elim (Result-cases (build content ch.later ch.node_id (n.desired_revision + 1))) [
        | inr (e, failed) ↦ absurd (
            cc (
              snapshot-bumped content (n.desired_revision + 1) db n found,
              rw (snapshot-bumped content (n.desired_revision + 1) db n found, failed) at h,
            ))
        | inl (final, built) ↦
            let run =
              rw (snapshot-bumped content (n.desired_revision + 1) db n found, built, ◌>>=◌) at h in
            let (tables, inserted, _) =
              >>=-eq-ok
                (insert_revision ch.node_id (n.desired_revision + 1) (issued_row final)
                  (bumped content (n.desired_revision + 1) db))
                _ run in
            let (next, fresh) = insert_revision-ok _ _ _ _ inserted in
            let done = sym (issue_lem content db n final found built next fresh) ∙ h in
            (final, built, fresh, cc done, cc done)
      ]

  -- The rest of the transaction, once the content was mutated and the node was found.
  abbrev pub decided : C → Db C → Node → String → Result (CommitResult × Db C)
  decided content db n sha =
      ite (String_discrete (sha_or_empty (latest ch.node_id db.revisions)) sha)
        (ok (
          record { changed = false; revision = n.desired_revision; sha256 = sha },
          mutated content db,
        ))
        (issue build ch n.desired_revision (mutated content db))

  pub commit_tx-decided :
      (db : Db C) (content : C) (n : Node) (sha : String)
      → ch.mutate db.content ≡ ok content
      → get_node ch.node_id db ≡ some n
      → build content ch.now ch.node_id n.desired_revision ≡ ok sha
      → commit_tx build ch db ≡ decided content db n sha
  unfolding commit_tx snapshot
  commit_tx-decided db content n sha done found built =
      rw (done, ◌>>=◌) (rw (found, snapshot) (rw (built, ◌>>=◌) refl))

  decided-ok :
      (content : C) (db : Db C) (sha : String) (f : Found db content sha) (r : CommitResult)
      (db' : Db C)
      → decided content db f.node sha ≡ ok (r, db')
      → Unchanged db r db' ⊎ Issued db r db'
  decided-ok content db sha f r db' h =
      elim (String_discrete (sha_or_empty (latest ch.node_id db.revisions)) sha) [
        | yes same ↦
            let done =
              sym (
                if_pos (String_discrete (sha_or_empty (latest ch.node_id db.revisions)) sha) same _
                  _)
              ∙ h in
            inl (record {
              content = content;
              sha = sha;
              before = f;
              same = same;
              result = cc done;
              tables = cc done;
            })
        | no different ↦
            let (final, built, fresh, result, tables) = issue-ok content db f.node r db' f.found (
              sym (
                if_neg (String_discrete (sha_or_empty (latest ch.node_id db.revisions)) sha)
                  different _ _)
              ∙ h) in
            inr (record {
              content = content;
              sha = sha;
              before = f;
              different = different;
              final = final;
              built = built;
              fresh = fresh;
              result = result;
              tables = tables;
            })
      ]

  snapshot-ok :
      (db : Db C) (content : C) {s : ℕ × String}
      → snapshot build ch.now ch.node_id (mutated content db) ≡ ok s
      → Found db content s.1
  unfolding snapshot
  snapshot-ok db content {s} h = elim (Option-cases (get_node ch.node_id db)) [
    | inl e ↦ absurd (cc (rw (e, snapshot) at h))
    | inr (n, e) ↦
        let (sha, built, done) =
          >>=-eq-ok (build content ch.now ch.node_id n.desired_revision)
            (λ t. ok (n.desired_revision, t)) (rw (e, snapshot) at h) in
        record { node = n; found = e; built = built ∙ cc done }
  ]

  steps_of :
      (db : Db C) (r : CommitResult) (db' : Db C)
      → commit_tx build ch db ≡ ok (r, db')
      → (content : C) × (ch.mutate db.content ≡ ok content)
        × (s : ℕ × String) × (snapshot build ch.now ch.node_id (mutated content db) ≡ ok s)
  unfolding commit_tx
  steps_of db r db' h =
      let (content, done, rest) = >>=-eq-ok (ch.mutate db.content) _ h in
      let (s, taken, _) =
        >>=-eq-ok (snapshot build ch.now ch.node_id (mutated content db)) _ rest in
      (content, done, s, taken)

  -- A transaction that succeeds either left the revisions alone or issued the next one.
  pub commit_tx-ok :
      (db : Db C) (r : CommitResult) (db' : Db C)
      → commit_tx build ch db ≡ ok (r, db')
      → Unchanged db r db' ⊎ Issued db r db'
  commit_tx-ok db r db' h =
      let (content, done, snap, taken) = steps_of db r db' h in
      let f = snapshot-ok db content taken in
      decided-ok content db snap.1 f r db'
        (sym (commit_tx-decided db content f.node snap.1 done f.found f.built) ∙ h)
