-- ===== src/Panel/Commit.antt =====
-- internal/panel/nodes/commit.go: CommitNodeChange, the one path that changes a desired document.
-- `build` stands for the part of BuildDesiredSnapshot that reads the other tables, the clock and
-- the key material, and returns the SHA-256 of the canonical document with the given revision.
pub mod Latest
pub mod Effects
use antimage.Common.{
  ◌==◌, ℕ, ◌+◌, String, String_discrete, ℕ_discrete, Bool, true, false, Option, none, some, List,
  [], ◌∷◌, ◌++◌, ite, ltb, if◌then◌else◌,
}
use antimage.Common.Maps
use antimage.Panel.Db.{
  Db, Revision, node_revision, no_such_node, duplicate_revision, revision_gap, Result, ok, err,
  ◌>>=◌, write, revision_key, get_node, update_node,
}

-- CommitResult
pub record CommitResult : Type 0 where
  pub changed : Bool
  pub revision : ℕ
  pub sha256 : String

-- What the caller passes in, and the readings of the clock at the two snapshots and at the insert.
pub record Change (C : Type 0) : Type 0 where
  pub node_id : ℕ
  pub actor : String
  pub reason : String
  pub mutate : C → Result C
  pub now : ℕ
  pub later : ℕ
  pub inserted_at : ℕ

newer : ℕ → Revision → Option (ℕ × Revision) → Option (ℕ × Revision)
newer r row none = some (r, row)
newer r row (some (r', row')) = if ltb r r' then some (r', row') else some (r, row)

-- SELECT doc_sha256 FROM node_revisions WHERE node_id = ? ORDER BY revision DESC LIMIT 1
unfoldable pub latest : ℕ → List ((ℕ × ℕ) × Revision) → Option (ℕ × Revision)
unfolding newer ℕ_discrete
latest id [] = none
latest id (e ∷ rest) =
    let best = latest id rest in ite (ℕ_discrete e.0.0 id) (newer e.0.1 e.1 best) best

-- `var previous string`, and the scan that may leave it empty.
abbrev pub sha_or_empty : Option (ℕ × Revision) → String
sha_or_empty none = ""
sha_or_empty (some (r, row)) = row.doc_sha256

-- 1 + COALESCE((SELECT MAX(revision) FROM node_revisions WHERE node_id = NEW.node_id), 0)
abbrev pub next_number : Option (ℕ × Revision) → ℕ
next_number none = 1
next_number (some (r, row)) = r + 1

-- INSERT INTO node_revisions: the trigger node_revisions_monotonic, then the primary key.
unfoldable pub insert_revision : {C : Type 0} → ℕ → ℕ → Revision → Db C → Result (Db C)
insert_revision id r row db = elim (r == next_number (latest id db.revisions)) [
  | false ↦ err (revision_gap r)
  | true ↦ elim (Maps.get revision_key (id, r) db.revisions) [
    | some old ↦ err (duplicate_revision r)
    | none ↦ ok (record db { revisions = db.revisions ++ ((id, r), row) ∷ [] })
  ]
]

module _ {C : Type 0} (build : C → ℕ → ℕ → ℕ → Result String) where
  -- BuildDesiredSnapshot: the node's revision, and the hash of its document.
  unfoldable pub snapshot : ℕ → ℕ → Db C → Result (ℕ × String)
  snapshot now id db = elim (get_node id db) [
    | none ↦ err no_such_node
    | some node ↦ do
      sha ← build db.content now id node.desired_revision
      ok (node.desired_revision, sha)
  ]

  -- The rest of the transaction, once the hash differs from the last one.
  unfoldable pub issue : Change C → ℕ → Db C → Result (CommitResult × Db C)
  issue ch revision db = do
    let next = revision + 1
    let bumped = update_node ch.node_id (λ n. record n { desired_revision = next }) db
    final ← snapshot ch.later ch.node_id bumped
    let row : Revision = record {
      created_at = ch.inserted_at;
      actor = ch.actor;
      reason = ch.reason;
      doc_sha256 = final.1;
    }
    inserted ← insert_revision ch.node_id next row bumped
    ok (
      record { changed = true; revision = next; sha256 = final.1 },
      record inserted {
        audit = inserted.audit ++ node_revision ch.node_id next final.1 ch.reason ch.actor ∷ [];
      },
    )

  -- The function that CommitNodeChange runs inside Store.Write.
  unfoldable pub commit_tx : Change C → Db C → Result (CommitResult × Db C)
  commit_tx ch db = do
    content ← ch.mutate db.content
    let mutated = record db { content = content }
    snap ← snapshot ch.now ch.node_id mutated
    ite (String_discrete (sha_or_empty (latest ch.node_id mutated.revisions)) snap.1)
        (ok (record { changed = false; revision = snap.0; sha256 = snap.1 }, mutated))
        (issue ch snap.0 mutated)

  -- CommitNodeChange
  unfoldable pub commit_node_change : Change C → Db C → Result CommitResult × Db C
  commit_node_change ch db = write (commit_tx ch) db
