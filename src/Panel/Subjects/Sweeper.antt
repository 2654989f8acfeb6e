-- ===== src/Panel/Subjects/Sweeper.antt =====
-- internal/panel/subjects/sweeper.go. `commit` is nodes.CommitNodeChange on the other tables `W`,
-- with the revision if it has changed; `notify` wakes an agent.
use antimage.Common.{
  ℕ, ◌==◌, Bool, false, ◌&&◌, Option, none, some, List, [], ◌∷◌, length, contains, ℕ_discrete,
  if◌then◌else◌,
}
use antimage.Common.Maps
use antimage.Common.Outcome.{Outcome, ok, err}
use antimage.Panel.Subjects.Tables.{Subject, Service, Tables, change_row, is_expired}

abbrev pub is_due : ℕ → Subject → Bool
is_due now s = s.enabled && is_expired now s

-- dueSubjects
unfoldable pub due_subjects : ℕ → List (ℕ × Subject) → List ℕ
due_subjects now [] = []
due_subjects now (e ∷ rest) =
    let others = due_subjects now rest in if is_due now e.1 then e.0 ∷ others else others

abbrev pub add_once : ℕ → List ℕ → List ℕ
add_once n ns = if contains ℕ_discrete n ns then ns else n ∷ ns

-- NodeIDsForRead and NodeIDsFor: the nodes of the services that the subject is granted, each once.
unfoldable pub node_ids_for : ℕ → List (ℕ × Service) → List (ℕ × ℕ) → List ℕ
node_ids_for id services [] = []
node_ids_for id services (g ∷ rest) =
    let others = node_ids_for id services rest in
    if g.0 == id
    then (elim (Maps.get ℕ_discrete g.1 services) [
      | none ↦ others
      | some s ↦ add_once s.node_id others
    ])
    else others

-- The set `affected`.
unfoldable pub add_all : List ℕ → List ℕ → List ℕ
add_all [] into = into
add_all (n ∷ ns) into = add_once n (add_all ns into)

unfoldable pub affected_nodes : List ℕ → Tables → List ℕ
affected_nodes [] db = []
affected_nodes (id ∷ rest) db =
    add_all (node_ids_for id db.services db.grants) (affected_nodes rest db)

-- The transaction, which also writes an audit row for each subject.
abbrev pub retire : ℕ → Subject → Subject
retire now s = record s { enabled = false; expired_at = some now }

unfoldable pub retire_all : ℕ → List ℕ → Tables → Tables
retire_all now [] db = db
retire_all now (id ∷ rest) db = retire_all now rest (change_row id (retire now) db)

module _ {W E : Type 0} (commit : ℕ → Tables → W → Outcome E (Option ℕ) × W)
    (notify : ℕ → ℕ → W → W) where
  abbrev pub noted : Outcome E (Option ℕ) → ℕ → W → W
  noted (err e) node w = w
  noted (ok none) node w = w
  noted (ok (some revision)) node w = notify node revision w

  -- The nodes of `affected`, in any order; one that fails is logged and passed over.
  unfoldable pub republish : List ℕ → Tables → W → W
  republish [] db w = w
  republish (node ∷ rest) db w =
      let (result, w₁) = commit node db w in republish rest db (noted result node w₁)

  -- Sweep
  unfoldable pub sweep : ℕ → Tables → W → ℕ × Tables × W
  sweep now db w =
      let due = due_subjects now db.subjects in
      let after = retire_all now due db in
      (length due, after, republish (affected_nodes due db) after w)
