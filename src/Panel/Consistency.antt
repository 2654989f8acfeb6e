-- ===== src/Panel/Consistency.antt =====
-- The invariant of the panel's tables: which revisions a node has, and how far it has applied them.
pub mod Preserved
pub mod Published
use antimage.Common.{
  ℕ, suc, ◌+◌, ◌≤◌, ◌<◌, ℕ_discrete, Option, none, some, List, [], ◌∷◌, ◌++◌, ite, ◌≡◌, ◌≢◌, refl,
  sym, ap, ◌∙◌, arith, inl, inr,
}
use antimage.Common.Int.{ℤ, pos, ◌≤ℤ◌}
use antimage.Common.Maps
use antimage.Panel.Db.{Db, Node, Revision, Result, revision_key, get_node}

-- A node has applied no revision above the desired one, and its stored revisions are numbered 1 to
-- the desired one, without a gap.
pub record IsConsistent {C : Type 0} (db : Db C) : Type 0 where
  pub bounded :
      (id : ℕ) (n : Node) → get_node id db ≡ some n → n.applied_revision ≤ℤ pos n.desired_revision
  pub has_row :
      (id r : ℕ) (n : Node)
      → get_node id db ≡ some n
      → 0 < r
      → r ≤ n.desired_revision
      → (row : Revision) × (Maps.get revision_key (id, r) db.revisions ≡ some row)
  pub row_bounds :
      (id r : ℕ) (n : Node) (row : Revision)
      → get_node id db ≡ some n
      → Maps.get revision_key (id, r) db.revisions ≡ some row
      → (0 < r) × (r ≤ n.desired_revision)

-- A step that keeps the revisions and each node's desired one.
pub record Keeps {C : Type 0} (db db' : Db C) : Type 0 where
  pub revisions : db'.revisions ≡ db.revisions
  pub rows :
      (id : ℕ) (n' : Node)
      → get_node id db' ≡ some n'
      → (n : Node) × (get_node id db ≡ some n)
        × (n'.desired_revision ≡ n.desired_revision)
        × (n'.applied_revision ≤ℤ pos n'.desired_revision)

pub Keeps-IsConsistent :
    {C : Type 0} {db db' : Db C} → Keeps db db' → IsConsistent db → IsConsistent db'
Keeps-IsConsistent k v = record {
  bounded = λ id n' found. (k.rows id n' found).3;
  has_row = λ id r n' found pos_r below.
      let (n, old, desired, _) = k.rows id n' found in
      let (row, stored) = v.has_row id r n old pos_r (omega arith) in (row, rw k.revisions stored);
  row_bounds = λ id r n' row found stored.
      let (n, old, desired, _) = k.rows id n' found in
      let bounds = v.row_bounds id r n row old (rw k.revisions at stored) in
      (bounds.0, omega arith);
}
