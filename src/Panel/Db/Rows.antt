-- ===== src/Panel/Db/Rows.antt =====
-- Reading a node's row after a row was updated.
use antimage.Common.{ℕ, ℕ_discrete, ite, ◌≡◌, arith, List, ◌∷◌, []}
use antimage.Common.Maps
use antimage.Panel.Db.{Db, Node, get_node, update_row, update_node}
use mathlib.Core.Option

get-update_row :
    (id j : ℕ) (change : Node → Node) (rows : List (ℕ × Node))
    → Maps.get ℕ_discrete j (update_row id change rows)
      ≡ ite
          (ℕ_discrete j id)
          (Option.map change (Maps.get ℕ_discrete j rows))
          (Maps.get ℕ_discrete j rows)
unfolding update_row Maps.get
get-update_row id j change [] = ground arith
get-update_row id j change (e ∷ rest) = ground (arith, get-update_row id j change rest)

pub get_node-update_node :
    {C : Type 0} (id j : ℕ) (change : Node → Node) (db : Db C)
    → get_node j (update_node id change db)
      ≡ ite (ℕ_discrete j id) (Option.map change (get_node j db)) (get_node j db)
get_node-update_node id j change db = get-update_row id j change db.nodes
