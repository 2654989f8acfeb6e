-- ===== src/Panel/Commit/Latest.antt =====
-- The query for a node's last revision, against single rows.
use antimage.Common.{ℕ, ◌≤◌, none, some, List, [], ◌∷◌, ◌≡◌, refl, arith, Option-cases, inl, inr}
use antimage.Common.Maps
use antimage.Panel.Db.{Revision, revision_key}
use antimage.Panel.Commit.{latest}

pub get-latest :
    (id : ℕ) (m : List ((ℕ × ℕ) × Revision)) (r : ℕ) (row : Revision)
    → latest id m ≡ some (r, row)
    → Maps.get revision_key (id, r) m ≡ some row
unfolding latest Maps.get
get-latest id [] r row h = cc
get-latest id (e ∷ m) r row h = ground (arith, get-latest id m r row)

pub get-latest-none :
    (id : ℕ) (m : List ((ℕ × ℕ) × Revision)) (r : ℕ)
    → latest id m ≡ none
    → Maps.get revision_key (id, r) m ≡ none
unfolding latest Maps.get
get-latest-none id [] r h = refl
get-latest-none id (e ∷ m) r h = ground (arith, get-latest-none id m r)

pub latest-le :
    (id : ℕ) (m : List ((ℕ × ℕ) × Revision)) (r r' : ℕ) (row row' : Revision)
    → Maps.get revision_key (id, r) m ≡ some row
    → latest id m ≡ some (r', row')
    → r ≤ r'
unfolding latest Maps.get
latest-le id [] r r' row row' h k = cc
latest-le id (e ∷ m) r r' row row' h k = elim (Option-cases (latest id m)) [
  | inl none_left ↦ ground (arith, get-latest-none id m r none_left)
  | inr ((q, best), found) ↦ ground (arith, latest-le id m r q row best)
]
