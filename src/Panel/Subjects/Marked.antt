-- ===== src/Panel/Subjects/Marked.antt =====
-- Changes of single rows, one after the other, as one pass over the table.
use antimage.Common.{ℕ, ◌≡◌, refl, arith, List, [], ◌∷◌, contains, ℕ_discrete, if◌then◌else◌}
use antimage.Common.Maps
use antimage.Panel.Subjects.Tables.{Subject}
use mathlib.Core.Option

abbrev pub IsIdempotent : (Subject → Subject) → Type 0
IsIdempotent change = (s : Subject) → change (change s) ≡ change s

unfoldable pub marked : (Subject → Subject) → List ℕ → List (ℕ × Subject) → List (ℕ × Subject)
marked change ids [] = []
marked change ids (e ∷ rows) =
    (e.0, (if contains ℕ_discrete e.0 ids then change e.1 else e.1)) ∷ marked change ids rows

pub marked-nil :
    (change : Subject → Subject) (rows : List (ℕ × Subject)) → marked change [] rows ≡ rows
unfolding marked contains
marked-nil change [] = refl
marked-nil change (e ∷ rows) = rw (marked-nil change rows) refl

pub marked-modify :
    (change : Subject → Subject) (id : ℕ) (ids : List ℕ) (rows : List (ℕ × Subject))
    → IsIdempotent change
    → marked change ids (Maps.modify ℕ_discrete id change rows) ≡ marked change (id ∷ ids) rows
unfolding marked contains Maps.modify
marked-modify change id ids [] idem = refl
marked-modify change id ids (e ∷ rows) idem =
    ground (arith, marked-modify change id ids rows idem, idem e.1)

pub get-marked :
    (change : Subject → Subject) (j : ℕ) (ids : List ℕ) (rows : List (ℕ × Subject))
    → Maps.get ℕ_discrete j (marked change ids rows)
      ≡ Option.map
          (λ s. if contains ℕ_discrete j ids then change s else s)
          (Maps.get ℕ_discrete j rows)
unfolding Maps.get marked
get-marked change j ids [] = ground arith
get-marked change j ids (e ∷ rows) = ground (arith, get-marked change j ids rows)
