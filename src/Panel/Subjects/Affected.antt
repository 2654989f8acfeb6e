-- ===== src/Panel/Subjects/Affected.antt =====
-- The nodes that a sweep republishes.
use antimage.Common.{
  ℕ, ◌==◌, ◌≡◌, arith, true, ◌&&◌, some, List, [], ◌∷◌, contains, ℕ_discrete, Option-cases,
  Bool-cases, inl, inr,
}
use antimage.Common.Maps
use antimage.Panel.Subjects.Tables.{Service, Tables}
use antimage.Panel.Subjects.Store.{has_grant}
use antimage.Panel.Subjects.Sweeper.{add_once, add_all, node_ids_for, affected_nodes}

add_once-has : (n : ℕ) (ns : List ℕ) → contains ℕ_discrete n (add_once n ns) ≡ true
unfolding contains
add_once-has n ns = ground arith

add_once-keeps :
    (n m : ℕ) (ns : List ℕ)
    → contains ℕ_discrete n ns ≡ true
    → contains ℕ_discrete n (add_once m ns) ≡ true
unfolding contains
add_once-keeps n m ns h = ground arith

add_all-left :
    (n : ℕ) (ns into : List ℕ)
    → contains ℕ_discrete n ns ≡ true
    → contains ℕ_discrete n (add_all ns into) ≡ true
unfolding contains add_all
add_all-left n [] into h = absurd (cc h)
add_all-left n (m ∷ ns) into h = elim (ℕ_discrete n m) [
  | yes same ↦ rw same (add_once-has m (add_all ns into))
  | no other ↦ add_once-keeps n m (add_all ns into) (add_all-left n ns into (ground arith))
]

add_all-right :
    (n : ℕ) (ns into : List ℕ)
    → contains ℕ_discrete n into ≡ true
    → contains ℕ_discrete n (add_all ns into) ≡ true
unfolding add_all
add_all-right n [] into h = h
add_all-right n (m ∷ ns) into h = add_once-keeps n m (add_all ns into) (add_all-right n ns into h)

node_ids_for-has :
    (id service : ℕ) (sv : Service) (services : List (ℕ × Service)) (grants : List (ℕ × ℕ))
    → Maps.get ℕ_discrete service services ≡ some sv
    → has_grant id service grants ≡ true
    → contains ℕ_discrete sv.node_id (node_ids_for id services grants) ≡ true
unfolding node_ids_for has_grant
node_ids_for-has id service sv services [] found h = absurd (cc h)
node_ids_for-has id service sv services (g ∷ grants) found h =
    let others = node_ids_for id services grants in
    elim (Bool-cases ((g.0 == id) && (g.1 == service))) [
      | inl e ↦
          let here : node_ids_for id services (g ∷ grants) ≡ add_once sv.node_id others =
            ground (arith, found) in
          rw here (add_once-has sv.node_id others)
      | inr e ↦
          let more = node_ids_for-has id service sv services grants found (ground arith) in
          elim (Bool-cases (g.0 == id)) [
            | inr f ↦ rw (f, node_ids_for) more
            | inl f ↦ elim (Option-cases (Maps.get ℕ_discrete g.1 services)) [
              | inl none_there ↦ rw (f, node_ids_for) (rw (none_there, node_ids_for) more)
              | inr (s, there) ↦
                  rw (f, node_ids_for)
                    (rw (there, node_ids_for) (add_once-keeps sv.node_id s.node_id others more))
            ]
          ]
    ]

pub affected_nodes-has :
    (id service : ℕ) (sv : Service) (ids : List ℕ) (db : Tables)
    → Maps.get ℕ_discrete service db.services ≡ some sv
    → has_grant id service db.grants ≡ true
    → contains ℕ_discrete id ids ≡ true
    → contains ℕ_discrete sv.node_id (affected_nodes ids db) ≡ true
unfolding affected_nodes contains
affected_nodes-has id service sv [] db found h c = absurd (cc c)
affected_nodes-has id service sv (i ∷ ids) db found h c =
    let some_nodes = node_ids_for i db.services db.grants in
    elim (ℕ_discrete id i) [
      | yes same ↦
          add_all-left sv.node_id some_nodes (affected_nodes ids db)
            (node_ids_for-has i service sv db.services db.grants found (rw same at h))
      | no other ↦
          add_all-right sv.node_id some_nodes (affected_nodes ids db)
            (affected_nodes-has id service sv ids db found h (ground arith))
    ]
