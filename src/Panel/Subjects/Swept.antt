-- ===== src/Panel/Subjects/Swept.antt =====
-- What an expiry sweep leaves behind.
use antimage.Common.{
  ℕ, ◌≡◌, refl, sym, ◌∙◌, arith, true, false, Option, none, some, List, [], ◌∷◌, length, contains,
  ℕ_discrete, if◌then◌else◌, All, Option-cases, Bool-cases, inl, inr, subst, ◌⊎◌, ◌&&◌, leb,
}
use antimage.Common.Maps
use antimage.Common.Outcome.{Outcome, ok, err}
use antimage.Panel.Subjects.Tables.{Subject, Service, Tables, change_row, get_row}
use antimage.Panel.Subjects.Store.{has_grant}
use antimage.Panel.Subjects.Sweeper.{
  is_due, due_subjects, affected_nodes, retire, retire_all, noted, republish, sweep,
}
use antimage.Panel.Subjects.Marked.{marked, marked-nil, marked-modify, get-marked}
use mathlib.Core.Option
use antimage.Panel.Subjects.Affected.{affected_nodes-has}

-- The row of a subject that the sweep at `now` is to leave.
abbrev pub swept : ℕ → Subject → Subject
swept now s = elim s.expires_at [
  | none ↦ s
  | some expiry ↦
      if s.enabled && leb expiry now then record s { enabled = false; expired_at = some now } else s
]

swept-retire : (now : ℕ) (s : Subject) → swept now s ≡ (if is_due now s then retire now s else s)
swept-retire now s = elim (Option-cases s.expires_at) [
  | inl e ↦ rw e (elim (Bool-cases s.enabled) [ inl f ↦ rw f refl | inr f ↦ rw f refl ])
  | inr (expiry, e) ↦ rw e refl
]

retire_all-marked :
    (now : ℕ) (ids : List ℕ) (db : Tables)
    → (retire_all now ids db).subjects ≡ marked (retire now) ids db.subjects
unfolding retire_all
retire_all-marked now [] db = sym (marked-nil (retire now) db.subjects)
retire_all-marked now (id ∷ ids) db =
    retire_all-marked now ids (change_row id (retire now) db)
    ∙ marked-modify (retire now) id ids db.subjects (λ s. refl)

-- The rows that are due have their ids in the list.
abbrev Covers : ℕ → List ℕ → List (ℕ × Subject) → Type 0
Covers now ids = All (λ e. is_due now e.1 ≡ true → contains ℕ_discrete e.0 ids ≡ true)

Covers-more :
    (now id : ℕ) (ids : List ℕ) (rows : List (ℕ × Subject))
    → Covers now ids rows
    → Covers now (id ∷ ids) rows
unfolding contains
Covers-more now id ids [] c = tt
Covers-more now id ids (e ∷ rows) c = (λ h. ground (arith, c.0 h), Covers-more now id ids rows c.1)

contains_self : (n : ℕ) (ns : List ℕ) → contains ℕ_discrete n (n ∷ ns) ≡ true
unfolding contains
contains_self n ns = ground arith

due_subjects-Covers :
    (now : ℕ) (rows : List (ℕ × Subject)) → Covers now (due_subjects now rows) rows
unfolding due_subjects contains
due_subjects-Covers now [] = tt
due_subjects-Covers now (e ∷ rows) =
    let c = due_subjects-Covers now rows in
    elim (Bool-cases (is_due now e.1)) [
      | inl h ↦
          let d : due_subjects now (e ∷ rows) ≡ e.0 ∷ due_subjects now rows =
            rw (h, due_subjects) refl in
          subst (λ ids. Covers now ids (e ∷ rows)) (sym d)
            (
              λ x. contains_self e.0 (due_subjects now rows),
              Covers-more now e.0 (due_subjects now rows) rows c,
            )
      | inr h ↦
          let d : due_subjects now (e ∷ rows) ≡ due_subjects now rows = rw (h, due_subjects) refl in
          subst (λ ids. Covers now ids (e ∷ rows)) (sym d) (λ x. absurd (cc (h, x)), c)
    ]

due-marked :
    (now : ℕ) (ids : List ℕ) (rows : List (ℕ × Subject))
    → Covers now ids rows
    → due_subjects now (marked (retire now) ids rows) ≡ []
unfolding due_subjects marked
due-marked now ids [] c = refl
due-marked now ids (e ∷ rows) c = ground (arith, c.0, due-marked now ids rows c.1)

-- Only ids of due rows are found.
due-none :
    (now id : ℕ) (rows : List (ℕ × Subject))
    → Maps.get ℕ_discrete id rows ≡ none
    → contains ℕ_discrete id (due_subjects now rows) ≡ false
unfolding due_subjects contains Maps.get
due-none now id [] h = refl
due-none now id (e ∷ rows) h = ground (arith, due-none now id rows)

-- Rows with distinct ids.
abbrev pub IsKeyed : List (ℕ × Subject) → Type 0
IsKeyed [] = Unit
IsKeyed (e ∷ rows) = (Maps.get ℕ_discrete e.0 rows ≡ none) × IsKeyed rows

due-row :
    (now j : ℕ) (rows : List (ℕ × Subject)) (s : Subject)
    → IsKeyed rows
    → Maps.get ℕ_discrete j rows ≡ some s
    → contains ℕ_discrete j (due_subjects now rows) ≡ is_due now s
unfolding due_subjects contains Maps.get
due-row now j [] s keys h = absurd (cc h)
due-row now j (e ∷ rows) s keys h = elim (ℕ_discrete j e.0) [
  | yes same ↦ let row : e.1 ≡ s = ground arith in ground (arith, due-none now e.0 rows keys.0)
  | no other ↦ ground (arith, due-row now j rows s keys.1)
]

sweep_row :
    (now j : ℕ) (db : Tables)
    → IsKeyed db.subjects
    → get_row j (retire_all now (due_subjects now db.subjects) db)
      ≡ Option.map (swept now) (get_row j db)
sweep_row now j db keys =
    let ids = due_subjects now db.subjects in
    let read = get-marked (retire now) j ids db.subjects in
    rw (retire_all-marked now ids db) (elim (Option-cases (get_row j db)) [
      | inl e ↦ rw read (rw e refl)
      | inr (s, e) ↦
          rw read (rw e (rw (due-row now j db.subjects s keys e, swept-retire now s) refl))
    ])

module _ {W E : Type 0} (commit : ℕ → Tables → W → Outcome E (Option ℕ) × W)
    (notify : ℕ → ℕ → W → W) where
  -- After a sweep no subject is due any more. The subjects that were due, enabled and past their
  -- expiry, are disabled and stamped with the time of the sweep, and are as many as it returns;
  -- every other row is as before. The rows of the table have distinct ids.
  pub sweep-due :
      (now : ℕ) (db : Tables) (w : W)
      → IsKeyed db.subjects
      → (due_subjects now (sweep commit notify now db w).1.subjects ≡ [])
        × ((j : ℕ)
            → get_row j (sweep commit notify now db w).1 ≡ Option.map (swept now) (get_row j db))
        × ((sweep commit notify now db w).0 ≡ length (due_subjects now db.subjects))
  unfolding sweep
  sweep-due now db w keys =
      let ids = due_subjects now db.subjects in
      (
        rw (retire_all-marked now ids db)
            (due-marked now ids db.subjects (due_subjects-Covers now db.subjects)),
        λ j. sweep_row now j db keys,
        refl,
      )

  noted-keeps :
      (P : ℕ → W → Type 0) (result : Outcome E (Option ℕ)) (node n : ℕ) (w : W)
      → ((n m revision : ℕ) (v : W) → P n v → P n (notify m revision v))
      → P node w
      → P node (noted commit notify result n w)
  noted-keeps P (err e) node n w stays p = p
  noted-keeps P (ok none) node n w stays p = p
  noted-keeps P (ok (some revision)) node n w stays p = stays node n revision w p

  -- What each commit brings about, and neither other commits nor notifications undo.
  republish-all :
      (P : ℕ → W → Type 0) (nodes : List ℕ) (db : Tables) (w : W) (node : ℕ)
      → ((n : ℕ) (v : W) → P n (commit n db v).1)
      → ((n m : ℕ) (v : W) → P n v → P n (commit m db v).1)
      → ((n m revision : ℕ) (v : W) → P n v → P n (notify m revision v))
      → (P node w) ⊎ (contains ℕ_discrete node nodes ≡ true)
      → P node (republish commit notify nodes db w)
  unfolding republish contains
  republish-all P [] db w node does keeps stays (inl p) = p
  republish-all P [] db w node does keeps stays (inr h) = absurd (cc h)
  republish-all P (n ∷ nodes) db w node does keeps stays h =
      republish-all P nodes db (noted commit notify (commit n db w).0 n (commit n db w).1) node does
        keeps stays
        (elim h [
          | inl p ↦
              inl
                (noted-keeps P (commit n db w).0 node n (commit n db w).1 stays (keeps node n w p))
          | inr c ↦ elim (ℕ_discrete node n) [
            | yes same ↦ inl (
                noted-keeps P (commit n db w).0 node n (commit n db w).1 stays (rw same (does n w)))
            | no other ↦ inr (ground arith)
          ]
        ])

  -- A sweep republishes every node that serves a due subject: whatever a commit of a node brings
  -- about there, and no other commit or notification undoes, holds after the sweep for each node
  -- with a service that the subject is granted.
  pub sweep-republishes :
      (P : ℕ → W → Type 0) (now : ℕ) (db : Tables) (w : W) (id service : ℕ) (s : Subject)
      (sv : Service)
      → ((n : ℕ) (t : Tables) (v : W) → P n (commit n t v).1)
      → ((n m : ℕ) (t : Tables) (v : W) → P n v → P n (commit m t v).1)
      → ((n m revision : ℕ) (v : W) → P n v → P n (notify m revision v))
      → IsKeyed db.subjects
      → get_row id db ≡ some s
      → is_due now s ≡ true
      → Maps.get ℕ_discrete service db.services ≡ some sv
      → has_grant id service db.grants ≡ true
      → P sv.node_id (sweep commit notify now db w).2
  unfolding sweep
  sweep-republishes P now db w id service s sv does keeps stays keys row due found granted =
      let ids = due_subjects now db.subjects in
      let after = retire_all now ids db in
      republish-all P (affected_nodes ids db) after w sv.node_id (λ n v. does n after v)
        (λ n m v. keeps n m after v) stays
        (inr (
          affected_nodes-has id service sv ids db found granted
            (due-row now id db.subjects s keys row ∙ due)))
