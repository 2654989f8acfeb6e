-- ===== src/Panel/Quota/Enforced.antt =====
-- What the quota sweeps leave behind.
use antimage.Common.{
  ℕ, ◌≡◌, refl, sym, ◌∙◌, ap, arith, true, false, Option, none, some, List, [], ◌∷◌, ◌++◌, contains,
  ℕ_discrete, if◌then◌else◌, All, Option-cases, Bool-cases, inl, inr, subst, Bool, ◌&&◌,
}
use antimage.Common.Int.{ℤ, pos, ltb_ℤ}
use antimage.Common.Maps
use antimage.Common.Outcome.{ok, ◌>>=◌, bind-eq-ok, ok-injective, Outcome-cases}
use antimage.Panel.Subjects.Tables.{Subject, Tables, get_row}
use antimage.Panel.Subjects.Swept.{IsKeyed}
use antimage.Panel.Subjects.Marked.{IsIdempotent, marked, marked-nil, marked-modify, get-marked}
use antimage.Panel.Usage.Tables.{Usage}
use antimage.Panel.Quota.Over.{
  Raw, Group, OverQuota, eligible_quota, raw_rows, sum_groups, group_rows, subject_rows,
  find_subjects_over_quota, fresh_current, node_coef, service_coef,
}
use antimage.Panel.Quota.Judged.{
  bill, verdict, judge, judge_all, subject_blocks, find_subjects_over_quota-judge, subject_rows-of,
}
use antimage.Panel.Quota.Sweeps.{frozen_for_quota, freeze_subject, freeze_each, run_enforcement}
use mathlib.Core.Option

frozen-IsIdempotent : (now : ℕ) → IsIdempotent (frozen_for_quota now)
frozen-IsIdempotent now s = elim (Bool-cases s.enabled) [ inl e ↦ rw e refl | inr e ↦ rw e refl ]

unfoldable pub ids_of : List OverQuota → List ℕ
ids_of [] = []
ids_of (o ∷ rest) = o.subject_id ∷ ids_of rest

abbrev with_rows : Tables → List (ℕ × Subject) → Tables
with_rows db rows = record db { subjects = rows }

-- A frozen subject is not eligible, so it has no rows in the query.
frozen-not_eligible : (now : ℕ) (s : Subject) → eligible_quota (frozen_for_quota now s) ≡ none
frozen-not_eligible now s = elim (Bool-cases s.enabled) [ inl e ↦ rw e refl | inr e ↦ rw e refl ]

node_coef-same :
    (node : Option ℕ) (db : Tables) (rows : List (ℕ × Subject))
    → node_coef node (with_rows db rows) ≡ node_coef node db
node_coef-same none db rows = refl
node_coef-same (some n) db rows = refl

service_coef-same :
    (service : Option ℕ) (db : Tables) (rows : List (ℕ × Subject))
    → service_coef service (with_rows db rows) ≡ service_coef service db
service_coef-same none db rows = refl
service_coef-same (some n) db rows = refl

group_rows-same :
    (id : ℕ) (quota : ℤ) (s : Subject) (db : Tables) (rows : List (ℕ × Subject)) (raws : List Raw)
    → group_rows id quota s (with_rows db rows) raws ≡ group_rows id quota s db raws
unfolding group_rows
group_rows-same id quota s db rows [] = refl
group_rows-same id quota s db rows (r ∷ raws) = cc (
  node_coef-same r.node_id db rows,
  service_coef-same r.service_id db rows,
  group_rows-same id quota s db rows raws,
)

subject_rows-same :
    (id : ℕ) (s : Subject) (db : Tables) (rows : List (ℕ × Subject)) (usage : Usage) (now : ℕ)
    → subject_rows id s (with_rows db rows) usage now ≡ subject_rows id s db usage now
unfolding subject_rows
subject_rows-same id s db rows usage now = elim (Option-cases (eligible_quota s)) [
  | inl e ↦ rw (e, subject_rows) refl
  | inr (quota, e) ↦
      rw (e, subject_rows)
        (elim (Outcome-cases (sum_groups (raw_rows id s now usage) [])) [
          | inr (x, f) ↦ rw f refl
          | inl (sums, f) ↦ rw f (ap ok (group_rows-same id quota s db rows sums))
        ])
]

verdict-of : (id : ℕ) (o : OverQuota) → o.subject_id ≡ id → All (λ x. x.subject_id ≡ id) (verdict o)
verdict-of id o same = elim (Bool-cases (ltb_ℤ o.billable o.quota)) [
  | inl e ↦ rw e tt
  | inr e ↦ rw e (same, tt)
]

judge-of :
    (id : ℕ) (rows : List Group) (o : List OverQuota)
    → All (λ r. r.subject_id ≡ id) rows
    → judge rows ≡ ok o
    → All (λ x. x.subject_id ≡ id) o
unfolding judge
judge-of id [] o all h = subst (λ t. All (λ x. x.subject_id ≡ id) t) (ok-injective h) tt
judge-of id (g ∷ rows) o all h =
    let (amount, billed, done) = bind-eq-ok (bill (g ∷ rows) (pos 0)) _ h in
    subst (λ t. All (λ x. x.subject_id ≡ id) t) (ok-injective done)
      (verdict-of id (record (fresh_current g) { billable = amount }) all.0)

All-parts : {A : Type 0} (P : A → Type 0) (xs ys : List A) → All P (xs ++ ys) → All P xs × All P ys
All-parts P [] ys all = (tt, all)
All-parts P (x ∷ xs) ys all = let (left, right) = All-parts P xs ys all.1 in ((all.0, left), right)

abbrev IsListed : List ℕ → List OverQuota → Type 0
IsListed ids = All (λ o. contains ℕ_discrete o.subject_id ids ≡ true)

unlisted :
    (id : ℕ) (ids : List ℕ) (o : List OverQuota)
    → contains ℕ_discrete id ids ≡ false
    → All (λ x. x.subject_id ≡ id) o
    → IsListed ids o
    → o ≡ []
unlisted id ids [] free all listed = refl
unlisted id ids (x ∷ o) free all listed = absurd (cc (rw all.0 at listed.0, free))

not_eligible-rows :
    (id : ℕ) (s : Subject) (db : Tables) (usage : Usage) (now : ℕ)
    → eligible_quota s ≡ none
    → subject_rows id s db usage now ≡ ok []
unfolding subject_rows
not_eligible-rows id s db usage now h = rw (h, subject_rows) refl

resolved_cons :
    (id : ℕ) (s : Subject) (rest : List (ℕ × Subject)) (db : Tables) (usage : Usage) (now : ℕ)
    (rows : List Group)
    → subject_rows id s db usage now ≡ ok rows
    → judge rows ≡ ok []
    → (subject_blocks rest db usage now >>= judge_all) ≡ ok []
    → (subject_blocks ((id, s) ∷ rest) db usage now >>= judge_all) ≡ ok []
unfolding subject_blocks judge_all
resolved_cons id s rest db usage now rows first judged h =
    let (bs, others, done) = bind-eq-ok (subject_blocks rest db usage now) judge_all h in
    rw first (rw others (rw judged (rw done refl)))

-- Once the subjects of the list are frozen, no subject is over quota, if all were in the list.
resolved :
    (now : ℕ) (ids : List ℕ) (rows : List (ℕ × Subject)) (db : Tables) (usage : Usage)
    (bs : List (List Group)) (out : List OverQuota)
    → subject_blocks rows db usage now ≡ ok bs
    → judge_all bs ≡ ok out
    → IsListed ids out
    → (subject_blocks (marked (frozen_for_quota now) ids rows) db usage now >>= judge_all) ≡ ok []
unfolding subject_blocks judge_all judge marked
resolved now ids [] db usage bs out h j listed = refl
resolved now ids (e ∷ rest) db usage bs out h j listed =
    let (rows, first, h₁) = bind-eq-ok (subject_rows e.0 e.1 db usage now) _ h in
    let (more, others, h₂) = bind-eq-ok (subject_blocks rest db usage now) _ h₁ in
    let (o, judged, j₁) = bind-eq-ok (judge rows) _ (rw (sym (ok-injective h₂)) at j) in
    let (os, rest_judged, j₂) = bind-eq-ok (judge_all more) _ j₁ in
    let (l, ls) =
      All-parts (λ x. contains ℕ_discrete x.subject_id ids ≡ true) o os
        (subst (IsListed ids) (sym (ok-injective j₂)) listed) in
    let ih = resolved now ids rest db usage more os others rest_judged ls in
    elim (Bool-cases (contains ℕ_discrete e.0 ids)) [
      | inl c ↦ rw c (
          resolved_cons e.0 (frozen_for_quota now e.1) (marked (frozen_for_quota now) ids rest) db
            usage now []
            (not_eligible-rows e.0 (frozen_for_quota now e.1) db usage now
              (frozen-not_eligible now e.1))
            refl ih)
      | inr c ↦ rw c (
          resolved_cons e.0 e.1 (marked (frozen_for_quota now) ids rest) db usage now rows first
            (judged
              ∙ ap ok (
                  unlisted e.0 ids o c
                    (judge-of e.0 rows o (subject_rows-of e.0 e.1 db usage now rows first) judged)
                    l))
            ih)
    ]

subject_blocks-same :
    (rows : List (ℕ × Subject)) (db : Tables) (new : List (ℕ × Subject)) (usage : Usage) (now : ℕ)
    → subject_blocks rows (with_rows db new) usage now ≡ subject_blocks rows db usage now
unfolding subject_blocks
subject_blocks-same [] db new usage now = refl
subject_blocks-same (e ∷ rest) db new usage now =
    rw (subject_rows-same e.0 e.1 db new usage now)
      (rw (subject_blocks-same rest db new usage now) refl)

IsListed-more :
    (id : ℕ) (ids : List ℕ) (o : List OverQuota) → IsListed ids o → IsListed (id ∷ ids) o
unfolding contains
IsListed-more id ids [] l = tt
IsListed-more id ids (x ∷ o) l = (ground (arith, l.0), IsListed-more id ids o l.1)

listed : (o : List OverQuota) → IsListed (ids_of o) o
unfolding contains ids_of
listed [] = tt
listed (x ∷ o) = (ground arith, IsListed-more x.subject_id (ids_of o) o (listed o))

get-marked-none :
    (now j : ℕ) (ids : List ℕ) (rows : List (ℕ × Subject))
    → Maps.get ℕ_discrete j rows ≡ none
    → Maps.get ℕ_discrete j (marked (frozen_for_quota now) ids rows) ≡ none
get-marked-none now j ids rows h = rw (get-marked (frozen_for_quota now) j ids rows) (rw h refl)

pub marked-IsKeyed :
    (now : ℕ) (ids : List ℕ) (rows : List (ℕ × Subject))
    → IsKeyed rows
    → IsKeyed (marked (frozen_for_quota now) ids rows)
unfolding marked
marked-IsKeyed now ids [] keys = tt
marked-IsKeyed now ids (e ∷ rows) keys =
    (get-marked-none now e.0 ids rows keys.0, marked-IsKeyed now ids rows keys.1)

-- The row of a subject after an enforcement sweep at `now`, from whether it is over its quota.
abbrev pub enforced_row : ℕ → Bool → Subject → Subject
enforced_row now is_over s =
    if is_over && s.enabled
    then record s { enabled = false; frozen_at = some now; frozen_reason = some "quota_exceeded" }
    else s

map-enforced_row :
    (now : ℕ) (is_over : Bool) (o : Option Subject)
    → Option.map (λ s. if is_over then frozen_for_quota now s else s) o
      ≡ Option.map (enforced_row now is_over) o
map-enforced_row now b none = refl
map-enforced_row now true (some s) = refl
map-enforced_row now false (some s) = refl

module _ {W E : Type 0} (commit : ℕ → Tables → W → Option E × W) where
  pub freeze_each-marked :
      (over : List OverQuota) (now : ℕ) (db : Tables) (w : W)
      → (freeze_each commit over now db w).0
        ≡ with_rows db (marked (frozen_for_quota now) (ids_of over) db.subjects)
  unfolding freeze_each ids_of
  freeze_each-marked [] now db w =
      ap (with_rows db) (sym (marked-nil (frozen_for_quota now) db.subjects))
  freeze_each-marked (o ∷ rest) now db w =
      let (after, w₁) = freeze_subject commit o.subject_id now db w in
      freeze_each-marked rest now after w₁
      ∙ ap (with_rows db) (
          marked-modify (frozen_for_quota now) o.subject_id (ids_of rest) db.subjects
            (frozen-IsIdempotent now))

  -- A run of the enforcement sweep that can bill every subject freezes exactly the enabled subjects
  -- that findSubjectsOverQuota returned, and leaves the other rows as they were; right after it, no
  -- subject is over quota any more. The rows of `subjects` have distinct ids.
  pub run_enforcement-done :
      (usage : Usage) (now : ℕ) (db after : Tables) (w w' : W)
      → IsKeyed db.subjects
      → run_enforcement commit usage now db w ≡ ok (after, w')
      → ((over : List OverQuota) × (find_subjects_over_quota db usage now ≡ ok over)
          × ((j : ℕ)
              → get_row j after
                ≡ Option.map
                    (enforced_row now (contains ℕ_discrete j (ids_of over)))
                    (get_row j db)))
        × (find_subjects_over_quota after usage now ≡ ok [])
  unfolding run_enforcement
  run_enforcement-done usage now db after w w' keys h =
      let (over, found, done) = bind-eq-ok (find_subjects_over_quota db usage now) _ h in
      let (bs, blocks, judged) =
        bind-eq-ok (subject_blocks db.subjects db usage now) judge_all
          (sym (find_subjects_over_quota-judge db usage now keys) ∙ found) in
      let rows = marked (frozen_for_quota now) (ids_of over) db.subjects in
      let tables : after ≡ with_rows db rows =
        ap (λ (p : Tables × W). p.0) (sym (ok-injective done)) ∙ freeze_each-marked over now db w in
      rw tables (
        (
          over,
          found,
          λ j.
              get-marked (frozen_for_quota now) j (ids_of over) db.subjects
              ∙ map-enforced_row now (contains ℕ_discrete j (ids_of over)) (get_row j db),
        ),
        find_subjects_over_quota-judge (with_rows db rows) usage now
              (marked-IsKeyed now (ids_of over) db.subjects keys)
            ∙ ap (λ o. o >>= judge_all) (subject_blocks-same rows db rows usage now)
            ∙ resolved now (ids_of over) db.subjects db usage bs over blocks judged (listed over),
      )
