-- ===== src/Panel/Quota/Renewed.antt =====
-- What a run of the reset sweep leaves behind.
use antimage.Common.{
  ℕ, ◌+◌, ◌≡◌, ◌≢◌, refl, sym, ◌∙◌, ap, arith, Bool, true, false, Option, none, some, List, [], ◌∷◌,
  contains, ℕ_discrete, leb, if◌then◌else◌, ite, if_pos, if_neg, Option-cases, Bool-cases, inl, inr,
  subst,
}
use antimage.Common.Maps
use antimage.Common.Outcome.{ok, bind-eq-ok, ok-injective}
use antimage.Panel.Subjects.Tables.{Subject, Tables, get_row, update_one, change_row}
use antimage.Panel.Subjects.Store.{disable}
use antimage.Panel.Subjects.Links.{modify-IsKeyed}
use antimage.Panel.Subjects.Swept.{IsKeyed}
use antimage.Panel.Usage.Tables.{Usage}
use antimage.Panel.Quota.Over.{OverQuota, find_subjects_over_quota}
use antimage.Panel.Quota.Sweeps.{
  quota_exceeded, frozen_for_quota, period_of, is_quota_reason, reset_row, due_resets,
  run_enforcement, reset_subject, reset_each, run_reset,
}
use antimage.Panel.Quota.Enforced.{ids_of, run_enforcement-done, freeze_each-marked, marked-IsKeyed}
use mathlib.Core.Option

-- The change of a row that was read as `s`, if it was due.
abbrev renewal : ℕ → Subject → Subject → Subject
renewal now s t = elim s.quota_reset_at [
  | none ↦ t
  | some at ↦ if leb at now then reset_row at (is_quota_reason s.frozen_reason) t else t
]

abbrev pub renewed : ℕ → Subject → Subject
renewed now s = renewal now s s

map-waiting :
    (now at : ℕ) (s : Subject)
    → s.quota_reset_at ≡ some at
    → leb at now ≡ false
    → (o : Option Subject) → o ≡ Option.map (renewal now s) o
map-waiting now at s f late none = refl
map-waiting now at s f late (some t) = rw f (rw late refl)

map_self : (o : Option Subject) → o ≡ Option.map (λ t. t) o
map_self none = refl
map_self (some t) = refl

map-renewal :
    (now at : ℕ) (s : Subject)
    → s.quota_reset_at ≡ some at
    → leb at now ≡ true
    → (o : Option Subject)
    → Option.map (reset_row at (is_quota_reason s.frozen_reason)) o ≡ Option.map (renewal now s) o
map-renewal now at s f due none = refl
map-renewal now at s f due (some t) = rw f (rw due refl)

thawed :
    (now later at : ℕ) (s : Subject)
    → s.enabled ≡ true
    → s.quota_reset_at ≡ some at
    → leb at later ≡ true
    → renewed later (frozen_for_quota now s) ≡ record s {
      enabled = true;
      frozen_at = none;
      frozen_reason = none;
      quota_used_bytes = 0;
      quota_period_start = some at;
      quota_reset_at = some (at + period_of s);
    }
unfolding is_quota_reason
thawed now later at s on ends due = rw on (rw ends (rw due refl))

module _ {W E : Type 0} (commit : ℕ → Tables → W → Option E × W) where
  reset_subject-row :
      (id at j : ℕ) (unfreezes : Bool) (db : Tables) (w : W)
      → get_row j (reset_subject commit id at unfreezes db w).0
        ≡ ite (ℕ_discrete j id) (Option.map (reset_row at unfreezes) (get_row j db)) (get_row j db)
  unfolding reset_subject
  reset_subject-row id at j unfreezes db w = elim (Option-cases (get_row id db)) [
    | inr (s, e) ↦
        rw (e, reset_subject) (Maps.get-modify ℕ_discrete id j (reset_row at unfreezes) db.subjects)
    | inl e ↦
        rw (e, reset_subject)
          (elim (ℕ_discrete j id) [
            | yes same ↦
                let gone : get_row j db ≡ none = rw same e in
                rw gone (sym (if_pos (ℕ_discrete j id) same _ _))
            | no other ↦ sym (if_neg (ℕ_discrete j id) other _ _)
          ])
  ]

  reset_each-others :
      (now j : ℕ) (rows : List (ℕ × Subject)) (db : Tables) (w : W)
      → Maps.get ℕ_discrete j rows ≡ none
      → get_row j (reset_each commit (due_resets now rows) db w).0 ≡ get_row j db
  unfolding reset_each due_resets Maps.get
  reset_each-others now j [] db w h = refl
  reset_each-others now j (e ∷ rows) db w h =
      let other : j ≢ e.0 = λ same. ground (arith, h) in
      let rest_none : Maps.get ℕ_discrete j rows ≡ none = ground (arith, h) in
      elim (Option-cases e.1.quota_reset_at) [
        | inl f ↦ rw (f, due_resets) (reset_each-others now j rows db w rest_none)
        | inr (at, f) ↦ elim (Bool-cases (leb at now)) [
          | inr late ↦
              rw (f, due_resets)
                (rw (late, due_resets) (reset_each-others now j rows db w rest_none))
          | inl due ↦
              let u = is_quota_reason e.1.frozen_reason in
              let (after, w₁) = reset_subject commit e.0 at u db w in
              rw (f, due_resets)
                (rw (due, due_resets)
                  (reset_each-others now j rows after w₁ rest_none
                    ∙ reset_subject-row e.0 at j u db w
                    ∙ if_neg (ℕ_discrete j e.0) other _ _))
        ]
      ]

  reset_each-row :
      (now j : ℕ) (rows : List (ℕ × Subject)) (s : Subject) (db : Tables) (w : W)
      → IsKeyed rows
      → Maps.get ℕ_discrete j rows ≡ some s
      → get_row j (reset_each commit (due_resets now rows) db w).0
        ≡ Option.map (renewal now s) (get_row j db)
  unfolding reset_each due_resets Maps.get
  reset_each-row now j [] s db w keys h = absurd (cc h)
  reset_each-row now j (e ∷ rows) s db w keys h = elim (ℕ_discrete j e.0) [
    | no other ↦
        let there : Maps.get ℕ_discrete j rows ≡ some s = ground (arith, h) in
        elim (Option-cases e.1.quota_reset_at) [
          | inl f ↦ rw (f, due_resets) (reset_each-row now j rows s db w keys.1 there)
          | inr (at, f) ↦ elim (Bool-cases (leb at now)) [
            | inr late ↦
                rw (f, due_resets)
                  (rw (late, due_resets) (reset_each-row now j rows s db w keys.1 there))
            | inl due ↦
                let u = is_quota_reason e.1.frozen_reason in
                let (after, w₁) = reset_subject commit e.0 at u db w in
                rw (f, due_resets)
                  (rw (due, due_resets)
                    (reset_each-row now j rows s after w₁ keys.1 there
                      ∙ ap (Option.map (renewal now s)) (
                          reset_subject-row e.0 at j u db w ∙ if_neg (ℕ_discrete j e.0) other _ _)))
          ]
        ]
    | yes same ↦
        let is_s : e.1 ≡ s = ground (arith, h) in
        let gone : Maps.get ℕ_discrete j rows ≡ none = rw same keys.0 in
        rw (sym is_s) (elim (Option-cases e.1.quota_reset_at) [
          | inl f ↦
              rw (f, due_resets) (reset_each-others now j rows db w gone ∙ map_self (get_row j db))
          | inr (at, f) ↦ elim (Bool-cases (leb at now)) [
            | inr late ↦
                let here : due_resets now (e ∷ rows) ≡ due_resets now rows =
                  rw (f, due_resets) (rw (late, due_resets) refl) in
                ap (λ l. get_row j (reset_each commit l db w).0) here
                ∙ reset_each-others now j rows db w gone
                ∙ map-waiting now at e.1 f late (get_row j db)
            | inl due ↦
                let u = is_quota_reason e.1.frozen_reason in
                let (after, w₁) = reset_subject commit e.0 at u db w in
                let here : due_resets now (e ∷ rows) ≡ (e.0, at, u) ∷ due_resets now rows =
                  rw (f, due_resets) (rw (due, due_resets) refl) in
                ap (λ l. get_row j (reset_each commit l db w).0) here
                ∙ reset_each-others now j rows after w₁ gone
                ∙ reset_subject-row e.0 at j u db w
                ∙ if_pos (ℕ_discrete j e.0) same _ _
                ∙ map-renewal now at e.1 f due (get_row j db)
          ]
        ])
  ]

  -- A run of the reset sweep renews every subject whose reset is due: its new period starts where the
  -- old one ended, its usage is zero, its next reset is one period later, and it is enabled and
  -- unfrozen if it was frozen for its quota. Every other row stays. The rows have distinct ids.
  pub run_reset-renewed :
      (now : ℕ) (db : Tables) (w : W) (j : ℕ)
      → IsKeyed db.subjects
      → get_row j (run_reset commit now db w).0 ≡ Option.map (renewed now) (get_row j db)
  unfolding run_reset
  run_reset-renewed now db w j keys = elim (Option-cases (get_row j db)) [
    | inl e ↦ reset_each-others now j db.subjects db w e ∙ (rw e refl)
    | inr (s, e) ↦
        reset_each-row now j db.subjects s db w keys e
        ∙ ap (Option.map (renewal now s)) e
        ∙ sym (ap (Option.map (renewed now)) e)
  ]

  run_enforcement-IsKeyed :
      (usage : Usage) (now : ℕ) (db after : Tables) (w w₁ : W)
      → IsKeyed db.subjects
      → run_enforcement commit usage now db w ≡ ok (after, w₁)
      → IsKeyed after.subjects
  unfolding run_enforcement
  run_enforcement-IsKeyed usage now db after w w₁ keys h =
      let (over, found, done) = bind-eq-ok (find_subjects_over_quota db usage now) _ h in
      subst (λ (t : Tables). IsKeyed t.subjects)
        (sym (freeze_each-marked commit over now db w)
          ∙ ap (λ (p : Tables × W). p.0) (ok-injective done))
        (marked-IsKeyed now (ids_of over) db.subjects keys)

  -- A subject that the enforcement sweep froze is served again after the reset sweep that follows the
  -- end of its period: the row is that from before the freeze, enabled and unfrozen, with no usage
  -- and a new period. The subject was enabled, had a reset time and is in the answer of
  -- findSubjectsOverQuota; the rows have distinct ids.
  pub run_reset-run_enforcement :
      (usage : Usage) (now later at : ℕ) (db after : Tables) (over : List OverQuota) (w w₁ : W)
      (id : ℕ) (s : Subject)
      → IsKeyed db.subjects
      → run_enforcement commit usage now db w ≡ ok (after, w₁)
      → find_subjects_over_quota db usage now ≡ ok over
      → contains ℕ_discrete id (ids_of over) ≡ true
      → get_row id db ≡ some s
      → s.enabled ≡ true
      → s.quota_reset_at ≡ some at
      → leb at later ≡ true
      → get_row id (run_reset commit later after w₁).0
        ≡ some (record s {
          enabled = true;
          frozen_at = none;
          frozen_reason = none;
          quota_used_bytes = 0;
          quota_period_start = some at;
          quota_reset_at = some (at + period_of s);
        })
  unfolding run_enforcement is_quota_reason
  run_reset-run_enforcement usage now later at db after over w w₁ id s keys h found listed row on
        ends due =
      let (o, answer, done) = bind-eq-ok (find_subjects_over_quota db usage now) _ h in
      let ((o', found', rows), _) = run_enforcement-done commit usage now db after w w₁ keys h in
      let same : o' ≡ over = ok-injective (sym found' ∙ found) in
      let keyed : IsKeyed after.subjects = run_enforcement-IsKeyed usage now db after w w₁ keys h in
      let frozen : get_row id after ≡ some (frozen_for_quota now s) =
        rows id ∙ rw same (rw row (rw listed refl)) in
      run_reset-renewed later after w₁ id keyed
      ∙ ap (Option.map (renewed later)) frozen
      ∙ ap some (thawed now later at s on ends due)

  -- The reset sweep enables a subject that an administrator has disabled, if it had been frozen for
  -- its quota before: whenever Disable succeeds on such a subject and its reset is due, the sweep
  -- leaves it enabled. The rows have distinct ids.
  pub run_reset-disable :
      (now at id : ℕ) (s : Subject) (db after : Tables) (w : W)
      → IsKeyed db.subjects
      → get_row id db ≡ some s
      → s.frozen_reason ≡ some quota_exceeded
      → s.quota_reset_at ≡ some at
      → leb at now ≡ true
      → disable id db ≡ ok after
      → (t : Subject) × (get_row id (run_reset commit now after w).0 ≡ some t) × (t.enabled ≡ true)
  unfolding disable is_quota_reason
  run_reset-disable now at id s db after w keys row reason ends due h =
      let off : Subject → Subject = λ r. record r { enabled = false } in
      let done : change_row id off db ≡ after = ok-injective (rw (row, update_one) at h) in
      let there : get_row id (change_row id off db) ≡ some (off s) =
        Maps.get-modify ℕ_discrete id id off db.subjects
        ∙ if_pos (ℕ_discrete id id) refl _ _
        ∙ ap (Option.map off) row in
      (
        renewed now (off s),
        rw (sym done) (
            run_reset-renewed now (change_row id off db) w id
              (modify-IsKeyed id off db.subjects keys)
            ∙ ap (Option.map (renewed now)) there),
        rw ends (rw due (rw reason refl)),
      )
