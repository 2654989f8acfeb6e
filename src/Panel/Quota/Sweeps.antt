-- ===== src/Panel/Quota/Sweeps.antt =====
-- internal/panel/nodes/quota.go. `commit` is CommitFunc, on the other tables `W`; an error of one
-- subject is logged.
use antimage.Common.{
  ℕ, ◌+◌, Bool, true, false, String, String_discrete, Option, none, some, List, [], ◌∷◌, leb, ite,
  ℕ_discrete, if◌then◌else◌,
}
use antimage.Common.Maps
use antimage.Common.Outcome.{Outcome, ok, ◌>>=◌}
use antimage.Panel.Subjects.Tables.{Subject, Service, Tables, get_row, change_row}
use antimage.Panel.Subjects.Sweeper.{add_once}
use antimage.Panel.Usage.Tables.{Usage}
use antimage.Panel.Quota.Over.{QuotaError, OverQuota, find_subjects_over_quota}

-- DefaultQuotaPeriodSeconds
abbrev pub default_quota_period_seconds : ℕ
default_quota_period_seconds = 2592000

-- SELECT DISTINCT n.id FROM nodes n JOIN services s ON s.node_id = n.id WHERE s.enabled = 1
unfoldable pub serving_nodes : List (ℕ × Service) → Tables → List ℕ
serving_nodes [] db = []
serving_nodes (e ∷ rest) db =
    let others = serving_nodes rest db in
    elim (Maps.get ℕ_discrete e.1.node_id db.nodes) [
      | none ↦ others
      | some k ↦ if e.1.enabled then add_once e.1.node_id others else others
    ]

abbrev pub quota_exceeded : String
quota_exceeded = "quota_exceeded"

-- UPDATE subjects … WHERE id = ? AND enabled = 1
abbrev pub frozen_for_quota : ℕ → Subject → Subject
frozen_for_quota now s =
    if s.enabled
    then record s { enabled = false; frozen_at = some now; frozen_reason = some quota_exceeded }
    else s

-- The period of a subject, and whether a reset unfreezes it.
abbrev pub period_of : Subject → ℕ
period_of s = elim s.quota_period_seconds [
  | none ↦ default_quota_period_seconds
  | some seconds ↦ seconds
]

unfoldable pub is_quota_reason : Option String → Bool
unfolding String_discrete
is_quota_reason none = false
is_quota_reason (some reason) = ite (String_discrete reason quota_exceeded) true false

-- The updates of resetSubject.
abbrev pub reset_row : ℕ → Bool → Subject → Subject
reset_row reset_at true s = record s {
  quota_period_start = some reset_at;
  quota_used_bytes = 0;
  quota_reset_at = some (reset_at + period_of s);
  enabled = true;
  frozen_at = none;
  frozen_reason = none;
}
reset_row reset_at false s = record s {
  quota_period_start = some reset_at;
  quota_used_bytes = 0;
  quota_reset_at = some (reset_at + period_of s);
}

-- The rows of the query of QuotaResetSweeper.Run: id, reset time, and whether to unfreeze.
unfoldable pub due_resets : ℕ → List (ℕ × Subject) → List (ℕ × ℕ × Bool)
due_resets now [] = []
due_resets now (e ∷ rest) =
    let others = due_resets now rest in
    elim e.1.quota_reset_at [
      | none ↦ others
      | some at ↦
          if leb at now then (e.0, at, is_quota_reason e.1.frozen_reason) ∷ others else others
    ]

module _ {W E : Type 0} (commit : ℕ → Tables → W → Option E × W) where
  -- The commits for one subject, up to the first error.
  unfoldable pub commit_nodes : List ℕ → Tables → W → W
  commit_nodes [] db w = w
  commit_nodes (node ∷ rest) db w =
      let (failed, w₁) = commit node db w in
      elim failed [ some e ↦ w₁ | none ↦ commit_nodes rest db w₁ ]

  -- freezeSubject
  abbrev pub freeze_subject : ℕ → ℕ → Tables → W → Tables × W
  freeze_subject id now db w =
      let after = change_row id (frozen_for_quota now) db in
      (after, commit_nodes (serving_nodes after.services after) after w)

  unfoldable pub freeze_each : List OverQuota → ℕ → Tables → W → Tables × W
  freeze_each [] now db w = (db, w)
  freeze_each (o ∷ rest) now db w =
      let (after, w₁) = freeze_subject o.subject_id now db w in freeze_each rest now after w₁

  -- QuotaEnforcementSweeper.Run
  unfoldable pub run_enforcement : Usage → ℕ → Tables → W → Outcome QuotaError (Tables × W)
  run_enforcement usage now db w =
      find_subjects_over_quota db usage now >>= (λ over. ok (freeze_each over now db w))

  -- resetSubject; a subject that is gone is an error.
  unfoldable pub reset_subject : ℕ → ℕ → Bool → Tables → W → Tables × W
  reset_subject id reset_at unfreezes db w = elim (get_row id db) [
    | none ↦ (db, w)
    | some s ↦
        let after = change_row id (reset_row reset_at unfreezes) db in
        (
          after,
          (if unfreezes then commit_nodes (serving_nodes after.services after) after w else w),
        )
  ]

  unfoldable pub reset_each : List (ℕ × ℕ × Bool) → Tables → W → Tables × W
  reset_each [] db w = (db, w)
  reset_each (r ∷ rest) db w =
      let (after, w₁) = reset_subject r.0 r.1 r.2 db w in reset_each rest after w₁

  -- QuotaResetSweeper.Run
  unfoldable pub run_reset : ℕ → Tables → W → Tables × W
  run_reset now db w = reset_each (due_resets now db.subjects) db w
