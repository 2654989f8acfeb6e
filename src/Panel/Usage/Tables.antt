-- ===== src/Panel/Usage/Tables.antt =====
-- The tables of usage accounting, as migrations 00011, 00026, 00029, 00030 and 00037 of
-- internal/panel/store/migrations leave them. Ids and times are not negative. A list of rows is in
-- the order of insertion.
use antimage.Common.{ℕ, ◌^◌, String, Option, List, ltb, if◌then◌else◌}
use antimage.Common.Outcome.{Outcome, ok, err}

-- A row of `usage_deltas`; its id is above all that the table has given out.
pub record Delta : Type 0 where
  pub id : ℕ
  pub node_id : ℕ
  pub subject_id : ℕ
  pub service_id : Option ℕ
  pub sequence : ℕ
  pub uplink_bytes : ℕ
  pub downlink_bytes : ℕ
  pub created_at : ℕ

-- The columns of `subjects` that usage touches.
pub record Subject : Type 0 where
  pub quota_used_bytes : ℕ
  pub expires_at : Option ℕ
  pub on_hold_seconds : Option ℕ
  pub status_changed_at : Option ℕ

-- A row of `usage_rollups_hourly` or `usage_rollups_daily`, for one hour or day.
pub record Rollup : Type 0 where
  pub subject_id : ℕ
  pub node_id : Option ℕ
  pub service_id : Option ℕ
  pub start : ℕ
  pub uplink_bytes : ℕ
  pub downlink_bytes : ℕ

-- `last_id` is the entry of sqlite_sequence, `watermark` the row 'hourly' of usage_rollup_state.
pub record Usage : Type 0 where
  pub nodes : List ℕ
  pub services : List (ℕ × ℕ)
  pub subjects : List (ℕ × Subject)
  pub deltas : List Delta
  pub last_id : ℕ
  pub hourly : List Rollup
  pub daily : List Rollup
  pub watermark : Option ℕ

-- A broken constraint; a uint64 that the driver does not pass on; a sum that is no int64.
pub data UsageError : Type 0 where
  constraint : String → UsageError
  high_bit : UsageError
  overflow : UsageError

-- A value of an INTEGER column.
abbrev pub int64 : UsageError → ℕ → Outcome UsageError ℕ
int64 e n = if ltb n (2 ^ 63) then ok n else err e
