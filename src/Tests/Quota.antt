-- ===== src/Tests/Quota.antt =====
-- A subject whose node bills double, and two sweeps.
use antimage.Common.{ℕ, ◌≡◌, refl, true, Option, none, some, List, [], ◌∷◌, contains, ℕ_discrete}
use antimage.Common.Int.{pos, wrap_64, ◌+ℤ◌}
use antimage.Common.Maps
use antimage.Common.Outcome.{ok, ◌>>=◌}
use antimage.Panel.Billing.{billable, charge, mul_div, mul_64, div_64}
use antimage.Panel.Subjects.Tables.{Subject, Tables, get_row}
use antimage.Panel.Subjects.Store.{disable}
use antimage.Panel.Subjects.Swept.{IsKeyed}
use antimage.Panel.Usage.Tables.{Usage}
use antimage.Panel.Quota.Over.{
  OverQuota, find_subjects_over_quota, query_rows, subject_rows, bucket_rows, delta_rows, add_raw,
  sum_groups, group_rows, price_group, scan_rows,
}
use antimage.Panel.Quota.Judged.{judge_all, subject_blocks, find_subjects_over_quota-judge}
use antimage.Panel.Quota.Sweeps.{
  frozen_for_quota, run_enforcement, freeze_each, commit_nodes, serving_nodes, run_reset,
}
use antimage.Panel.Quota.Enforced.{ids_of, enforced_row, run_enforcement-done}
use antimage.Panel.Quota.Renewed.{run_reset-run_enforcement, run_reset-disable}
use mathlib.Core.Option

abbrev eve : Subject
eve = record {
  name = "eve";
  enabled = true;
  expires_at = none;
  expired_at = none;
  created_at = 10;
  note = "";
  quota_bytes = some (pos 80);
  quota_used_bytes = 50;
  quota_reset_at = some 9000;
  quota_period_start = none;
  quota_period_seconds = some 9000;
  frozen_at = none;
  frozen_reason = none;
  max_devices = none;
  max_ips = none;
  max_connections = none;
  subscription_token = "t";
  usage_coefficient = pos 10000;
}

abbrev panel : Tables
panel = record {
  nodes = (7, pos 20000) ∷ [];
  services = (3, record { node_id = 7; enabled = true; usage_coefficient = pos 10000 }) ∷ [];
  subjects = (1, eve) ∷ [];
  grants = (1, 3) ∷ [];
  credentials = [];
  sellers = [];
  owners = [];
}

abbrev usage : Usage
usage = record {
  nodes = 7 ∷ [];
  services = [];
  subjects = [];
  deltas =
      record {
        id = 4;
        node_id = 7;
        subject_id = 1;
        service_id = none;
        sequence = 1;
        uplink_bytes = 20;
        downlink_bytes = 20;
        created_at = 8000;
      }
      ∷ [];
  last_id = 4;
  hourly =
      record {
        subject_id = 1;
        node_id = some 7;
        service_id = none;
        start = 3600;
        uplink_bytes = 10;
        downlink_bytes = 0;
      }
      ∷ [];
  daily = [];
  watermark = some 3;
}

-- 50 bytes at x2.0 are 100.
abbrev over : List OverQuota
over = record { subject_id = 1; billable = pos 100; quota = pos 80 } ∷ []

find_run : find_subjects_over_quota panel usage 8500 ≡ ok over
unfolding find_subjects_over_quota query_rows subject_rows bucket_rows delta_rows add_raw sum_groups
    group_rows price_group scan_rows Maps.get ℕ_discrete billable charge mul_div mul_64 div_64
    wrap_64 ◌+ℤ◌
find_run = refl

panel-IsKeyed : IsKeyed panel.subjects
unfolding Maps.get
panel-IsKeyed = (refl, tt)

find_subjects_over_quota-judge_example :
    find_subjects_over_quota panel usage 8500
    ≡ (subject_blocks panel.subjects panel usage 8500 >>= judge_all)
find_subjects_over_quota-judge_example =
    find_subjects_over_quota-judge panel usage 8500 panel-IsKeyed

-- The other tables are a log of the nodes that were committed.
abbrev commit : ℕ → Tables → List ℕ → Option (Unit {0}) × List ℕ
commit node db log = (none, node ∷ log)

abbrev frozen : Tables
frozen = record panel { subjects = (1, frozen_for_quota 8500 eve) ∷ [] }

run_enforcement_run : run_enforcement commit usage 8500 panel [] ≡ ok (frozen, 7 ∷ [])
unfolding run_enforcement freeze_each commit_nodes serving_nodes Maps.get Maps.modify contains
    ℕ_discrete find_subjects_over_quota query_rows subject_rows bucket_rows delta_rows add_raw
    sum_groups group_rows price_group scan_rows billable charge mul_div mul_64 div_64 wrap_64 ◌+ℤ◌
run_enforcement_run = refl

run_enforcement-done_example :
    ((o : List OverQuota) × (find_subjects_over_quota panel usage 8500 ≡ ok o)
      × ((j : ℕ)
          → get_row j frozen
            ≡ Option.map (enforced_row 8500 (contains ℕ_discrete j (ids_of o))) (get_row j panel)))
    × (find_subjects_over_quota frozen usage 8500 ≡ ok [])
run_enforcement-done_example =
    run_enforcement-done commit usage 8500 panel frozen [] (7 ∷ []) panel-IsKeyed
      run_enforcement_run

eve_over : contains ℕ_discrete 1 (ids_of over) ≡ true
unfolding contains ids_of ℕ_discrete
eve_over = refl

eve_row : get_row 1 panel ≡ some eve
unfolding Maps.get ℕ_discrete
eve_row = refl

run_reset-run_enforcement_example :
    get_row 1 (run_reset commit 9500 frozen (7 ∷ [])).0
    ≡ some (record eve {
      quota_used_bytes = 0;
      quota_period_start = some 9000;
      quota_reset_at = some 18000;
    })
run_reset-run_enforcement_example =
    run_reset-run_enforcement commit usage 8500 9500 9000 panel frozen over [] (7 ∷ []) 1 eve
      panel-IsKeyed run_enforcement_run find_run eve_over eve_row refl refl refl

frozen-IsKeyed : IsKeyed frozen.subjects
unfolding Maps.get
frozen-IsKeyed = (refl, tt)

frozen_row : get_row 1 frozen ≡ some (frozen_for_quota 8500 eve)
unfolding Maps.get ℕ_discrete
frozen_row = refl

disable_run : disable 1 frozen ≡ ok frozen
unfolding disable Maps.get Maps.modify ℕ_discrete
disable_run = refl

run_reset-disable_example :
    (t : Subject) × (get_row 1 (run_reset commit 9500 frozen []).0 ≡ some t) × (t.enabled ≡ true)
run_reset-disable_example =
    run_reset-disable commit 9500 9000 1 (frozen_for_quota 8500 eve) frozen frozen [] frozen-IsKeyed
      frozen_row refl refl refl disable_run
