-- ===== src/Tests/Usage.antt =====
-- A panel with two nodes and a subject that is on hold.
use antimage.Common.{◌+◌, ◌≡◌, refl, arith, none, some, [], ◌∷◌, false}
use antimage.Common.Maps
use antimage.Common.{ℕ_discrete}
use antimage.Common.Outcome.{ok}
use antimage.Panel.Usage.Tables.{Usage}
use antimage.Panel.Usage.Ingest.{
  UsageDelta, apply_samples, update_subject, set_subject, ingest, has_report, is_taken,
  insert_delta, prune,
}
use antimage.Panel.Usage.Once.{used_bytes}
use antimage.Panel.Usage.Repeats.{LaterWrites, start, prunes, rolls_up, ingest_once}
use antimage.Panel.Usage.Rollup.{rollup_hourly, ceiling_of, upsert_all, selected, upsert}
use antimage.Panel.Usage.Folded.{}
use antimage.Panel.Usage.History.{History, recorded, History-used_bytes}

abbrev pub idle : Usage
idle = record {
  nodes = 1 ∷ 2 ∷ [];
  services = (5, 1) ∷ (6, 2) ∷ [];
  subjects =
      (
        7,
        record {
          quota_used_bytes = 10;
          expires_at = none;
          on_hold_seconds = some 60;
          status_changed_at = none;
        },
      )
      ∷ [];
  deltas = [];
  last_id = 3;
  hourly = [];
  daily = [];
  watermark = some 2;
}

-- A sample of the node's service, and one that names another node's.
abbrev own : UsageDelta
own = record { subject_id = 7; service_id = 5; uplink_bytes = 100; downlink_bytes = 20 }

abbrev foreign : UsageDelta
foreign = record { subject_id = 7; service_id = 6; uplink_bytes = 1; downlink_bytes = 2 }

abbrev counted_once : Usage
counted_once = record idle {
  subjects =
      (
        7,
        record {
          quota_used_bytes = 133;
          expires_at = some 4060;
          on_hold_seconds = none;
          status_changed_at = some 4000;
        },
      )
      ∷ [];
  deltas =
      record {
        id = 4;
        node_id = 1;
        subject_id = 7;
        service_id = some 5;
        sequence = 9;
        uplink_bytes = 100;
        downlink_bytes = 20;
        created_at = 4000;
      }
      ∷ record {
        id = 5;
        node_id = 1;
        subject_id = 7;
        service_id = none;
        sequence = 9;
        uplink_bytes = 1;
        downlink_bytes = 2;
        created_at = 4000;
      }
      ∷ [];
  last_id = 5;
}

ingest_run : ingest 1 9 (own ∷ foreign ∷ []) 4000 idle ≡ ok counted_once
unfolding ingest has_report apply_samples insert_delta ℕ_discrete Maps.get is_taken update_subject
    set_subject
ingest_run = refl

-- Two hours of the subject, one for each service id.
abbrev folded : Usage
folded = record counted_once {
  hourly =
      record {
        subject_id = 7;
        node_id = some 1;
        service_id = some 5;
        start = 3600;
        uplink_bytes = 100;
        downlink_bytes = 20;
      }
      ∷ record {
        subject_id = 7;
        node_id = some 1;
        service_id = none;
        start = 3600;
        uplink_bytes = 1;
        downlink_bytes = 2;
      }
      ∷ [];
  watermark = some 5;
}

rollup_run : rollup_hourly counted_once ≡ ok folded
unfolding rollup_hourly ceiling_of upsert_all selected upsert
rollup_run = refl

idle_new : has_report 1 9 idle.deltas ≡ false
unfolding has_report
idle_new = refl

-- A roll-up, and a pruning that keeps a day.
folded_and_pruned : LaterWrites 4000 counted_once (prune 86400 90000 folded)
folded_and_pruned = prunes 86400 90000 (rolls_up start rollup_run) (omega arith)

ingest_once_example :
    ingest 1 9 (own ∷ []) 90001 (prune 86400 90000 folded) ≡ ok (prune 86400 90000 folded)
ingest_once_example =
    ingest_once 1 9 own (foreign ∷ []) (own ∷ []) 4000 90001 idle counted_once
      (prune 86400 90000 folded) idle_new ingest_run folded_and_pruned

report_and_fold : History idle folded
report_and_fold =
    History.rollup (History.report 1 9 (own ∷ foreign ∷ []) 4000 History.start ingest_run)
      rollup_run

History-used_bytes_example :
    used_bytes 7 folded + recorded 7 idle ≡ used_bytes 7 idle + recorded 7 folded
History-used_bytes_example = History-used_bytes idle folded 7 (tt, omega arith) report_and_fold
