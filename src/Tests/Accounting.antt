-- ===== src/Tests/Accounting.antt =====
-- An agent whose state file is a value in memory, connected to a panel.
use antimage.Common.{ℕ, ◌+◌, ◌≡◌, refl, Option, none, some, [], ◌∷◌, ◌++◌, false, map}
use antimage.Common.Maps
use antimage.Common.{ℕ_discrete}
use antimage.Common.Outcome.{ok}
use antimage.Panel.Usage.Tables.{Usage}
use antimage.Panel.Usage.Ingest.{
  has_report, resolve_service, ingest, apply_samples, insert_delta, is_taken, update_subject,
  set_subject,
}
use antimage.Panel.Usage.Once.{used_bytes, reported_bytes}
use antimage.Tests.Usage.{idle}
use antimage.Agent.Accounting.{
  UsageSample, AccountingState, AccountingHost, contents, not_exist, load_state, save_state, queued,
  report_of, report_samples, proto_samples_from, parsed,
}
use antimage.Agent.Accounting.Polls.{IsDurable}
use antimage.Agent.Accounting.Delivery.{
  to_delta, connected, on_usage_report, report_samples-delivered, report_samples-lost,
}

-- The file holds the state itself; nothing fails.
abbrev memory : AccountingHost (Option AccountingState) (Unit {0}) AccountingState
memory = record {
  node_id = 1;
  usage_reporters = [];
  read_file = λ file. (elim file [ none ↦ not_exist | some state ↦ contents state ], file);
  write_file = λ state file. (none, some state);
  marshal = λ state. ok state;
  unmarshal = λ state. ok state;
  send = λ report file. (none, file);
}

memory-IsDurable : IsDurable memory
memory-IsDurable = record {
  written = λ raw host after h. let same : after ≡ some raw = cc h in rw same refl;
  decoded = λ state raw h. cc h;
  sent = λ report host. refl;
}

abbrev waiting : AccountingState
waiting = record {
  sequence = 4;
  pending = record { subject_id = 7; service_id = 5; uplink_bytes = 100; downlink_bytes = 20 } ∷ [];
}

abbrev fresh_sample : ℕ → UsageSample
fresh_sample service = record {
  subject_id = 7;
  service_id = service;
  uplink_bytes = 30;
  downlink_bytes = 1;
}

-- Nothing pending, one new sample.
abbrev calm : AccountingState
calm = record { sequence = 4; pending = [] }

abbrev cleared_state : AccountingState
cleared_state = record { sequence = 5; pending = [] }

abbrev delivered : Usage
delivered = record idle {
  subjects =
      (
        7,
        record {
          quota_used_bytes = 41;
          expires_at = some 160;
          on_hold_seconds = none;
          status_changed_at = some 100;
        },
      )
      ∷ [];
  deltas =
      record {
        id = 4;
        node_id = 1;
        subject_id = 7;
        service_id = some 5;
        sequence = 5;
        uplink_bytes = 30;
        downlink_bytes = 1;
        created_at = 100;
      }
      ∷ [];
  last_id = 4;
}

calm_load : load_state memory (some calm) ≡ (ok calm, some calm)
unfolding load_state parsed
calm_load = refl

calm_save :
    save_state memory (queued memory (fresh_sample 5 ∷ []) calm) (some calm)
    ≡ (none, some (queued memory (fresh_sample 5 ∷ []) calm))
unfolding save_state
calm_save = refl

clear_saved :
    (file : Option AccountingState)
    → save_state memory cleared_state file ≡ (none, some cleared_state)
unfolding save_state
clear_saved file = refl

idle_new : has_report 1 5 idle.deltas ≡ false
unfolding has_report
idle_new = refl

calm_taken :
    on_usage_report 1 (report_of memory (queued memory (fresh_sample 5 ∷ []) calm)) 100 idle
    ≡ ok delivered
unfolding ingest has_report apply_samples insert_delta ℕ_discrete Maps.get is_taken update_subject
    set_subject queued report_of
calm_taken = refl

report_samples-delivered_example :
    (report_samples (connected memory 100) (fresh_sample 5 ∷ []) (some calm, idle)
      ≡ (none, (some cleared_state, delivered)))
    × (used_bytes 7 delivered
        ≡ used_bytes 7 idle
          + reported_bytes 7
              (map to_delta (calm.pending ++ proto_samples_from (fresh_sample 5 ∷ []))))
    × ((load_state memory (some cleared_state)).0 ≡ ok cleared_state)
unfolding queued
report_samples-delivered_example =
    report_samples-delivered memory 100 (fresh_sample 5 ∷ []) calm (some calm) (some calm)
      (some (queued memory (fresh_sample 5 ∷ []) calm)) (some cleared_state) idle delivered 7
      memory-IsDurable calm_load calm_save (clear_saved _) idle_new calm_taken

waiting_load : load_state memory (some waiting) ≡ (ok waiting, some waiting)
unfolding load_state parsed
waiting_load = refl

waiting_save :
    save_state memory (queued memory (fresh_sample 5 ∷ []) waiting) (some waiting)
    ≡ (none, some (queued memory (fresh_sample 5 ∷ []) waiting))
unfolding save_state
waiting_save = refl

known : resolve_service 1 5 idle ≡ some 5
unfolding Maps.get ℕ_discrete
known = refl

report_samples-lost_example :
    (report_samples (connected memory 100) (fresh_sample 5 ∷ []) (some waiting, idle)
      ≡ (none, (some cleared_state, idle)))
    × ((load_state memory (some cleared_state)).0 ≡ ok cleared_state)
report_samples-lost_example =
    report_samples-lost memory 100 [] []
      (record { subject_id = 7; service_id = 5; uplink_bytes = 100; downlink_bytes = 20 }) [] []
      (fresh_sample 5) 4 5 (some waiting) (some waiting)
      (some (queued memory (fresh_sample 5 ∷ []) waiting)) (some cleared_state) idle
      memory-IsDurable waiting_load waiting_save (clear_saved _) idle_new refl refl known
