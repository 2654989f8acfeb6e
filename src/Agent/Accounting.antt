-- ===== src/Agent/Accounting.antt =====
-- internal/node/agent/accounting.go: the poll of the adapters and the report to the panel. The state
-- `H` of the host holds the adapters' counters, the state file and the stream; `E` is the type of
-- errors. encoding/json, the file system, the adapters and the stream are parameters.
pub mod Polls
pub mod Delivery
use antimage.Common.{ℕ, suc, Option, none, some, List, [], ◌∷◌, ◌++◌, map}
use antimage.Common.Outcome.{Outcome, ok, err}

-- adapter.UsageSample
pub record UsageSample : Type 0 where
  pub subject_id : ℕ
  pub service_id : ℕ
  pub uplink_bytes : ℕ
  pub downlink_bytes : ℕ

-- antimagev1.UsageSample
pub record ProtoSample : Type 0 where
  pub subject_id : ℕ
  pub service_id : ℕ
  pub uplink_bytes : ℕ
  pub downlink_bytes : ℕ

-- AccountingState
pub record AccountingState : Type 0 where
  pub sequence : ℕ
  pub pending : List ProtoSample

-- antimagev1.UsageReport
pub record UsageReport : Type 0 where
  pub node_id : ℕ
  pub sequence : ℕ
  pub samples : List ProtoSample

-- os.ReadFile
pub data FileRead (E Bytes : Type 0) : Type 0 where
  not_exist : FileRead E Bytes
  unreadable : E → FileRead E Bytes
  contents : Bytes → FileRead E Bytes

pub record AccountingHost (H E Bytes : Type 0) : Type 0 where
  pub node_id : ℕ
  pub usage_reporters : List (H → Outcome E (List UsageSample) × H)
  pub read_file : H → FileRead E Bytes × H
  pub write_file : Bytes → H → Option E × H
  pub marshal : AccountingState → Outcome E Bytes
  pub unmarshal : Bytes → Outcome E AccountingState
  pub send : UsageReport → H → Option E × H

-- protoSamplesFrom
abbrev pub to_proto : UsageSample → ProtoSample
to_proto s = record {
  subject_id = s.subject_id;
  service_id = s.service_id;
  uplink_bytes = s.uplink_bytes;
  downlink_bytes = s.downlink_bytes;
}

abbrev pub proto_samples_from : List UsageSample → List ProtoSample
proto_samples_from samples = map to_proto samples

-- `&AccountingState{Sequence: 0}`
abbrev pub fresh_state : AccountingState
fresh_state = record { sequence = 0; pending = [] }

-- The loop over the reporters; an error ends it.
unfoldable pub collect :
    {H E : Type 0}
    → List (H → Outcome E (List UsageSample) × H)
    → List UsageSample
    → H
    → Outcome E (List UsageSample) × H
collect [] samples host = (ok samples, host)
collect (usage ∷ rest) samples host =
    let (r, after) = usage host in
    elim r [ err e ↦ (err e, after) | ok got ↦ collect rest (samples ++ got) after ]

module _ {H E Bytes : Type 0} (io : AccountingHost H E Bytes) where
  -- The state in what was read: none yet, or corrupt, is a fresh one.
  unfoldable pub parsed : FileRead E Bytes → Outcome E AccountingState
  parsed not_exist = ok fresh_state
  parsed (unreadable e) = err e
  parsed (contents raw) = elim (io.unmarshal raw) [ err e ↦ ok fresh_state | ok state ↦ ok state ]

  -- loadAccountingState
  unfoldable pub load_state : H → Outcome E AccountingState × H
  load_state host = let (r, after) = io.read_file host in (parsed r, after)

  -- saveAccountingState
  unfoldable pub save_state : AccountingState → H → Option E × H
  save_state state host = elim (io.marshal state) [
    | err e ↦ (some e, host)
    | ok raw ↦ io.write_file raw host
  ]

  -- `state.Pending = append(…); state.Sequence++`
  unfoldable pub queued : List UsageSample → AccountingState → AccountingState
  queued samples state = record {
    sequence = suc state.sequence;
    pending = state.pending ++ proto_samples_from samples;
  }

  unfoldable pub report_of : AccountingState → UsageReport
  report_of state = record {
    node_id = io.node_id;
    sequence = state.sequence;
    samples = state.pending;
  }

  -- The send, and the clearing of the pending samples; its failure is only logged.
  unfoldable pub send_report : AccountingState → H → Option E × H
  send_report state host =
      let (r, after) = io.send (report_of state) host in
      elim r [
        | some e ↦ (some e, after)
        | none ↦ (none, (save_state (record state { pending = [] }) after).1)
      ]

  -- pollAndReport, with samples.
  unfoldable pub report_samples : List UsageSample → H → Option E × H
  report_samples samples host =
      let (r, after) = load_state host in
      elim r [
        | err e ↦ (some e, after)
        | ok state ↦
            let (failure, saved) = save_state (queued samples state) after in
            elim failure [
              | some e ↦ (some e, saved)
              | none ↦ send_report (queued samples state) saved
            ]
      ]

  -- pollAndReport
  unfoldable pub poll_and_report : H → Option E × H
  poll_and_report host =
      let (r, after) = collect io.usage_reporters [] host in
      elim r [
        | err e ↦ (some e, after)
        | ok samples ↦ elim samples [
          | [] ↦ (none, after)
          | s ∷ rest ↦ report_samples (s ∷ rest) after
        ]
      ]
