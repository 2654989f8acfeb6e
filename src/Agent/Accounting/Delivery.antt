-- ===== src/Agent/Accounting/Delivery.antt =====
-- The agent's poll and the panel's ingest together: internal/node/agent/accounting.go sends, and
-- onUsageReport of internal/panel/control/control_service.go hands the report to the ingest.
use antimage.Common.{
  ℕ, suc, ◌+◌, ◌≡◌, refl, ◌∙◌, ap, Option, none, some, List, [], ◌∷◌, ◌++◌, map, false, inr, inl,
}
use antimage.Common.Outcome.{Outcome, ok, err, Outcome-cases}
use antimage.Panel.Usage.Tables.{Usage, UsageError}
use antimage.Panel.Usage.Ingest.{UsageDelta, ingest, has_report, resolve_service}
use antimage.Panel.Usage.Once.{ingest-same_subject, ingest-used_bytes, used_bytes, reported_bytes}
use antimage.Agent.Accounting.{
  not_exist, unreadable, UsageSample, ProtoSample, AccountingState, AccountingHost, UsageReport,
  to_proto, proto_samples_from, load_state, save_state, queued, report_of, report_samples,
  send_report, parsed, FileRead, unreadable, contents,
}
use antimage.Agent.Accounting.Polls.{IsDurable, load-save, report_samples-saved}

abbrev pub to_delta : ProtoSample → UsageDelta
to_delta s = record {
  subject_id = s.subject_id;
  service_id = s.service_id;
  uplink_bytes = s.uplink_bytes;
  downlink_bytes = s.downlink_bytes;
}

-- onUsageReport, for the node of the stream.
abbrev pub on_usage_report : ℕ → UsageReport → ℕ → Usage → Outcome UsageError Usage
on_usage_report node report now db =
    ingest node report.sequence (map to_delta report.samples) now db

-- A report that reaches the panel: its transaction is kept or rolled back.
abbrev pub received : ℕ → ℕ → UsageReport → Usage → Usage
received node now report db = elim (on_usage_report node report now db) [
  | ok db' ↦ db'
  | err e ↦ db
]

received-ok :
    (node now : ℕ) (report : UsageReport) (db db' : Usage)
    → on_usage_report node report now db ≡ ok db'
    → received node now report db ≡ db'
received-ok node now report db db' h = rw (received, h) refl

received-err :
    (node now : ℕ) (report : UsageReport) (db : Usage) (e : UsageError)
    → on_usage_report node report now db ≡ err e
    → received node now report db ≡ db
received-err node now report db e h = rw (received, h) refl

abbrev lift {ℓ} : {A : Type ℓ} {H : Type 0} → (H → A × H) → H × Usage → A × (H × Usage)
lift f (host, db) = let (a, after) = f host in (a, (after, db))

map_append : {A B : Type 0} (f : A → B) (xs ys : List A) → map f (xs ++ ys) ≡ map f xs ++ map f ys
map_append f [] ys = refl
map_append f (x ∷ xs) ys = ap (λ l. f x ∷ l) (map_append f xs ys)

append_assoc : {A : Type 0} (xs ys zs : List A) → (xs ++ ys) ++ zs ≡ xs ++ (ys ++ zs)
append_assoc [] ys zs = refl
append_assoc (x ∷ xs) ys zs = ap (λ l. x ∷ l) (append_assoc xs ys zs)

samples_of :
    (before after : List ProtoSample) (s : ProtoSample) (first last : List UsageSample)
    (t : UsageSample)
    → map to_delta ((before ++ s ∷ after) ++ proto_samples_from (first ++ t ∷ last))
      ≡ map to_delta before
        ++ to_delta s ∷ map to_delta (after ++ proto_samples_from first)
        ++ to_delta (to_proto t) ∷ map to_delta (proto_samples_from last)
samples_of before after s first last t = simp (map_append, append_assoc)

module _ {H E Bytes : Type 0} (io : AccountingHost H E Bytes) (now : ℕ) where
  -- A host whose stream is connected to the panel: a send succeeds, and the panel then handles the
  -- report; what it decides is not sent back.
  abbrev pub connected : AccountingHost (H × Usage) E Bytes
  connected = record {
    node_id = io.node_id;
    usage_reporters = map lift io.usage_reporters;
    read_file = lift io.read_file;
    write_file = λ raw. lift (io.write_file raw);
    marshal = io.marshal;
    unmarshal = io.unmarshal;
    send = λ report (host, db). (none, (host, received io.node_id now report db));
  }

  parsed-connected : (read : FileRead E Bytes) → parsed connected read ≡ parsed io read
  unfolding parsed
  parsed-connected not_exist = refl
  parsed-connected (unreadable e) = refl
  parsed-connected (contents raw) = refl

  load-connected :
      (host after : H) (db : Usage) (r : Outcome E AccountingState)
      → load_state io host ≡ (r, after)
      → load_state connected (host, db) ≡ (r, (after, db))
  unfolding load_state
  load-connected host after db r h =
      rw (parsed-connected (io.read_file host).0)
        (ap (λ (p : Outcome E AccountingState × H). (p.0, (p.1, db))) h)

  save-connected :
      (state : AccountingState) (host after : H) (db : Usage) (r : Option E)
      → save_state io state host ≡ (r, after)
      → save_state connected state (host, db) ≡ (r, (after, db))
  unfolding save_state
  save-connected state host after db r h = elim (Outcome-cases (io.marshal state)) [
    | inr (e, bad) ↦
        rw (bad, save_state)
          (ap (λ (p : Option E × H). (p.0, (p.1, db))) (rw (bad, save_state) at h))
    | inl (raw, good) ↦
        rw (good, save_state)
          (ap (λ (p : Option E × H). (p.0, (p.1, db))) (rw (good, save_state) at h))
  ]

  -- A poll whose file operations succeed sends everything that was pending.
  report_samples-connected :
      (samples : List UsageSample) (state : AccountingState) (host loaded saved cleared : H)
      (db : Usage)
      → load_state io host ≡ (ok state, loaded)
      → save_state io (queued io samples state) loaded ≡ (none, saved)
      → save_state io (record (queued io samples state) { pending = [] }) saved ≡ (none, cleared)
      → report_samples connected samples (host, db)
        ≡ (none, (cleared, received io.node_id now (report_of io (queued io samples state)) db))
  unfolding send_report queued report_of
  report_samples-connected samples state host loaded saved cleared db load save clear =
      let after = received io.node_id now (report_of io (queued io samples state)) db in
      report_samples-saved connected samples state (host, db) (loaded, db) (saved, db)
        (load-connected host loaded db (ok state) load)
        (save-connected (queued io samples state) loaded saved db none save)
      ∙ ap (λ (p : Option E × (H × Usage)). (none, p.1))
          (save-connected (record (queued io samples state) { pending = [] }) saved cleared after
            none clear)

  -- Delivery: if the state file can be read and written, the panel has not seen the sequence and
  -- accepts the report, a poll with samples returns no error, for every subject the panel's
  -- counter grows by exactly the bytes of the samples that were pending and of the new ones, and
  -- nothing stays pending.
  pub report_samples-delivered :
      (samples : List UsageSample) (state : AccountingState) (host loaded saved cleared : H)
      (db db' : Usage) (subject : ℕ)
      → IsDurable io
      → load_state io host ≡ (ok state, loaded)
      → save_state io (queued io samples state) loaded ≡ (none, saved)
      → save_state io (record (queued io samples state) { pending = [] }) saved ≡ (none, cleared)
      → has_report io.node_id (suc state.sequence) db.deltas ≡ false
      → on_usage_report io.node_id (report_of io (queued io samples state)) now db ≡ ok db'
      → (report_samples connected samples (host, db) ≡ (none, (cleared, db')))
        × (used_bytes subject db'
            ≡ used_bytes subject db
              + reported_bytes subject (map to_delta (state.pending ++ proto_samples_from samples)))
        × ((load_state io cleared).0 ≡ ok (record { sequence = suc state.sequence; pending = [] }))
  unfolding queued report_of
  report_samples-delivered samples state host loaded saved cleared db db' subject d load save clear
        new taken =
      (
        report_samples-connected samples state host loaded saved cleared db load save clear
            ∙ ap (λ (t : Usage). (none, (cleared, t)))
                (received-ok io.node_id now (report_of io (queued io samples state)) db db' taken),
        (ingest-used_bytes io.node_id (suc state.sequence)
            (map to_delta (state.pending ++ proto_samples_from samples)) now subject db db' new
            taken).0,
        load-save io (record { sequence = suc state.sequence; pending = [] }) saved cleared d clear,
      )

  -- The loss after a send that failed: if the state file can be read and written, and a sample that
  -- was left pending and a new one have the same subject and the same service of the node, a poll
  -- returns no error, the panel changes nothing, and nothing stays pending.
  pub report_samples-lost :
      (before after : List ProtoSample) (s : ProtoSample) (first last : List UsageSample)
      (t : UsageSample) (sequence service : ℕ) (host loaded saved cleared : H) (db : Usage)
      → IsDurable io
      → load_state io host
        ≡ (ok (record { sequence = sequence; pending = before ++ s ∷ after }), loaded)
      → save_state io
          (queued io
            (first ++ t ∷ last)
            (record { sequence = sequence; pending = before ++ s ∷ after }))
          loaded
        ≡ (none, saved)
      → save_state io (record { sequence = suc sequence; pending = [] }) saved ≡ (none, cleared)
      → has_report io.node_id (suc sequence) db.deltas ≡ false
      → s.subject_id ≡ t.subject_id
      → s.service_id ≡ t.service_id
      → resolve_service io.node_id s.service_id db ≡ some service
      → (report_samples connected (first ++ t ∷ last) (host, db) ≡ (none, (cleared, db)))
        × ((load_state io cleared).0 ≡ ok (record { sequence = suc sequence; pending = [] }))
  unfolding queued report_of
  report_samples-lost before after s first last t sequence service host loaded saved cleared db d
        load save clear new same same_service known =
      let state : AccountingState = record { sequence = sequence; pending = before ++ s ∷ after } in
      let (e, refused) =
        ingest-same_subject io.node_id (suc sequence) (map to_delta before)
          (map to_delta (after ++ proto_samples_from first))
          (map to_delta (proto_samples_from last)) (to_delta s) (to_delta (to_proto t)) now service
          db new same same_service known in
      (
        report_samples-connected (first ++ t ∷ last) state host loaded saved cleared db load save
              clear
            ∙ ap (λ (u : Usage). (none, (cleared, u)))
                (received-err io.node_id now (report_of io (queued io (first ++ t ∷ last) state)) db
                  e (rw (samples_of before after s first last t) refused)),
        load-save io (record { sequence = suc sequence; pending = [] }) saved cleared d clear,
      )
