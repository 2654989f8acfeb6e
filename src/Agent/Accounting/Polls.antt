-- ===== src/Agent/Accounting/Polls.antt =====
-- What the state file keeps between polls.
use antimage.Common.{◌≡◌, refl, ◌∙◌, none, some, List, inr, inl}
use antimage.Common.Outcome.{ok, Outcome-cases}
use antimage.Agent.Accounting.{
  UsageSample, AccountingState, AccountingHost, contents, load_state, save_state, queued, report_of,
  report_samples, send_report, UsageReport, parsed,
}

-- What the agent relies on: a file that was written is read back, JSON that was written is read back,
-- and sending does not touch the file.
pub record IsDurable {H E Bytes : Type 0} (io : AccountingHost H E Bytes) : Type 0 where
  pub written :
      (raw : Bytes) (host after : H)
      → io.write_file raw host ≡ (none, after)
      → (io.read_file after).0 ≡ contents raw
  pub decoded :
      (state : AccountingState) (raw : Bytes)
      → io.marshal state ≡ ok raw
      → io.unmarshal raw ≡ ok state
  pub sent :
      (report : UsageReport) (host : H)
      → (io.read_file (io.send report host).1).0 ≡ (io.read_file host).0

module _ {H E Bytes : Type 0} (io : AccountingHost H E Bytes) where
  load-of_read :
      (state : AccountingState) (raw : Bytes) (host : H)
      → (io.read_file host).0 ≡ contents raw
      → io.unmarshal raw ≡ ok state
      → (load_state io host).0 ≡ ok state
  unfolding load_state parsed
  load-of_read state raw host read decoded = rw (read, load_state) (rw (decoded, parsed) refl)

  save-written :
      (state : AccountingState) (host after : H)
      → IsDurable io
      → save_state io state host ≡ (none, after)
      → (raw : Bytes) × ((io.read_file after).0 ≡ contents raw) × (io.unmarshal raw ≡ ok state)
  unfolding save_state
  save-written state host after d h = elim (Outcome-cases (io.marshal state)) [
    | inr (e, bad) ↦ absurd (cc (rw (bad, save_state) at h))
    | inl (raw, good) ↦
        (raw, d.written raw host after (rw (good, save_state) at h), d.decoded state raw good)
  ]

  -- Round trip: if files and JSON are read back as they were written, a state that was saved without an
  -- error is the state that the next load returns.
  pub load-save :
      (state : AccountingState) (host after : H)
      → IsDurable io
      → save_state io state host ≡ (none, after)
      → (load_state io after).0 ≡ ok state
  load-save state host after d h =
      let (raw, read, decoded) = save-written state host after d h in
      load-of_read state raw after read decoded

  pub report_samples-saved :
      (samples : List UsageSample) (state : AccountingState) (host loaded saved : H)
      → load_state io host ≡ (ok state, loaded)
      → save_state io (queued io samples state) loaded ≡ (none, saved)
      → report_samples io samples host ≡ send_report io (queued io samples state) saved
  unfolding report_samples
  report_samples-saved samples state host loaded saved load save =
      rw (load, report_samples) (rw load (rw save (rw load (rw save refl))))

  send_report-failing :
      (state : AccountingState) (host : H) (e : E)
      → (io.send (report_of io state) host).0 ≡ some e
      → send_report io state host ≡ (some e, (io.send (report_of io state) host).1)
  unfolding send_report
  send_report-failing state host e failing = rw (failing, send_report) refl

  -- Unsent traffic is kept: under the same assumptions, when a poll queued its samples and the send
  -- fails, the poll returns that error, and the next load returns the queued state, the new
  -- samples after all that were pending, with the sequence of the report that was not sent.
  pub report_samples-unsent :
      (samples : List UsageSample) (state : AccountingState) (host loaded saved : H) (e : E)
      → IsDurable io
      → load_state io host ≡ (ok state, loaded)
      → save_state io (queued io samples state) loaded ≡ (none, saved)
      → (io.send (report_of io (queued io samples state)) saved).0 ≡ some e
      → ((report_samples io samples host).0 ≡ some e)
        × ((load_state io (report_samples io samples host).1).0 ≡ ok (queued io samples state))
  unfolding report_samples send_report
  report_samples-unsent samples state host loaded saved e d load save failing =
      let (raw, read, decoded) = save-written (queued io samples state) loaded saved d save in
      let kept = d.sent (report_of io (queued io samples state)) saved ∙ read in
      rw (report_samples-saved samples state host loaded saved load save) (
        rw (send_report-failing (queued io samples state) saved e failing)
          (refl, load-of_read (queued io samples state) raw _ kept decoded))
