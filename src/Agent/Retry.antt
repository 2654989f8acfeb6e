-- ===== src/Agent/Retry.antt =====
-- internal/node/agent/reconcile.go: applyWithRetry, one step with its retries.
use antimage.Common.{
  ℕ, zero, suc, ◌+◌, ◌-◌, ◌*◌, ◌%◌, String, Bool, true, false, ◌==◌, Option, none, some, ltb, leb,
  if◌then◌else◌, ◌≡◌, ◌<◌, arith, Bool-cases, inl, inr, Option-cases, refl,
}
use antimage.Common.Int.{ℤ, pos, negsuc, ◌-ℤ◌}
use antimage.Agent.Plan.{Step, StepResult}
use antimage.Agent.Host.{Adapter, Host, Settings, StepError, stopped, gave_up}

-- `backoff *= 2`, on an int64.
unfoldable pub double : ℤ → ℤ
double (pos n) =
    let m = n * 2 % 18446744073709551616 in
    if ltb m 9223372036854775808 then pos m else negsuc (18446744073709551615 - m)
double (negsuc n) =
    let m = (n + 1) * 2 % 18446744073709551616 in
    if m == 0
    then pos 0
    else if leb m 9223372036854775808
    then negsuc (m - 1)
    else pos (18446744073709551616 - m)

-- The result with the step's own number, kind and cost.
abbrev pub stamp : Step → ℤ → StepResult → StepResult
stamp step elapsed result = record result {
  seq = step.seq;
  kind = step.kind;
  disruption = step.disruption;
  duration = elapsed;
}

abbrev pub cause_of : StepResult → Option String → String
cause_of result (some e) = e
cause_of result none = result.err

abbrev pub is_done : StepResult → Option String → Bool
is_done result (some e) = false
is_done result none = result.succeeded

-- `var last adapter.StepResult`
abbrev zero_result : StepResult
zero_result = record {
  seq = 0;
  kind = "";
  disruption = 0;
  succeeded = false;
  err = "";
  duration = pos 0;
}

done_succeeded :
    (result : StepResult) (failed : Option String)
    → is_done result failed ≡ true
    → result.succeeded ≡ true
done_succeeded result none h = h
done_succeeded result (some e) h = cc

module _ {W D Obs : Type 0} (host : Host W) (settings : Settings) where
  -- One attempt of applyWithRetry: the stamped result and the error of Apply.
  abbrev pub attempt : Adapter W D Obs → Step → W → (StepResult × Option String) × W
  attempt ad step w =
      let (started, w1) = host.now w in
      let ((result, failed), w2) = ad.apply step w1 in
      let (ended, w3) = host.now w2 in ((stamp step (pos ended -ℤ pos started) result, failed), w3)

  -- The loop of applyWithRetry, with `left` attempts to go.
  unfoldable pub retry :
      (left : ℕ)
      → Adapter W D Obs
      → Step
      → ℤ
      → StepResult
      → String
      → W
      → (StepResult × Option StepError) × W
  retry zero ad step backoff last cause w =
      ((last, some (gave_up step.seq step.kind settings.max_retries cause)), w)
  retry (suc left) ad step backoff last cause w =
      let ((result, failed), w1) = attempt ad step w in
      elim (is_done result failed) [
        | true ↦ ((result, none), w1)
        | false ↦ elim left [
          | zero ↦ retry left ad step backoff result (cause_of result failed) w1
          | suc n ↦
              let (stop, w2) = host.wait backoff w1 in
              elim stop [
                | some e ↦ ((result, some (stopped e)), w2)
                | none ↦ retry left ad step (double backoff) result (cause_of result failed) w2
              ]
        ]
      ]

  -- applyWithRetry
  unfoldable pub apply_with_retry : Adapter W D Obs → Step → W → (StepResult × Option StepError) × W
  apply_with_retry ad step w =
      retry settings.max_retries ad step settings.retry_base zero_result "" w

-- A result names the step that it is about.
abbrev pub Names : Step → StepResult → Type 0
Names step r = (r.seq ≡ step.seq) × (r.kind ≡ step.kind) × (r.disruption ≡ step.disruption)

module _ {W D Obs : Type 0} (host : Host W) (settings : Settings) (ad : Adapter W D Obs)
    (step : Step) where
  -- A property of every outcome: of an attempt that was done, and of one that was not.
  retry-elim :
      (P : (StepResult × Option StepError) × W → Type 0)
      → ((result : StepResult) (w : W)
          → Names step result
          → result.succeeded ≡ true
          → P ((result, none), w))
      → ((result : StepResult) (e : StepError) (w : W)
          → Names step result
          → P ((result, some e), w))
      → (left : ℕ) (backoff : ℤ) (last : StepResult) (cause : String) (w : W)
      → P (retry host settings (suc left) ad step backoff last cause w)
  unfolding retry
  retry-elim P good bad zero backoff last cause w =
      let ((result, failed), w1) = attempt host settings ad step w in
      elim (Bool-cases (is_done result failed)) [
        | inl e ↦ rw (e, retry) (good result w1 (refl, refl, refl) (done_succeeded result failed e))
        | inr e ↦ rw (e, retry) (bad result _ w1 (refl, refl, refl))
      ]
  retry-elim P good bad (suc n) backoff last cause w =
      let ((result, failed), w1) = attempt host settings ad step w in
      elim (Bool-cases (is_done result failed)) [
        | inl e ↦ rw (e, retry) (good result w1 (refl, refl, refl) (done_succeeded result failed e))
        | inr e ↦ elim (Option-cases (host.wait backoff w1).0) [
          | inl on ↦
              rw (e, retry)
                (rw (on, retry)
                  (retry-elim P good bad n (double backoff) result (cause_of result failed) _))
          | inr (x, stop) ↦ rw (e, retry) (rw (stop, retry) (bad result _ _ (refl, refl, refl)))
        ]
      ]

  retry-elim_pos :
      (P : (StepResult × Option StepError) × W → Type 0)
      → ((result : StepResult) (w : W)
          → Names step result
          → result.succeeded ≡ true
          → P ((result, none), w))
      → ((result : StepResult) (e : StepError) (w : W)
          → Names step result
          → P ((result, some e), w))
      → (left : ℕ) (w : W) → 0 < left
      → P (retry host settings left ad step settings.retry_base zero_result "" w)
  retry-elim_pos P good bad zero w h = absurd (omega arith)
  retry-elim_pos P good bad (suc n) w h =
      retry-elim P good bad n settings.retry_base zero_result "" w

  pub apply_with_retry-elim :
      (P : (StepResult × Option StepError) × W → Type 0)
      → ((result : StepResult) (w : W)
          → Names step result
          → result.succeeded ≡ true
          → P ((result, none), w))
      → ((result : StepResult) (e : StepError) (w : W)
          → Names step result
          → P ((result, some e), w))
      → 0 < settings.max_retries
      → (w : W) → P (apply_with_retry host settings ad step w)
  unfolding apply_with_retry
  apply_with_retry-elim P good bad some_left w =
      retry-elim_pos P good bad settings.max_retries w some_left
