-- ===== src/Tests/Reconcile.antt =====
-- A node with two adapters, of which the first has a step to do.
use antimage.Common.{ℕ, suc, true, false, none, some, [], ◌∷◌, All, ◌==◌, if◌then◌else◌, ◌≡◌, refl}
use antimage.Common.Int.{pos}
use antimage.Agent.Plan.{Step, StepResult, max_disruption}
use antimage.Agent.Host.{Adapter, Host, Options, done, new_reconciler}
use antimage.Agent.Retry.{retry, apply_with_retry}
use antimage.Agent.Reconcile.{apply_steps, confirm, carry_out, execute, visit, visit_all, converge}
use antimage.Agent.Reconcile.Cases.{Confirmed}
use antimage.Agent.Reconcile.Outcome.{converge-Confirmed}

abbrev reload_step : Step
reload_step = record {
  seq = 0;
  kind = "update_users";
  disruption = 1;
  service_id = 7;
  payload = "";
}

abbrev succeeded_result : StepResult
succeeded_result = record {
  seq = 0;
  kind = "";
  disruption = 0;
  succeeded = true;
  err = "";
  duration = pos 0;
}

-- The state of the host is the version that it runs.
abbrev xray : Adapter ℕ ℕ ℕ
xray = record {
  kind = "xray";
  observe = λ w. (done w, w);
  plan = λ desired observed w. (done (if desired == observed then [] else reload_step ∷ []), w);
  apply = λ step w. ((succeeded_result, none), suc w);
}

abbrev idle : Adapter ℕ ℕ ℕ
idle = record xray { kind = "wireguard"; plan = λ desired observed w. (done [], w) }

abbrev quiet_host : Host ℕ
quiet_host = record { now = λ w. (100, w); wait = λ backoff w. (none, w); format = λ n. "n" }

abbrev window_shut : Options
window_shut = record {
  max_retries = pos 0;
  retry_base = pos 0;
  allow_disruptive = some (λ at. false);
}

converges :
    (converge quiet_host (new_reconciler window_shut) (xray ∷ idle ∷ []) 1 (pos 1) 0).0.0.converged
    ≡ true
unfolding converge visit_all visit execute carry_out apply_steps apply_with_retry retry confirm
    max_disruption
converges = refl

converge-Confirmed_example :
    All (Confirmed 1) (xray ∷ idle ∷ [])
    × All
        (λ r. r.succeeded ≡ true)
        (converge quiet_host (new_reconciler window_shut) (xray ∷ idle ∷ []) 1 (pos 1) 0).0.0.steps
    × ((converge quiet_host
          (new_reconciler window_shut)
          (xray ∷ idle ∷ [])
          1
          (pos 1)
          0).0.0.deferred
        ≡ false)
    × ((converge quiet_host (new_reconciler window_shut) (xray ∷ idle ∷ []) 1 (pos 1) 0).0.0.err
        ≡ "")
    × ((converge quiet_host (new_reconciler window_shut) (xray ∷ idle ∷ []) 1 (pos 1) 0).0.1 ≡ none)
converge-Confirmed_example =
    converge-Confirmed quiet_host window_shut (xray ∷ idle ∷ []) 1 (pos 1) 0 converges
