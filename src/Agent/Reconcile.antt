-- ===== src/Agent/Reconcile.antt =====
-- internal/node/agent/reconcile.go: Converge, one cycle over all adapters of the node.
pub mod Cases
pub mod Steps
pub mod Outcome
use antimage.Common.{
  ℕ, zero, suc, ◌+◌, ◌-◌, ◌*◌, ◌%◌, String, String_discrete, Bool, true, false, not, ◌&&◌, ◌||◌,
  ◌==◌, Option, none, some, List, [], ◌∷◌, ◌++◌, ite, ltb, leb, length, is_empty, if◌then◌else◌,
}
use antimage.Common.Int.{ℤ, pos, negsuc, ltb_ℤ, ◌-ℤ◌}
use antimage.Agent.Plan.{Step, StepResult, disrupt_restart, max_disruption}
use antimage.Agent.Host.{
  Adapter, Host, Settings, StepError, stopped, gave_up, Fallible, done, broke, disruptive_allowed,
}
use antimage.Agent.Retry.{apply_with_retry}
use Prim.Native.String

pub record Run : Type 0 where
  pub target_revision : ℤ
  pub steps : List StepResult
  pub converged : Bool
  pub deferred : Bool
  pub err : String

-- The variables of Converge.
pub record Progress : Type 0 where
  pub run : Run
  pub hard_err : String
  pub seq : ℕ

-- appendErr
unfoldable pub append_err : String → String → String
unfolding String_discrete
append_err existing add =
    ite (String_discrete add "") existing
      (ite (String_discrete existing "") add (String.◌++◌ existing (String.◌++◌ "; " add)))

-- What a failed call adds: `run.Converged = false`, and the message in both texts.
abbrev pub break_with : String → Progress → Progress
break_with msg p = record p {
  run = record p.run { converged = false; err = append_err p.run.err msg };
  hard_err = append_err p.hard_err msg;
}

-- The run with the result of a step, and the step's error, if there is one.
abbrev pub record_step : StepResult → Option StepError → Progress → Progress
record_step result none p = record p {
  run = record p.run { steps = p.run.steps ++ result ∷ [] };
  seq = p.seq + 1;
}
record_step result (some e) p = record p {
  run = record p.run { steps = p.run.steps ++ result ∷ []; err = append_err p.run.err result.err };
  hard_err = append_err p.hard_err result.err;
  seq = p.seq + 1;
}

abbrev pub has_failed : Option StepError → Bool
has_failed none = false
has_failed (some e) = true

abbrev pub begin : ℤ → Progress
begin revision = record {
  run = record {
    target_revision = revision;
    steps = [];
    converged = true;
    deferred = false;
    err = "";
  };
  hard_err = "";
  seq = 0;
}

-- `if hardErr != "" { return run, errors.New(hardErr) }; return run, nil`
unfoldable pub returned : Progress → Option String
unfolding String_discrete
returned p = ite (String_discrete p.hard_err "") none (some p.hard_err)

module _ {W D Obs : Type 0} (host : Host W) (settings : Settings) where
  abbrev pub message : Adapter W D Obs → String → String → String
  message ad phase e = String.◌++◌ ad.kind (String.◌++◌ phase e)

  -- The loop over the steps of a plan, and whether one failed.
  unfoldable pub apply_steps :
      Adapter W D Obs → List Step → Progress → Bool → W → (Progress × Bool) × W
  apply_steps ad [] p failed w = ((p, failed), w)
  apply_steps ad (s ∷ rest) p failed w =
      let ((result, e), w1) = apply_with_retry host settings ad (record s { seq = p.seq }) w in
      apply_steps ad rest (record_step result e p) (failed || has_failed e) w1

  -- The confirmation pass.
  unfoldable pub confirm : Adapter W D Obs → D → Progress → W → Progress × W
  confirm ad desired p w =
      let (observed, w1) = ad.observe w in
      elim observed [
        | broke e ↦ (break_with (message ad ": post-apply observe: " e) p, w1)
        | done obs ↦
            let (planned, w2) = ad.plan desired obs w1 in
            elim planned [
              | broke e ↦ (break_with (message ad ": post-apply plan: " e) p, w2)
              | done plan ↦ elim plan [
                | [] ↦ (p, w2)
                | s ∷ rest ↦ (
                  record p {
                    run = record p.run {
                      converged = false;
                      err = append_err p.run.err (
                          String.◌++◌ ad.kind (
                            String.◌++◌ ": " (
                              String.◌++◌ (host.format (length (s ∷ rest)))
                                " steps still outstanding after apply")));
                    };
                  },
                  w2,
                )
              ]
            ]
      ]

  -- From the first step of a plan that is not empty and not deferred.
  unfoldable pub carry_out : Adapter W D Obs → D → List Step → Progress → W → Progress × W
  carry_out ad desired plan p w =
      let ((p1, failed), w1) = apply_steps ad plan p false w in
      elim failed [
        | true ↦ (record p1 { run = record p1.run { converged = false } }, w1)
        | false ↦ confirm ad desired p1 w1
      ]

  -- The test for the maintenance window; the clock is read only for a disruptive plan.
  unfoldable pub execute : Adapter W D Obs → D → List Step → Progress → W → Progress × W
  execute ad desired plan p w = elim (leb disrupt_restart (max_disruption plan)) [
    | false ↦ carry_out ad desired plan p w
    | true ↦
        let (allowed, w1) = disruptive_allowed host settings w in
        elim allowed [
          | true ↦ carry_out ad desired plan p w1
          | false ↦ (record p { run = record p.run { deferred = true; converged = false } }, w1)
        ]
  ]

  -- The body of the loop over the adapters.
  unfoldable pub visit : Adapter W D Obs → D → Progress → W → Progress × W
  visit ad desired p w =
      let (observed, w1) = ad.observe w in
      elim observed [
        | broke e ↦ (break_with (message ad ": observe: " e) p, w1)
        | done obs ↦
            let (planned, w2) = ad.plan desired obs w1 in
            elim planned [
              | broke e ↦ (break_with (message ad ": plan: " e) p, w2)
              | done plan ↦ elim plan [
                | [] ↦ (p, w2)
                | s ∷ rest ↦ execute ad desired (s ∷ rest) p w2
              ]
            ]
      ]

  unfoldable pub visit_all : List (Adapter W D Obs) → D → Progress → W → Progress × W
  visit_all [] desired p w = (p, w)
  visit_all (ad ∷ rest) desired p w =
      let (p1, w1) = visit ad desired p w in visit_all rest desired p1 w1

  -- Converge: the run, and the returned error; `revision` is desired.Revision.
  unfoldable pub converge : List (Adapter W D Obs) → D → ℤ → W → (Run × Option String) × W
  converge adapters desired revision w =
      let (p, w1) = visit_all adapters desired (begin revision) w in ((p.run, returned p), w1)
