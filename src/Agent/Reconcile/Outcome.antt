-- ===== src/Agent/Reconcile/Outcome.antt =====
-- What a run that says converged has found.
use antimage.Common.{
  if_pos, ◌<◌, String_discrete, Bool, true, false, ◌||◌, Option, none, some, List, [], ◌∷◌, All,
  All-append, leb, ◌≡◌, refl, sym, ◌∙◌, arith, Bool-cases, inl, inr,
}
use antimage.Common.Int.{ℤ}
use antimage.Agent.Plan.{Step, StepResult, disrupt_restart, max_disruption}
use antimage.Agent.Host.{
  Options, new_reconciler, new_reconciler-positive, Adapter, Host, Settings, StepError,
  disruptive_allowed, Options, new_reconciler,
}
use antimage.Agent.Retry.{apply_with_retry, apply_with_retry-elim}
use antimage.Agent.Reconcile.Cases.{Confirmed, confirm-cases, visit-cases}
use antimage.Agent.Reconcile.{
  Progress, record_step, has_failed, apply_steps, confirm, carry_out, execute, visit, visit_all,
  returned, begin, converge,
}

-- No failure was noted, nothing was deferred, and every step succeeded.
abbrev pub Clean : Progress → Type 0
Clean p =
    (p.run.err ≡ "")
    × (p.hard_err ≡ "")
    × (p.run.deferred ≡ false)
    × All (λ r. r.succeeded ≡ true) p.run.steps

abbrev Honest : Progress → Type 0
Honest p = p.run.converged ≡ true → Clean p

record_step-converged :
    (r : StepResult) (e : Option StepError) (p : Progress)
    → (record_step r e p).run.converged ≡ p.run.converged
record_step-converged r none p = refl
record_step-converged r (some e) p = refl

step-Clean :
    (p : Progress) (r : StepResult) → Clean p → r.succeeded ≡ true → Clean (record_step r none p)
step-Clean p r h ok = (
  h.0,
  h.1,
  h.2,
  All-append (λ (r : StepResult). r.succeeded ≡ true) p.run.steps (r ∷ []) h.3 (ok, tt),
)

StepClean : {W : Type 0} → Progress → (StepResult × Option StepError) × W → Type 0
StepClean p out = has_failed out.0.1 ≡ false → Clean p → Clean (record_step out.0.0 out.0.1 p)

module _ {W D Obs : Type 0} (host : Host W) (settings : Settings)
    (some_left : 0 < settings.max_retries) where
  apply_steps-Clean :
      (ad : Adapter W D Obs) (plan : List Step) (p : Progress) (failed : Bool) (w : W)
      → ((apply_steps host settings ad plan p failed w).0.1 ≡ false → failed ≡ false)
        × ((apply_steps host settings ad plan p failed w).0.1 ≡ false
            → Clean p
            → Clean (apply_steps host settings ad plan p failed w).0.0)
        × ((apply_steps host settings ad plan p failed w).0.0.run.converged ≡ p.run.converged)
  unfolding apply_steps StepClean
  apply_steps-Clean ad [] p failed w = (λ h. h, λ h c. c, refl)
  apply_steps-Clean ad (s ∷ rest) p failed w =
      let step : Step = record s { seq = p.seq } in
      let ((r, e), w1) = apply_with_retry host settings ad step w in
      let (flag, clean, same) =
        apply_steps-Clean ad rest (record_step r e p) (failed || has_failed e) w1 in
      let one : StepClean p ((r, e), w1) =
        apply_with_retry-elim host settings ad step (StepClean p)
          (λ r w _ ok _ c. step-Clean p r c ok) (λ r e w _ h c. cc) some_left w in
      (
        λ h. ground (arith, flag h),
        λ h c. clean h (one (ground (arith, flag h)) c),
        same ∙ record_step-converged r e p,
      )

  -- What a run that says converged after a part of the work said before it, and has found.
  Checked : D → Adapter W D Obs → Progress → Progress → Type 0
  Checked desired ad p p' =
      p'.run.converged ≡ true
      → (p.run.converged ≡ true) × (Clean p → Clean p') × Confirmed desired ad

  confirm-Checked :
      (ad : Adapter W D Obs) (desired : D) (p : Progress) (w : W)
      → Checked desired ad p (confirm host settings ad desired p w).0
  unfolding Checked
  confirm-Checked ad desired p w h = elim (confirm-cases host settings ad desired p w) [
    | inl (msg, e) ↦ absurd (cc (rw e at h))
    | inr (inl (msg, e)) ↦ absurd (cc (rw e at h))
    | inr (inr (e, found)) ↦ (rw e at h, λ c. rw e c, found)
  ]

  carry_out-Checked :
      (ad : Adapter W D Obs) (desired : D) (plan : List Step) (p : Progress) (w : W)
      → Checked desired ad p (carry_out host settings ad desired plan p w).0
  unfolding Checked carry_out
  carry_out-Checked ad desired plan p w h =
      let ((p1, failed), w1) = apply_steps host settings ad plan p false w in
      let (_, clean, same) = apply_steps-Clean ad plan p false w in
      elim (Bool-cases failed) [
        | inl e ↦ absurd (cc (rw (e, carry_out) at h))
        | inr e ↦
            let (was, keeps, found) = confirm-Checked ad desired p1 w1 (rw (e, carry_out) at h) in
            (sym same ∙ was, λ c. rw (e, carry_out) (keeps (clean e c)), found)
      ]

  execute-Checked :
      (ad : Adapter W D Obs) (desired : D) (plan : List Step) (p : Progress) (w : W)
      → Checked desired ad p (execute host settings ad desired plan p w).0
  unfolding Checked execute
  execute-Checked ad desired plan p w h =
      elim (Bool-cases (leb disrupt_restart (max_disruption plan))) [
        | inr e ↦ rw (e, execute) (carry_out-Checked ad desired plan p w (rw (e, execute) at h))
        | inl e ↦ elim (Bool-cases (disruptive_allowed host settings w).0) [
          | inl may ↦
              let after = rw (may, execute) at (rw (e, execute) at h) in
              rw (e, execute) (rw (may, execute) (carry_out-Checked ad desired plan p _ after))
          | inr shut ↦ absurd (cc (rw (shut, execute) at (rw (e, execute) at h)))
        ]
      ]

  visit-Checked :
      (ad : Adapter W D Obs) (desired : D) (p : Progress) (w : W)
      → Checked desired ad p (visit host settings ad desired p w).0
  unfolding Checked
  visit-Checked ad desired p w h = elim (visit-cases host settings ad desired p w) [
    | inl (msg, e) ↦ absurd (cc (rw e at h))
    | inr (inl (plan, w', e)) ↦ rw e (execute-Checked ad desired plan p w' (rw e at h))
    | inr (inr (e, found)) ↦ (rw e at h, λ c. rw e c, found)
  ]

  visit_all-Checked :
      (ads : List (Adapter W D Obs)) (desired : D) (p : Progress) (w : W)
      → (visit_all host settings ads desired p w).0.run.converged ≡ true
      → (p.run.converged ≡ true)
        × (Clean p → Clean (visit_all host settings ads desired p w).0)
        × All (Confirmed desired) ads
  unfolding visit_all Checked
  visit_all-Checked [] desired p w h = (h, λ c. c, tt)
  visit_all-Checked (ad ∷ rest) desired p w h =
      let (p1, w1) = visit host settings ad desired p w in
      let (later, clean, found) = visit_all-Checked rest desired p1 w1 h in
      let (was, keeps, here) = visit-Checked ad desired p w later in
      (was, λ c. clean (keeps c), (here, found))

returned-none : (p : Progress) → p.hard_err ≡ "" → returned p ≡ none
unfolding returned
returned-none p h = if_pos (String_discrete p.hard_err "") h none (some p.hard_err)

-- For every list of adapters, every host and every options given to NewReconciler: if Converge
-- returns a run that says converged, then every adapter has been read with an empty plan, every
-- step of the run succeeded, nothing was deferred, the run has no error text, and no error is
-- returned.
pub converge-Confirmed :
    {W D Obs : Type 0} (host : Host W) (opts : Options) (ads : List (Adapter W D Obs)) (desired : D)
    (revision : ℤ) (w : W)
    → (converge host (new_reconciler opts) ads desired revision w).0.0.converged ≡ true
    → All (Confirmed desired) ads
      × All
          (λ r. r.succeeded ≡ true)
          (converge host (new_reconciler opts) ads desired revision w).0.0.steps
      × ((converge host (new_reconciler opts) ads desired revision w).0.0.deferred ≡ false)
      × ((converge host (new_reconciler opts) ads desired revision w).0.0.err ≡ "")
      × ((converge host (new_reconciler opts) ads desired revision w).0.1 ≡ none)
unfolding converge
converge-Confirmed host opts ads desired revision w h =
    let settings = new_reconciler opts in
    let (_, clean, found) =
      visit_all-Checked host settings (new_reconciler-positive opts) ads desired (begin revision) w
        h in
    let (no_err, no_hard, here, steps) = clean (refl, refl, refl, tt) in
    (found, steps, here, no_err, returned-none _ no_hard)
