-- ===== src/Agent/Reconcile/Steps.antt =====
-- The steps that a run reports: their numbers, and the maintenance window.
use antimage.Common.{
  sym, length-append, ap, ◌∙◌, All-append, ℕ, zero, suc, ◌+◌, ◌<◌, ◌≤◌, Bool, true, false, some,
  List, [], ◌∷◌, ◌++◌, map, length, All, leb, ◌≡◌, ◌⊎◌, refl, arith, Bool-cases, inl, inr,
}
use antimage.Common.Int.{ℤ}
use antimage.Agent.Plan.{
  disrupt_reload, Step, StepResult, disrupt_restart, max_disruption, max_disruption-le,
}
use antimage.Agent.Host.{
  Options, new_reconciler, new_reconciler-positive, Adapter, Host, Settings, disruptive_allowed,
}
use antimage.Agent.Retry.{Names, apply_with_retry, apply_with_retry-elim}
use antimage.Agent.Reconcile.Cases.{visit-cases}
use antimage.Agent.Reconcile.{
  Progress, record_step, apply_steps, confirm, carry_out, execute, visit, visit_all, begin,
  converge,
}

-- The plans that the reconciler carries out.
abbrev pub Admitted : {W : Type 0} → Host W → Settings → List Step → W → Type 0
Admitted host settings plan w =
    (leb disrupt_restart (max_disruption plan) ≡ false)
    ⊎ ((disruptive_allowed host settings w).0 ≡ true)

abbrev Keeps : (List StepResult → ℕ → Type 0) → Progress → Progress → Type 0
Keeps P p p' = P p.run.steps p.seq → P p'.run.steps p'.seq

module _ {W D Obs : Type 0} (host : Host W) (settings : Settings) where
  module _ (P : List StepResult → ℕ → Type 0) (Fits : Step → Type 0)
      (some_left : 0 < settings.max_retries)
      (fit : (plan : List Step) (w : W) → Admitted host settings plan w → All Fits plan)
      (add : (s : Step) (r : StepResult) (steps : List StepResult) (n : ℕ)
        → Fits s
        → Names (record s { seq = n }) r
        → P steps n
        → P (steps ++ r ∷ []) (n + 1)) where
    apply_steps-Keeps :
        (ad : Adapter W D Obs) (plan : List Step) (p : Progress) (failed : Bool) (w : W)
        → All Fits plan
        → Keeps P p (apply_steps host settings ad plan p failed w).0.0
    unfolding apply_steps
    apply_steps-Keeps ad [] p failed w fits h = h
    apply_steps-Keeps ad (s ∷ rest) p failed w fits h =
        let out = apply_with_retry host settings ad (record s { seq = p.seq }) w in
        apply_steps-Keeps ad rest (record_step out.0.0 out.0.1 p) _ out.1 fits.1 (
          apply_with_retry-elim host settings ad (record s { seq = p.seq })
            (λ out. Keeps P p (record_step out.0.0 out.0.1 p))
            (λ r w names _ before. add s r p.run.steps p.seq fits.0 names before)
            (λ r e w names before. add s r p.run.steps p.seq fits.0 names before) some_left w h)

    confirm-Keeps :
        (ad : Adapter W D Obs) (desired : D) (p : Progress) (w : W)
        → ((confirm host settings ad desired p w).0.run.steps ≡ p.run.steps)
          × ((confirm host settings ad desired p w).0.seq ≡ p.seq)
    unfolding confirm
    confirm-Keeps ad desired p w = ground arith

    carry_out-Keeps :
        (ad : Adapter W D Obs) (desired : D) (plan : List Step) (p : Progress) (w : W)
        → All Fits plan
        → Keeps P p (carry_out host settings ad desired plan p w).0
    unfolding carry_out
    carry_out-Keeps ad desired plan p w fits h =
        let ((p1, failed), w1) = apply_steps host settings ad plan p false w in
        let after = apply_steps-Keeps ad plan p false w fits h in
        elim (Bool-cases failed) [
          | inl e ↦ rw (e, carry_out) after
          | inr e ↦
              rw (e, carry_out)
                (let (steps, seq) = confirm-Keeps ad desired p1 w1 in rw (steps, seq) after)
        ]

    execute-Keeps :
        (ad : Adapter W D Obs) (desired : D) (plan : List Step) (p : Progress) (w : W)
        → Keeps P p (execute host settings ad desired plan p w).0
    unfolding execute
    execute-Keeps ad desired plan p w h =
        elim (Bool-cases (leb disrupt_restart (max_disruption plan))) [
          | inr e ↦ rw (e, execute) (carry_out-Keeps ad desired plan p w (fit plan w (inl e)) h)
          | inl e ↦ elim (Bool-cases (disruptive_allowed host settings w).0) [
            | inl may ↦
                rw (e, execute)
                  (rw (may, execute) (carry_out-Keeps ad desired plan p _ (fit plan w (inr may)) h))
            | inr shut ↦ rw (e, execute) (rw (shut, execute) h)
          ]
        ]

    visit-Keeps :
        (ad : Adapter W D Obs) (desired : D) (p : Progress) (w : W)
        → Keeps P p (visit host settings ad desired p w).0
    unfolding visit
    visit-Keeps ad desired p w h = elim (visit-cases host settings ad desired p w) [
      | inl (msg, e) ↦ rw e h
      | inr (inl (plan, w', e)) ↦ rw e (execute-Keeps ad desired plan p w' h)
      | inr (inr (e, _)) ↦ rw e h
    ]

    visit_all-Keeps :
        (ads : List (Adapter W D Obs)) (desired : D) (p : Progress) (w : W)
        → Keeps P p (visit_all host settings ads desired p w).0
    unfolding visit_all
    visit_all-Keeps [] desired p w h = h
    visit_all-Keeps (ad ∷ rest) desired p w h =
        let (p1, w1) = visit host settings ad desired p w in
        visit_all-Keeps rest desired p1 w1 (visit-Keeps ad desired p w h)

-- 0, 1, …, n - 1
abbrev pub upto : ℕ → List ℕ
upto zero = []
upto (suc n) = upto n ++ n ∷ []

map-snoc :
    (steps : List StepResult) (r : StepResult)
    → map (λ (s : StepResult). s.seq) (steps ++ r ∷ [])
      ≡ map (λ (s : StepResult). s.seq) steps ++ r.seq ∷ []
map-snoc [] r = refl
map-snoc (s ∷ rest) r = ap (λ t. s.seq ∷ t) (map-snoc rest r)

upto-succ : (n : ℕ) → upto (n + 1) ≡ upto n ++ n ∷ []
upto-succ n = let next : n + 1 ≡ suc n = omega arith in rw next refl

All-unit : (plan : List Step) → All (λ s. Unit {0}) plan
All-unit [] = tt
All-unit (s ∷ rest) = (tt, All-unit rest)

abbrev Numbered : List StepResult → ℕ → Type 0
Numbered steps n = (map (λ (s : StepResult). s.seq) steps ≡ upto n) × (length steps ≡ n)

add-Numbered :
    (s : Step) (r : StepResult) (steps : List StepResult) (n : ℕ)
    → Unit {0}
    → Names (record s { seq = n }) r
    → Numbered steps n
    → Numbered (steps ++ r ∷ []) (n + 1)
add-Numbered s r steps n _ names h = (
  map-snoc steps r ∙ rw (h.0, names.0) (sym (upto-succ n)),
  length-append steps (r ∷ []) ∙ omega arith,
)

-- For every list of adapters, every host and every options given to NewReconciler, the steps of
-- the run that Converge returns are numbered 0, 1, 2 and so on, across all adapters.
pub converge-numbered :
    {W D Obs : Type 0} (host : Host W) (opts : Options) (ads : List (Adapter W D Obs)) (desired : D)
    (revision : ℤ) (w : W)
    → let steps = (converge host (new_reconciler opts) ads desired revision w).0.0.steps in
      map (λ (s : StepResult). s.seq) steps ≡ upto (length steps)
unfolding converge
converge-numbered host opts ads desired revision w =
    let (numbered, count) =
      visit_all-Keeps host (new_reconciler opts) Numbered (λ s. Unit {0})
        (new_reconciler-positive opts) (λ plan w h. All-unit plan) add-Numbered ads desired
        (begin revision) w (refl, refl) in
    rw count numbered

window-All :
    {W : Type 0} (host : Host W) (opts : Options) (window : ℕ → Bool) (plan : List Step) (w : W)
    → opts.allow_disruptive ≡ some window
    → ((at : ℕ) → window at ≡ false)
    → Admitted host (new_reconciler opts) plan w
    → All (λ s. s.disruption ≤ disrupt_reload) plan
window-All host opts window plan w set shut (inl e) =
    max_disruption-le plan disrupt_reload (ground arith)
window-All host opts window plan w set shut (inr may) =
    absurd (cc (shut (host.now w).0, rw set at may))

-- If the maintenance window never opens, no step that Converge ran costs as much as a restart, for
-- every list of adapters, every host and every options given to NewReconciler.
pub converge-window :
    {W D Obs : Type 0} (host : Host W) (opts : Options) (ads : List (Adapter W D Obs)) (desired : D)
    (revision : ℤ) (w : W) (window : ℕ → Bool)
    → opts.allow_disruptive ≡ some window
    → ((at : ℕ) → window at ≡ false)
    → All
        (λ r. r.disruption ≤ disrupt_reload)
        (converge host (new_reconciler opts) ads desired revision w).0.0.steps
unfolding converge
converge-window host opts ads desired revision w window set shut =
    visit_all-Keeps host (new_reconciler opts)
      (λ steps n. All (λ r. r.disruption ≤ disrupt_reload) steps)
      (λ s. s.disruption ≤ disrupt_reload) (new_reconciler-positive opts)
      (λ plan w h. window-All host opts window plan w set shut h)
      (λ s r steps n fits names h.
        All-append (λ (r : StepResult). r.disruption ≤ disrupt_reload) steps (r ∷ []) h
          (rw names.2 fits, tt))
      ads desired (begin revision) w tt
