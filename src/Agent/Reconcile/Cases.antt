-- ===== src/Agent/Reconcile/Cases.antt =====
-- The ways in which a visit to one adapter can go.
use Prim.Native.String
use antimage.Common.{length, String, false, List, [], ◌∷◌, ◌≡◌, ◌⊎◌, refl, inl, inr}
use antimage.Agent.Plan.{Step}
use antimage.Agent.Host.{Adapter, Host, Settings, done, Fallible-cases}
use antimage.Agent.Reconcile.{message, Progress, append_err, break_with, confirm, execute, visit}

-- A reading of the adapter that planned nothing.
pub record Confirmed {W D Obs : Type 0} (desired : D) (ad : Adapter W D Obs) : Type 0 where
  pub before : W
  pub between : W
  pub after : W
  pub observed : Obs
  pub observes : ad.observe before ≡ (done observed, between)
  pub plans : ad.plan desired observed between ≡ (done [], after)

-- The confirmation pass found work left.
abbrev pub outstanding : String → Progress → Progress
outstanding add p = record p {
  run = record p.run { converged = false; err = append_err p.run.err add };
}

module _ {W D Obs : Type 0} (host : Host W) (settings : Settings) (ad : Adapter W D Obs)
    (desired : D) where
  confirmed :
      (w : W) (obs : Obs)
      → (ad.observe w).0 ≡ done obs
      → (ad.plan desired obs (ad.observe w).1).0 ≡ done []
      → Confirmed desired ad
  confirmed w obs q k = record {
    before = w;
    between = (ad.observe w).1;
    after = (ad.plan desired obs (ad.observe w).1).1;
    observed = obs;
    observes = cc q;
    plans = cc k;
  }

  abbrev pub Broken : Progress → Progress × W → Type 0
  Broken p out = (msg : String) × (out.0 ≡ break_with msg p)

  abbrev pub Outstanding : Progress → Progress × W → Type 0
  Outstanding p out = (add : String) × (out.0 ≡ outstanding add p)

  abbrev pub Quiet : Progress → Progress × W → Type 0
  Quiet p out = (out.0 ≡ p) × Confirmed desired ad

  confirm_planned :
      (p : Progress) (w : W) (obs : Obs) (plan : List Step)
      → (ad.observe w).0 ≡ done obs
      → (ad.plan desired obs (ad.observe w).1).0 ≡ done plan
      → Outstanding p (confirm host settings ad desired p w)
        ⊎ Quiet p (confirm host settings ad desired p w)
  unfolding confirm
  confirm_planned p w obs [] q k = inr (rw (q, confirm) (rw (k, confirm) refl), confirmed w obs q k)
  confirm_planned p w obs (s ∷ rest) q k = inl (
    String.◌++◌ ad.kind (
        String.◌++◌ ": "
          (String.◌++◌ (host.format (length (s ∷ rest))) " steps still outstanding after apply")),
    rw (q, confirm) (rw (k, confirm) refl),
  )

  pub confirm-cases :
      (p : Progress) (w : W)
      → Broken p (confirm host settings ad desired p w)
        ⊎ Outstanding p (confirm host settings ad desired p w)
        ⊎ Quiet p (confirm host settings ad desired p w)
  unfolding confirm
  confirm-cases p w = elim (Fallible-cases (ad.observe w).0) [
    | inr (e, q) ↦ inl (message host settings ad ": post-apply observe: " e, rw (q, confirm) refl)
    | inl (obs, q) ↦ elim (Fallible-cases (ad.plan desired obs (ad.observe w).1).0) [
      | inr (e, k) ↦
          inl (
            message host settings ad ": post-apply plan: " e,
            rw (q, confirm) (rw (k, confirm) refl),
          )
      | inl (plan, k) ↦ inr (confirm_planned p w obs plan q k)
    ]
  ]

  abbrev pub Executes : Progress → Progress × W → Type 0
  Executes p out =
      (plan : List Step) × (w' : W) × (out ≡ execute host settings ad desired plan p w')

  visit_planned :
      (p : Progress) (w : W) (obs : Obs) (plan : List Step)
      → (ad.observe w).0 ≡ done obs
      → (ad.plan desired obs (ad.observe w).1).0 ≡ done plan
      → Executes p (visit host settings ad desired p w)
        ⊎ Quiet p (visit host settings ad desired p w)
  unfolding visit
  visit_planned p w obs [] q k = inr (rw (q, visit) (rw (k, visit) refl), confirmed w obs q k)
  visit_planned p w obs (s ∷ rest) q k =
      inl (s ∷ rest, (ad.plan desired obs (ad.observe w).1).1, rw (q, visit) (rw (k, visit) refl))

  pub visit-cases :
      (p : Progress) (w : W)
      → Broken p (visit host settings ad desired p w)
        ⊎ Executes p (visit host settings ad desired p w)
        ⊎ Quiet p (visit host settings ad desired p w)
  unfolding visit
  visit-cases p w = elim (Fallible-cases (ad.observe w).0) [
    | inr (e, q) ↦ inl (message host settings ad ": observe: " e, rw (q, visit) refl)
    | inl (obs, q) ↦ elim (Fallible-cases (ad.plan desired obs (ad.observe w).1).0) [
      | inr (e, k) ↦ inl (message host settings ad ": plan: " e, rw (q, visit) (rw (k, visit) refl))
      | inl (plan, k) ↦ inr (visit_planned p w obs plan q k)
    ]
  ]
