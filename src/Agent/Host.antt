-- ===== src/Agent/Host.antt =====
-- internal/node/agent/reconcile.go: what the reconciler is given, and its options.
-- `W` is the state of the host, the clock and the context; `D` a desired document and `Obs` an
-- observation. The adapters, the clock, the context and the printing of numbers are parameters.
use antimage.Common.{
  ℕ, zero, suc, String, Bool, true, Option, none, some, List, if◌then◌else◌, ◌≡◌, ◌⊎◌, inl, inr,
  refl, ◌<◌, arith,
}
use antimage.Common.Int.{ℤ, pos, negsuc, ltb_ℤ}
use antimage.Agent.Plan.{Step, StepResult}

-- An error of an adapter's call, by its message; of applyWithRetry, by its form.
pub data Fallible (A : Type 0) : Type 0 where
  done : A → Fallible A
  broke : String → Fallible A

pub data StepError : Type 0 where
  stopped : String → StepError
  gave_up : (seq : ℕ) (kind : String) (attempts : ℕ) (cause : String) → StepError

-- adapter.Adapter, by the calls of the reconciler.
pub record Adapter (W D Obs : Type 0) : Type 0 where
  pub kind : String
  pub observe : W → Fallible Obs × W
  pub plan : D → Obs → W → Fallible (List Step) × W
  pub apply : Step → W → (StepResult × Option String) × W

-- The clock and the context: `Now`, and the wait for `After` or `ctx.Done`, with ctx.Err().
pub record Host (W : Type 0) : Type 0 where
  pub now : W → ℕ × W
  pub wait : ℤ → W → Option String × W
  pub format : ℕ → String

-- ReconcileOptions; RetryBase is in nanoseconds.
pub record Options : Type 0 where
  pub max_retries : ℤ
  pub retry_base : ℤ
  pub allow_disruptive : Option (ℕ → Bool)

-- The options after NewReconciler.
pub record Settings : Type 0 where
  pub max_retries : ℕ
  pub retry_base : ℤ
  pub allow_disruptive : Option (ℕ → Bool)

abbrev pub attempts_of : ℤ → ℕ
attempts_of (pos zero) = 3
attempts_of (pos (suc n)) = suc n
attempts_of (negsuc n) = 3

-- NewReconciler
abbrev pub new_reconciler : Options → Settings
new_reconciler opts = record {
  max_retries = attempts_of opts.max_retries;
  retry_base = if ltb_ℤ (pos 0) opts.retry_base then opts.retry_base else pos 1000000000;
  allow_disruptive = opts.allow_disruptive;
}

-- disruptiveAllowed
abbrev pub disruptive_allowed : {W : Type 0} → Host W → Settings → W → Bool × W
disruptive_allowed host settings w = elim settings.allow_disruptive [
  | none ↦ (true, w)
  | some allow ↦ let (at, w') = host.now w in (allow at, w')
]

attempts_of-positive : (n : ℤ) → 0 < attempts_of n
attempts_of-positive (pos zero) = omega arith
attempts_of-positive (pos (suc n)) = omega arith
attempts_of-positive (negsuc n) = omega arith

pub Fallible-cases :
    {A : Type 0} (x : Fallible A) → ((a : A) × (x ≡ done a)) ⊎ ((e : String) × (x ≡ broke e))
Fallible-cases (done a) = inl (a, refl)
Fallible-cases (broke e) = inr (e, refl)

pub new_reconciler-positive : (opts : Options) → 0 < (new_reconciler opts).max_retries
new_reconciler-positive opts = attempts_of-positive opts.max_retries
