-- ===== src/Panel/Hub/Channels.antt =====
-- Go's channels of capacity one, in a heap, as internal/panel/control/hub.go uses them.
use antimage.Common.{ℕ, Bool, false, true, Option, none, some, List, ℕ_discrete, if◌then◌else◌}
use antimage.Common.Maps
use antimage.Common.Outcome.{Outcome, ok, err, ◌>>=◌}

-- The run-time panics of a channel.
pub data Panic : Type 0 where
  close_of_closed close_of_nil send_on_closed : Panic

pub record Channel (A : Type 0) : Type 0 where
  pub buffer : Option A
  pub closed : Bool

abbrev pub new_channel : {A : Type 0} → Channel A
new_channel = record { buffer = none; closed = false }

-- What a receive gives: a value, the zero value with ok = false, or nothing yet.
pub data Received (A : Type 0) : Type 0 where
  value : A → Received A
  ended : Received A
  blocked : Received A

abbrev pub receive : {A : Type 0} → Channel A → Received A × Channel A
receive c = elim c.buffer [
  | some a ↦ (value a, record c { buffer = none })
  | none ↦ (if c.closed then ended else blocked, c)
]

-- close(ch)
abbrev pub close : {A : Type 0} → Channel A → Outcome Panic (Channel A)
close c = if c.closed then err close_of_closed else ok (record c { closed = true })

-- select { case ch <- a: … default: … }, and if it was sent
abbrev pub try_send : {A : Type 0} → A → Channel A → Outcome Panic (Bool × Channel A)
try_send a c = if c.closed then err send_on_closed else (elim c.buffer [
  | none ↦ ok (true, record c { buffer = some a })
  | some old ↦ ok (false, c)
])

unfoldable pub close_at :
    {A : Type 0} → ℕ → List (ℕ × Channel A) → Outcome Panic (List (ℕ × Channel A))
close_at ch heap = elim (Maps.get ℕ_discrete ch heap) [
  | none ↦ err close_of_nil
  | some c ↦ close c >>= (λ after. ok (Maps.put ℕ_discrete ch after heap))
]

unfoldable pub try_send_at :
    {A : Type 0} → ℕ → A → List (ℕ × Channel A) → Outcome Panic (Bool × List (ℕ × Channel A))
try_send_at ch a heap = elim (Maps.get ℕ_discrete ch heap) [
  | none ↦ ok (false, heap)
  | some c ↦ try_send a c >>= (λ r. ok (r.0, Maps.put ℕ_discrete ch r.1 heap))
]

-- Any goroutine that holds the channel may receive.
unfoldable pub receive_at :
    {A : Type 0} → ℕ → List (ℕ × Channel A) → Received A × List (ℕ × Channel A)
receive_at ch heap = elim (Maps.get ℕ_discrete ch heap) [
  | none ↦ (blocked, heap)
  | some c ↦ let (r, after) = receive c in (r, Maps.put ℕ_discrete ch after heap)
]
