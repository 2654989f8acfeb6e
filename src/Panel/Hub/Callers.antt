-- ===== src/Panel/Hub/Callers.antt =====
-- What sends and the calls of a stream leave of the channels of the callers that wait:
-- internal/panel/control/hub.go.
use antimage.Common.{
  ℕ, ◌≡◌, false, String, some, List, ℕ_discrete, arith, Option-cases, Bool, inl, ◌∙◌, inr,
}
use antimage.Common.Maps
use antimage.Common.Maps.{get-put, get-delete, fresh_id-is_free}
use antimage.Common.Outcome.{ok}
use antimage.Panel.Hub.Channels.{Channel, new_channel, try_send_at}
use antimage.Panel.Hub.Streams.{Hub, Registration, register, release, notify}
use antimage.Panel.Hub.Commands.{offer}
use antimage.Panel.Hub.Calls.{}
use antimage.Panel.Hub.Safe.{}

abbrev pub full : {A : Type 0} → A → Channel A
full a = record { buffer = some a; closed = false }

pub try_send_at-others :
    {A : Type 0} (ch d : ℕ) (a : A) (heap : List (ℕ × Channel A)) (r : Bool × List (ℕ × Channel A))
    → (d ≡ ch → ⊥)
    → try_send_at ch a heap ≡ ok r
    → Maps.get ℕ_discrete d r.1 ≡ Maps.get ℕ_discrete d heap
unfolding try_send_at
try_send_at-others ch d a heap r other h = elim (Option-cases (Maps.get ℕ_discrete ch heap)) [
  | inl gone ↦ ground (arith, gone, h)
  | inr (c, found) ↦ elim (Option-cases c.buffer) [
    | inl empty ↦
        ground (
          arith,
          found,
          empty,
          h,
          other,
          get-put ℕ_discrete ch d (record c { buffer = some a }) heap,
        )
    | inr (old, is_full) ↦ ground (arith, found, is_full, h, other, get-put ℕ_discrete ch d c heap)
  ]
]

pub try_send_at-empty :
    {A : Type 0} (ch : ℕ) (a : A) (heap : List (ℕ × Channel A)) (r : Bool × List (ℕ × Channel A))
    → Maps.get ℕ_discrete ch heap ≡ some new_channel
    → try_send_at ch a heap ≡ ok r
    → Maps.get ℕ_discrete ch r.1 ≡ some (full a)
unfolding try_send_at
try_send_at-empty ch a heap r found h =
    ground (arith, found, h, get-put ℕ_discrete ch ch (full a) heap)

pub try_send_at-full :
    {A : Type 0} (ch d : ℕ) (a old : A) (heap : List (ℕ × Channel A))
    (r : Bool × List (ℕ × Channel A))
    → Maps.get ℕ_discrete d heap ≡ some (full old)
    → try_send_at ch a heap ≡ ok r
    → Maps.get ℕ_discrete d r.1 ≡ some (full old)
unfolding try_send_at
try_send_at-full ch d a old heap r found h = elim (ℕ_discrete d ch) [
  | yes e ↦ ground (arith, found, h, e, get-put ℕ_discrete ch d (full old) heap)
  | no other ↦ try_send_at-others ch d a heap r other h ∙ found
]

module _ {C R : Type 0} (command_id : C → String) (result_id : R → String) where
  -- Calls that do not touch the callers' channels.
  pub register-callers :
      (node : ℕ) (h : Hub C R) (r : Registration × Hub C R)
      → register node h ≡ ok r
      → (r.1.results ≡ h.results) × (r.1.pending ≡ h.pending)
  unfolding register
  register-callers node h r e = ground (arith, e)

  pub release-callers :
      (g : Registration) (h : Hub C R) (r : Registration × Hub C R)
      → release g h ≡ ok r
      → (r.1.results ≡ h.results) × (r.1.pending ≡ h.pending)
  unfolding release
  release-callers g h r e = ground (arith, e)

  pub notify-callers :
      (node revision : ℕ) (h : Hub C R) (r : Bool × Hub C R)
      → notify node revision h ≡ ok r
      → (r.1.results ≡ h.results) × (r.1.pending ≡ h.pending)
  unfolding notify
  notify-callers node revision h r e = ground (arith, e)

  pub offer-callers :
      (node : ℕ) (cmd : C) (h : Hub C R) (r : Bool × Hub C R)
      → offer command_id result_id node cmd h ≡ ok r
      → (r.1.results ≡ h.results) × (r.1.pending ≡ h.pending)
  unfolding offer
  offer-callers node cmd h r e = ground (arith, e)
