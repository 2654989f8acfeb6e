-- ===== src/Panel/Hub/Calls.antt =====
-- Calls of the hub by the goroutines that share it, one after the other; a call of SendCommand is
-- the steps between which others run: internal/panel/control/hub.go and control_service.go (Stream).
use antimage.Common.{ℕ, ◌≡◌, true, String, String_discrete, some, List, [], ◌∷◌}
use antimage.Common.Maps
use antimage.Common.Maps.{get-put, get-delete, fresh_id-is_free}
use antimage.Common.Outcome.{Outcome, ok, ◌>>=◌}
use antimage.Panel.Hub.Channels.{Panic, Channel, receive_at}
use antimage.Panel.Hub.Streams.{Hub, Registration, register, release, notify}
use antimage.Panel.Hub.Commands.{park, offer, unpark, deliver_result}
use antimage.Panel.Hub.Sound.{opened, IsSound}
use antimage.Panel.Hub.Entries.{}

-- `receives_bump` and `receives_command` are the stream's receives.
pub data Call (C R : Type 0) : Type 0 where
  registers : ℕ → Call C R
  releases : Registration → Call C R
  notifies : ℕ → ℕ → Call C R
  receives_bump : ℕ → Call C R
  receives_command : ℕ → Call C R
  parks : C → Call C R
  offers : ℕ → C → Call C R
  unparks : C → Call C R
  delivers : R → Call C R

-- The callers that wait each have an open channel of their own.
pub record IsWaiting {R : Type 0} (results : List (ℕ × Channel R)) (pending : List (String × ℕ))
    : Type 0 where
  pub live :
      (id : String) (ch : ℕ)
      → Maps.get String_discrete id pending ≡ some ch
      → opened ch results ≡ true
  pub distinct :
      (i j : String) (ch : ℕ)
      → Maps.get String_discrete i pending ≡ some ch
      → Maps.get String_discrete j pending ≡ some ch
      → i ≡ j

-- No panic is near: the maps hold open channels, each once.
pub record HubIsSound {C R : Type 0} (h : Hub C R) : Type 0 where
  pub conns : IsSound h.conns
  pub cmds : IsSound h.cmds
  pub waiting : IsWaiting h.results h.pending

module _ {C R : Type 0} (command_id : C → String) (result_id : R → String) where
  unfoldable pub step : Call C R → Hub C R → Outcome Panic (Hub C R)
  step (registers node) h = register node h >>= (λ r. ok r.1)
  step (releases r) h = release r h >>= (λ r. ok r.1)
  step (notifies node revision) h = notify node revision h >>= (λ r. ok r.1)
  step (receives_bump ch) h =
      ok (record h { conns = record h.conns { heap = (receive_at ch h.conns.heap).1 } })
  step (receives_command ch) h =
      ok (record h { cmds = record h.cmds { heap = (receive_at ch h.cmds.heap).1 } })
  step (parks cmd) h = ok (park command_id result_id cmd h).1
  step (offers node cmd) h = offer command_id result_id node cmd h >>= (λ r. ok r.1)
  step (unparks cmd) h = ok (unpark command_id result_id cmd h)
  step (delivers result) h = deliver_result command_id result_id result h

  unfoldable pub run : List (Call C R) → Hub C R → Outcome Panic (Hub C R)
  run [] h = ok h
  run (call ∷ calls) h = step call h >>= (λ after. run calls after)
