-- ===== src/Panel/Hub/Commands.antt =====
-- internal/panel/control/hub.go: SendCommand, by its critical sections, and
-- DeliverResult. The timer and the context are the environment's.
use antimage.Common.{
  ℕ, Bool, false, true, String, Option, none, some, ◌∷◌, ℕ_discrete, String_discrete,
}
use antimage.Common.Maps
use antimage.Common.Outcome.{Outcome, ok, err, ◌>>=◌}
use antimage.Panel.Hub.Channels.{Panic, value, ended, blocked, new_channel, try_send_at, receive_at}
use antimage.Panel.Hub.Streams.{Hub}

pub data CommandError : Type 0 where
  not_delivered timeout cancelled : CommandError

-- The case of the last `select` that is taken.
pub data Wake : Type 0 where
  on_result on_timer on_done : Wake

module _ {C R : Type 0} (command_id : C → String) (result_id : R → String) where
  -- resultCh, and its entry in `pending`
  unfoldable pub park : C → Hub C R → ℕ × Hub C R
  park cmd h =
      let ch = Maps.fresh_id h.results in
      (
        ch,
        record h {
          results = (ch, new_channel) ∷ h.results;
          pending = Maps.put String_discrete (command_id cmd) ch h.pending;
        },
      )

  -- The send, and if it was delivered.
  unfoldable pub offer : ℕ → C → Hub C R → Outcome Panic (Bool × Hub C R)
  offer node cmd h = elim (Maps.get ℕ_discrete node h.cmds.table) [
    | none ↦ ok (false, h)
    | some ch ↦
        try_send_at ch cmd h.cmds.heap
        >>= (λ sent. ok (sent.0, record h { cmds = record h.cmds { heap = sent.1 } }))
  ]

  -- The deferred delete.
  unfoldable pub unpark : C → Hub C R → Hub C R
  unpark cmd h = record h { pending = Maps.delete String_discrete (command_id cmd) h.pending }

  -- The wait; `none` where the case that is taken is not ready.
  unfoldable pub wait : Wake → ℕ → Hub C R → Option (Outcome CommandError R)
  wait on_timer ch h = some (err timeout)
  wait on_done ch h = some (err cancelled)
  wait on_result ch h = elim (receive_at ch h.results).0 [
    | value result ↦ some (ok result)
    | ended ↦ none
    | blocked ↦ none
  ]

  -- SendCommand; `others` is what the other goroutines do to the hub during the wait.
  unfoldable pub send_command :
      ℕ
      → C
      → (Hub C R → Outcome Panic (Hub C R))
      → Wake
      → Hub C R
      → Outcome Panic (Option (Outcome CommandError R) × Hub C R)
  send_command node cmd others wake h = do
    let (ch, parked) = park cmd h
    offered ← offer node cmd parked
    waited ← elim offered.0 [ true ↦ others offered.1 | false ↦ ok offered.1 ]
    elim offered.0 [
      | true ↦ ok (wait wake ch waited, unpark cmd waited)
      | false ↦ ok (some (err not_delivered), unpark cmd waited)
    ]

  -- DeliverResult
  unfoldable pub deliver_result : R → Hub C R → Outcome Panic (Hub C R)
  deliver_result result h = elim (Maps.get String_discrete (result_id result) h.pending) [
    | none ↦ ok h
    | some ch ↦ try_send_at ch result h.results >>= (λ sent. ok (record h { results = sent.1 }))
  ]
