-- ===== src/Panel/Hub/Promises.antt =====
-- What the hub promises the handlers that use it: internal/panel/control/hub.go.
use antimage.Common.{ℕ, ◌≡◌, refl, sym, true, String, some, List, ◌∷◌, ◌++◌, ℕ_discrete, ◌∙◌, ap}
use antimage.Common.Maps
use antimage.Common.Outcome.{Outcome, ok, ok-injective}
use antimage.Panel.Hub.Channels.{Panic, new_channel, receive_at, try_send_at}
use antimage.Panel.Hub.Streams.{Hub, new_hub}
use antimage.Panel.Hub.Commands.{CommandError, on_result, park, offer, unpark, wait, send_command}
use antimage.Panel.Hub.Calls.{Call, delivers, run, HubIsSound}
use antimage.Panel.Hub.Safe.{run-IsSound, park-IsSound, offer-IsSound, new_hub-IsSound}
use antimage.Panel.Hub.Callers.{full}
use antimage.Panel.Hub.Answered.{Awaits, AreOthers, Holds, run-first, park-Awaits}

module _ {C R : Type 0} (command_id : C → String) (result_id : R → String) where
  -- Whatever calls of the hub follow one another, in whatever order the goroutines take its locks,
  -- none panics: no channel is closed twice, none is closed that is not there, and nothing is sent
  -- on a closed one. The maps of the hub they leave hold open channels, each for one node.
  pub run-never_panics :
      (calls : List (Call C R))
      → (after : Hub C R) × (run command_id result_id calls new_hub ≡ ok after) × HubIsSound after
  run-never_panics calls =
      run-IsSound command_id result_id calls new_hub (new_hub-IsSound command_id result_id)

  history-IsSound :
      (calls : List (Call C R)) (h : Hub C R)
      → run command_id result_id calls new_hub ≡ ok h
      → HubIsSound h
  history-IsSound calls h e =
      let (after, f, v) = run-never_panics calls in rw (ok-injective (sym e ∙ f)) v

  wait-Holds :
      (ch : ℕ) (result : R) (h : Hub C R)
      → Holds command_id result_id ch result h
      → wait command_id result_id on_result ch h ≡ some (ok result)
  unfolding Holds wait receive_at
  wait-Holds ch result h p = rw (p, wait, receive_at) refl

  moved-Awaits :
      (ch : ℕ) (id : String) (h after : Hub C R)
      → after.results ≡ h.results
      → after.pending ≡ h.pending
      → Awaits command_id result_id ch id h
      → Awaits command_id result_id ch id after
  unfolding Awaits
  moved-Awaits ch id h after s t a = rw (s, t) a

  offer-delivered :
      (node ch : ℕ) (cmd : C) (h : Hub C R)
      → Maps.get ℕ_discrete node h.cmds.table ≡ some ch
      → Maps.get ℕ_discrete ch h.cmds.heap ≡ some new_channel
      → (after : Hub C R) × (offer command_id result_id node cmd (park command_id result_id cmd h).1
          ≡ ok (true, after))
        × (after.results ≡ (park command_id result_id cmd h).1.results)
        × (after.pending ≡ (park command_id result_id cmd h).1.pending)
  unfolding offer park try_send_at
  offer-delivered node ch cmd h found empty = (
    record (park command_id result_id cmd h).1 {
      cmds = record h.cmds { heap = Maps.put ℕ_discrete ch (full cmd) h.cmds.heap };
    },
    rw (found, empty, offer, try_send_at, park) refl,
    refl,
    refl,
  )

  send_command-delivered :
      (node : ℕ) (cmd : C) (others : Hub C R → Outcome Panic (Hub C R)) (h mid last : Hub C R)
      (answer : Outcome CommandError R)
      → offer command_id result_id node cmd (park command_id result_id cmd h).1 ≡ ok (true, mid)
      → others mid ≡ ok last
      → wait command_id result_id on_result (park command_id result_id cmd h).0 last ≡ some answer
      → send_command command_id result_id node cmd others on_result h
        ≡ ok (some answer, unpark command_id result_id cmd last)
  unfolding send_command
  send_command-delivered node cmd others h mid last answer offered ran answered =
      rw (offered, ran, answered) refl

  -- After any calls of the hub, SendCommand to a node whose stream has room for a command, if it
  -- wakes for a result, returns the one that is delivered for its id. Whatever else is done to the
  -- hub during the wait, before that result only no call may start or end a command with this id,
  -- or deliver a result for it; after it, any call may.
  pub send_command-answered :
      (calls before later : List (Call C R)) (h : Hub C R) (node ch : ℕ) (cmd : C) (result : R)
      → run command_id result_id calls new_hub ≡ ok h
      → Maps.get ℕ_discrete node h.cmds.table ≡ some ch
      → Maps.get ℕ_discrete ch h.cmds.heap ≡ some new_channel
      → result_id result ≡ command_id cmd
      → AreOthers command_id result_id (result_id result) before
      → (after : Hub C R) × (send_command command_id result_id node cmd
            (run command_id result_id (before ++ delivers result ∷ later))
            on_result
            h
          ≡ ok (some (ok result), after))
  send_command-answered calls before later h node ch cmd result past found empty same others =
      let parked = (park command_id result_id cmd h).1 in
      let waits = (park command_id result_id cmd h).0 in
      let sound = park-IsSound command_id result_id cmd h (history-IsSound calls h past) in
      let (mid, offered, same_results, same_pending) = offer-delivered node ch cmd h found empty in
      let (r, e, w) = offer-IsSound command_id result_id node cmd parked sound in
      let v : HubIsSound mid = rw (ap (λ p. p.1) (ok-injective (sym e ∙ offered))) at w in
      let a =
        moved-Awaits waits (result_id result) parked mid same_results same_pending
          (rw same (park-Awaits command_id result_id cmd h)) in
      let (last, ran, u) =
        run-IsSound command_id result_id (before ++ delivers result ∷ later) mid v in
      let held = run-first command_id result_id waits result before later mid last v others ran a in
      (
        unpark command_id result_id cmd last,
        send_command-delivered node cmd
            (run command_id result_id (before ++ delivers result ∷ later)) h mid last (ok result)
            offered ran (wait-Holds waits result last held),
      )
