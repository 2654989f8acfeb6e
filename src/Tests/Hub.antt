-- ===== src/Tests/Hub.antt =====
-- Two nodes, and a command for the first.
use antimage.Common.{
  ℕ, ◌≡◌, refl, true, false, String, none, some, List, [], ◌∷◌, ◌++◌, ℕ_discrete, String_discrete,
}
use antimage.Common.Maps
use antimage.Common.Outcome.{ok, err}
use antimage.Panel.Hub.Channels.{value, ended, close_at, try_send_at, receive_at}
use antimage.Panel.Hub.Streams.{
  Hub, Registration, new_hub, close_existing, attach, detach, register, release, notify, online,
}
use antimage.Panel.Hub.Commands.{
  on_result, on_timer, not_delivered, park, offer, unpark, send_command,
}
use antimage.Panel.Hub.Calls.{
  Call, registers, releases, notifies, receives_command, parks, delivers, step, run, HubIsSound,
}
use antimage.Panel.Hub.Promises.{run-never_panics, send_command-answered}
use antimage.Panel.Hub.Superseded.{register-release}
use antimage.Panel.Hub.Answered.{AreOthers, IsOther}

abbrev id_of : String → String
id_of s = s

abbrev answer_id : String × ℕ → String
answer_id r = r.0

abbrev first_stream : Registration
first_stream = record { node_id = 7; bump_ch = 1; cmd_ch = 1; done = false }

abbrev calls : List (Call String (String × ℕ))
calls = registers 7 ∷ notifies 7 3 ∷ registers 9 ∷ registers 7 ∷ releases first_stream ∷ []

abbrev both : Hub String (String × ℕ)
both = record {
  conns = record {
    heap =
        (3, record { buffer = none; closed = false })
        ∷ (2, record { buffer = none; closed = false })
        ∷ (1, record { buffer = some 3; closed = true })
        ∷ [];
    table = (7, 3) ∷ (9, 2) ∷ [];
  };
  cmds = record {
    heap =
        (3, record { buffer = none; closed = false })
        ∷ (2, record { buffer = none; closed = false })
        ∷ (1, record { buffer = none; closed = true })
        ∷ [];
    table = (7, 3) ∷ (9, 2) ∷ [];
  };
  results = [];
  pending = [];
}

run-calls : run id_of answer_id calls new_hub ≡ ok both
unfolding ℕ_discrete Maps.fresh_id Maps.get Maps.put Maps.delete close_at try_send_at close_existing
    attach detach register release notify step run
run-calls = refl

receive-pending : (receive_at 1 both.conns.heap).0 ≡ value 3
unfolding ℕ_discrete Maps.get receive_at
receive-pending = refl

-- The node 4 is not there, so the command is not delivered.
send_command-absent :
    send_command id_of answer_id 4 "restart" (λ h. ok h) on_timer both
    ≡ ok (
      some (err not_delivered),
      record both { results = (1, record { buffer = none; closed = false }) ∷ [] },
    )
unfolding ℕ_discrete Maps.fresh_id Maps.get Maps.put Maps.delete park offer unpark send_command
    String_discrete
send_command-absent = refl

abbrev before : List (Call String (String × ℕ))
before = notifies 7 4 ∷ registers 5 ∷ parks "stop" ∷ delivers ("stop", 0) ∷ receives_command 3 ∷ []

before-AreOthers : AreOthers id_of answer_id "restart" before
unfolding AreOthers IsOther
before-AreOthers = (tt, (tt, ((λ e. cc e), ((λ e. cc e), (tt, tt)))))

run-never_panics_example :
    (after : Hub String (String × ℕ)) × (run id_of answer_id calls new_hub ≡ ok after)
    × HubIsSound after
run-never_panics_example = run-never_panics id_of answer_id calls

send_command-answered_example :
    (after : Hub String (String × ℕ)) × (send_command id_of answer_id 7 "restart"
        (run id_of answer_id (before ++ delivers ("restart", 6) ∷ delivers ("restart", 8) ∷ []))
        on_result
        both
      ≡ ok (some (ok ("restart", 6)), after))
unfolding ℕ_discrete Maps.get
send_command-answered_example =
    send_command-answered id_of answer_id calls before (delivers ("restart", 8) ∷ []) both 7 3
      "restart" ("restart", 6) run-calls refl refl refl before-AreOthers

abbrev once : Hub String (String × ℕ)
once = record {
  conns = record { heap = (1, record { buffer = none; closed = false }) ∷ []; table = (7, 1) ∷ [] };
  cmds = record { heap = (1, record { buffer = none; closed = false }) ∷ []; table = (7, 1) ∷ [] };
  results = [];
  pending = [];
}

abbrev twice : Hub String (String × ℕ)
twice = record once {
  conns = record {
    heap =
        (2, record { buffer = none; closed = false })
        ∷ (1, record { buffer = none; closed = true })
        ∷ [];
    table = (7, 2) ∷ [];
  };
  cmds = record {
    heap =
        (2, record { buffer = none; closed = false })
        ∷ (1, record { buffer = none; closed = true })
        ∷ [];
    table = (7, 2) ∷ [];
  };
}

register-release_example :
    ((receive_at 1 twice.conns.heap).0 ≡ ended)
    × ((receive_at 1 twice.cmds.heap).0 ≡ ended)
    × (release first_stream twice ≡ ok (record first_stream { done = true }, twice))
    × (online 7 twice ≡ true)
unfolding ℕ_discrete Maps.fresh_id Maps.get Maps.put close_at close_existing attach register
register-release_example =
    register-release 7 new_hub once twice first_stream
      (record { node_id = 7; bump_ch = 2; cmd_ch = 2; done = false }) refl refl
