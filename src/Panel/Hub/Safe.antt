-- ===== src/Panel/Hub/Safe.antt =====
-- No call of the hub panics: internal/panel/control/hub.go.
use antimage.Common.{
  ℕ, ◌≡◌, refl, sym, false, String, String_discrete, some, List, [], ◌∷◌, ℕ_discrete, arith,
  Option-cases, Bool-cases, Bool, inl, inr, ◌∙◌,
}
use antimage.Common.Maps
use antimage.Common.Outcome.{Outcome, ok, ok-injective}
use antimage.Panel.Hub.Channels.{Panic, Channel}
use antimage.Panel.Hub.Streams.{Side, Hub, Registration, register, release, notify, new_hub}
use antimage.Panel.Hub.Commands.{park, offer, unpark, deliver_result}
use antimage.Panel.Hub.Sound.{opened, IsSound, try_send_at-opened, receive_at-opened}
use antimage.Panel.Hub.Entries.{
  opened-cons, opened-fresh, put-cases, delete-kept, close_existing-attach, detach-IsSound,
}
use antimage.Panel.Hub.Calls.{
  Call, registers, releases, notifies, receives_bump, receives_command, parks, offers, unparks,
  delivers, step, run, HubIsSound,
}

-- A heap with the same open channels serves the same map.
keeps_open :
    {A : Type 0} (s : Side A) (heap : List (ℕ × Channel A))
    → IsSound s
    → ((d : ℕ) → opened d heap ≡ opened d s.heap)
    → IsSound (record s { heap = heap })
keeps_open s heap v same = record {
  live = λ n ch h. rw (same ch) (v.live n ch h);
  distinct = v.distinct;
}

module _ {C R : Type 0} (command_id : C → String) (result_id : R → String) where
  Steps : Outcome Panic (Hub C R) → Type 0
  Steps out = (after : Hub C R) × (out ≡ ok after) × HubIsSound after

  register-IsSound :
      (node : ℕ) (h : Hub C R) → HubIsSound h → Steps (step command_id result_id (registers node) h)
  unfolding Steps step register
  register-IsSound node h v =
      let (conns, e₁, w₁) = close_existing-attach node h.conns v.conns in
      let (cmds, e₂, w₂) = close_existing-attach node h.cmds v.cmds in
      (_, rw (e₁, e₂) refl, record { conns = w₁; cmds = w₂; waiting = v.waiting })

  release-IsSound :
      (r : Registration) (h : Hub C R)
      → HubIsSound h
      → Steps (step command_id result_id (releases r) h)
  unfolding Steps step release
  release-IsSound r h v = elim (Bool-cases r.done) [
    | inl done ↦ (h, rw done refl, v)
    | inr first ↦
        let (conns, e₁, w₁) = detach-IsSound r.node_id r.bump_ch h.conns v.conns in
        let (cmds, e₂, w₂) = detach-IsSound r.node_id r.cmd_ch h.cmds v.cmds in
        (_, rw (first, e₁, e₂) refl, record { conns = w₁; cmds = w₂; waiting = v.waiting })
  ]

  notify-IsSound :
      (node revision : ℕ) (h : Hub C R)
      → HubIsSound h
      → Steps (step command_id result_id (notifies node revision) h)
  unfolding Steps step notify
  notify-IsSound node revision h v = elim (Option-cases (Maps.get ℕ_discrete node h.conns.table)) [
    | inl gone ↦ (h, rw (gone, notify) refl, v)
    | inr (ch, found) ↦
        let (sent, heap, e, same) =
          try_send_at-opened ch revision h.conns.heap (v.conns.live node ch found) in
        (
          record h { conns = record h.conns { heap = heap } },
          rw (found, e, notify) refl,
          record {
            conns = keeps_open h.conns heap v.conns same;
            cmds = v.cmds;
            waiting = v.waiting;
          },
        )
  ]

  pub offer-IsSound :
      (node : ℕ) (cmd : C) (h : Hub C R)
      → HubIsSound h
      → (r : Bool × Hub C R) × (offer command_id result_id node cmd h ≡ ok r) × HubIsSound r.1
  unfolding offer
  offer-IsSound node cmd h v = elim (Option-cases (Maps.get ℕ_discrete node h.cmds.table)) [
    | inl gone ↦ ((false, h), rw (gone, offer) refl, v)
    | inr (ch, found) ↦
        let (sent, heap, e, same) =
          try_send_at-opened ch cmd h.cmds.heap (v.cmds.live node ch found) in
        (
          (sent, record h { cmds = record h.cmds { heap = heap } }),
          rw (found, offer, e) refl,
          record {
            conns = v.conns;
            cmds = keeps_open h.cmds heap v.cmds same;
            waiting = v.waiting;
          },
        )
  ]

  deliver-IsSound :
      (result : R) (h : Hub C R)
      → HubIsSound h
      → Steps (step command_id result_id (delivers result) h)
  unfolding Steps step deliver_result
  deliver-IsSound result h v =
      elim (Option-cases (Maps.get String_discrete (result_id result) h.pending)) [
        | inl gone ↦ (h, rw (gone, deliver_result) refl, v)
        | inr (ch, found) ↦
            let (sent, results, e, same) =
              try_send_at-opened ch result h.results (v.waiting.live (result_id result) ch found) in
            (
              record h { results = results },
              rw (found, e, deliver_result) refl,
              record {
                conns = v.conns;
                cmds = v.cmds;
                waiting = record {
                  live = λ id c k. rw (same c) (v.waiting.live id c k);
                  distinct = v.waiting.distinct;
                };
              },
            )
      ]

  -- The channel that SendCommand makes is no other caller's.
  parked-is_free :
      (h : Hub C R)
      → HubIsSound h
      → (id : String) → Maps.get String_discrete id h.pending ≡ some (Maps.fresh_id h.results)
      → ⊥
  parked-is_free h v id kept =
      ground (arith, v.waiting.live id (Maps.fresh_id h.results) kept, opened-fresh h.results)

  pub park-IsSound :
      (cmd : C) (h : Hub C R) → HubIsSound h → HubIsSound (park command_id result_id cmd h).1
  unfolding park
  park-IsSound cmd h v =
      let new = Maps.fresh_id h.results in
      let unheld = parked-is_free h v in
      record {
        conns = v.conns;
        cmds = v.cmds;
        waiting = record {
          live = λ id ch k.
              elim (put-cases String_discrete (command_id cmd) id new ch h.pending k) [
                | inl (e, is_new) ↦ opened-cons new ch h.results (inr is_new)
                | inr (other, kept) ↦ opened-cons new ch h.results (inl (v.waiting.live id ch kept))
              ];
          distinct = λ i j ch k l.
              elim (put-cases String_discrete (command_id cmd) i new ch h.pending k) [
                | inl (e, is_new) ↦
                    elim (put-cases String_discrete (command_id cmd) j new ch h.pending l) [
                      | inl (e', is_new') ↦ cc
                      | inr (other, kept) ↦ absurd (unheld j (rw (sym is_new) kept))
                    ]
                | inr (other, kept) ↦
                    elim (put-cases String_discrete (command_id cmd) j new ch h.pending l) [
                      | inl (e', is_new') ↦ absurd (unheld i (rw (sym is_new') kept))
                      | inr (other', kept') ↦ v.waiting.distinct i j ch kept kept'
                    ]
              ];
        };
      }

  pub unpark-IsSound :
      (cmd : C) (h : Hub C R) → HubIsSound h → HubIsSound (unpark command_id result_id cmd h)
  unfolding unpark
  unpark-IsSound cmd h v = record {
    conns = v.conns;
    cmds = v.cmds;
    waiting = record {
      live = λ id ch k.
          v.waiting.live id ch (delete-kept String_discrete (command_id cmd) id ch h.pending k).1;
      distinct = λ i j ch k l.
          v.waiting.distinct i j ch
            (delete-kept String_discrete (command_id cmd) i ch h.pending k).1
            (delete-kept String_discrete (command_id cmd) j ch h.pending l).1;
    };
  }

  step-IsSound :
      (call : Call C R) (h : Hub C R) → HubIsSound h → Steps (step command_id result_id call h)
  unfolding Steps step
  step-IsSound (registers node) h v = register-IsSound node h v
  step-IsSound (releases r) h v = release-IsSound r h v
  step-IsSound (notifies node revision) h v = notify-IsSound node revision h v
  step-IsSound (receives_bump ch) h v = (
    _,
    refl,
    record {
      conns = keeps_open h.conns _ v.conns (λ d. receive_at-opened ch d h.conns.heap);
      cmds = v.cmds;
      waiting = v.waiting;
    },
  )
  step-IsSound (receives_command ch) h v = (
    _,
    refl,
    record {
      conns = v.conns;
      cmds = keeps_open h.cmds _ v.cmds (λ d. receive_at-opened ch d h.cmds.heap);
      waiting = v.waiting;
    },
  )
  step-IsSound (parks cmd) h v = (_, refl, park-IsSound cmd h v)
  step-IsSound (offers node cmd) h v =
      let (r, e, w) = offer-IsSound node cmd h v in (r.1, rw e refl, w)
  step-IsSound (unparks cmd) h v = (_, refl, unpark-IsSound cmd h v)
  step-IsSound (delivers result) h v = deliver-IsSound result h v

  pub step-keeps :
      (call : Call C R) (h after : Hub C R)
      → HubIsSound h
      → step command_id result_id call h ≡ ok after
      → HubIsSound after
  unfolding Steps
  step-keeps call h after v e =
      let (mid, f, w) = step-IsSound call h v in rw (ok-injective (sym e ∙ f)) w

  pub run-IsSound :
      (calls : List (Call C R)) (h : Hub C R)
      → HubIsSound h
      → (after : Hub C R) × (run command_id result_id calls h ≡ ok after) × HubIsSound after
  unfolding run Steps
  run-IsSound [] h v = (h, refl, v)
  run-IsSound (call ∷ calls) h v =
      let (mid, e, w) = step-IsSound call h v in
      let (after, f, u) = run-IsSound calls mid w in (after, rw (e, run, f) refl, u)

  pub new_hub-IsSound : HubIsSound (new_hub {C = C} {R = R})
  unfolding Maps.get
  new_hub-IsSound = record {
    conns = record { live = λ n ch h. cc; distinct = λ n m ch h g. cc };
    cmds = record { live = λ n ch h. cc; distinct = λ n m ch h g. cc };
    waiting = record { live = λ n ch h. cc; distinct = λ n m ch h g. cc };
  }
