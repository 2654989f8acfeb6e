-- ===== src/Panel/Hub/Answered.antt =====
-- What happens to a caller that waits, while others use the hub: internal/panel/control/hub.go
-- (SendCommand and DeliverResult).
use antimage.Common.{
  ℕ, ◌≡◌, sym, String, String_discrete, some, List, [], ◌∷◌, ◌++◌, ℕ_discrete, arith, Option-cases,
  inl, ◌∙◌, inr,
}
use antimage.Common.Maps
use antimage.Common.Maps.{get-put, get-delete, fresh_id-is_free}
use antimage.Common.Outcome.{ok, bind-eq-ok, ok-injective}
use antimage.Panel.Hub.Channels.{Channel, new_channel, try_send_at}
use antimage.Panel.Hub.Streams.{Hub, register, release, notify}
use antimage.Panel.Hub.Commands.{park, offer, unpark, deliver_result}
use antimage.Panel.Hub.Calls.{
  Call, registers, releases, notifies, receives_bump, receives_command, parks, offers, unparks,
  delivers, step, run, HubIsSound,
}
use antimage.Panel.Hub.Safe.{step-keeps}
use antimage.Panel.Hub.Callers.{
  full, try_send_at-others, try_send_at-empty, try_send_at-full, register-callers, release-callers,
  notify-callers, offer-callers,
}

module _ {C R : Type 0} (command_id : C → String) (result_id : R → String) where
  -- A call that neither sends a command with this id, ends one, nor delivers a result for it.
  unfoldable pub IsOther : String → Call C R → Type 0
  IsOther id (parks cmd) = command_id cmd ≡ id → ⊥
  IsOther id (unparks cmd) = command_id cmd ≡ id → ⊥
  IsOther id (delivers result) = result_id result ≡ id → ⊥
  IsOther id (registers node) = Unit
  IsOther id (releases g) = Unit
  IsOther id (notifies node revision) = Unit
  IsOther id (receives_bump ch) = Unit
  IsOther id (receives_command ch) = Unit
  IsOther id (offers node cmd) = Unit

  unfoldable pub AreOthers : String → List (Call C R) → Type 0
  AreOthers id [] = Unit
  AreOthers id (call ∷ calls) = IsOther id call × AreOthers id calls

  -- The caller with this id has had no result yet.
  unfoldable pub Awaits : ℕ → String → Hub C R → Type 0
  Awaits ch id h =
      (Maps.get String_discrete id h.pending ≡ some ch)
      × (Maps.get ℕ_discrete ch h.results ≡ some new_channel)

  unfoldable pub Holds : ℕ → R → Hub C R → Type 0
  Holds ch result h = Maps.get ℕ_discrete ch h.results ≡ some (full result)

  parked-kept :
      (cmd : C) (ch : ℕ) (h : Hub C R) (c : Channel R)
      → Maps.get ℕ_discrete ch h.results ≡ some c
      → Maps.get ℕ_discrete ch (park command_id result_id cmd h).1.results ≡ some c
  unfolding park Maps.get
  parked-kept cmd ch h c found = ground (arith, found, fresh_id-is_free h.results)

  pub park-Awaits :
      (cmd : C) (h : Hub C R)
      → Awaits
          (park command_id result_id cmd h).0
          (command_id cmd)
          (park command_id result_id cmd h).1
  unfolding Awaits park Maps.get
  park-Awaits cmd h = (
    ground (
      arith,
      get-put String_discrete (command_id cmd) (command_id cmd) (Maps.fresh_id h.results) h.pending,
    ),
    ground arith,
  )

  deliver-Awaits :
      (ch : ℕ) (id : String) (result : R) (h after : Hub C R)
      → HubIsSound h
      → (result_id result ≡ id → ⊥)
      → deliver_result command_id result_id result h ≡ ok after
      → Awaits ch id h
      → Awaits ch id after
  unfolding Awaits deliver_result
  deliver-Awaits ch id result h after v other e (p, q) =
      elim (Option-cases (Maps.get String_discrete (result_id result) h.pending)) [
        | inl gone ↦ rw (sym (ok-injective (rw (gone, deliver_result) at e))) (p, q)
        | inr (d, found) ↦
            let (r, first, second) =
              bind-eq-ok (try_send_at d result h.results) _ (rw (found, deliver_result) at e) in
            let apart = λ (same : ch ≡ d).
              other (v.waiting.distinct (result_id result) id ch (rw same found) p) in
            rw (sym (ok-injective second))
              (p, try_send_at-others d ch result h.results r apart first ∙ q)
      ]

  step-Awaits :
      (ch : ℕ) (id : String) (call : Call C R) (h after : Hub C R)
      → HubIsSound h
      → IsOther id call
      → step command_id result_id call h ≡ ok after
      → Awaits ch id h
      → Awaits ch id after
  unfolding Awaits step IsOther unpark park
  step-Awaits ch id (registers node) h after v other e (p, q) =
      let (r, first, second) = bind-eq-ok (register node h) _ e in
      let (s, t) = register-callers command_id result_id node h r first in
      rw (sym (ok-injective second), s, t) (p, q)
  step-Awaits ch id (releases g) h after v other e (p, q) =
      let (r, first, second) = bind-eq-ok (release g h) _ e in
      let (s, t) = release-callers command_id result_id g h r first in
      rw (sym (ok-injective second), s, t) (p, q)
  step-Awaits ch id (notifies node revision) h after v other e (p, q) =
      let (r, first, second) = bind-eq-ok (notify node revision h) _ e in
      let (s, t) = notify-callers command_id result_id node revision h r first in
      rw (sym (ok-injective second), s, t) (p, q)
  step-Awaits ch id (offers node cmd) h after v other e (p, q) =
      let (r, first, second) = bind-eq-ok (offer command_id result_id node cmd h) _ e in
      let (s, t) = offer-callers command_id result_id node cmd h r first in
      rw (sym (ok-injective second), s, t) (p, q)
  step-Awaits ch id (receives_bump d) h after v other e (p, q) = rw (sym (ok-injective e)) (p, q)
  step-Awaits ch id (receives_command d) h after v other e (p, q) = rw (sym (ok-injective e)) (p, q)
  step-Awaits ch id (parks cmd) h after v other e (p, q) = rw (sym (ok-injective e)) (
    ground (
      arith,
      p,
      other,
      get-put String_discrete (command_id cmd) id (Maps.fresh_id h.results) h.pending,
    ),
    parked-kept cmd ch h new_channel q,
  )
  step-Awaits ch id (unparks cmd) h after v other e (p, q) =
      rw (sym (ok-injective e))
        (ground (arith, p, other, get-delete String_discrete (command_id cmd) id h.pending), q)
  step-Awaits ch id (delivers result) h after v other e (p, q) =
      deliver-Awaits ch id result h after v other e (p, q)

  deliver-Holds :
      (ch : ℕ) (kept result : R) (h after : Hub C R)
      → deliver_result command_id result_id result h ≡ ok after
      → Holds ch kept h
      → Holds ch kept after
  unfolding Holds deliver_result
  deliver-Holds ch kept result h after e p =
      elim (Option-cases (Maps.get String_discrete (result_id result) h.pending)) [
        | inl gone ↦ rw (sym (ok-injective (rw (gone, deliver_result) at e))) p
        | inr (d, found) ↦
            let (r, first, second) =
              bind-eq-ok (try_send_at d result h.results) _ (rw (found, deliver_result) at e) in
            rw (sym (ok-injective second)) (try_send_at-full d ch result kept h.results r p first)
      ]

  step-Holds :
      (ch : ℕ) (kept : R) (call : Call C R) (h after : Hub C R)
      → step command_id result_id call h ≡ ok after
      → Holds ch kept h
      → Holds ch kept after
  unfolding Holds step unpark
  step-Holds ch kept (registers node) h after e p =
      let (r, first, second) = bind-eq-ok (register node h) _ e in
      rw (sym (ok-injective second), (register-callers command_id result_id node h r first).0) p
  step-Holds ch kept (releases g) h after e p =
      let (r, first, second) = bind-eq-ok (release g h) _ e in
      rw (sym (ok-injective second), (release-callers command_id result_id g h r first).0) p
  step-Holds ch kept (notifies node revision) h after e p =
      let (r, first, second) = bind-eq-ok (notify node revision h) _ e in
      rw
        (sym (ok-injective second), (notify-callers command_id result_id node revision h r first).0)
        p
  step-Holds ch kept (offers node cmd) h after e p =
      let (r, first, second) = bind-eq-ok (offer command_id result_id node cmd h) _ e in
      rw (sym (ok-injective second), (offer-callers command_id result_id node cmd h r first).0) p
  step-Holds ch kept (receives_bump d) h after e p = rw (sym (ok-injective e)) p
  step-Holds ch kept (receives_command d) h after e p = rw (sym (ok-injective e)) p
  step-Holds ch kept (parks cmd) h after e p =
      rw (sym (ok-injective e)) (parked-kept cmd ch h (full kept) p)
  step-Holds ch kept (unparks cmd) h after e p = rw (sym (ok-injective e)) p
  step-Holds ch kept (delivers result) h after e p = deliver-Holds ch kept result h after e p

  run-Holds :
      (ch : ℕ) (kept : R) (calls : List (Call C R)) (h after : Hub C R)
      → run command_id result_id calls h ≡ ok after
      → Holds ch kept h
      → Holds ch kept after
  unfolding run
  run-Holds ch kept [] h after e p = rw (sym (ok-injective e)) p
  run-Holds ch kept (call ∷ calls) h after e p =
      let (mid, first, second) = bind-eq-ok (step command_id result_id call h) _ e in
      run-Holds ch kept calls mid after second (step-Holds ch kept call h mid first p)

  deliver-first :
      (ch : ℕ) (result : R) (h after : Hub C R)
      → deliver_result command_id result_id result h ≡ ok after
      → Awaits ch (result_id result) h
      → Holds ch result after
  unfolding Awaits Holds deliver_result
  deliver-first ch result h after e (p, q) =
      let (r, first, second) =
        bind-eq-ok (try_send_at ch result h.results) _ (rw (p, deliver_result) at e) in
      rw (sym (ok-injective second)) (try_send_at-empty ch result h.results r q first)

  pub run-first :
      (ch : ℕ) (result : R) (before later : List (Call C R)) (h after : Hub C R)
      → HubIsSound h
      → AreOthers (result_id result) before
      → run command_id result_id (before ++ delivers result ∷ later) h ≡ ok after
      → Awaits ch (result_id result) h
      → Holds ch result after
  unfolding run AreOthers step
  run-first ch result [] later h after v others e a =
      let (mid, first, second) = bind-eq-ok (deliver_result command_id result_id result h) _ e in
      run-Holds ch result later mid after second (deliver-first ch result h mid first a)
  run-first ch result (call ∷ before) later h after v (other, others) e a =
      let (mid, first, second) = bind-eq-ok (step command_id result_id call h) _ e in
      run-first ch result before later mid after
        (step-keeps command_id result_id call h mid v first) others second
        (step-Awaits ch (result_id result) call h mid v other first a)
