-- ===== src/Panel/Hub/Superseded.antt =====
-- A second stream of a node takes the place of the first: internal/panel/control/hub.go (Register).
use antimage.Common.{
  ℕ, ◌≡◌, refl, sym, true, false, none, some, ◌∷◌, ℕ_discrete, arith, ◌==◌, subst,
}
use antimage.Common.Maps
use antimage.Common.Maps.{get-put, fresh_id-is_free}
use antimage.Common.Outcome.{ok, bind-eq-ok, ok-pair}
use antimage.Panel.Hub.Channels.{Channel, new_channel, ended, close_at, receive_at}
use antimage.Panel.Hub.Streams.{
  Side, Hub, Registration, channel_of, close_existing, attach, detach, register, release, online,
}

abbrev ended_channel : {A : Type 0} → Channel A
ended_channel = record { buffer = none; closed = true }

closed-again :
    {A : Type 0} (node : ℕ) (s mid : Side A)
    → close_existing node (attach node s) ≡ ok mid
    → (Maps.get ℕ_discrete (channel_of s) mid.heap ≡ some ended_channel)
      × (mid.table ≡ (attach node s).table)
unfolding close_existing attach close_at Maps.get
closed-again node s mid e = ground (
  arith,
  e,
  get-put ℕ_discrete node node (channel_of s) s.table,
  get-put ℕ_discrete (channel_of s) (channel_of s) ended_channel
      ((channel_of s, new_channel) ∷ s.heap),
)

attached-channel :
    {A : Type 0} (node : ℕ) (s mid : Side A)
    → Maps.get ℕ_discrete (channel_of s) mid.heap ≡ some ended_channel
    → (Maps.get ℕ_discrete (channel_of s) (attach node mid).heap ≡ some ended_channel)
      × (Maps.get ℕ_discrete node (attach node mid).table ≡ some (channel_of mid))
      × ((channel_of mid == channel_of s) ≡ false)
unfolding attach Maps.get
attached-channel node s mid found = (
  ground (arith, found, fresh_id-is_free mid.heap),
  ground (arith, get-put ℕ_discrete node node (channel_of mid) mid.table),
  ground (arith, found, fresh_id-is_free mid.heap),
)

superseded :
    {A : Type 0} (node : ℕ) (s mid : Side A)
    → close_existing node (attach node s) ≡ ok mid
    → (detach node (channel_of s) (attach node mid) ≡ ok (attach node mid))
      × ((receive_at (channel_of s) (attach node mid).heap).0 ≡ ended)
unfolding detach receive_at
superseded node s mid e =
    let (found, entry, differs) = attached-channel node s mid (closed-again node s mid e).0 in
    (rw (entry, differs, detach) refl, rw (found, receive_at) refl)

module _ {C R : Type 0} where
  abbrev Ends : ℕ → Registration → Hub C R → Type 0
  Ends node old h =
      ((receive_at old.bump_ch h.conns.heap).0 ≡ ended)
      × ((receive_at old.cmd_ch h.cmds.heap).0 ≡ ended)
      × (release old h ≡ ok (record old { done = true }, h))
      × (online node h ≡ true)

  registered :
      (node : ℕ) (h after : Hub C R) (r : Registration)
      → register node h ≡ ok (r, after)
      → (conns : Side ℕ) × (cmds : Side C) × (close_existing node h.conns ≡ ok conns)
        × (close_existing node h.cmds ≡ ok cmds)
        × (record {
          node_id = node;
          bump_ch = channel_of conns;
          cmd_ch = channel_of cmds;
          done = false;
        }
            ≡ r)
        × (record h { conns = attach node conns; cmds = attach node cmds } ≡ after)
  unfolding register
  registered node h after r e =
      let (conns, e₁, r₁) = bind-eq-ok (close_existing node h.conns) _ e in
      let (cmds, e₂, r₂) = bind-eq-ok (close_existing node h.cmds) _ r₁ in
      let (is_r, is_after) = ok-pair r₂ in (conns, cmds, e₁, e₂, is_r, is_after)

  superseded_both :
      (node : ℕ) (h : Hub C R) (conns conns' : Side ℕ) (cmds cmds' : Side C)
      → close_existing node (attach node conns) ≡ ok conns'
      → close_existing node (attach node cmds) ≡ ok cmds'
      → Ends node
          (record {
            node_id = node;
            bump_ch = channel_of conns;
            cmd_ch = channel_of cmds;
            done = false;
          })
          (record h { conns = attach node conns'; cmds = attach node cmds' })
  unfolding release online
  superseded_both node h conns conns' cmds cmds' e e' =
      let (d, q) = superseded node conns conns' e in
      let (d', q') = superseded node cmds cmds' e' in
      let entry = (attached-channel node conns conns' (closed-again node conns conns' e).0).1 in
      (q, q', rw (d, d', release) refl, rw (entry, online) refl)

  -- If a node registers a second stream right after the first, the channels of the first end, the
  -- release of the first then changes nothing in the hub, and the node stays online.
  pub register-release :
      (node : ℕ) (h h₁ h₂ : Hub C R) (old new : Registration)
      → register node h ≡ ok (old, h₁)
      → register node h₁ ≡ ok (new, h₂)
      → ((receive_at old.bump_ch h₂.conns.heap).0 ≡ ended)
        × ((receive_at old.cmd_ch h₂.cmds.heap).0 ≡ ended)
        × (release old h₂ ≡ ok (record old { done = true }, h₂))
        × (online node h₂ ≡ true)
  register-release node h h₁ h₂ old new first second =
      let (conns, cmds, e₁, e₂, is_old, is_h₁) = registered node h h₁ old first in
      let (conns', cmds', e₃, e₄, is_new, is_h₂) = registered node h₁ h₂ new second in
      subst (λ r. Ends node r h₂) is_old
        (subst
          (λ k.
            Ends node
              (record {
                node_id = node;
                bump_ch = channel_of conns;
                cmd_ch = channel_of cmds;
                done = false;
              })
              k)
          is_h₂
          (superseded_both node h₁ conns conns' cmds cmds'
            (subst (λ k. close_existing node k.conns ≡ ok conns') (sym is_h₁) e₃)
            (subst (λ k. close_existing node k.cmds ≡ ok cmds') (sym is_h₁) e₄)))
