-- ===== src/Panel/Hub/Streams.antt =====
-- internal/panel/control/hub.go: Hub, Register, its release function, Notify, Online and Count.
-- Each holds `mu` throughout, so it is one step.
use antimage.Common.{
  ℕ, ◌==◌, Bool, false, true, String, none, some, List, [], ◌∷◌, length, ℕ_discrete, if◌then◌else◌,
}
use antimage.Common.Maps
use antimage.Common.Outcome.{Outcome, ok, ◌>>=◌}
use antimage.Panel.Hub.Channels.{Panic, Channel, new_channel, close_at, try_send_at}

-- The channels of one kind, and the map from node ids to them: `conns`, or `cmds`.
pub record Side (A : Type 0) : Type 0 where
  pub heap : List (ℕ × Channel A)
  pub table : List (ℕ × ℕ)

-- Hub; `C` is pb.AgentCommand and `R` is pb.AgentCommandResult. `results` are the channels of the
-- callers that wait.
pub record Hub (C R : Type 0) : Type 0 where
  pub conns : Side ℕ
  pub cmds : Side C
  pub results : List (ℕ × Channel R)
  pub pending : List (String × ℕ)

-- NewHub
abbrev pub new_hub : {C R : Type 0} → Hub C R
new_hub = record {
  conns = record { heap = []; table = [] };
  cmds = record { heap = []; table = [] };
  results = [];
  pending = [];
}

-- What Register returns: the channels, and the variables that `rel` closes over.
pub record Registration : Type 0 where
  pub node_id : ℕ
  pub bump_ch : ℕ
  pub cmd_ch : ℕ
  pub done : Bool

-- if existing, ok := …[nodeID]; ok { close(existing) }
unfoldable pub close_existing : {A : Type 0} → ℕ → Side A → Outcome Panic (Side A)
close_existing node s = elim (Maps.get ℕ_discrete node s.table) [
  | none ↦ ok s
  | some existing ↦ close_at existing s.heap >>= (λ heap. ok (record s { heap = heap }))
]

-- The new channel, and its entry.
abbrev pub channel_of : {A : Type 0} → Side A → ℕ
channel_of s = Maps.fresh_id s.heap

unfoldable pub attach : {A : Type 0} → ℕ → Side A → Side A
attach node s = record {
  heap = (channel_of s, new_channel) ∷ s.heap;
  table = Maps.put ℕ_discrete node (channel_of s) s.table;
}

-- if current, ok := …[nodeID]; ok && current == ch { delete(…); close(ch) }
unfoldable pub detach : {A : Type 0} → ℕ → ℕ → Side A → Outcome Panic (Side A)
detach node ch s = elim (Maps.get ℕ_discrete node s.table) [
  | none ↦ ok s
  | some current ↦
      if current == ch
      then close_at ch s.heap
        >>= (λ heap. ok (record { heap = heap; table = Maps.delete ℕ_discrete node s.table }))
      else ok s
]

module _ {C R : Type 0} where
  -- Register
  unfoldable pub register : ℕ → Hub C R → Outcome Panic (Registration × Hub C R)
  register node h = do
    conns ← close_existing node h.conns
    cmds ← close_existing node h.cmds
    ok (
      record { node_id = node; bump_ch = channel_of conns; cmd_ch = channel_of cmds; done = false },
      record h { conns = attach node conns; cmds = attach node cmds },
    )

  -- rel, under the sync.Once
  unfoldable pub release : Registration → Hub C R → Outcome Panic (Registration × Hub C R)
  release r h = if r.done then ok (r, h) else (do
    conns ← detach r.node_id r.bump_ch h.conns
    cmds ← detach r.node_id r.cmd_ch h.cmds
    ok (record r { done = true }, record h { conns = conns; cmds = cmds }))

  -- Notify
  unfoldable pub notify : ℕ → ℕ → Hub C R → Outcome Panic (Bool × Hub C R)
  notify node revision h = elim (Maps.get ℕ_discrete node h.conns.table) [
    | none ↦ ok (false, h)
    | some ch ↦
        try_send_at ch revision h.conns.heap
        >>= (λ sent. ok (true, record h { conns = record h.conns { heap = sent.1 } }))
  ]

  -- Online
  unfoldable pub online : ℕ → Hub C R → Bool
  online node h = elim (Maps.get ℕ_discrete node h.conns.table) [ none ↦ false | some ch ↦ true ]

  -- Count
  unfoldable pub count : Hub C R → ℕ
  count h = length h.conns.table
