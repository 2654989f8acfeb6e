-- ===== src/Panel/Hub/Sound.antt =====
-- The maps of the hub hold open channels, each for one node: internal/panel/control/hub.go.
use antimage.Common.{
  ℕ, ◌≡◌, refl, Bool, false, true, not, none, some, List, ℕ_discrete, arith, Option-cases, inl, inr,
  ite,
}
use antimage.Common.Maps
use antimage.Common.Maps.{get-put, get-delete, fresh_id-is_free}
use antimage.Common.Outcome.{ok}
use antimage.Panel.Hub.Channels.{receive, Channel, close_at, try_send_at, receive_at}
use antimage.Panel.Hub.Streams.{Side}

unfoldable pub opened : {A : Type 0} → ℕ → List (ℕ × Channel A) → Bool
opened ch heap = elim (Maps.get ℕ_discrete ch heap) [ none ↦ false | some c ↦ not c.closed ]

pub record IsSound {A : Type 0} (s : Side A) : Type 0 where
  pub live : (node ch : ℕ) → Maps.get ℕ_discrete node s.table ≡ some ch → opened ch s.heap ≡ true
  pub distinct :
      (n m ch : ℕ)
      → Maps.get ℕ_discrete n s.table ≡ some ch
      → Maps.get ℕ_discrete m s.table ≡ some ch
      → n ≡ m

opened-channel :
    {A : Type 0} (ch : ℕ) (heap : List (ℕ × Channel A))
    → opened ch heap ≡ true
    → (c : Channel A) × (Maps.get ℕ_discrete ch heap ≡ some c) × (c.closed ≡ false)
unfolding opened
opened-channel ch heap h = elim (Option-cases (Maps.get ℕ_discrete ch heap)) [
  | inl gone ↦ ground (arith, gone, h)
  | inr (c, found) ↦ (c, found, ground (arith, found, h))
]

opened-put :
    {A : Type 0} (ch d : ℕ) (c : Channel A) (heap : List (ℕ × Channel A))
    → opened d (Maps.put ℕ_discrete ch c heap)
      ≡ ite (ℕ_discrete d ch) (not c.closed) (opened d heap)
unfolding opened
opened-put ch d c heap = ground (arith, get-put ℕ_discrete ch d c heap)

-- Closing an open channel closes no other.
pub close_at-opened :
    {A : Type 0} (ch : ℕ) (heap : List (ℕ × Channel A))
    → opened ch heap ≡ true
    → (after : List (ℕ × Channel A)) × (close_at ch heap ≡ ok after)
      × ((d : ℕ) → (d ≡ ch → ⊥) → opened d heap ≡ true → opened d after ≡ true)
unfolding close_at
close_at-opened ch heap h =
    let (c, found, is_open) = opened-channel ch heap h in
    (
      Maps.put ℕ_discrete ch (record c { closed = true }) heap,
      ground (arith, found, is_open),
      λ d other kept.
          ground (arith, opened-put ch d (record c { closed = true }) heap, other, kept),
    )

opened-put_same :
    {A : Type 0} (ch d : ℕ) (b c : Channel A) (heap : List (ℕ × Channel A))
    → Maps.get ℕ_discrete ch heap ≡ some b
    → c.closed ≡ b.closed
    → opened d (Maps.put ℕ_discrete ch c heap) ≡ opened d heap
unfolding opened
opened-put_same ch d b c heap found same = elim (ℕ_discrete d ch) [
  | yes e ↦ ground (arith, get-put ℕ_discrete ch d c heap, e, found, same)
  | no n ↦ ground (arith, get-put ℕ_discrete ch d c heap, n)
]

-- A send to an open channel closes none.
pub try_send_at-opened :
    {A : Type 0} (ch : ℕ) (a : A) (heap : List (ℕ × Channel A))
    → opened ch heap ≡ true
    → (sent : Bool) × (after : List (ℕ × Channel A)) × (try_send_at ch a heap ≡ ok (sent, after))
      × ((d : ℕ) → opened d after ≡ opened d heap)
unfolding try_send_at
try_send_at-opened ch a heap h =
    let (c, found, is_open) = opened-channel ch heap h in
    elim (Option-cases c.buffer) [
      | inl empty ↦ (
        true,
        Maps.put ℕ_discrete ch (record c { buffer = some a }) heap,
        ground (arith, found, is_open, empty),
        λ d. opened-put_same ch d c (record c { buffer = some a }) heap found refl,
      )
      | inr (old, full) ↦ (
        false,
        Maps.put ℕ_discrete ch c heap,
        ground (arith, found, is_open, full),
        λ d. opened-put_same ch d c c heap found refl,
      )
    ]

receive-closed : {A : Type 0} (c : Channel A) → (receive c).1.closed ≡ c.closed
receive-closed c = elim (Option-cases c.buffer) [
  | inl empty ↦ rw empty refl
  | inr (a, full) ↦ rw full refl
]

pub receive_at-opened :
    {A : Type 0} (ch d : ℕ) (heap : List (ℕ × Channel A))
    → opened d (receive_at ch heap).1 ≡ opened d heap
unfolding receive_at
receive_at-opened ch d heap = elim (Option-cases (Maps.get ℕ_discrete ch heap)) [
  | inl gone ↦ rw (gone, receive_at) refl
  | inr (c, found) ↦
      rw (found, receive_at) (opened-put_same ch d c (receive c).1 heap found (receive-closed c))
]
