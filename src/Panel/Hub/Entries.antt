-- ===== src/Panel/Hub/Entries.antt =====
-- The entries of the maps of the hub under Register and the release function:
-- internal/panel/control/hub.go.
use antimage.Common.{
  ℕ, ◌≡◌, refl, sym, true, false, some, List, ◌∷◌, ℕ_discrete, arith, Option-cases, ◌⊎◌, inr, inl,
  Bool-cases, ◌==◌,
}
use antimage.Common.Maps
use antimage.Common.Maps.{get-put, get-delete, fresh_id-is_free}
use antimage.Common.Outcome.{ok}
use antimage.Panel.Hub.Channels.{Channel, new_channel}
use antimage.Panel.Hub.Streams.{Side, channel_of, close_existing, attach, detach}
use antimage.Panel.Hub.Sound.{opened, IsSound, close_at-opened}

pub opened-cons :
    {A : Type 0} (ch d : ℕ) (heap : List (ℕ × Channel A))
    → (opened d heap ≡ true) ⊎ (d ≡ ch)
    → opened d ((ch, new_channel) ∷ heap) ≡ true
unfolding opened Maps.get
opened-cons ch d heap h = ground (arith, h)

pub opened-fresh :
    {A : Type 0} (heap : List (ℕ × Channel A)) → opened (Maps.fresh_id heap) heap ≡ false
unfolding opened
opened-fresh heap = ground (arith, fresh_id-is_free heap)

-- Every entry but that of `node` holds an open channel.
IsOpenBut : {A : Type 0} → ℕ → Side A → Type 0
IsOpenBut node s =
    (n ch : ℕ) → (n ≡ node → ⊥) → Maps.get ℕ_discrete n s.table ≡ some ch → opened ch s.heap ≡ true

IsDistinct : {A : Type 0} → Side A → Type 0
IsDistinct s =
    (n m ch : ℕ)
    → Maps.get ℕ_discrete n s.table ≡ some ch
    → Maps.get ℕ_discrete m s.table ≡ some ch
    → n ≡ m

pub put-cases :
    {K : Type 0} (dec : Discrete K) (k j : K) (v w : ℕ) (m : List (K × ℕ))
    → Maps.get dec j (Maps.put dec k v m) ≡ some w
    → ((j ≡ k) × (w ≡ v)) ⊎ ((j ≡ k → ⊥) × (Maps.get dec j m ≡ some w))
put-cases dec k j v w m h = elim (dec j k) [
  | yes e ↦ inl (e, ground (arith, h, e, get-put dec k j v m))
  | no other ↦ inr (other, ground (arith, h, other, get-put dec k j v m))
]

pub delete-kept :
    {K : Type 0} (dec : Discrete K) (k j : K) (v : ℕ) (m : List (K × ℕ))
    → Maps.get dec j (Maps.delete dec k m) ≡ some v
    → (j ≡ k → ⊥) × (Maps.get dec j m ≡ some v)
delete-kept dec k j v m h = elim (dec j k) [
  | yes e ↦ absurd (ground (arith, h, e, get-delete dec k j m))
  | no other ↦ (other, ground (arith, h, other, get-delete dec k j m))
]

new_channel-is_free :
    {A : Type 0} (node : ℕ) (s : Side A)
    → IsOpenBut node s
    → (n : ℕ) → (n ≡ node → ⊥)
    → Maps.get ℕ_discrete n s.table ≡ some (channel_of s)
    → ⊥
unfolding IsOpenBut
new_channel-is_free node s open_but n other h =
    ground (arith, open_but n (channel_of s) other h, opened-fresh s.heap)

attach-IsSound :
    {A : Type 0} (node : ℕ) (s : Side A) → IsOpenBut node s → IsDistinct s → IsSound (attach node s)
unfolding attach IsOpenBut IsDistinct
attach-IsSound node s open_but distinct =
    let new = channel_of s in
    let unheld = new_channel-is_free node s open_but in
    record {
      live = λ n ch h. elim (put-cases ℕ_discrete node n new ch s.table h) [
        | inl (e, is_new) ↦ opened-cons new ch s.heap (inr is_new)
        | inr (other, kept) ↦ opened-cons new ch s.heap (inl (open_but n ch other kept))
      ];
      distinct = λ n m ch h g. elim (put-cases ℕ_discrete node n new ch s.table h) [
        | inl (e, is_new) ↦ elim (put-cases ℕ_discrete node m new ch s.table g) [
          | inl (e', is_new') ↦ cc
          | inr (other, kept) ↦ absurd (unheld m other (rw (sym is_new) kept))
        ]
        | inr (other, kept) ↦ elim (put-cases ℕ_discrete node m new ch s.table g) [
          | inl (e, is_new) ↦ absurd (unheld n other (rw (sym is_new) kept))
          | inr (other', kept') ↦ distinct n m ch kept kept'
        ]
      ];
    }

-- Register closes the channel of the node's earlier stream only, and its own are open.
pub close_existing-attach :
    {A : Type 0} (node : ℕ) (s : Side A)
    → IsSound s
    → (mid : Side A) × (close_existing node s ≡ ok mid) × IsSound (attach node mid)
unfolding close_existing IsOpenBut IsDistinct
close_existing-attach node s v = elim (Option-cases (Maps.get ℕ_discrete node s.table)) [
  | inl gone ↦ (
    s,
    rw (gone, close_existing) refl,
    attach-IsSound node s (λ n ch other h. v.live n ch h) v.distinct,
  )
  | inr (old, found) ↦
      let (heap, e, kept) = close_at-opened old s.heap (v.live node old found) in
      (
        record s { heap = heap },
        rw (found, e, close_existing) refl,
        attach-IsSound node (record s { heap = heap })
            (λ n ch other h.
              kept ch (λ same. other (v.distinct n node ch h (rw same found))) (v.live n ch h))
            v.distinct,
      )
]

-- The release function closes at most the channel that it was made for.
pub detach-IsSound :
    {A : Type 0} (node ch : ℕ) (s : Side A)
    → IsSound s
    → (after : Side A) × (detach node ch s ≡ ok after) × IsSound after
unfolding detach
detach-IsSound node ch s v = elim (Option-cases (Maps.get ℕ_discrete node s.table)) [
  | inl gone ↦ (s, rw (gone, detach) refl, v)
  | inr (current, found) ↦ elim (Bool-cases (current == ch)) [
    | inr differs ↦ (s, rw (found, differs, detach) refl, v)
    | inl same ↦
        let (heap, e, kept) =
          close_at-opened ch s.heap (v.live node ch (ground (arith, found, same))) in
        (
          record { heap = heap; table = Maps.delete ℕ_discrete node s.table },
          rw (found, same, e, detach) refl,
          record {
            live = λ n c h.
                let (other, old) = delete-kept ℕ_discrete node n c s.table h in
                kept c
                  (λ is_ch. other (v.distinct n node c old (ground (arith, found, same, is_ch))))
                  (v.live n c old);
            distinct = λ n m c h g.
                v.distinct n m c (delete-kept ℕ_discrete node n c s.table h).1
                  (delete-kept ℕ_discrete node m c s.table g).1;
          },
        )
  ]
]
