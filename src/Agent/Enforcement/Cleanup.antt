-- ===== src/Agent/Enforcement/Cleanup.antt =====
-- What CleanupStale does to the indexes of addresses and devices.
use antimage.Common.{
  subst, ℕ, String, String_discrete, none, some, List, [], ◌∷◌, All, ◌≡◌, refl, sym, ◌∙◌, arith,
  Option-cases, inl, inr,
}
use antimage.Common.Maps
use antimage.Agent.Enforcement.{Connection, Enforcer}
use antimage.Agent.Enforcement.Removal.{
  remove_subject_conn, stale, drop_connections, affected, rebuild_all, cleanup_stale,
}

-- Two enforcers with the same connections, addresses and devices.
record Agrees (e e' : Enforcer) : Type 0 where
  connections : e'.connections ≡ e.connections
  ips : e'.subject_ips ≡ e.subject_ips
  devs : e'.subject_devs ≡ e.subject_devs

remove_subject_conn-Agrees :
    (id : ℕ) (conn : String) (e : Enforcer) → Agrees e (remove_subject_conn id conn e)
unfolding remove_subject_conn
remove_subject_conn-Agrees id conn e = record {
  connections = ground arith;
  ips = ground arith;
  devs = ground arith;
}

abbrev Gone : String → Enforcer → Type 0
Gone conn e = Maps.get String_discrete conn e.connections ≡ none

abbrev without : String → Enforcer → Enforcer
without conn e = record e { connections = Maps.delete String_discrete conn e.connections }

without-Gone : (conn : String) (e : Enforcer) → Gone conn (without conn e)
without-Gone conn e = ground (arith, Maps.get-delete String_discrete conn conn e.connections)

without-keeps_Gone : (conn c : String) (e : Enforcer) → Gone c e → Gone c (without conn e)
without-keeps_Gone conn c e h = ground (arith, Maps.get-delete String_discrete conn c e.connections)

Agrees-Gone : (c : String) (e e' : Enforcer) → Agrees e e' → Gone c e → Gone c e'
Agrees-Gone c e e' a h = rw a.connections h

drop_connections-keeps_Gone :
    (conns : List String) (c : String) (e : Enforcer) → Gone c e → Gone c (drop_connections conns e)
unfolding drop_connections
drop_connections-keeps_Gone [] c e h = h
drop_connections-keeps_Gone (conn ∷ rest) c e h =
    elim (Option-cases (Maps.get String_discrete conn e.connections)) [
      | inl q ↦
          rw (q, drop_connections)
            (drop_connections-keeps_Gone rest c _
              (Agrees-Gone c e _ (remove_subject_conn-Agrees 0 conn e) h))
      | inr (known, q) ↦
          rw (q, drop_connections)
            (drop_connections-keeps_Gone rest c _ (
              Agrees-Gone c (without conn e) _
                (remove_subject_conn-Agrees known.subject_id conn (without conn e))
                (without-keeps_Gone conn c e h)))
    ]

drop_connections-none :
    (conn : String) (rest : List String) (e : Enforcer)
    → Gone conn e
    → drop_connections (conn ∷ rest) e ≡ drop_connections rest (remove_subject_conn 0 conn e)
unfolding drop_connections
drop_connections-none conn rest e q = rw (q, drop_connections) refl

drop_connections-some :
    (conn : String) (rest : List String) (e : Enforcer) (c : Connection)
    → Maps.get String_discrete conn e.connections ≡ some c
    → drop_connections (conn ∷ rest) e
      ≡ drop_connections rest (remove_subject_conn c.subject_id conn (without conn e))
unfolding drop_connections
drop_connections-some conn rest e c q = rw (q, drop_connections) refl

drop_connections-Gone :
    (conns : List String) (e after : Enforcer)
    → drop_connections conns e ≡ after
    → All (λ c. Gone c after) conns
unfolding drop_connections
drop_connections-Gone [] e after h = tt
drop_connections-Gone (conn ∷ rest) e after h =
    elim (Option-cases (Maps.get String_discrete conn e.connections)) [
      | inl q ↦
          let same = sym (drop_connections-none conn rest e q) ∙ h in
          (
            subst (Gone conn) same (
                drop_connections-keeps_Gone rest conn _
                  (Agrees-Gone conn e _ (remove_subject_conn-Agrees 0 conn e) q)),
            drop_connections-Gone rest _ after same,
          )
      | inr (known, q) ↦
          let same = sym (drop_connections-some conn rest e known q) ∙ h in
          (
            subst (Gone conn) same (
                drop_connections-keeps_Gone rest conn _ (
                  Agrees-Gone conn (without conn e) _
                    (remove_subject_conn-Agrees known.subject_id conn (without conn e))
                    (without-Gone conn e))),
            drop_connections-Gone rest _ after same,
          )
    ]

drop_connections-indexes :
    (conns : List String) (e : Enforcer)
    → ((drop_connections conns e).subject_ips ≡ e.subject_ips)
      × ((drop_connections conns e).subject_devs ≡ e.subject_devs)
unfolding drop_connections
drop_connections-indexes [] e = (refl, refl)
drop_connections-indexes (conn ∷ rest) e =
    elim (Option-cases (Maps.get String_discrete conn e.connections)) [
      | inl q ↦
          let a = remove_subject_conn-Agrees 0 conn e in
          let (ips, devs) = drop_connections-indexes rest (remove_subject_conn 0 conn e) in
          rw (q, drop_connections) (ips ∙ a.ips, devs ∙ a.devs)
      | inr (known, q) ↦
          let a = remove_subject_conn-Agrees known.subject_id conn (without conn e) in
          let (ips, devs) =
            drop_connections-indexes rest
              (remove_subject_conn known.subject_id conn (without conn e)) in
          rw (q, drop_connections) (ips ∙ a.ips, devs ∙ a.devs)
    ]

affected-none :
    (conns : List String) (e : Enforcer) → All (λ c. Gone c e) conns → affected conns e ≡ []
unfolding affected
affected-none [] e h = refl
affected-none (conn ∷ rest) e h = rw (h.0, affected) (affected-none rest e h.1)

-- CleanupStale removes connections, but for all connections, times and thresholds it leaves the
-- addresses and the devices of every subject as they were, those of removed connections included.
pub cleanup_stale-indexes :
    (now threshold : ℕ) (e : Enforcer)
    → ((cleanup_stale now threshold e).1.subject_ips ≡ e.subject_ips)
      × ((cleanup_stale now threshold e).1.subject_devs ≡ e.subject_devs)
unfolding cleanup_stale rebuild_all
cleanup_stale-indexes now threshold e =
    let removed = stale now threshold e.connections in
    let none_left =
      affected-none removed (drop_connections removed e)
        (drop_connections-Gone removed e (drop_connections removed e) refl) in
    rw (none_left, rebuild_all) (drop_connections-indexes removed e)
