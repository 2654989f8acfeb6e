-- ===== src/Tests/Enforcement.antt =====
-- A subject with limits at concrete connections.
use antimage.Common.{
  ℕ, String, String_discrete, ℕ_discrete, contains, true, none, some, List, [], ◌∷◌, ◌≡◌, refl, ap,
  arith, length,
}
use antimage.Common.Int.{pos}
use antimage.Common.Maps
use antimage.Agent.Enforcement.{
  Policy, Connection, Enforcer, ip_limit_reached, new_enforcer, check_and_register,
  insert_connection,
}
use antimage.Agent.Enforcement.Removal.{
  cleanup_stale, stale, drop_connections, affected, rebuild_all, remove_subject_conn, remove_first,
  exchange, exchange_sort,
}
use antimage.Agent.Enforcement.{ips_of, devs_of}
use antimage.Agent.Enforcement.Limits.{Within, IsWithin, check_and_register-IsWithin}
use antimage.Agent.Enforcement.Cleanup.{cleanup_stale-indexes}
use antimage.Agent.Enforcement.Sorting.{IsSorted, count, exchange_sort-IsSorted}

abbrev one_address : Policy
one_address = record {
  subject_id = 7;
  max_devices = some (pos 2);
  max_ips = some (pos 1);
  max_connections = some (pos 3);
  speed_limit_up_kbps = none;
  speed_limit_down_kbps = none;
  quota_bytes = some (pos 1000);
  quota_used_bytes = some (pos 10);
}

abbrev idle_enforcer : Enforcer
idle_enforcer = record new_enforcer { policies = (7, one_address) ∷ [] }

abbrev busy_enforcer : Enforcer
busy_enforcer = record idle_enforcer {
  connections =
      (
        "c1",
        record {
          id = "c1";
          subject_id = 7;
          device_id = "phone";
          source_ip = "10.0.0.1";
          protocol = "vless";
          connected_at = 100;
          last_seen_at = 100;
        },
      )
      ∷ [];
  subject_conns = (7, "c1" ∷ []) ∷ [];
  subject_ips = (7, "10.0.0.1" ∷ []) ∷ [];
  subject_devs = (7, "phone" ∷ []) ∷ [];
}

registers :
    check_and_register 100 "c1" 7 "phone" "10.0.0.1" "vless" idle_enforcer ≡ (none, busy_enforcer)
unfolding check_and_register insert_connection Maps.get Maps.put contains String_discrete ℕ_discrete
registers = refl

refuses_address :
    (check_and_register 200 "c2" 7 "phone" "10.0.0.2" "vless" busy_enforcer).0
    ≡ some (ip_limit_reached 1 (pos 1))
unfolding check_and_register insert_connection Maps.get Maps.put contains String_discrete ℕ_discrete
refuses_address = refl

-- After the clean-up no connection is left, but the address still counts.
refuses_after_cleanup :
    (check_and_register 900 "c2" 7 "phone" "10.0.0.2" "vless"
      (cleanup_stale 900 60 busy_enforcer).1).0
    ≡ some (ip_limit_reached 1 (pos 1))
unfolding check_and_register insert_connection cleanup_stale stale drop_connections affected
    rebuild_all remove_subject_conn remove_first Maps.get Maps.put Maps.delete contains
    String_discrete ℕ_discrete
refuses_after_cleanup = refl

has_policy : Maps.get ℕ_discrete 7 idle_enforcer.policies ≡ some one_address
unfolding Maps.get ℕ_discrete
has_policy = refl

not_known : Maps.get {V = Connection} String_discrete "c1" idle_enforcer.connections ≡ none
unfolding Maps.get
not_known = refl

accepts_first : (check_and_register 100 "c1" 7 "phone" "10.0.0.1" "vless" idle_enforcer).0 ≡ none
accepts_first = ap (λ r. r.0) registers

no_addresses : Within (some (pos 1)) (length (ips_of 7 idle_enforcer))
unfolding Maps.get ℕ_discrete
no_addresses = omega arith

no_devices : Within (some (pos 2)) (length (devs_of 7 idle_enforcer))
unfolding Maps.get ℕ_discrete
no_devices = omega arith

check_and_register-IsWithin_example :
    IsWithin one_address 7
      (check_and_register 100 "c1" 7 "phone" "10.0.0.1" "vless" idle_enforcer).1
check_and_register-IsWithin_example =
    check_and_register-IsWithin 100 "c1" 7 "phone" "10.0.0.1" "vless" idle_enforcer one_address
      not_known has_policy no_addresses no_devices accepts_first

cleanup_stale-indexes_example :
    ((cleanup_stale 900 60 busy_enforcer).1.subject_ips ≡ (7, "10.0.0.1" ∷ []) ∷ [])
    × ((cleanup_stale 900 60 busy_enforcer).1.subject_devs ≡ (7, "phone" ∷ []) ∷ [])
cleanup_stale-indexes_example = cleanup_stale-indexes 900 60 busy_enforcer

abbrev three_starts : List (String × ℕ)
three_starts = ("c1", 30) ∷ ("c2", 10) ∷ ("c3", 20) ∷ []

sorted_run : exchange_sort 3 three_starts ≡ ("c2", 10) ∷ ("c3", 20) ∷ ("c1", 30) ∷ []
unfolding exchange_sort exchange
sorted_run = refl

exchange_sort-IsSorted_example :
    IsSorted (exchange_sort 3 three_starts)
    × (count (λ x. true) (exchange_sort 3 three_starts) ≡ count (λ x. true) three_starts)
exchange_sort-IsSorted_example = exchange_sort-IsSorted three_starts (λ x. true)
