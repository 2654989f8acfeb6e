-- ===== src/Tests/Rbac.antt =====
-- An administrator at concrete targets.
use antimage.Common.{false, [], ◌∷◌}
use antimage.Panel.Rbac.{Actor, Target, target_node, reseller_role}

abbrev scoped_reseller : Actor
scoped_reseller = record {
  admin_id = 3;
  role_name = "reseller";
  is_super = false;
  perms = reseller_role;
  node_ids = 1 ∷ [];
  service_ids = [];
}

abbrev second_node : Target
second_node = record { kind = target_node; id = 2 }
