-- ===== src/Panel/Publishing/History.antt =====
-- The writes of the panel in any order, and what holds after all of them.
use antimage.Common.{ℕ, String, List}
use antimage.Panel.Db.{Db, Result}
use antimage.Panel.Commit.{Change, commit_node_change}
use antimage.Panel.ApplyRuns.{ApplyRunInput, record_apply_run}
use antimage.Panel.Presence.{AdapterInfo, record_hello, record_heartbeat}
use antimage.Panel.Consistency.{IsConsistent}
use antimage.Panel.Consistency.Preserved.{
  apply_run-IsConsistent, hello-IsConsistent, heartbeat-IsConsistent,
}
use antimage.Panel.Consistency.Published.{commit-IsConsistent}

module _ {C : Type 0} (build : C → ℕ → ℕ → ℕ → Result String) where
  -- One call, which may fail.
  pub data Write (db : Db C) : Db C → Type 0 where
    commits : (ch : Change C) → Write db (commit_node_change build ch db).1
    reports : (input : ApplyRunInput) → Write db (record_apply_run input db).1
    greets :
        (id : ℕ) (adapters : List AdapterInfo) (now : ℕ)
        → Write db (record_hello id adapters now db).1
    beats : (id now : ℕ) → Write db (record_heartbeat id now db).1

  pub data History (db : Db C) : Db C → Type 0 where
    start : History db db
    later : {mid after : Db C} → History db mid → Write mid after → History db after

  Write-IsConsistent : (db after : Db C) → IsConsistent db → Write db after → IsConsistent after
  Write-IsConsistent db _ v (commits ch) = commit-IsConsistent build ch db v
  Write-IsConsistent db _ v (reports input) = apply_run-IsConsistent input db v
  Write-IsConsistent db _ v (greets id adapters now) = hello-IsConsistent id adapters now db v
  Write-IsConsistent db _ v (beats id now) = heartbeat-IsConsistent id now db v

  -- Whatever sequence of committed changes, reports, hellos and heartbeats follows consistent
  -- tables, and whichever of them fail, the tables stay consistent: no node has applied a
  -- revision above its desired one, and the stored revisions of each node are exactly those from
  -- one to its desired one.
  pub History-IsConsistent :
      (db after : Db C) → IsConsistent db → History db after → IsConsistent after
  History-IsConsistent db _ v start = v
  History-IsConsistent db _ v (later {mid = mid} {after = after} past w) =
      Write-IsConsistent mid after (History-IsConsistent db mid v past) w
