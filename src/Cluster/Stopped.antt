-- ===== src/Cluster/Stopped.antt =====
-- cluster.go: who calls `SuspendFn` when the node is stopped.
use ttobserver_v.Base.{ℕ, suc, ◌≡◌, none, M}
use ttobserver_v.Cluster.{Settings, Nats, Node}

-- How often the work was suspended: the connection and the subscriptions do not suspend it.
pub record CountsSuspended {W S : Type 0} (nats : Nats W S) (close : M W (Unit {0})) : Type 0 where
  pub suspended : W → ℕ
  pub suspends : (w : W) → suspended (nats.suspend_fn w).1 ≡ suc (suspended w)
  pub unsubscribe_keeps : (s : S) (w : W) → suspended (nats.unsubscribe s w).1 ≡ suspended w
  pub connected_keeps : (w : W) → suspended (nats.is_connected w).1 ≡ suspended w
  pub close_keeps : (w : W) → suspended (close w).1 ≡ suspended w

module _ {W S : Type 0} (cl : Settings) (nats : Nats W S) (close : M W (Unit {0}))
    (counts : CountsSuspended nats close) where
  open counts use {suspended}

  -- What a node keeps at the start of the loop
  abbrev pub fresh : Node S
  fresh = record { error_count = 0; proposed_sub = none; master_sub = none }
