-- ===== src/Cluster/Misses/Leads.antt =====
-- cluster.go: how often a node leads that no other node answers.
use ttobserver_v.Base.{ℕ, suc, ◌≡◌, String, none, some, true, leb, if◌then◌else◌}
use ttobserver_v.Shared.Errors.{no_responders, timeout}
use ttobserver_v.Cluster.{Settings, Nats}

-- A node alone on a connection that lasts: nobody has subscribed to the subject of the master, and to
-- that of the proposals only the node itself, which does not answer itself, so that its proposal times
-- out. Every subscription is made, and the work is started by `StartFn` only.
pub record IsDeserted {W S : Type 0} (cl : Settings) (nats : Nats W S) : Type 0 where
  pub started : W → ℕ
  pub no_master : (w : W) → (nats.request cl.master_subject w).0 ≡ some no_responders
  pub unanswered : (w : W) → (nats.request cl.propose_subject w).0 ≡ some timeout
  pub connected : (w : W) → (nats.is_connected w).0 ≡ true
  pub subscribes : (subject : String) (w : W) → (nats.subscribe subject w).0.1 ≡ none
  pub request_keeps : (subject : String) (w : W) → started (nats.request subject w).1 ≡ started w
  pub connected_keeps : (w : W) → started (nats.is_connected w).1 ≡ started w
  pub subscribe_keeps :
      (subject : String) (w : W) → started (nats.subscribe subject w).1 ≡ started w
  pub unsubscribe_keeps : (s : S) (w : W) → started (nats.unsubscribe s w).1 ≡ started w
  pub suspend_keeps : (w : W) → started (nats.suspend_fn w).1 ≡ started w
  pub starts : (w : W) → started (nats.start_fn w).1 ≡ suc (started w)

module _ {W S : Type 0} (cl : Settings) (nats : Nats W S) (deserted : IsDeserted cl nats) where
  open deserted use {started}

  -- One for a round in which the node stands, none for another
  abbrev pub stands : ℕ → ℕ
  stands count = if leb cl.master_retry_count count then 1 else 0
