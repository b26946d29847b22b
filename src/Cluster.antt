-- ===== src/Cluster.antt =====
-- cluster.go: one node of the cluster, which looks for the master and stands for it when there is
-- none. `Misses` counts the failed requests, `Election` has several nodes at once.
pub mod Misses
pub mod Election
pub mod Stopped
mod Tests
use ttobserver_v.Base.{
  ℕ, zero, suc, ◌+◌, ◌%◌, ◌^◌, String, Bool, false, true, Option, none, some, List, [], ◌∷◌, M,
  pure, ◌>>=◌, ◌>>◌, if◌then◌else◌, ltb, leb, ◌==◌, string_eq, ◌||◌, ◌&&◌, not, nat_beq,
}
use ttobserver_v.Base.Int.{ℤ, pos, negsuc}
use ttobserver_v.Shared.Errors.{Err, Fault, required_parameters, no_responders, timeout}
use ttobserver_v.Shared.Database.{Bytes}

pub record Settings : Type 0 where
  pub nats_url : String
  pub master_subject : String
  pub propose_subject : String
  pub master_ping_interval : ℤ
  pub master_retry_count : ℕ  -- uint32
  pub start_fn_set : Bool
  pub suspend_fn_set : Bool

-- Outside the node: the connection to NATS with subscriptions of type `S`, and the two callbacks.
-- A request is answered (`none`) or fails; it carries the node's identifier.
pub record Nats (W S : Type 0) : Type 0 where
  pub request : String → M W Fault
  pub is_connected : M W Bool
  pub subscribe : String → M W (Option S × Fault)
  pub unsubscribe : S → M W (Unit {0})
  pub start_fn : M W Fault
  pub suspend_fn : M W (Unit {0})

-- What the node keeps between two requests; a nil subscription is `none`.
pub record Node (S : Type 0) : Type 0 where
  pub error_count : ℕ  -- uint32
  pub proposed_sub : Option S
  pub master_sub : Option S

-- `respondId`: a node answers every identifier but its own.
same_bytes : Bytes → Bytes → Bool
same_bytes [] [] = true
same_bytes (x ∷ xs) (y ∷ ys) = nat_beq x y && same_bytes xs ys
same_bytes _ _ = false

unfoldable pub respond_id : Bytes → Bytes → Bool
unfolding same_bytes
respond_id own received = not (same_bytes own received)

-- A nil error is no failure to respond.
is_no_responders : Fault → Bool
is_no_responders (some no_responders) = true
is_no_responders _ = false

is_timeout : Fault → Bool
is_timeout (some timeout) = true
is_timeout _ = false

-- What a node saw of the master.
pub data Seen : Type 0 where
  alive missing failed : Seen

module _ {W S : Type 0} (cl : Settings) (nats : Nats W S) where
  unfoldable pub lacks_responders : Fault → M W Bool
  unfolding is_no_responders is_timeout
  lacks_responders e = do
    connected ← nats.is_connected
    pure (is_no_responders e || (connected && is_timeout e))

  unsubscribe_if : Option S → M W (Unit {0})
  unsubscribe_if none = pure tt
  unsubscribe_if (some s) = nats.unsubscribe s

  -- As master: the work ends when `StartFn` returns, and the subscription with it.
  lead : Option S × Fault → M W (Option S × Fault)
  unfolding unsubscribe_if
  lead (s, some e) = pure (s, some e)
  lead (s, none) = do e ← nats.start_fn; unsubscribe_if s; pure (s, e)

  -- With the answer to the proposal: the subscription of the master before and after, and the error.
  stand : Option S → Fault → M W (Option S × Fault)
  unfolding lead lacks_responders
  stand old none = pure (old, none)
  stand old (some e) = do
    free ← lacks_responders (some e)
    let go = (do s ← nats.subscribe cl.master_subject; lead s)
    if free then go else pure (old, some e)

  propose : Node S → Option S × Fault → M W (Node S × Fault)
  unfolding stand unsubscribe_if
  propose node (s, some e) = pure (record node { proposed_sub = s }, some e)
  propose node (s, none) = do
    answer ← nats.request cl.propose_subject
    r ← stand node.master_sub answer
    unsubscribe_if s
    pure (record node { proposed_sub = s; master_sub = r.0 }, r.1)

  unfoldable pub as_master : Node S → M W (Node S × Fault)
  unfolding propose
  as_master node = do s ← nats.subscribe cl.propose_subject; propose node s

  suspend_on : Node S × Fault → M W (Node S)
  suspend_on (node, none) = pure node
  suspend_on (node, some e) = do nats.suspend_fn; pure node

  -- One more failed request; the counter is a uint32.
  miss : Node S → M W (Node S)
  unfolding as_master suspend_on
  miss node =
      let counted = record node { error_count = (node.error_count + 1) % 2 ^ 32 } in
      if leb cl.master_retry_count counted.error_count
      then (do r ← as_master counted; suspend_on r)
      else pure counted

  on_answer : Node S → Fault → M W (Node S × Seen)
  unfolding miss
  on_answer node none = pure (record node { error_count = 0 }, alive)
  on_answer node (some e) = do
    gone ← lacks_responders (some e)
    let count = (do n ← miss node; pure (n, missing))
    if gone then count else pure (node, failed)

  -- One round of the loop, up to the pause.
  unfoldable pub ping : Node S → M W (Node S × Seen)
  unfolding on_answer
  ping node = do answer ← nats.request cl.master_subject; on_answer node answer

  -- The rounds of the loop until `stopped` is closed: what was seen, the last first.
  unfoldable pub rounds : ℕ → Node S → List Seen → M W (Node S × List Seen)
  unfolding ping
  rounds zero node seen = pure (node, seen)
  rounds (suc n) node seen = do r ← ping node; rounds n r.0 (r.1 ∷ seen)

  -- The tests of `Start` on the settings.
  pub is_complete : Bool
  is_complete =
      not (cl.nats_url == "" || cl.master_subject == "" || cl.propose_subject == "")
      && cl.start_fn_set
      && cl.suspend_fn_set

  -- `Start`, stopped after `n` rounds; `connect` is `nats.Connect`.
  unfoldable pub start : M W Fault → ℕ → M W Fault
  unfolding is_complete rounds
  start connect n =
      if is_complete
      then (do
        e ← connect
        let run = (do
          rounds n (record { error_count = 0; proposed_sub = none; master_sub = none }) []
          nats.suspend_fn
          pure none)
        elim e [ none ↦ run | some x ↦ pure (some x) ])
      else pure (some required_parameters)

  -- `Stop`, after the channel is closed; `close` is the client's `Close`.
  unfoldable pub stop : M W (Unit {0}) → Node S → M W (Unit {0})
  unfolding unsubscribe_if
  stop close node = do
    unsubscribe_if node.proposed_sub
    unsubscribe_if node.master_sub
    connected ← nats.is_connected
    if connected then close else pure tt

-- `MasterPingInterval` as `Start` sets it
unfoldable pub ping_interval : ℤ → ℤ
ping_interval (pos zero) = pos 10
ping_interval (pos (suc n)) = pos (suc n)
ping_interval (negsuc n) = pos 10

-- The identifier that `init` makes from the random bytes that it reads; `none` is a panic.
unfoldable pub node_id : Bytes × Fault → Option Bytes
node_id (bytes, none) = some bytes
node_id (bytes, some e) = none

-- The seconds between two rounds, where `random n` is below `n`.
unfoldable pub pause : (ℕ → ℕ) → ℕ → ℕ
pause random interval = interval + random interval
