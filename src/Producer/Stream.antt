-- ===== src/Producer/Stream.antt =====
-- producer/nats/nats.go: the producer that publishes torrents on a subject of NATS, and the stream
-- that it makes for them.
pub mod Replicas
mod Tests
use ttobserver_v.Base.{
  ℕ, zero, suc, String, Bool, true, false, Option, none, some, List, M, pure, ◌>>=◌, if◌then◌else◌,
  ◌==◌, string_eq, contains, is_empty,
}
use ttobserver_v.Base.Int.{ℤ, pos, negsuc}
use ttobserver_v.Shared.Errors.{Err, Fault, Result, ok, err, required_parameters}
use ttobserver_v.Shared.Database.{Bytes}
use ttobserver_v.Shared.Torrent.{TorrentInfo}

abbrev pub too_many_replicas : String
too_many_replicas = "insufficient resources"

pub record Settings : Type 0 where
  pub url : String
  pub stream : String
  pub subject : String
  pub ping_interval : ℤ
  pub max_reconnects : ℤ
  pub replicas_count : ℤ

-- Outside: the client of NATS and of its streams, `err.Error()`, the test for
-- `ErrStreamNameAlreadyInUse`, and the encoder. A stream is added with its name, its subject and the
-- count of its replicas.
pub record Client (W : Type 0) : Type 0 where
  pub connect : String → ℤ → ℤ → M W Fault
  pub jet_stream : M W Fault
  pub stream_names : M W (List String)
  pub add_stream : String → String → ℕ → M W Fault
  pub publish : String → Bytes → M W Fault
  pub publish_stream : String → Bytes → M W Fault
  pub close : M W (Unit {0})
  pub error_text : Err → String
  pub in_use : Err → Bool
  pub encode : TorrentInfo → Result Bytes

-- Which of the two connections are not nil.
pub record Notifier : Type 0 where
  pub has_client : Bool
  pub has_stream : Bool

-- What an attempt to add the stream says of the loop.
pub data Next : Type 0 where
  made fewer : Next
  stop : Err → Next

module _ {W : Type 0} (st : Settings) (nats : Client W) where
  next : Fault → Next
  next none = made
  next (some e) =
      if nats.in_use e
      then made
      else (if nats.error_text e == too_many_replicas then fewer else stop e)

  -- After an attempt: the result of the loop, or the rest of it with the error of the attempt.
  go_on : Next → M W Fault → M W Fault
  go_on made rest = pure none
  go_on fewer rest = rest
  go_on (stop e) rest = pure (some e)

  -- `for ; nc.ReplicasCount > 0; nc.ReplicasCount -= 2`, with the error so far.
  unfoldable pub create_stream : ℕ → Fault → M W Fault
  unfolding next go_on
  create_stream zero e w = (e, w)
  create_stream (suc zero) e w =
      let (e', w') = nats.add_stream st.stream st.subject 1 w in go_on (next e') (pure e') w'
  create_stream (suc (suc n)) e w =
      let (e', w') = nats.add_stream st.stream st.subject (suc (suc n)) w in
      let rest = create_stream n e' in go_on (next e') rest w'

  -- A count that is not positive is set to 1.
  unfoldable pub replicas : ℤ → ℕ
  replicas (pos zero) = 1
  replicas (pos (suc n)) = suc n
  replicas (negsuc n) = 1

  make_if : Bool → M W Fault
  unfolding create_stream replicas
  make_if true = pure none
  make_if false = create_stream (replicas st.replicas_count) none

  with_stream : Fault → M W (Notifier × Fault)
  unfolding make_if
  with_stream (some e) = pure (record { has_client = true; has_stream = false }, none)
  with_stream none = do
    names ← nats.stream_names
    e ← make_if (contains st.stream names)
    pure (record { has_client = true; has_stream = true }, e)

  with_client : Fault → M W (Notifier × Fault)
  unfolding with_stream
  with_client (some e) = pure (record { has_client = false; has_stream = false }, some e)
  with_client none =
      if st.stream == ""
      then pure (record { has_client = true; has_stream = false }, none)
      else (do e ← nats.jet_stream; with_stream e)

  unfoldable pub init : M W (Notifier × Fault)
  unfolding with_client
  init =
      if st.url == ""
      then pure (record { has_client = false; has_stream = false }, some required_parameters)
      else (do e ← nats.connect st.url st.ping_interval st.max_reconnects; with_client e)

  -- `New`, with the error of reading the configuration.
  unfoldable pub new : Fault → M W (Notifier × Fault)
  unfolding init
  new (some e) = pure (record { has_client = false; has_stream = false }, some e)
  new none = init

  publish : Notifier → Result Bytes → M W Fault
  publish n (err e) = pure (some e)
  publish n (ok content) =
      if n.has_stream
      then nats.publish_stream st.subject content
      else nats.publish st.subject content

  -- The error is only logged.
  unfoldable pub send : Notifier → TorrentInfo → M W Fault
  unfolding publish
  send n t = publish n (nats.encode t)

  unfoldable pub close : Notifier → M W (Unit {0})
  close n = if n.has_client then nats.close else pure tt
