-- ===== src/Producer/Stream/Tests.antt =====
-- A server for producer/nats/nats.go with room for three replicas, and the theorem at it.
use ttobserver_v.Base.{◌≡◌, refl, ℕ, false, Option, none, some, [], pure, if◌then◌else◌, leb}
use ttobserver_v.Base.Int.{pos}
use ttobserver_v.Shared.Errors.{ok, message}
use ttobserver_v.Producer.Stream.{Settings, Client, too_many_replicas, create_stream}

-- The world is the count of the stream that was made.
abbrev three : Client (Option ℕ)
three = record {
  connect = λ url interval reconnects. pure none;
  jet_stream = pure none;
  stream_names = pure [];
  add_stream =
      λ name subject n w. if leb n 3 then (none, some n) else (some (message too_many_replicas), w);
  publish = λ subject content. pure none;
  publish_stream = λ subject content. pure none;
  close = pure tt;
  error_text = λ e. too_many_replicas;
  in_use = λ e. false;
  encode = λ t. ok [];
}

abbrev seven_replicas : Settings
seven_replicas = record {
  url = "nats://here";
  stream = "torrents";
  subject = "new";
  ping_interval = pos 10;
  max_reconnects = pos 5;
  replicas_count = pos 7;
}

-- An even count is not lowered to 1, so that a server with room for one replica gets no stream.
abbrev one : Client (Option ℕ)
one = record three {
  add_stream =
      λ name subject n w. if leb n 1 then (none, some n) else (some (message too_many_replicas), w);
}

even_fails : create_stream seven_replicas one 4 none none ≡ (some (message too_many_replicas), none)
unfolding create_stream
even_fails = refl
