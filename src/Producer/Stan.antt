-- ===== src/Producer/Stan.antt =====
-- producer/stan/stan.go: the producer that publishes torrents on a STAN subject, with retries.
pub mod Retry
mod Tests
use ttobserver_v.Base.{
  ℕ, zero, suc, String, Bool, Option, none, some, M, pure, ◌>>=◌, ◌>>◌, if◌then◌else◌, ◌==◌,
  string_eq, ◌||◌,
}
use ttobserver_v.Base.Int.{ℤ}
use ttobserver_v.Shared.Errors.{Err, Fault, Result, ok, err, message, required_parameters}
use ttobserver_v.Shared.Database.{Bytes}
use ttobserver_v.Shared.Torrent.{TorrentInfo}

pub record Settings : Type 0 where
  pub url : String
  pub cluster_id : String
  pub client_id : String
  pub subject : String
  pub ping_sleep : ℤ
  pub ping_max : ℤ

-- Outside: the client of STAN, `DefaultPingMaxOut`, a sleep of `DefaultConnectWait`, the wait for a
-- reconnection that is under way, and the encoder.
pub record Stan (W : Type 0) : Type 0 where
  pub max_out : ℕ
  pub connect : String → String → String → ℤ → ℤ → M W Fault
  pub publish : String → Bytes → M W Fault
  pub sleep : M W (Unit {0})
  pub wait : M W (Unit {0})
  pub close : M W Fault
  pub encode : TorrentInfo → Result Bytes

-- `for i := 0; i < n && err != nil; i++`, with a body that gives the next error.
unfoldable pub retry : {W : Type 0} → M W Fault → ℕ → Fault → M W Fault
retry body zero e w = (e, w)
retry body (suc n) none w = (none, w)
retry body (suc n) (some e) w = let (e', w') = body w in retry body n e' w'

-- A reconnection that fails panics.
pub data Reconnected : Type 0 where
  reconnected panicked : Reconnected

module _ {W : Type 0} (st : Settings) (stan : Stan W) where
  is_incomplete : Bool
  is_incomplete = st.cluster_id == "" || st.client_id == "" || st.url == ""

  unfoldable pub init : M W Fault
  unfolding is_incomplete
  init =
      if is_incomplete
      then pure (some required_parameters)
      else stan.connect st.cluster_id st.client_id st.url st.ping_sleep st.ping_max

  -- `New`, with the error of reading the configuration.
  unfoldable pub new : Fault → M W Fault
  unfolding is_incomplete init
  new (some e) = pure (some e)
  new none = if is_incomplete then pure (some (message "required parameters not set")) else init

  try_init : M W Fault
  unfolding init
  try_init = do stan.sleep; init

  ended : Fault → Reconnected
  ended none = reconnected
  ended (some e) = panicked

  -- The handler of a lost connection, with its cause.
  unfoldable pub reconnect : Fault → M W Reconnected
  unfolding retry try_init ended
  reconnect cause = do e ← retry try_init stan.max_out cause; pure (ended e)

  pause : Fault → M W Fault
  pause none = pure none
  pause (some e) = do stan.sleep; pure (some e)

  unfoldable pub try_publish : Bytes → M W Fault
  unfolding pause
  try_publish content = do stan.wait; e ← stan.publish st.subject content; pause e

  -- `errDummy` stands before the first attempt. The error is only logged.
  send_encoded : Err → Result Bytes → M W Fault
  unfolding retry try_publish
  send_encoded dummy (ok content) = retry (try_publish content) stan.max_out (some dummy)
  send_encoded dummy (err e) = pure (some e)

  unfoldable pub send : Err → TorrentInfo → M W Fault
  unfolding send_encoded
  send dummy t = send_encoded dummy (stan.encode t)

  -- `Close` of a connected producer; its error is only logged.
  unfoldable pub close : M W (Unit {0})
  close = do stan.close; pure tt
