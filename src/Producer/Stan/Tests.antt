-- ===== src/Producer/Stan/Tests.antt =====
-- A client for producer/stan/stan.go whose third attempt succeeds, and the theorem at it.
use ttobserver_v.Base.{◌≡◌, ◌↔◌, refl, ℕ, zero, suc, none, some, [], ◌∷◌, pure}
use ttobserver_v.Base.Int.{pos}
use ttobserver_v.Shared.Errors.{Fault, ok, timeout}
use ttobserver_v.Shared.Torrent.{TorrentInfo}
use ttobserver_v.Producer.Stan.{Settings, Stan, try_publish, pause, send, send_encoded, retry}
use ttobserver_v.Producer.Stan.Retry.{Succeeds, send-Succeeds}

-- The world is the number of attempts that are going to fail.
abbrev fail_once : ℕ → Fault × ℕ
fail_once zero = (none, zero)
fail_once (suc n) = (some timeout, n)

abbrev slow : Stan ℕ
slow = record {
  max_out = 5;
  connect = λ cluster client url sleep max. fail_once;
  publish = λ subject content. fail_once;
  sleep = pure tt;
  wait = pure tt;
  close = pure none;
  encode = λ t. ok (1 ∷ []);
}

abbrev somewhere : Settings
somewhere = record {
  url = "stan://here";
  cluster_id = "cluster";
  client_id = "client";
  subject = "new";
  ping_sleep = pos 5;
  ping_max = pos 3;
}

abbrev tale : TorrentInfo
tale = record {
  id = pos 0;
  name = "tale";
  url = "";
  image = [];
  meta = [];
  files = [];
  content = 7 ∷ [];
  len = 0;
}

send-Succeeds_example :
    ((send somewhere slow timeout tale 2).0 ≡ none)
    ↔ Succeeds (try_publish somewhere slow (1 ∷ [])) 5 2
send-Succeeds_example = send-Succeeds somewhere slow timeout tale (1 ∷ []) 2 refl

third_attempt : (send somewhere slow timeout tale 2).0 ≡ none
unfolding send send_encoded retry try_publish pause
third_attempt = refl
