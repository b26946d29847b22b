-- ===== src/Producer/HashStore/Tests.antt =====
-- A server for producer/redis/redis.go that keeps its hashes as a function, and the theorem at it.
use ttobserver_v.Base.{
  ◌≡◌, ◌≢◌, refl, zero, suc, String, true, false, Option, none, some, [], ◌∷◌, map, pure,
  if◌then◌else◌, ◌==◌, ◌&&◌, string_eq, contains, eq_iff, append_text,
}
use ttobserver_v.Base.Int.{pos}
use ttobserver_v.Shared.Errors.{ok}
use ttobserver_v.Shared.Database.{Bytes}
use ttobserver_v.Shared.Torrent.{TorrentInfo, Hashing, generate_torrent_info_hash}
use ttobserver_v.Producer.HashStore.{Settings, Client, store, store_name, send}
use ttobserver_v.Producer.HashStore.Replaces.{written, IsServer, previous, hashes, send-replaces}

abbrev Fields : Type 0
Fields = String → String → Option String

abbrev first_byte : Bytes → String
first_byte [] = ""
first_byte (zero ∷ h) = "zero"
first_byte (suc n ∷ h) = "one"

abbrev keeping : Client Fields
keeping = record {
  connect = λ address password db. pure none;
  hmget = λ key fs w. ((map (w key) fs, none), w);
  hdel = λ key fs w. (none, λ k f. if key == k && contains f fs then none else w k f);
  hset = λ key es w. (none, λ k f. if key == k then written es f (w k f) else w k f);
  close = pure tt;
  raw = first_byte;
}

keeping-IsServer : IsServer keeping
keeping-IsServer = record {
  field = λ k f w. w k f;
  read = λ key fs w. refl;
  read_keeps = λ key fs k f w. refl;
  deleted = λ key fs k f w. refl;
  stored = λ key es k f w done. refl;
}

abbrev table : Settings
table = record {
  address = "localhost";
  password = "";
  db = pos 0;
  hash_key = "hashes";
  name_key_prefix = "TT_N_";
  calculate_v2 = false;
}

abbrev hashing : Hashing
hashing = record {
  raw_info = λ content. ok content;
  sha1 = λ info. 1 ∷ [];
  sha256 = λ info. 0 ∷ [];
}

abbrev tale : TorrentInfo
tale = record {
  id = pos 0;
  name = "tale";
  url = "";
  image = [];
  meta = [];
  files = [];
  content = 7 ∷ [];
  len = 0;
}

-- The old hash of the torrent is in the table.
abbrev old_fields : Fields
old_fields key f =
    if key == "TT_N_tale"
    then (if f == "v1" then some "old" else none)
    else (if key == "hashes" && f == "old" then some "tale" else none)

apart : append_text "TT_N_" "tale" ≢ "hashes"
apart e = cc ((eq_iff "TT_N_tale" "hashes").1 e)

hashed : generate_torrent_info_hash hashing (7 ∷ []) false ≡ (1 ∷ [], [], none)
unfolding generate_torrent_info_hash
hashed = refl

stored_both_ways : (send table keeping hashing false tale old_fields).0 ≡ none
unfolding send store store_name generate_torrent_info_hash
stored_both_ways = refl

send-replaces_example : (send table keeping hashing false tale old_fields).1 "hashes" "old" ≡ (
    if contains "old" (hashes table keeping keeping-IsServer (1 ∷ []) [])
    then some "tale"
    else (if true && contains "old" (previous table keeping keeping-IsServer "tale" old_fields)
        then none
        else old_fields "hashes" "old"))
unfolding keeping-IsServer
send-replaces_example =
    send-replaces table keeping keeping-IsServer hashing false tale (1 ∷ []) [] "old" old_fields
      apart hashed stored_both_ways
