-- ===== src/Producer/HashStore.antt =====
-- producer/redis/redis.go: the producer that keeps the hashes of the torrents in Redis.
pub mod Replaces
mod Tests
use ttobserver_v.Base.{
  ℕ, String, append_text, Bool, true, false, Option, none, some, List, [], ◌∷◌, M, pure, ◌>>=◌,
  ◌>>◌, if◌then◌else◌, ◌==◌, string_eq, is_empty, ◌||◌, take,
}
use ttobserver_v.Base.Int.{ℤ}
use ttobserver_v.Shared.Errors.{Err, Fault, required_parameters}
use ttobserver_v.Shared.Database.{Bytes}
use ttobserver_v.Shared.Torrent.{TorrentInfo, Hashing, generate_torrent_info_hash}
use ttobserver_v.Producer.SqlStore.{sha1_size}

abbrev pub default_name_prefix : String
default_name_prefix = "TT_N_"

abbrev pub v1_field : String
v1_field = "v1"

abbrev pub v2_field : String
v2_field = "v2"

abbrev pub hybrid_field : String
hybrid_field = "v2to1"

pub record Settings : Type 0 where
  pub address : String
  pub password : String
  pub db : ℤ
  pub hash_key : String
  pub name_key_prefix : String
  pub calculate_v2 : Bool

-- Outside: the commands of the client, and `string(b)` of bytes.
pub record Client (W : Type 0) : Type 0 where
  pub connect : String → String → ℤ → M W Fault
  pub hmget : String → List String → M W (List (Option String) × Fault)
  pub hdel : String → List String → M W Fault
  pub hset : String → List (String × String) → M W Fault
  pub close : M W (Unit {0})
  pub raw : Bytes → String

-- `New`, with the error of reading the configuration; an empty prefix is set to the default.
unfoldable pub new : {W : Type 0} → Client W → Settings → Fault → M W (Settings × Fault)
new con n (some e) = pure (n, some e)
new con n none =
    let named =
      (if n.name_key_prefix == "" then record n { name_key_prefix = default_name_prefix } else n) in
    if n.address == "" || n.hash_key == ""
    then pure (named, some required_parameters)
    else (do e ← con.connect n.address n.password n.db; pure (named, e))

module _ {W : Type 0} (r : Settings) (con : Client W) where
  -- The fields that are there, as texts.
  unfoldable pub present : List (Option String) → List String
  present [] = []
  present (none ∷ fs) = present fs
  present (some f ∷ fs) = f ∷ present fs

  name_key : String → String
  name_key name = append_text r.name_key_prefix name

  delete_fields : List String → M W (Unit {0})
  delete_fields [] = pure tt
  delete_fields (f ∷ fs) = do con.hdel r.hash_key (f ∷ fs); pure tt

  forget_fields : List (Option String) × Fault → M W (Unit {0})
  unfolding delete_fields present
  forget_fields (fs, some e) = pure tt
  forget_fields (fs, none) = delete_fields (present fs)

  -- The hashes that are stored for the name are taken out of the table.
  unfoldable pub forget : String → M W (Unit {0})
  unfolding forget_fields name_key
  forget name = do
    prev ← con.hmget (name_key name) (v1_field ∷ v2_field ∷ hybrid_field ∷ [])
    forget_fields prev

  -- The entries of the table for a torrent, and those of its name.
  hash_entries : String → Bytes → Bytes → List (String × String)
  hash_entries name h1 h2 =
      let v1 : String × String = (con.raw h1, name) in
      if r.calculate_v2
      then v1 ∷ (con.raw h2, name) ∷ (con.raw (take sha1_size h2), name) ∷ []
      else v1 ∷ []

  name_entries : Bytes → Bytes → List (String × String)
  name_entries h1 h2 =
      let v1 : String × String = (v1_field, con.raw h1) in
      if r.calculate_v2
      then v1 ∷ (v2_field, con.raw h2) ∷ (hybrid_field, con.raw (take sha1_size h2)) ∷ []
      else v1 ∷ []

  -- The entries of the name, after those of the table.
  store_name : String → Bytes → Bytes → Fault → M W Fault
  unfolding name_entries name_key
  store_name name h1 h2 none = con.hset (name_key name) (name_entries h1 h2)
  store_name name h1 h2 (some e) = pure (some e)

  -- The error is only logged.
  store : String → Bytes × Bytes × Fault → M W Fault
  unfolding hash_entries store_name
  store name (h1, h2, some e) = pure (some e)
  store name (h1, h2, none) = do
    e ← con.hset r.hash_key (hash_entries name h1 h2)
    store_name name h1 h2 e

  unfoldable pub send : Hashing → Bool → TorrentInfo → M W Fault
  unfolding forget store generate_torrent_info_hash
  send h is_new t = do
    (if is_new then pure tt else forget t.name)
    store t.name (generate_torrent_info_hash h t.content r.calculate_v2)

  -- `Close` of a producer that has a connection.
  unfoldable pub close : M W (Unit {0})
  close = con.close
