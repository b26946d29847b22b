-- ===== src/Producer/Lmdb.antt =====
-- producer/lmdb/db.go: the producer that keeps the hashes of the torrents in an LMDB file.
pub mod Keys
pub mod Opening
mod Tests
use ttobserver_v.Base.{
  ℕ, ◌^◌, zero, suc, String, Bool, Option, none, some, List, [], ◌∷◌, ◌++◌, M, pure, ◌>>=◌, ◌>>◌,
  if◌then◌else◌, ◌==◌, string_eq, ◌||◌, take,
}
use ttobserver_v.Base.Int.{ℤ, pos, negsuc}
use ttobserver_v.Shared.Errors.{Err, Fault, required_parameters}
use ttobserver_v.Shared.Database.{Bytes}
use ttobserver_v.Shared.Torrent.{TorrentInfo, Hashing, generate_torrent_info_hash}
use ttobserver_v.Producer.SqlStore.{sha1_size}

pub record Settings : Type 0 where
  pub path : String
  pub max_size : ℤ
  pub db_name : String
  pub key_prefix : Bytes
  pub calculate_v2 : Bool
  pub async_write : Bool
  pub no_meta_sync : Bool

-- Outside: the environment of LMDB and its wrapper `lmdbsync`, the directory, and the test for
-- `ErrNotExist`. `open_env` has the flags of an asynchronous write and of no sync of the meta page;
-- `update` runs a function in a transaction.
pub record Env (W : Type 0) : Type 0 where
  pub new_env : M W Fault
  pub wrap_env : M W Fault
  pub set_max_dbs : ℕ → M W Fault
  pub set_map_size : ℤ → M W Fault
  pub stat : String → M W Fault
  pub is_not_exist : Err → Bool
  pub mkdir : String → M W Fault
  pub open_env : String → Bool → Bool → M W Fault
  pub update : M W Fault → M W Fault
  pub create_dbi : String → M W Fault
  pub put : Bytes → String → M W Fault
  pub sync : M W Fault
  pub close : M W Fault

module _ {W : Type 0} (cfg : Settings) (env : Env W) where
  -- A step under `if err == nil`.
  if_ok : M W Fault → Fault → M W Fault
  if_ok step none = step
  if_ok step (some e) = pure (some e)

  unfoldable pub make_env : M W Fault
  unfolding if_ok
  make_env = do e ← env.new_env; if_ok env.wrap_env e

  map_size : ℤ → ℤ
  map_size (pos zero) = pos (2 ^ 30)
  map_size (pos (suc n)) = pos (suc n)
  map_size (negsuc n) = pos (2 ^ 30)

  make_directory : Fault → M W Fault
  make_directory none = pure none
  make_directory (some e) = if env.is_not_exist e then env.mkdir cfg.path else pure (some e)

  -- The errors of the two settings are overwritten.
  prepare : M W Fault
  unfolding map_size make_directory
  prepare = do
    env.set_max_dbs 1
    env.set_map_size (map_size cfg.max_size)
    e ← env.stat cfg.path
    make_directory e

  open_file : M W Fault
  open_file = env.open_env cfg.path cfg.async_write cfg.no_meta_sync

  make_table : M W Fault
  make_table = env.update (env.create_dbi cfg.db_name)

  -- The steps after the environment was made, or not.
  stages : Fault → M W Fault
  unfolding prepare open_file make_table if_ok
  stages made = do
    prepared ← if_ok prepare made
    opened ← if_ok open_file prepared
    if_ok make_table opened

  -- The error of `Close` takes the place of the error that there was. An environment that could not be
  -- made is nil, and its `Close` panics: `none`.
  finish : Fault → Fault → M W (Option Fault)
  finish made none = pure (some none)
  finish none (some e) = do x ← env.close; pure (some x)
  finish (some made) (some e) = pure none

  -- `newDB`
  unfoldable pub new_db : M W (Option Fault)
  unfolding make_env stages finish
  new_db =
      let run = (do made ← make_env; e ← stages made; finish made e) in
      if cfg.path == "" || cfg.db_name == "" then pure (some (some required_parameters)) else run

  -- `New`, with the error of reading the configuration.
  unfoldable pub new : Fault → M W (Option Fault)
  unfolding new_db
  new (some e) = pure (some (some e))
  new none = new_db

  put_v2 : String → Bytes → M W Fault
  unfolding if_ok
  put_v2 name [] = pure none
  put_v2 name (b ∷ h2) = do
    e ← env.put (cfg.key_prefix ++ b ∷ h2) name
    if_ok (env.put (cfg.key_prefix ++ take sha1_size (b ∷ h2)) name) e

  -- The function of the transaction.
  put_hashes : String → Bytes → Bytes → M W Fault
  unfolding put_v2 if_ok
  put_hashes name h1 h2 = do e ← env.put (cfg.key_prefix ++ h1) name; if_ok (put_v2 name h2) e

  store_hashes : String → Bytes × Bytes × Fault → M W Fault
  unfolding put_hashes
  store_hashes name (h1, h2, some e) = pure (some e)
  store_hashes name (h1, h2, none) = env.update (put_hashes name h1 h2)

  -- The error is only logged.
  unfoldable pub send : Hashing → TorrentInfo → M W Fault
  unfolding store_hashes generate_torrent_info_hash
  send h t = store_hashes t.name (generate_torrent_info_hash h t.content cfg.calculate_v2)

  -- `Close` of a producer that has an environment.
  unfoldable pub close : M W (Unit {0})
  close = do env.sync; env.close; pure tt
