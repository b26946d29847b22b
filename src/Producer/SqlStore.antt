-- ===== src/Producer/SqlStore.antt =====
-- producer/sqldb/db.go: the producer that writes the hashes of a torrent into a table.
pub mod Transaction
pub mod Atomic
mod Tests
use ttobserver_v.Base.{
  ℕ, String, Bool, Option, none, some, List, [], ◌∷◌, M, pure, ◌>>=◌, ◌>>◌, if◌then◌else◌, ◌==◌,
  string_eq, is_empty, ◌||◌, take,
}
use ttobserver_v.Shared.Errors.{Err, Fault, required_parameters}
use ttobserver_v.Shared.Database.{Bytes}
use ttobserver_v.Shared.Torrent.{TorrentInfo, Hashing, generate_torrent_info_hash}
use ttobserver_v.SqlDb.{Arg, text, blob}

-- The length of a hash of SHA-1.
abbrev pub sha1_size : ℕ
sha1_size = 20

pub record Settings : Type 0 where
  pub driver : String
  pub address : String
  pub delete_query : String
  pub insert_query : String
  pub calculate_v2 : Bool

-- Outside: `sql.Open`, the connection, one transaction and one prepared statement.
pub record Server (W : Type 0) : Type 0 where
  pub open_con : String → String → M W Fault
  pub ping : M W Fault
  pub close_con : M W (Unit {0})
  pub begin : M W Fault
  pub exec : String → List Arg → M W Fault
  pub prepare : String → M W Fault
  pub exec_prepared : List Arg → M W Fault
  pub close_prepared : M W (Unit {0})
  pub commit : M W Fault
  pub rollback : M W Fault

module _ {W : Type 0} (d : Settings) (server : Server W) where
  -- The rest of a sequence of calls that an error ends.
  abbrev pub unless : Fault → M W Fault → M W Fault
  unless none rest = rest
  unless (some e) rest = pure (some e)

  -- `New`, with the error of reading the configuration.
  unfoldable pub new : Fault → M W Fault
  new (some e) = pure (some e)
  new none =
      if d.driver == "" || d.address == "" || d.delete_query == ""
      then pure (some required_parameters)
      else (do
        e ← server.open_con d.driver d.address
        unless e (do p ← server.ping; server.close_con; pure p))

  insert_v2 : String → Bytes → M W Fault
  insert_v2 name [] = pure none
  insert_v2 name (b ∷ h2) = do
    e ← server.exec_prepared (blob (b ∷ h2) ∷ text name ∷ [])
    unless e (server.exec_prepared (blob (take sha1_size (b ∷ h2)) ∷ text name ∷ []))

  inserts : String → Bytes → Bytes → M W Fault
  unfolding insert_v2
  inserts name h1 h2 = do
    e ← server.exec_prepared (blob h1 ∷ text name ∷ [])
    unless e (insert_v2 name h2)

  -- The statements of the transaction.
  unfoldable pub statements : String → Bytes → Bytes → M W Fault
  unfolding inserts
  statements name h1 h2 = do
    e ← server.exec d.delete_query (text name ∷ [])
    unless e (do
      p ← server.prepare d.insert_query
      unless p (do r ← inserts name h1 h2; server.close_prepared; pure r))

  -- The error of a statement is only logged: what is returned is the end of the transaction.
  end_transaction : Fault → M W Fault
  end_transaction none = server.commit
  end_transaction (some e) = server.rollback

  unfoldable pub exec_db : String → Bytes → Bytes → M W Fault
  unfolding statements end_transaction
  exec_db name h1 h2 = do
    p ← server.ping
    unless p (do b ← server.begin; unless b (do e ← statements name h1 h2; end_transaction e))

  send_hashes : String → Bytes × Bytes × Fault → M W Fault
  unfolding exec_db
  send_hashes name (h1, h2, some e) = pure (some e)
  send_hashes name (h1, h2, none) = do
    e ← server.open_con d.driver d.address
    unless e (do r ← exec_db name h1 h2; server.close_con; pure r)

  -- The error is only logged.
  unfoldable pub send : Hashing → TorrentInfo → M W Fault
  unfolding send_hashes generate_torrent_info_hash
  send h t = send_hashes t.name (generate_torrent_info_hash h t.content d.calculate_v2)
