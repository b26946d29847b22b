-- ===== src/Shared/Stores.antt =====
-- shared/sqldb/db.go and shared/redis/db.go as implementations of one interface, that of
-- shared/database.go for the crawl offset.
mod Tests
use ttobserver_v.Base.{ℕ, ◌≡◌, ◌∙◌, sym, String, some, List, All}
use ttobserver_v.Shared.Errors.{Err}
use ttobserver_v.Shared.Database.Offsets.{Op, Fits, run, IsOffsetStore, run-replay}
use ttobserver_v.SqlDb.{Conn}
use ttobserver_v.SqlDb.Methods.{sql_database}
use ttobserver_v.SqlDb.OffsetStore.{HasConfig, HasOffset, run-sql_database}
use ttobserver_v.RedisDb.{Client, redis_database}
use ttobserver_v.RedisDb.Keys.{k_conf_offset}
use ttobserver_v.RedisDb.OffsetStore.{HasNumbers, run-redis_database}

module _ {W Row V : Type 0} (c : Conn W Row) (table : HasConfig c) (text_of : Err → String)
    (con : Client V) (server : HasNumbers con) where
  -- On connections that answer, a client that reads and stores crawl offsets of 64 bits sees the same
  -- answers from the SQL database as from the Redis database, when both hold the same offset.
  pub sql_database-redis_database :
      (ops : List Op) (o : ℕ) (w : W) (v : V)
      → All Fits ops
      → HasOffset c table o w
      → server.at_key k_conf_offset v ≡ some o
      → run (sql_database (some c)) ops w ≡ run (redis_database text_of con) ops v
  sql_database-redis_database ops o w v fits here there =
      run-sql_database c table ops o w fits here
      ∙ sym (run-redis_database text_of con server ops o v fits there)
