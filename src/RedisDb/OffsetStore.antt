-- ===== src/RedisDb/OffsetStore.antt =====
-- shared/redis/db.go: the database of Redis has a crawl offset.
use ttobserver_v.Base.{ℕ, ◌^◌, ◌<◌, ◌≡◌, String, Option, none, some, List, All, arith}
use ttobserver_v.Shared.Errors.{Err}
use ttobserver_v.Shared.Database.Offsets.{IsOffsetStore, Op, Fits, run, replay, run-replay}
use ttobserver_v.RedisDb.Keys.{k_conf_offset}
use ttobserver_v.RedisDb.{number, Client, as_nil, clean, redis_database}

-- A server that answers: the numbers that stand at its keys.
pub record HasNumbers {W : Type 0} (con : Client W) : Type 0 where
  pub at_key : String → W → Option ℕ
  pub gets :
      (k : String) (n : ℕ) (w : W)
      → at_key k w ≡ some n
      → ((con.get_uint k w).0 ≡ (n, none)) × (at_key k (con.get_uint k w).1 ≡ some n)
  pub sets :
      (k : String) (n : ℕ) (w : W)
      → n < 2 ^ 64
      → ((con.set k (number n) w).0 ≡ none) × (at_key k (con.set k (number n) w).1 ≡ some n)

module _ {W : Type 0} (text_of : Err → String) (con : Client W) (server : HasNumbers con) where
  pub redis-IsOffsetStore : IsOffsetStore (redis_database text_of con)
  unfolding redis_database clean as_nil
  redis-IsOffsetStore = record {
    Holds = λ n w. server.at_key k_conf_offset w ≡ some n;
    reads = λ n w here. ground (arith, server.gets k_conf_offset n w here);
    read_keeps = λ n w here. (server.gets k_conf_offset n w here).1;
    stores = λ o n w small here. server.sets k_conf_offset n w small;
  }

  -- A client of the Redis database sees the answers of a number.
  pub run-redis_database :
      (ops : List Op) (o : ℕ) (w : W)
      → All Fits ops
      → server.at_key k_conf_offset w ≡ some o
      → run (redis_database text_of con) ops w ≡ replay ops o
  unfolding redis-IsOffsetStore
  run-redis_database = run-replay (redis_database text_of con) redis-IsOffsetStore
