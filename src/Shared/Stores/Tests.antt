-- ===== src/Shared/Stores/Tests.antt =====
-- A table and a server that hold one crawl offset, and the theorem at them.
use ttobserver_v.Base.{ℕ, false, ◌≡◌, refl, none, some, List, [], ◌∷◌, pure, arith}
use ttobserver_v.Base.Decimal.{format_uint}
use ttobserver_v.Shared.Errors.{redis_nil}
use ttobserver_v.Shared.Database.Offsets.{Op, get, update, run}
use ttobserver_v.Shared.Stores.{sql_database-redis_database}
use ttobserver_v.SqlDb.Methods.{sql_database}
use ttobserver_v.SqlDb.Doubles.{one_row, one_row-HasConfig}
use ttobserver_v.RedisDb.{Val, number, Client, redis_database}
use ttobserver_v.RedisDb.OffsetStore.{HasNumbers}

-- The world is the one number of the server.
abbrev number_of : Val → ℕ → ℕ
number_of (number n) old = n
number_of v old = old

abbrev one_number : Client ℕ
one_number = record {
  hget = λ k f. pure ("", some redis_nil);
  hget_bytes = λ k f. pure ([], some redis_nil);
  hget_all = λ k. pure ([], none);
  hset = λ k fs. pure none;
  hexists = λ k f. pure (false, none);
  sadd = λ k vs. pure none;
  srem = λ k v. pure none;
  sismember = λ k v. pure (false, none);
  smembers = λ k. pure ([], none);
  incr = λ k. pure (1, none);
  get_uint = λ k w. ((w, none), w);
  set = λ k v w. (none, number_of v w);
  tx_pipelined = λ body w. let (r, w') = body w in ((r.0, [], r.1), w');
  close = pure tt;
}

one_number-HasNumbers : HasNumbers one_number
one_number-HasNumbers = record {
  at_key = λ k w. some w;
  gets = λ k n w here. (cc, here);
  sets = λ k n w small. (refl, refl);
}

abbrev session : List Op
session = get ∷ update 42 ∷ get ∷ []

sql_database-redis_database_example :
    run (sql_database (some one_row)) session "7"
    ≡ run (redis_database (λ e. "error") one_number) session 7
unfolding one_row-HasConfig one_number-HasNumbers format_uint
sql_database-redis_database_example =
    sql_database-redis_database one_row one_row-HasConfig (λ e. "error") one_number
      one_number-HasNumbers session 7 "7" 7 (tt, (omega arith, (tt, tt))) (omega arith, refl) refl
