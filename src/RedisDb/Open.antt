-- ===== src/RedisDb/Open.antt =====
-- shared/redis/db.go: the factory that `init` registers.
use ttobserver_v.Base.{String, Option, none, some, Dict, lookup, string_eq, M, pure, ◌>>=◌}
use ttobserver_v.Base.Int.{ℤ, pos}
use ttobserver_v.Shared.Errors.{Err, Fault, required_parameters, message}
use ttobserver_v.Shared.Database.{Database, nil_database}
use ttobserver_v.RedisDb.Keys.{param_address, param_password, param_db}
use ttobserver_v.RedisDb.{Client, redis_database}

-- A parameter as JSON gives it: a text, a number with its value as an int, another value, or nil.
pub data Param : Type 0 where
  text : String → Param
  number : ℤ → Param
  other nil : Param

pub record Options : Type 0 where
  pub address : String
  pub password : String
  pub db : ℤ

-- What the factory does: a type assertion that fails panics.
pub data Made (W : Type 0) : Type 0 where
  panicked : Made W
  made : Option (Database W) → Fault → Made W

-- Outside: `redis.NewClient`, and the client's `Ping`.
module _ {W : Type 0} (text_of : Err → String) (client : Options → Client W)
    (ping : Options → M W Fault) where
  connected : Options → M W (Made W)
  connected opts = do e ← ping opts; pure (made (some (redis_database text_of (client opts))) e)

  with_db : Options → Option Param → M W (Made W)
  unfolding connected
  with_db opts (some (number n)) = connected (record opts { db = n })
  with_db opts (some (text v)) = pure (made none (some required_parameters))
  with_db opts (some other) = pure (made none (some required_parameters))
  with_db opts (some nil) = connected opts
  with_db opts none = connected opts

  with_password : Options → Option Param → Option Param → M W (Made W)
  unfolding with_db
  with_password opts (some (text v)) db = with_db (record opts { password = v }) db
  with_password opts (some (number n)) db = pure panicked
  with_password opts (some other) db = pure panicked
  with_password opts (some nil) db = with_db opts db
  with_password opts none db = with_db opts db

  with_address : Option Param → Option Param → Option Param → M W (Made W)
  unfolding with_password
  with_address (some (text v)) password db =
      with_password (record { address = v; password = ""; db = pos 0 }) password db
  with_address (some (number n)) password db = pure panicked
  with_address (some other) password db = pure panicked
  with_address (some nil) password db =
      pure (made (some nil_database) (some (message "address not set")))
  with_address none password db = pure (made (some nil_database) (some (message "address not set")))

  -- The factory, on the parameters of the configuration.
  unfoldable pub redis_factory : Dict String Param → M W (Made W)
  unfolding with_address
  redis_factory m =
      with_address (lookup param_address m) (lookup param_password m) (lookup param_db m)
