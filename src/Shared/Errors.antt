-- ===== src/Shared/Errors.antt =====
-- The values of Go's `error` that the program tells apart or builds; `none` is `nil`.
use ttobserver_v.Base.{String, ℕ, Option}

pub data Err : Type 0 where
  -- shared/database.go
  required_parameters driver_not_registered : Err
  -- shared/torrent.go
  invalid_image_url : Err
  -- shared/redis/db.go, and the sentinel `redis.Nil`
  torrent_not_found redis_nil : Err
  -- shared/sqldb/db.go
  connection_not_initialized : Err
  -- strconv.ErrSyntax or strconv.ErrRange
  parse_error : Err
  -- observer.go
  actions_not_set : Err
  -- producer/announcer.go, the number is the position of the configuration
  unable_to_construct unknown_type : ℕ → String → Err
  -- producer/shared.go
  template_not_set : Err
  -- the two errors that cluster.go asks for, of package nats
  no_responders timeout : Err
  -- errors.New with a composed text, and errors of other packages
  message : String → Err

-- A call that gives a value or an error, never both.
pub data Result (A : Type 0) : Type 0 where
  ok : A → Result A
  err : Err → Result A

abbrev pub Fault : Type 0
Fault = Option Err
