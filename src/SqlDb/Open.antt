-- ===== src/SqlDb/Open.antt =====
-- shared/sqldb/db.go: `newDb` and the two factories that `init` registers.
use ttobserver_v.Base.{
  String, Option, none, some, [], ◌∷◌, Dict, lookup, M, pure, ◌>>=◌, ◌==◌, string_eq, if◌then◌else◌,
}
use ttobserver_v.Shared.Errors.{Fault, required_parameters}
use ttobserver_v.Shared.Database.{Database, DbFactory, nil_database}
use ttobserver_v.SqlDb.{Conn, check_connection}
use ttobserver_v.SqlDb.Methods.{sql_database}
use ttobserver_v.SqlDb.Queries.{sql_lite_driver, pg_driver, db_file_param, db_address_param}

-- `newDb`: `open_db` is `sql.Open`. The database is returned beside an error, without a parameter as
-- a nil pointer.
unfoldable pub new_db :
    {W Row : Type 0}
    → (String → String → Option (Conn W Row) × Fault)
    → String
    → String
    → M W (Option (Database W) × Fault)
new_db open_db driver param =
    if param == ""
    then pure (some nil_database, some required_parameters)
    else (let (con, e) = open_db driver param in
        elim e [
          | none ↦ do x ← check_connection con; pure (some (sql_database con), x)
          | some x ↦ pure (some (sql_database con), some x)
        ])

module _ {W Row : Type 0} (open_db : String → String → Option (Conn W Row) × Fault) where
  -- A parameter is a text, or nil, which is `none`.
  unfoldable pub sql_factory : String → String → DbFactory W (Option String) (Database W)
  unfolding new_db
  sql_factory driver param params = elim (lookup param params) [
    | none ↦ pure (none, some required_parameters)
    | some v ↦ elim v [
      | none ↦ pure (none, some required_parameters)
      | some text ↦ new_db open_db driver text
    ]
  ]

  unfoldable pub sql_factories : Dict String (DbFactory W (Option String) (Database W))
  unfolding sql_factory
  sql_factories =
      (sql_lite_driver, sql_factory sql_lite_driver db_file_param)
      ∷ (pg_driver, sql_factory pg_driver db_address_param)
      ∷ []
