-- ===== src/SqlDb.antt =====
-- shared/sqldb/db.go: the database of `database/sql`. `Methods` has the methods of the interface
-- over the helpers of this file, `Open` the factories; the others have theorems.
pub mod Queries
pub mod Methods
pub mod Open
mod Alive
pub mod Scans
pub mod Offsets
pub mod OffsetStore
pub mod Torrents
pub mod Aside
pub mod Doubles
mod Tests
use ttobserver_v.Base.{
  ℕ, String, Bool, false, true, Option, none, some, List, [], ◌∷◌, ◌++◌, M, pure, ◌>>=◌, ◌==◌,
  string_eq, if◌then◌else◌,
}
use ttobserver_v.Base.Int.{ℤ}
use ttobserver_v.Shared.Errors.{
  Fault, Result, ok, err, connection_not_initialized, required_parameters,
}
use ttobserver_v.Shared.Database.{Bytes, DbTorrent}

-- An argument of a statement
pub data Arg : Type 0 where
  int : ℤ → Arg
  text : String → Arg
  blob : Bytes → Arg

-- The rows of a query: those that `Next` gives, and the error that `Err` has after the last.
pub record Rows (Row : Type 0) : Type 0 where
  pub items : List Row
  pub fault : Fault

-- Outside the program: a connection, `Scan` of a row at the types that are asked for, and `Open`.
pub record Conn (W Row : Type 0) : Type 0 where
  pub ping : M W Fault
  pub exec : String → List Arg → M W Fault
  pub query : String → List Arg → M W (Option (Rows Row) × Fault)
  pub scan_int : Row → Result ℤ
  pub scan_text : Row → Result String
  pub scan_texts : Row → Result (String × String)
  pub scan_bytes : Row → Result Bytes
  pub scan_torrent : Row → Result DbTorrent
  pub close : M W (Unit {0})

module _ {A Row : Type 0} (scan : Row → Result A) where
  -- The loop `for rows.Next()` that scans each row and stops at an error.
  unfoldable pub scan_all : List A → List Row → Fault → List A × Fault
  scan_all acc [] e = (acc, e)
  scan_all acc (r ∷ rs) e = elim (scan r) [
    | ok a ↦ scan_all (acc ++ a ∷ []) rs e
    | err x ↦ (acc, some x)
  ]

  -- The scan of the first row, if there is one; after it `Err` is nil.
  unfoldable pub scan_first : A → List Row → Fault → A × Fault
  scan_first default [] e = (default, e)
  scan_first default (r ∷ rs) e = elim (scan r) [ ok a ↦ (a, none) | err x ↦ (default, some x) ]

-- What a query gives: no rows and an error give `default`.
unfoldable pub with_rows :
    {A Row : Type 0} → A → (List Row → Fault → A × Fault) → Option (Rows Row) × Fault → A × Fault
with_rows default found (some rows, none) = found rows.items rows.fault
with_rows default found (_, e) = (default, e)

-- A nil connection is `none`.
module _ {W Row : Type 0} (con : Option (Conn W Row)) where
  unfoldable pub check_connection : M W Fault
  check_connection = elim con [ none ↦ pure (some connection_not_initialized) | some c ↦ c.ping ]

  -- The rest of a method after the connection was checked: its error gives `default`.
  checked : {A : Type 0} → A → (Conn W Row → M W (A × Fault)) → M W (A × Fault)
  unfolding check_connection
  checked default rest = elim con [
    | none ↦ pure (default, some connection_not_initialized)
    | some c ↦ do e ← c.ping; elim e [ none ↦ rest c | some x ↦ pure (default, some x) ]
  ]

  -- A query, whose rows and their error are read by `found`.
  unfoldable pub run_query :
      {A : Type 0}
      → A
      → (Conn W Row → List Row → Fault → A × Fault)
      → String
      → List Arg
      → M W (A × Fault)
  unfolding checked
  run_query default found query args =
      checked default λ c. do r ← c.query query args; pure (with_rows default (found c) r)

  unfoldable pub exec_no_result : String → List Arg → M W Fault
  exec_no_result query args = elim con [
    | none ↦ pure (some connection_not_initialized)
    | some c ↦ do e ← c.ping; elim e [ none ↦ c.exec query args | some x ↦ pure (some x) ]
  ]
