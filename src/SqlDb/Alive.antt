-- ===== src/SqlDb/Alive.antt =====
-- shared/sqldb/db.go: a method on a connection that answers a ping, and on one that does not.
use ttobserver_v.Base.{◌≡◌, String, none, some, List, arith}
use ttobserver_v.Shared.Errors.{Fault, Err}
use ttobserver_v.SqlDb.{Arg, Conn, checked, with_rows, run_query, exec_no_result}

module _ {W Row : Type 0} (c : Conn W Row) where
  pub run_query-alive :
      {A : Type 0} (default : A) (scan : Conn W Row → List Row → Fault → A × Fault) (query : String)
      (args : List Arg) (w : W)
      → (c.ping w).0 ≡ none
      → (run_query (some c) default scan query args w).0
        ≡ with_rows default (scan c) (c.query query args (c.ping w).1).0
  unfolding run_query checked
  run_query-alive default scan query args w h = ground arith

  pub run_query-dead :
      {A : Type 0} (default : A) (scan : Conn W Row → List Row → Fault → A × Fault) (query : String)
      (args : List Arg) (w : W) {x : Err}
      → (c.ping w).0 ≡ some x
      → (run_query (some c) default scan query args w).0 ≡ (default, some x)
  unfolding run_query checked
  run_query-dead default scan query args w h = ground arith

  pub exec-done :
      (query : String) (args : List Arg) (w : W)
      → (exec_no_result (some c) query args w).0 ≡ none
      → exec_no_result (some c) query args w ≡ c.exec query args (c.ping w).1
  unfolding exec_no_result
  exec-done query args w h = ground arith
