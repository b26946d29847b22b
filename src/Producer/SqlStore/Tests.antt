-- ===== src/Producer/SqlStore/Tests.antt =====
-- A server for producer/sqldb/db.go that keeps its statements, and the theorem at it.
use ttobserver_v.Base.{◌≡◌, refl, String, true, none, List, [], ◌∷◌, ◌++◌, ◌⊎◌, inr, pure}
use ttobserver_v.SqlDb.{Arg}
use ttobserver_v.Producer.SqlStore.{Settings, Server, exec_db}
use ttobserver_v.Producer.SqlStore.Transaction.{IsTransactional, script}
use ttobserver_v.Producer.SqlStore.Atomic.{exec_db-atomic}

-- What took effect, what the transaction has, and the prepared statement.
pub record Log : Type 0 where
  pub effective : List (String × List Arg)
  pub pending : List (String × List Arg)
  pub prepared : String

abbrev logging : Server Log
logging = record {
  open_con = λ driver address. pure none;
  ping = pure none;
  close_con = pure tt;
  begin = λ w. (none, record w { pending = [] });
  exec = λ q a w. (none, record w { pending = w.pending ++ ((q, a) ∷ []) });
  prepare = λ q w. (none, record w { prepared = q });
  exec_prepared = λ a w. (none, record w { pending = w.pending ++ ((w.prepared, a) ∷ []) });
  close_prepared = pure tt;
  commit = λ w. (none, record w { effective = w.effective ++ w.pending });
  rollback = λ w. (none, record w { pending = [] });
}

logging-IsTransactional : IsTransactional logging
logging-IsTransactional = record {
  effective = λ w. w.effective;
  pending = λ w. w.pending;
  prepared = λ w. w.prepared;
  ping_keeps = λ w. refl;
  begin_keeps = λ w. refl;
  begun = λ w done. refl;
  exec_keeps = λ q a w. refl;
  executed = λ q a w done. refl;
  prepare_keeps = λ q w. refl;
  prepared_is = λ q w done. (refl, refl);
  exec_prepared_keeps = λ a w. (refl, refl);
  executed_prepared = λ a w done. refl;
  close_keeps = λ w. (refl, refl);
  rollback_keeps = λ w. refl;
  commit_atomic = λ w. inr refl;
  committed = λ w done. refl;
}

abbrev hash_table : Settings
hash_table = record {
  driver = "postgres";
  address = "localhost";
  delete_query = "DELETE FROM tt WHERE name = $1";
  insert_query = "INSERT INTO tt VALUES ($1, $2)";
  calculate_v2 = true;
}

abbrev empty_log : Log
empty_log = record { effective = []; pending = []; prepared = "" }

exec_db-atomic_example :
    let after = (exec_db hash_table logging "a film" (1 ∷ []) (2 ∷ 3 ∷ []) empty_log).1 in
    (after.effective ≡ [])
    ⊎ (after.effective
        ≡ [] ++ script hash_table logging logging-IsTransactional "a film" (1 ∷ []) (2 ∷ 3 ∷ []))
unfolding logging-IsTransactional
exec_db-atomic_example =
    exec_db-atomic hash_table logging logging-IsTransactional "a film" (1 ∷ []) (2 ∷ 3 ∷ [])
      empty_log
