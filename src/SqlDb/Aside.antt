-- ===== src/SqlDb/Aside.antt =====
-- shared/sqldb/db.go: what the methods leave as it was, all but those for the configuration.
use ttobserver_v.Base.{
  ◌==◌, string_eq, false, String, ◌≡◌, refl, none, some, List, [], ◌∷◌, Keeps, arith,
}
use ttobserver_v.Base.Int.{ℤ}
use ttobserver_v.Shared.Errors.{Fault}
use ttobserver_v.Shared.Database.{Bytes, Meta}
use ttobserver_v.SqlDb.{Arg, int, text, blob, Conn, checked, run_query, exec_no_result}
use ttobserver_v.SqlDb.Queries.{
  insert_or_update_config, insert_or_update_torrent, insert_torrent_file, insert_torrent_meta,
}
use ttobserver_v.SqlDb.Methods.{
  get_torrent, insert_files, with_id, after_upsert, add_torrent, add_torrent_meta,
}

-- Only the upsert of the configuration changes `q`.
pub record IsApart {W Row : Type 0} (q : W → Type 0) (c : Conn W Row) : Type 0 where
  pub pings : Keeps q c.ping
  pub queries : (query : String) (args : List Arg) → Keeps q (c.query query args)
  pub execs :
      (query : String) (args : List Arg)
      → (query == insert_or_update_config) ≡ false
      → Keeps q (c.exec query args)

module _ {W Row : Type 0} (q : W → Type 0) (c : Conn W Row) (apart : IsApart q c) where
  -- A method that is one query leaves `q`.
  pub run_query-Keeps :
      {A : Type 0} (default : A) (found : Conn W Row → List Row → Fault → A × Fault)
      (query : String) (args : List Arg)
      → Keeps q (run_query (some c) default found query args)
  unfolding run_query checked
  run_query-Keeps default found query args w h =
      let w' = (c.ping w).1 in
      ground (arith, apart.pings w h, apart.queries query args w' (apart.pings w h))

  pub exec_no_result-Keeps :
      (query : String) (args : List Arg)
      → (query == insert_or_update_config) ≡ false
      → Keeps q (exec_no_result (some c) query args)
  unfolding exec_no_result
  exec_no_result-Keeps query args other w h =
      let w' = (c.ping w).1 in
      ground (arith, apart.pings w h, apart.execs query args other w' (apart.pings w h))

  insert_files-Keeps :
      (id : ℤ) (e : Fault) (files : List String) → Keeps q (insert_files (some c) id e files)
  unfolding insert_files
  insert_files-Keeps id e [] w h = h
  insert_files-Keeps id e (file ∷ files) w h =
      let (x, w') = exec_no_result (some c) insert_torrent_file (int id ∷ text file ∷ []) w in
      insert_files-Keeps id x files w'
        (exec_no_result-Keeps insert_torrent_file (int id ∷ text file ∷ []) refl w h)

  with_id-Keeps : (files : List String) (r : ℤ × Fault) → Keeps q (with_id (some c) files r)
  unfolding with_id
  with_id-Keeps files (id, some e) w h = h
  with_id-Keeps files (id, none) w h = insert_files-Keeps id none files w h

  after_upsert-Keeps :
      (name : String) (files : List String) (e : Fault)
      → Keeps q (after_upsert (some c) name files e)
  unfolding after_upsert get_torrent
  after_upsert-Keeps name files (some e) w h = h
  after_upsert-Keeps name files none w h =
      let (r, w') = get_torrent (some c) name w in
      with_id-Keeps files r w' (run_query-Keeps _ _ _ _ w h)

  pub add_torrent-Keeps :
      (name : String) (content : Bytes) (files : List String)
      → Keeps q (add_torrent (some c) name content files)
  unfolding add_torrent
  add_torrent-Keeps name content files w h =
      let args : List Arg = text name ∷ blob content ∷ [] in
      let (e, w') = exec_no_result (some c) insert_or_update_torrent args w in
      after_upsert-Keeps name files e w'
        (exec_no_result-Keeps insert_or_update_torrent args refl w h)

  pub add_torrent_meta-Keeps : (id : ℤ) (meta : Meta) → Keeps q (add_torrent_meta (some c) id meta)
  unfolding add_torrent_meta
  add_torrent_meta-Keeps id [] w h = h
  add_torrent_meta-Keeps id ((k, v) ∷ meta) w h =
      let args : List Arg = int id ∷ text k ∷ text v ∷ [] in
      let (e, w') = exec_no_result (some c) insert_torrent_meta args w in
      let h' = exec_no_result-Keeps insert_torrent_meta args refl w h in
      ground (arith, h', add_torrent_meta-Keeps id meta w' h')
