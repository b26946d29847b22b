-- ===== src/SqlDb/Methods.antt =====
-- shared/sqldb/db.go: the methods of `database`.
use ttobserver_v.Base.{
  ℕ, String, Bool, false, true, Option, none, some, List, [], ◌∷◌, ◌++◌, M, pure, ◌>>=◌, string_eq,
  insert,
}
use ttobserver_v.Base.Int.{ℤ, pos}
use ttobserver_v.Base.Decimal.{format_uint, parse_uint}
use ttobserver_v.Shared.Errors.{Fault, Result, ok, err, parse_error}
use ttobserver_v.Shared.Database.{Bytes, Meta, Database, DbTorrent, invalid_db_id}
use ttobserver_v.SqlDb.{
  Arg, int, text, blob, Conn, scan_all, scan_first, check_connection, run_query, exec_no_result,
}
use ttobserver_v.SqlDb.Queries.{
  select_chats, insert_chat, del_chat, exist_chat, select_admins, insert_admin, del_admin,
  exist_admin, select_torrents, select_torrent_id, exist_torrent, insert_torrent,
  insert_or_update_torrent, select_torrent_meta, insert_torrent_meta, select_torrent_files,
  insert_torrent_file, select_torrent_image, insert_torrent_image, select_config,
  insert_or_update_config, conf_crawl_offset,
}

-- Files after a scan that fails are none at all.
module _ {Row : Type 0} (scan : Row → Result String) where
  unfoldable pub scan_files : List String → List Row → Fault → List String × Fault
  scan_files acc [] e = (acc, e)
  scan_files acc (r ∷ rs) e = elim (scan r) [
    | ok a ↦ scan_files (acc ++ a ∷ []) rs e
    | err x ↦ ([], some x)
  ]

unfoldable pub scan_meta :
    {Row : Type 0} → (Row → Result (String × String)) → Meta → List Row → Fault → Meta × Fault
scan_meta scan acc [] e = (acc, e)
scan_meta scan acc (r ∷ rs) e = elim (scan r) [
  | ok kv ↦ scan_meta scan (insert kv.0 kv.1 acc) rs e
  | err x ↦ (acc, some x)
]

-- `rows.Next()` and the error that is there after it
row_there : {Row : Type 0} → List Row → Fault → Bool × Fault
row_there [] e = (false, e)
row_there (r ∷ rs) e = (true, none)

-- The value that `ParseUint` gives beside an error is not modelled: it is 0 here.
unfoldable pub parsed : String × Fault → ℕ × Fault
parsed (val, some e) = (0, some e)
parsed (val, none) = elim (parse_uint val) [ none ↦ (0, some parse_error) | some n ↦ (n, none) ]

module _ {W Row : Type 0} (con : Option (Conn W Row)) where
  unfoldable pub get_not_empty : String → List Arg → M W (Bool × Fault)
  unfolding row_there
  get_not_empty query args = run_query con false (λ c. row_there) query args

  unfoldable pub get_int_array : String → List Arg → M W (List ℤ × Fault)
  get_int_array = run_query con [] (λ c. scan_all c.scan_int [])

  -- `AddChat` and `AddAdmin`: nothing is inserted where the row is there.
  insert_new : String → ℤ → Bool × Fault → M W Fault
  insert_new query id (_, some e) = pure (some e)
  insert_new query id (true, none) = pure none
  insert_new query id (false, none) = exec_no_result con query (int id ∷ [])

  unfoldable pub get_chat_exist : ℤ → M W (Bool × Fault)
  get_chat_exist chat = get_not_empty exist_chat (int chat ∷ [])

  unfoldable pub get_admin_exist : ℤ → M W (Bool × Fault)
  get_admin_exist chat = get_not_empty exist_admin (int chat ∷ [])

  unfoldable pub add_chat : ℤ → M W Fault
  unfolding insert_new
  add_chat chat = do r ← get_chat_exist chat; insert_new insert_chat chat r

  unfoldable pub add_admin : ℤ → M W Fault
  unfolding insert_new
  add_admin id = do r ← get_admin_exist id; insert_new insert_admin id r

  unfoldable pub get_torrent : String → M W (ℤ × Fault)
  get_torrent name =
      run_query con invalid_db_id (λ c. scan_first c.scan_int invalid_db_id) select_torrent_id
        (text name ∷ [])

  -- The loop over the files: an error does not end it, and the last call decides.
  unfoldable pub insert_files : ℤ → Fault → List String → M W Fault
  insert_files id e [] = pure e
  insert_files id e (file ∷ files) = do
    x ← exec_no_result con insert_torrent_file (int id ∷ text file ∷ [])
    insert_files id x files

  unfoldable pub with_id : List String → ℤ × Fault → M W (ℤ × Fault)
  with_id files (id, some e) = pure (id, some e)
  with_id files (id, none) = do e ← insert_files id none files; pure (id, e)

  unfoldable pub after_upsert : String → List String → Fault → M W (ℤ × Fault)
  unfolding with_id
  after_upsert name files (some e) = pure (pos 0, some e)
  after_upsert name files none = do r ← get_torrent name; with_id files r

  unfoldable pub add_torrent : String → Bytes → List String → M W (ℤ × Fault)
  unfolding after_upsert
  add_torrent name content files = do
    e ← exec_no_result con insert_or_update_torrent (text name ∷ blob content ∷ [])
    after_upsert name files e

  unfoldable pub get_torrent_files : ℤ → M W (List String × Fault)
  get_torrent_files torrent =
      run_query con [] (λ c. scan_files c.scan_text []) select_torrent_files (int torrent ∷ [])

  unfoldable pub get_config_value : String → M W (String × Fault)
  get_config_value name =
      run_query con "" (λ c. scan_first c.scan_text "") select_config (text name ∷ [])

  unfoldable pub update_config_value : String → String → M W Fault
  update_config_value name val =
      exec_no_result con insert_or_update_config (text name ∷ text val ∷ [])

  unfoldable pub get_crawl_offset : M W (ℕ × Fault)
  get_crawl_offset = do r ← get_config_value conf_crawl_offset; pure (parsed r)

  unfoldable pub update_crawl_offset : ℕ → M W Fault
  update_crawl_offset offset = update_config_value conf_crawl_offset (format_uint offset)

  unfoldable pub get_torrent_meta : ℤ → M W (Meta × Fault)
  get_torrent_meta id =
      run_query con [] (λ c. scan_meta c.scan_texts []) select_torrent_meta (int id ∷ [])

  -- The loop over the meta ends at the first error.
  unfoldable pub add_torrent_meta : ℤ → Meta → M W Fault
  add_torrent_meta id [] w = (none, w)
  add_torrent_meta id ((k, v) ∷ m) w =
      let (e, w') = exec_no_result con insert_torrent_meta (int id ∷ text k ∷ text v ∷ []) w in
      elim e [ none ↦ add_torrent_meta id m w' | some x ↦ (some x, w') ]

  unfoldable pub get_torrent_image : ℤ → M W (Bytes × Fault)
  get_torrent_image id =
      run_query con [] (λ c. scan_first c.scan_bytes []) select_torrent_image (int id ∷ [])

  unfoldable pub add_torrent_image : ℤ → Bytes → M W Fault
  add_torrent_image id image = exec_no_result con insert_torrent_image (blob image ∷ int id ∷ [])

  unfoldable pub close : M W (Unit {0})
  close = elim con [ none ↦ pure tt | some c ↦ c.close ]

  unfoldable pub m_get_torrents : M W (List DbTorrent × Fault)
  m_get_torrents = run_query con [] (λ c. scan_all c.scan_torrent []) select_torrents []

  -- The loop over the files of a migrated torrent ends at the first error.
  put_files : ℤ → List String → M W Fault
  put_files id [] w = (none, w)
  put_files id (f ∷ files) w =
      let (e, w') = exec_no_result con insert_torrent_file (int id ∷ text f ∷ []) w in
      elim e [ none ↦ put_files id files w' | some x ↦ (some x, w') ]

  unfoldable pub m_put_torrent : DbTorrent → List String → M W Fault
  unfolding put_files
  m_put_torrent t files = do
    c ← check_connection con
    let put = (do
      e ←
          exec_no_result con insert_torrent
            (int t.id ∷ text t.name ∷ blob t.content ∷ blob t.image ∷ [])
      elim e [ none ↦ put_files t.id files | some x ↦ pure (some x) ])
    elim c [ none ↦ put | some x ↦ pure (some x) ]

  abbrev pub sql_database : Database W
  sql_database = record {
    is_nil = false;
    add_admin = add_admin;
    add_chat = add_chat;
    add_torrent_image = add_torrent_image;
    add_torrent_meta = add_torrent_meta;
    add_torrent = add_torrent;
    check_torrent = λ id. get_not_empty exist_torrent (int id ∷ []);
    close = close;
    del_admin = λ id. exec_no_result con del_admin (int id ∷ []);
    del_chat = λ chat. exec_no_result con del_chat (int chat ∷ []);
    get_admin_exist = get_admin_exist;
    get_admins = get_int_array select_admins [];
    get_chat_exist = get_chat_exist;
    get_chats = get_int_array select_chats [];
    get_crawl_offset = get_crawl_offset;
    get_torrent_files = get_torrent_files;
    get_torrent_image = get_torrent_image;
    get_torrent_meta = get_torrent_meta;
    get_torrent = get_torrent;
    update_crawl_offset = update_crawl_offset;
    m_get_torrents = m_get_torrents;
    m_put_torrent = m_put_torrent;
  }
