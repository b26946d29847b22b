-- ===== src/RedisDb.antt =====
-- shared/redis/db.go: the database of Redis. `Migrated` shows what a migrated torrent lacks.
pub mod Keys
pub mod Ints
pub mod Migrated
pub mod Open
pub mod Added
pub mod OffsetStore
mod Tests
use ttobserver_v.Base.{
  ℕ, zero, suc, ◌+◌, ◌-◌, ◌<◌, String, append_text, Bool, false, true, Option, none, some, List, [],
  ◌∷◌, ◌++◌, map, M, pure, ◌>>=◌, ◌>>◌, ◌==◌, string_eq, if◌then◌else◌, is_empty, Dict,
}
use ttobserver_v.Base.Int.{ℤ, pos}
use ttobserver_v.RedisDb.Ints.{format_int, parse_int}
use ttobserver_v.Base.Decimal.{format_uint}
use ttobserver_v.Shared.Errors.{
  Err, Fault, Result, ok, err, redis_nil, torrent_not_found, parse_error, message,
}
use ttobserver_v.Shared.Database.{Bytes, Meta, Database, DbTorrent, invalid_db_id}
use ttobserver_v.RedisDb.Keys.{
  s_chat, s_admin, k_conf_offset, k_torrent_index, h_torrent_id, h_torrent, h_torrent_file,
  h_torrent_meta, f_index, f_name, f_data, f_image,
}

-- A value that is written
pub data Val : Type 0 where
  text : String → Val
  blob : Bytes → Val
  number : ℕ → Val
  int : ℤ → Val

-- Outside the program: the client's commands. A missing field or key is the error `redis_nil`
-- beside the empty value. `tx_pipelined` runs the function that queues commands; it gives the number
-- that the function leaves in its caller's variable, and the errors of the commands queued.
pub record Client (W : Type 0) : Type 0 where
  pub hget : String → String → M W (String × Fault)
  pub hget_bytes : String → String → M W (Bytes × Fault)
  pub hget_all : String → M W (Meta × Fault)
  pub hset : String → List (String × Val) → M W Fault
  pub hexists : String → String → M W (Bool × Fault)
  pub sadd : String → List Val → M W Fault
  pub srem : String → Val → M W Fault
  pub sismember : String → Val → M W (Bool × Fault)
  pub smembers : String → M W (List String × Fault)
  pub incr : String → M W (ℕ × Fault)
  pub get_uint : String → M W (ℕ × Fault)
  pub set : String → Val → M W Fault
  pub tx_pipelined : M W (ℤ × Fault) → M W (ℤ × List Fault × Fault)
  pub close : M W (Unit {0})

unfoldable pub as_nil : Fault → Fault
as_nil (some redis_nil) = none
as_nil e = e

-- The texts of the errors that are not nil, joined.
join_faults : (Err → String) → List Fault → String
join_faults text_of [] = ""
join_faults text_of (none ∷ es) = join_faults text_of es
join_faults text_of (some e ∷ es) =
    let rest = join_faults text_of es in
    if rest == "" then text_of e else append_text (text_of e) (append_text "; " rest)

any_fault : List Fault → Bool
any_fault [] = false
any_fault (none ∷ es) = any_fault es
any_fault (some e ∷ es) = true

module _ {W : Type 0} (text_of : Err → String) (con : Client W) where
  open con use {hget, hget_bytes, hget_all, hset, sadd, smembers, incr, set, tx_pipelined}

  tx_fault : List Fault → Fault → Fault
  unfolding join_faults any_fault
  tx_fault es (some e) = some e
  tx_fault es none = if any_fault es then some (message (join_faults text_of es)) else none

  unfoldable pub tx : M W (ℤ × Fault) → M W (ℤ × Fault)
  unfolding tx_fault
  tx body = do r ← tx_pipelined body; pure (r.0, tx_fault r.1 r.2)

  -- `SAdd` of the files, where there are any
  unfoldable pub add_files : String → List String → M W Fault
  add_files sid files =
      if is_empty files then pure none else sadd (append_text h_torrent_file sid) (map text files)

  -- A new index for a torrent without one: the index, its text and the error.
  new_index : String → M W (ℤ × String × Fault)
  new_index hkey = do
    n ← incr k_torrent_index
    let sid = format_uint n.0
    let set_id = (do
      e ← hset hkey ((f_index, text sid) ∷ [])
      let back = (do x ← hset h_torrent_id ((sid, text hkey) ∷ []); pure (pos n.0, sid, x))
      elim e [ none ↦ back | some x ↦ pure (pos n.0, sid, some x) ])
    elim n.1 [ none ↦ set_id | some x ↦ pure (pos n.0, "", some x) ]

  index_of : String → String × Fault → M W (ℤ × String × Fault)
  unfolding new_index as_nil
  index_of hkey (sid, e) = elim (as_nil e) [
    | some x ↦ pure (pos 0, sid, some x)
    | none ↦ if sid == "" then new_index hkey else pure ((parse_int sid).0, sid, (parse_int sid).1)
  ]

  -- The function that `AddTorrent` hands to `tx`; it calls the client and queues nothing. The
  -- identifier is a variable of the caller.
  store_torrent : String → Bytes → List String → M W (ℤ × Fault)
  unfolding index_of add_files
  store_torrent name content files = do
    let hkey = append_text h_torrent name
    e ← hset hkey ((f_name, text name) ∷ (f_data, blob content) ∷ [])
    let go = (do
      g ← hget hkey f_index
      i ← index_of hkey g
      let rest = (do x ← add_files i.1 files; pure (i.0, x))
      elim i.2 [ none ↦ rest | some x ↦ pure (i.0, some x) ])
    elim e [ none ↦ go | some x ↦ pure (pos 0, some x) ]

  unfoldable pub add_torrent : String → Bytes → List String → M W (ℤ × Fault)
  unfolding store_torrent
  add_torrent name content files = do
    r ← tx (store_torrent name content files)
    pure (elim r.1 [ none ↦ r | some x ↦ (invalid_db_id, some x) ])

  unfoldable pub add_torrent_image : ℤ → Bytes → M W Fault
  unfolding as_nil
  add_torrent_image id image = if is_empty image then pure none else (do
    h ← hget h_torrent_id (format_int id)
    let put = (do e ← hset h.0 ((f_image, blob image) ∷ []); pure (as_nil e))
    elim (as_nil h.1) [
      | none ↦ if h.0 == "" then pure (some torrent_not_found) else put
      | some x ↦ pure (some x)
    ])

  unfoldable pub add_torrent_meta : ℤ → Meta → M W Fault
  add_torrent_meta id m =
      if is_empty m
      then pure none
      else hset (append_text h_torrent_meta (format_int id))
          (map (λ (kv : String × String). (kv.0, text kv.1)) m)

  -- The loop over the members: it tests an error that is nil, and never the one of `ParseInt`.
  unfoldable pub ints_of : List String → List ℤ
  ints_of [] = []
  ints_of (a ∷ ints) = (parse_int a).0 ∷ ints_of ints

  unfoldable pub get_int_list : String → M W (List ℤ × Fault)
  unfolding ints_of as_nil
  get_int_list hash = do
    r ← smembers hash
    pure (elim r.1 [ none ↦ (ints_of r.0, none) | some x ↦ ([], as_nil (some x)) ])

  unfoldable pub get_torrent_image : ℤ → M W (Bytes × Fault)
  unfolding as_nil
  get_torrent_image id = do
    h ← hget h_torrent_id (format_int id)
    let read = (do b ← hget_bytes h.0 f_image; pure (b.0, as_nil b.1))
    elim (as_nil h.1) [
      | none ↦ if h.0 == "" then pure ([], some torrent_not_found) else read
      | some x ↦ pure ([], some x)
    ]

  unfoldable pub get_torrent : String → M W (ℤ × Fault)
  unfolding as_nil
  get_torrent name = do
    g ← hget (append_text h_torrent name) f_index
    pure (elim g.1 [ none ↦ parse_int g.0 | some x ↦ (invalid_db_id, as_nil (some x)) ])

  -- The last steps of `MPutTorrent`: the hash by the identifier, and the counter.
  put_index : ℤ → String → M W Fault
  put_index id hkey = do
    e ← hset h_torrent_id ((format_int id, text hkey) ∷ [])
    let count = set k_torrent_index (text (format_int id))
    elim e [ none ↦ count | some x ↦ pure (some x) ]

  put_torrent : DbTorrent → List String → M W Fault
  unfolding add_files put_index
  put_torrent t files = do
    let hkey = append_text h_torrent t.name
    e ← hset hkey ((f_name, text t.name) ∷ (f_data, blob t.content) ∷ (f_image, blob t.image) ∷ [])
    let go = (do
      x ← add_files (format_int t.id) files
      elim x [ none ↦ put_index t.id hkey | some y ↦ pure (some y) ])
    elim e [ none ↦ go | some x ↦ pure (some x) ]

  unfoldable pub m_put_torrent : DbTorrent → List String → M W Fault
  unfolding put_torrent
  m_put_torrent t files = do r ← tx (do e ← put_torrent t files; pure (pos 0, e)); pure r.1

  -- One torrent of `MGetTorrents`, from its identifier's text and its key.
  read_torrent : String → String → M W (Result DbTorrent)
  unfolding as_nil
  read_torrent sid hkey = do
    n ← hget hkey f_name
    let with_data = (do
      d ← hget_bytes hkey f_data
      let with_image = (do
        i ← hget_bytes hkey f_image
        pure (elim (as_nil i.1) [
          | none ↦ ok (record { id = (parse_int sid).0; name = n.0; content = d.0; image = i.0 })
          | some x ↦ err x
        ]))
      elim (as_nil d.1) [ none ↦ with_image | some x ↦ pure (err x) ])
    elim (as_nil n.1) [ none ↦ with_data | some x ↦ pure (err x) ]

  read_torrents : List DbTorrent → Meta → M W (List DbTorrent × Fault)
  unfolding read_torrent
  read_torrents acc [] w = ((acc, none), w)
  read_torrents acc ((sid, hkey) ∷ m) w =
      let (r, w') = read_torrent sid hkey w in
      elim r [ ok t ↦ read_torrents (acc ++ t ∷ []) m w' | err x ↦ ((acc, some x), w') ]

  unfoldable pub m_get_torrents : M W (List DbTorrent × Fault)
  unfolding read_torrents as_nil
  m_get_torrents = do
    r ← hget_all h_torrent_id
    elim (as_nil r.1) [ none ↦ read_torrents [] r.0 | some x ↦ pure ([], some x) ]

  -- The error of a command without its `redis.Nil`
  clean : {A : Type 0} → M W (A × Fault) → M W (A × Fault)
  unfolding as_nil
  clean m = do r ← m; pure (r.0, as_nil r.1)

  clean_fault : M W Fault → M W Fault
  unfolding as_nil
  clean_fault m = do e ← m; pure (as_nil e)

  unfoldable pub redis_database : Database W
  unfolding clean clean_fault
  redis_database = record {
    is_nil = false;
    add_admin = λ id. sadd s_admin (int id ∷ []);
    add_chat = λ chat. sadd s_chat (int chat ∷ []);
    add_torrent_image = add_torrent_image;
    add_torrent_meta = add_torrent_meta;
    add_torrent = add_torrent;
    check_torrent = λ id. clean (con.hexists h_torrent_id (format_int id));
    close = con.close;
    del_admin = λ id. clean_fault (con.srem s_admin (int id));
    del_chat = λ chat. clean_fault (con.srem s_chat (int chat));
    get_admin_exist = λ chat. clean (con.sismember s_admin (int chat));
    get_admins = get_int_list s_admin;
    get_chat_exist = λ chat. clean (con.sismember s_chat (int chat));
    get_chats = get_int_list s_chat;
    get_crawl_offset = clean (con.get_uint k_conf_offset);
    get_torrent_files = λ id. clean (smembers (append_text h_torrent_file (format_int id)));
    get_torrent_image = get_torrent_image;
    get_torrent_meta = λ id. clean (hget_all (append_text h_torrent_meta (format_int id)));
    get_torrent = get_torrent;
    update_crawl_offset = λ offset. set k_conf_offset (number offset);
    m_get_torrents = m_get_torrents;
    m_put_torrent = m_put_torrent;
  }
