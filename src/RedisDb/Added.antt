-- ===== src/RedisDb/Added.antt =====
-- shared/redis/db.go: a torrent that was added is found by its name.
use mathlib.Core.Path.{subst}
use ttobserver_v.Base.{
  ◌^◌, ◌<◌, ◌≡◌, ◌≢◌, ap, ◌∙◌, sym, String, append_text, Option, none, some, List, [], ◌∷◌, M,
  arith, inl, string_eq, map,
}
use ttobserver_v.Base.Int.{ℤ}
use ttobserver_v.Base.Decimal.{format_uint}
use ttobserver_v.Shared.Errors.{Err, Fault}
use ttobserver_v.Shared.Database.{Bytes, invalid_db_id}
use ttobserver_v.RedisDb.Keys.{
  k_torrent_index, h_torrent, h_torrent_file, h_torrent_id, f_index, f_name, f_data,
}
use ttobserver_v.RedisDb.Ints.{parse_int, parse_int-format_uint}
use ttobserver_v.RedisDb.{
  text, blob, Client, as_nil, tx, tx_fault, add_files, new_index, index_of, store_torrent,
  add_torrent, get_torrent,
}
use ttobserver_v.RedisDb.Migrated.{answer, IsHashStore, id_key-apart}

-- What Redis says besides of the commands that make an index: HSET writes the text of a field, INCR
-- and HGET change no hash, and the counter is below 2^63. A transaction passes on the number and the
-- error of its function.
pub record IsIndexStore {W : Type 0} (con : Client W) (store : IsHashStore con) : Type 0 where
  pub hset_writes :
      (k f v : String) (w : W)
      → (con.hset k ((f, text v) ∷ []) w).0 ≡ none
      → store.field k f (con.hset k ((f, text v) ∷ []) w).1 ≡ some v
  pub hget_keeps :
      (k f k' f' : String) (w : W) → store.field k' f' (con.hget k f w).1 ≡ store.field k' f' w
  pub incr_keeps :
      (k k' f : String) (w : W) → store.field k' f (con.incr k w).1 ≡ store.field k' f w
  pub incr_small : (k : String) (w : W) → (con.incr k w).0.0 < 2 ^ 63
  pub tx_number : (body : M W (ℤ × Fault)) (w : W) → (con.tx_pipelined body w).0.0 ≡ (body w).0.0
  pub tx_fails :
      (body : M W (ℤ × Fault)) (w : W) → (con.tx_pipelined body w).0.2 ≡ none → (body w).0.1 ≡ none

module _ {W : Type 0} (text_of : Err → String) (con : Client W) (store : IsHashStore con)
    (laws : IsIndexStore con store) where
  open store use {field}

  -- The index of a torrent's hash is a text that stands for the number
  Indexed : String → ℤ × String × Fault → W → Type 0
  Indexed hkey (id, sid, e) w =
      e ≡ none → (field hkey f_index w ≡ some sid) × (parse_int sid ≡ (id, none))

  new_index-Indexed :
      (hkey : String) (w : W)
      → h_torrent_id ≢ hkey
      → let (r, w') = new_index text_of con hkey w in Indexed hkey r w'
  unfolding new_index Indexed
  new_index-Indexed hkey w apart done =
      let (n, w₁) = con.incr k_torrent_index w in
      let sid = format_uint n.0 in
      let w₂ = (con.hset hkey ((f_index, text sid) ∷ []) w₁).1 in
      ground (
        arith,
        done,
        parse_int-format_uint n.0 (laws.incr_small k_torrent_index w),
        laws.hset_writes hkey f_index sid w₁,
        store.hset_field h_torrent_id hkey f_index ((sid, text hkey) ∷ []) w₂ (inl apart),
      )

  index_of-Indexed :
      (hkey : String) (w : W) (o : Option String)
      → h_torrent_id ≢ hkey
      → field hkey f_index w ≡ o
      → let (r, w') = index_of text_of con hkey (answer o) w in Indexed hkey r w'
  unfolding index_of as_nil Indexed
  index_of-Indexed hkey w none apart is done = new_index-Indexed hkey w apart done
  index_of-Indexed hkey w (some sid) apart is done =
      ground (arith, done, is, new_index-Indexed hkey w apart)

  add_files-field :
      (sid : String) (files : List String) (k f : String) (w : W)
      → field k f (add_files text_of con sid files w).1 ≡ field k f w
  unfolding add_files
  add_files-field sid files k f w =
      ground (arith, store.sadd_field (append_text h_torrent_file sid) k f (map text files) w)

  -- The index that is read from the hash, or made
  index-read :
      (hkey : String) (w : W)
      → h_torrent_id ≢ hkey
      → let (g, w₁) = con.hget hkey f_index w in
        let (i, w₂) = index_of text_of con hkey g w₁ in Indexed hkey i w₂
  index-read hkey w apart =
      let w₁ = (con.hget hkey f_index w).1 in
      subst
        (λ (g : String × Fault). let (i, w₂) = index_of text_of con hkey g w₁ in Indexed hkey i w₂)
        (sym (store.reads hkey f_index w))
        (index_of-Indexed hkey w₁ (field hkey f_index w) apart
          (laws.hget_keeps hkey f_index hkey f_index w))

  store_torrent-indexed :
      (name : String) (content : Bytes) (files : List String) (w : W)
      → let hkey = append_text h_torrent name in
        let (r, w') = store_torrent text_of con name content files w in
        r.1 ≡ none
        → (sid : String) × (field hkey f_index w' ≡ some sid) × (parse_int sid ≡ (r.0, none))
  unfolding store_torrent Indexed
  store_torrent-indexed name content files w done =
      let hkey = append_text h_torrent name in
      let w₁ = (con.hset hkey ((f_name, text name) ∷ (f_data, blob content) ∷ []) w).1 in
      let (g, w₂) = con.hget hkey f_index w₁ in
      let (i, w₃) = index_of text_of con hkey g w₂ in
      let read = index-read hkey w₁ (id_key-apart name) in
      let kept = add_files-field i.1 files hkey f_index w₃ in
      (i.1, ground (arith, done, read, kept), ground (arith, done, read, kept))

  get_torrent-indexed :
      (name sid : String) (id : ℤ) (w : W)
      → field (append_text h_torrent name) f_index w ≡ some sid
      → parse_int sid ≡ (id, none)
      → (get_torrent text_of con name w).0 ≡ (id, none)
  unfolding get_torrent as_nil
  get_torrent-indexed name sid id w there is =
      ap
        (λ (g : String × Fault). elim g.1 [
          | none ↦ parse_int g.0
          | some x ↦ (invalid_db_id, as_nil (some x))
        ])
        (store.reads (append_text h_torrent name) f_index w ∙ ap answer there)
      ∙ is

  -- A torrent that `AddTorrent` stored without an error is found by its name: `GetTorrent` gives the
  -- identifier that `AddTorrent` gave.
  pub get_torrent-add_torrent :
      (name : String) (content : Bytes) (files : List String) (w : W)
      → let (r, w') = add_torrent text_of con name content files w in
        r.1 ≡ none → (get_torrent text_of con name w').0 ≡ r
  unfolding add_torrent tx tx_fault
  get_torrent-add_torrent name content files w done =
      let body = store_torrent text_of con name content files in
      let ran : (con.tx_pipelined body w).0.2 ≡ none = ground (arith, done) in
      let (sid, there, is) =
        store_torrent-indexed name content files w (laws.tx_fails body w ran) in
      ap (λ v. (get_torrent text_of con name v).0) (store.tx_runs body w)
      ∙ get_torrent-indexed name sid (body w).0.0 (body w).1 there is
      ∙ ground (arith, done, ran, laws.tx_number body w)
