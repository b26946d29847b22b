-- ===== src/RedisDb/Migrated.antt =====
-- shared/redis/db.go: what `MPutTorrent` does to the field that `GetTorrent` reads.
use Prim.Native.Char.{code}
use Prim.Native.String.append
use ttobserver_v.Base.{
  pure, ◌>>=◌, ℕ, ◌≡◌, ◌≢◌, refl, ap, ◌∙◌, String, append_text, false, Option, none, some, List, [],
  ◌∷◌, M, arith, inl, inr, contains, string_eq, map, ◌⊎◌,
}
use ttobserver_v.Base.Int.{ℤ, pos}
use ttobserver_v.RedisDb.Ints.{format_int}
use ttobserver_v.Shared.Errors.{Err, Fault, redis_nil}
use ttobserver_v.Shared.Database.{DbTorrent, invalid_db_id}
use ttobserver_v.RedisDb.Keys.{
  k_torrent_index, h_torrent, h_torrent_file, h_torrent_id, f_index, f_name, f_data, f_image,
}
use ttobserver_v.RedisDb.{
  Val, text, blob, Client, as_nil, tx, add_files, put_index, put_torrent, m_put_torrent,
  get_torrent,
}

-- The codes of the fourth and the fifth character of a text
fourth : String → ℕ
fourth (String.◌∷◌ a (String.◌∷◌ b (String.◌∷◌ c (String.◌∷◌ d s)))) = code d
fourth s = 0

fifth : String → ℕ
fifth (String.◌∷◌ a (String.◌∷◌ b (String.◌∷◌ c (String.◌∷◌ d (String.◌∷◌ e s))))) = code e
fifth s = 0

torrent_key :
    (name : String)
    → append_text h_torrent name
      ≡ String.◌∷◌ "t" (String.◌∷◌ "t" (String.◌∷◌ "_" (String.◌∷◌ "t" (String.◌∷◌ "_" name))))
torrent_key name =
    append.cons "t" "t_t_" name
    ∙ ap (String.◌∷◌ "t") (
        append.cons "t" "_t_" name
        ∙ ap (String.◌∷◌ "t") (
            append.cons "_" "t_" name
            ∙ ap (String.◌∷◌ "_") (
                append.cons "t" "_" name
                ∙ ap (String.◌∷◌ "t")
                    (append.cons "_" "" name ∙ ap (String.◌∷◌ "_") (append.nil name)))))

-- The key of a torrent is neither that of the identifiers nor that of the counter.
pub id_key-apart : (name : String) → h_torrent_id ≢ append_text h_torrent name
unfolding fifth
id_key-apart name e = let q : ◌≡◌ {A = ℕ} 105 95 = ap fifth (e ∙ torrent_key name) in omega arith

index_key-apart : (name : String) → k_torrent_index ≢ append_text h_torrent name
unfolding fourth
index_key-apart name e =
    let q : ◌≡◌ {A = ℕ} 105 116 = ap fourth (e ∙ torrent_key name) in omega arith

abbrev pub answer : Option String → String × Fault
answer none = ("", some redis_nil)
answer (some v) = (v, none)

-- The names of the fields that are written
abbrev pub fields : List (String × Val) → List String
fields [] = []
fields ((f, v) ∷ fs) = f ∷ fields fs

-- What Redis says of its commands, as far as a hash's field goes: HGET reads it, HSET changes the
-- named fields of one hash only, SADD changes no hash, SET only what stands at its key. A function
-- that queues no command leaves what its calls have left.
pub record IsHashStore {W : Type 0} (con : Client W) : Type 0 where
  pub field : String → String → W → Option String
  pub reads : (k f : String) (w : W) → (con.hget k f w).0 ≡ answer (field k f w)
  pub hset_field :
      (k k' f : String) (fs : List (String × Val)) (w : W)
      → (k ≢ k') ⊎ (contains f (fields fs) ≡ false)
      → field k' f (con.hset k fs w).1 ≡ field k' f w
  pub sadd_field :
      (k k' f : String) (vs : List Val) (w : W) → field k' f (con.sadd k vs w).1 ≡ field k' f w
  pub set_field :
      (k k' f : String) (v : Val) (w : W) → k ≢ k' → field k' f (con.set k v w).1 ≡ field k' f w
  pub tx_runs : (body : M W (ℤ × Fault)) (w : W) → (con.tx_pipelined body w).1 ≡ (body w).1

module _ {W : Type 0} (text_of : Err → String) (con : Client W) (store : IsHashStore con)
    (name : String) where
  -- The index that the torrent's hash has.
  abbrev index_in : W → Option String
  index_in w = store.field (append_text h_torrent name) f_index w

  add_files-index :
      (sid : String) (files : List String) (w : W)
      → index_in (add_files text_of con sid files w).1 ≡ index_in w
  unfolding add_files
  add_files-index sid files w = ground (
    arith,
    store.sadd_field (append_text h_torrent_file sid) (append_text h_torrent name) f_index
        (map text files) w,
  )

  put_index-index :
      (id : ℤ) (hkey : String) (w : W) → index_in (put_index text_of con id hkey w).1 ≡ index_in w
  unfolding put_index
  put_index-index id hkey w =
      let key = append_text h_torrent name in
      let sid = format_int id in
      let w' = (con.hset h_torrent_id ((sid, text hkey) ∷ []) w).1 in
      ground (
        arith,
        store.hset_field h_torrent_id key f_index ((sid, text hkey) ∷ []) w
            (inl (id_key-apart name)),
        store.set_field k_torrent_index key f_index (text sid) w' (index_key-apart name),
      )

  put_torrent-index :
      (t : DbTorrent) (files : List String) (w : W)
      → index_in (put_torrent text_of con t files w).1 ≡ index_in w
  unfolding put_torrent
  put_torrent-index t files w =
      let key = append_text h_torrent name in
      let hkey = append_text h_torrent t.name in
      let fs : List (String × Val) =
        (f_name, text t.name) ∷ (f_data, blob t.content) ∷ (f_image, blob t.image) ∷ [] in
      let (e, w') = con.hset hkey fs w in
      let (x, w'') = add_files text_of con (format_int t.id) files w' in
      ground (
        arith,
        store.hset_field hkey key f_index fs w (inr refl),
        add_files-index (format_int t.id) files w',
        put_index-index t.id hkey w'',
      )

  m_put_torrent-index :
      (t : DbTorrent) (files : List String) (w : W)
      → index_in (m_put_torrent text_of con t files w).1 ≡ index_in w
  unfolding m_put_torrent tx
  m_put_torrent-index t files w =
      let body : M W (ℤ × Fault) = (do e ← put_torrent text_of con t files; pure (pos 0, e)) in
      ap index_in (store.tx_runs body w) ∙ put_torrent-index t files w

  -- A torrent whose hash has no index is not found by its name after `MPutTorrent` either, whichever
  -- torrent was put, its own included: `GetTorrent` gives the invalid identifier and no error.
  pub get_torrent-m_put_torrent :
      (t : DbTorrent) (files : List String) (w : W)
      → store.field (append_text h_torrent name) f_index w ≡ none
      → (get_torrent text_of con name (m_put_torrent text_of con t files w).1).0
        ≡ (invalid_db_id, none)
  unfolding get_torrent as_nil
  get_torrent-m_put_torrent t files w missing =
      let key = append_text h_torrent name in
      let w' = (m_put_torrent text_of con t files w).1 in
      rw (store.reads key f_index w', m_put_torrent-index t files w, missing)
