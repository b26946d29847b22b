-- ===== src/Observer/Notify.antt =====
-- observer.go: `notify`, which completes a torrent with its meta and picture and announces it.
pub mod Picture
pub mod Aside
use ttobserver_v.Base.{
  ℕ, String, Bool, false, true, Option, none, some, List, [], ◌∷◌, lookup, insert, M, pure, ◌>>=◌,
  ◌>>◌, if◌then◌else◌, ltb, ◌==◌, string_eq, ◌||◌, not, is_empty, ◌&&◌,
}
use ttobserver_v.Base.Int.{ℤ}
use ttobserver_v.Shared.Errors.{Fault}
use ttobserver_v.Shared.Database.{Bytes, Meta, Database}
use ttobserver_v.Shared.Torrent.{TorrentInfo}
use ttobserver_v.Shared.Torrent.Poster.{get_torrent_poster}
use ttobserver_v.Producer.Announcer.{Call, send_all}
use ttobserver_v.Observer.Settings.{Observer, RawMeta}

abbrev pub is_ok : Fault → Bool
is_ok none = true
is_ok (some e) = false

-- `m[k]` of a map of strings
abbrev pub text_at : String → Meta → String
text_at k m = elim (lookup k m) [ none ↦ "" | some v ↦ v ]

module _ {W P : Type 0} (cr : Observer W P) where
  open cr use {crawler, texts, web, codec, db, extract, sleep, announcer}

  -- `ExtractData`, once more after a pause where it fails or finds nothing.
  fetch_raw : (String → M W (RawMeta × Fault)) → String → M W (RawMeta × Fault)
  fetch_raw extract_data context = do
    first ← extract_data context
    let again = (do sleep crawler.meta_retry; extract_data context)
    if (not (is_ok first.1) || is_empty first.0)
        then (if ltb 0 crawler.meta_retry then again else pure first)
        else pure first

  -- One entry of the raw meta: the meta so far, and the address of the picture.
  meta_entry : String → Bytes → Meta × String → Meta × String
  meta_entry k v (upstream, image_url) =
      if k == ""
      then (upstream, image_url)
      else (let value = texts.clean v in
          (insert k value upstream, (if k == crawler.image_meta_field then value else image_url)))

  meta_of : RawMeta → Meta × String → Meta × String
  unfolding meta_entry
  meta_of [] acc = acc
  meta_of ((k, v) ∷ raw) acc = meta_of raw (meta_entry k v acc)

  usable : RawMeta × Fault → Meta × String
  unfolding meta_of
  usable r = if is_ok r.1 && not (is_empty r.0) then meta_of r.0 ([], "") else ([], "")

  -- The upstream meta and the address of its picture.
  fetch_meta : Option (String → M W (RawMeta × Fault)) → String → M W (Meta × String)
  unfolding usable fetch_raw
  fetch_meta none context = pure ([], "")
  fetch_meta (some extract_data) context = do r ← fetch_raw extract_data context; pure (usable r)

  -- `GetTorrentMeta`, with no entries where it fails.
  existing_meta : ℤ → M W Meta
  existing_meta id = do r ← db.get_torrent_meta id; pure (if is_ok r.1 then r.0 else [])

  -- The upstream meta is stored; where there is none, the stored meta is used.
  choose_meta : ℤ → Meta → Meta → M W Meta
  choose_meta id upstream existing =
      if is_empty upstream
      then pure existing
      else (do db.add_torrent_meta id upstream; pure upstream)

  absolute : String → String
  absolute url = if texts.contains_text url crawler.base_url then url else texts.join_path url

  -- The picture is fetched, and stored if that succeeds; what was fetched is used in any case.
  unfoldable pub reload_image : ℤ → String → M W Bytes
  unfolding absolute
  reload_image id url = do
    p ← get_torrent_poster codec web texts.error_text (absolute url) crawler.image_thumb
    if is_ok p.1 then (do db.add_torrent_image id p.0; pure p.0) else pure p.0

  -- Whether the picture has to be fetched.
  unfoldable pub is_stale : Bytes → Meta → String → Bool
  is_stale image existing url =
      (is_empty image || not (text_at crawler.image_meta_field existing == url)) && not (url == "")

  unfoldable pub refresh_image : ℤ → Meta → String → M W Bytes
  unfolding reload_image is_stale
  refresh_image id existing url = do
    r ← db.get_torrent_image id
    if is_ok r.1 && is_stale r.0 existing url then reload_image id url else pure r.0

  -- The meta and the picture that a torrent is announced with.
  unfoldable pub complete : ℤ → String → M W (Meta × Bytes)
  unfolding fetch_meta existing_meta choose_meta refresh_image
  complete id context = do
    upstream ← fetch_meta extract context
    existing ← existing_meta id
    meta ← choose_meta id upstream.0 existing
    image ← refresh_image id existing upstream.1
    pure (meta, image)

  -- The result is the list of the goroutines that are started.
  unfoldable pub notify : TorrentInfo → String → Bool → M W (List (Call P))
  notify torrent context is_new = do
    c ← complete torrent.id context
    pure (send_all announcer is_new (some (record torrent { meta = c.0; image = c.1 })))
