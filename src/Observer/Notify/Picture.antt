-- ===== src/Observer/Notify/Picture.antt =====
-- `notify` of observer.go: the picture that a torrent is announced with.
use ttobserver_v.Base.{◌≡◌, ◌≢◌, refl, String, false, none, [], ◌∷◌, arith, string_eq, eq_iff}
use ttobserver_v.Base.Int.{ℤ}
use ttobserver_v.Shared.Errors.{Fault}
use ttobserver_v.Shared.Database.{Bytes, Meta}
use ttobserver_v.Observer.Settings.{Observer}
use ttobserver_v.Observer.Notify.{text_at, is_stale, refresh_image}

module _ {W P : Type 0} (cr : Observer W P) where
  open cr use {crawler, texts, web, codec, db}

  -- The answer of `GetTorrentImage`.
  abbrev pub stored : ℤ → W → Bytes × Fault
  stored id w = (db.get_torrent_image id w).0

  refresh-kept :
      (id : ℤ) (existing : Meta) (url : String) (image : Bytes) (w w' : W)
      → db.get_torrent_image id w ≡ ((image, none), w')
      → is_stale cr image existing url ≡ false
      → refresh_image cr id existing url w ≡ (image, w')
  unfolding refresh_image
  refresh-kept id existing url image w w' e fresh = rw (e, fresh)

  is_stale-current :
      (image : Bytes) (existing : Meta) (url : String)
      → image ≢ []
      → text_at crawler.image_meta_field existing ≡ url
      → is_stale cr image existing url ≡ false
  unfolding is_stale
  is_stale-current [] existing url full e = absurd (full refl)
  is_stale-current (b ∷ image) existing url full e =
      ground (arith, eq_iff (text_at crawler.image_meta_field existing) url)

  -- A picture that is stored for the address that the torrent's page shows is used as it is stored:
  -- nothing is fetched and nothing is written.
  pub refresh_image-current :
      (id : ℤ) (existing : Meta) (url : String) (image : Bytes) (w w' : W)
      → db.get_torrent_image id w ≡ ((image, none), w')
      → image ≢ []
      → text_at crawler.image_meta_field existing ≡ url
      → refresh_image cr id existing url w ≡ (image, w')
  refresh_image-current id existing url image w w' e full same =
      refresh-kept id existing url image w w' e (is_stale-current image existing url full same)
