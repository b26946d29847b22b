-- ===== src/Observer/Aside.antt =====
-- observer.go: what the crawler calls besides the two operations for the crawl offset.
use ttobserver_v.Base.{ℕ, String, ◌≡◌, List, some, M, Keeps}
use ttobserver_v.Base.Int.{ℤ}
use ttobserver_v.Shared.Errors.{Fault}
use ttobserver_v.Shared.Database.{Bytes, Meta}
use ttobserver_v.Shared.Torrent.Aside.{IsAsideWeb}
use ttobserver_v.Observer.Settings.{Observer, RawMeta}

-- The requests, the pauses, the extraction and the database's other operations leave `q` as it was.
pub record IsAside {W P : Type 0} (q : W → Type 0) (cr : Observer W P) : Type 0 where
  pub web : IsAsideWeb q cr.web
  pub sleep : (seconds : ℕ) → Keeps q (cr.sleep seconds)
  pub extract :
      (f : String → M W (RawMeta × Fault))
      → cr.extract ≡ some f
      → (context : String) → Keeps q (f context)
  pub get_torrent : (name : String) → Keeps q (cr.db.get_torrent name)
  pub get_torrent_files : (id : ℤ) → Keeps q (cr.db.get_torrent_files id)
  pub get_torrent_meta : (id : ℤ) → Keeps q (cr.db.get_torrent_meta id)
  pub get_torrent_image : (id : ℤ) → Keeps q (cr.db.get_torrent_image id)
  pub add_torrent :
      (name : String) (content : Bytes) (files : List String)
      → Keeps q (cr.db.add_torrent name content files)
  pub add_torrent_meta : (id : ℤ) (meta : Meta) → Keeps q (cr.db.add_torrent_meta id meta)
  pub add_torrent_image : (id : ℤ) (image : Bytes) → Keeps q (cr.db.add_torrent_image id image)
