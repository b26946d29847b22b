-- ===== src/Observer/Engage/OnSql.antt =====
-- `Engage` of observer.go on the database of shared/sqldb/db.go.
use ttobserver_v.Base.{ℕ, String, ◌+◌, ◌*◌, ◌^◌, ◌<◌, ◌≡◌, ◌≢◌, refl, none, some, Keeps, M}
use ttobserver_v.Shared.Errors.{Fault}
use ttobserver_v.Shared.Torrent.Aside.{IsAsideWeb}
use ttobserver_v.SqlDb.{Conn}
use ttobserver_v.SqlDb.Methods.{
  sql_database, get_torrent, get_torrent_files, get_torrent_meta, get_torrent_image,
  add_torrent_image, get_crawl_offset,
}
use ttobserver_v.SqlDb.OffsetStore.{HasConfig, HasOffset, sql-IsOffsetStore, sql-reads}
use ttobserver_v.SqlDb.Aside.{
  IsApart, run_query-Keeps, exec_no_result-Keeps, add_torrent-Keeps, add_torrent_meta-Keeps,
}
use ttobserver_v.Observer.Settings.{Observer, RawMeta}
use ttobserver_v.Observer.Aside.{IsAside}
use ttobserver_v.Observer.Engage.{waiting, engage}
use ttobserver_v.Observer.Engage.Runs.{ticks, announced, upto, engage-IsRun}
use ttobserver_v.Observer.Engage.Announced.{Rises, offsets, all_calls}

-- What the crawler calls beside the database leaves `q`.
pub record IsOutside {W P : Type 0} (q : W → Type 0) (cr : Observer W P) : Type 0 where
  pub web : IsAsideWeb q cr.web
  pub sleep : (seconds : ℕ) → Keeps q (cr.sleep seconds)
  pub extract :
      (f : String → M W (RawMeta × Fault))
      → cr.extract ≡ some f
      → (context : String) → Keeps q (f context)

module _ {W Row P : Type 0} (c : Conn W Row) (table : HasConfig c) (base : Observer W P)
    (apart : (n : ℕ) → IsApart (HasOffset c table n) c)
    (outside : (n : ℕ) → IsOutside (HasOffset c table n) base) where
  -- The crawler on the SQL database.
  abbrev pub on_sql : Observer W P
  on_sql = record base { db = sql_database (some c) }

  pub on_sql-IsAside : (n : ℕ) → IsAside (HasOffset c table n) on_sql
  unfolding get_torrent get_torrent_files get_torrent_meta get_torrent_image add_torrent_image
  on_sql-IsAside n =
      let q = HasOffset c table n in
      let a = apart n in
      record {
        web = (outside n).web;
        sleep = (outside n).sleep;
        extract = (outside n).extract;
        get_torrent = λ name w h. run_query-Keeps q c a _ _ _ _ w h;
        get_torrent_files = λ id w h. run_query-Keeps q c a _ _ _ _ w h;
        get_torrent_meta = λ id w h. run_query-Keeps q c a _ _ _ _ w h;
        get_torrent_image = λ id w h. run_query-Keeps q c a _ _ _ _ w h;
        add_torrent = add_torrent-Keeps q c a;
        add_torrent_meta = add_torrent_meta-Keeps q c a;
        add_torrent_image = λ id image w h. exec_no_result-Keeps q c a _ _ refl w h;
      }

  -- On the SQL database, where every ping, every selection and every upsert of the configuration
  -- succeeds, from an offset that is in the table, with windows that do not pass 2^64 and an
  -- anniversary set, where nothing but the upsert of the configuration changes it, n ticks go on
  -- and announce the offsets at which a torrent was found, each once and in rising order, and the
  -- offset that the database gives after them is past all of these.
  pub engage-get_crawl_offset :
      (n o : ℕ) (w : W)
      → base.crawler.anniversary ≢ 0
      → o + n * base.crawler.threshold < 2 ^ 64
      → HasOffset c table o w
      → let r = engage on_sql (ticks n) w in
        let found = announced on_sql n o w in
        (r.0 ≡ (waiting, all_calls found))
        × Rises o (upto on_sql n o w) (offsets found)
        × ((get_crawl_offset (some c) r.1).0 ≡ (upto on_sql n o w, none))
  unfolding sql-IsOffsetStore
  engage-get_crawl_offset n o w set small h =
      let run = engage-IsRun on_sql (sql-IsOffsetStore c table) on_sql-IsAside n o w set small h in
      (
        run.goes_on,
        run.rises,
        sql-reads c table (upto on_sql n o w) (engage on_sql (ticks n) w).1 run.stored,
      )
