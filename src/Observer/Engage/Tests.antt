-- ===== src/Observer/Engage/Tests.antt =====
-- `Engage` of observer.go: the theorem on a run, at a small crawler.
use ttobserver_v.Base.{String, none, some, [], ◌∷◌, pure, ℕ, ◌≡◌, refl, arith}
use ttobserver_v.Shared.Database.Offsets.{IsOffsetStore}
use ttobserver_v.Base.Decimal.{format_uint}
use ttobserver_v.Shared.Database.Doubles.{empty_db}
use ttobserver_v.SqlDb.Doubles.{one_row, one_row-HasConfig}
use ttobserver_v.SqlDb.OffsetStore.{HasOffset}
use ttobserver_v.SqlDb.Aside.{IsApart}
use ttobserver_v.SqlDb.Methods.{get_crawl_offset}
use ttobserver_v.Observer.Settings.{Observer}
use ttobserver_v.Observer.Doubles.{crawling, only_offset, one_page}
use ttobserver_v.Observer.Engage.OnSql.{IsOutside, on_sql, engage-get_crawl_offset}
use ttobserver_v.Observer.Engage.Announced.{Rises, offsets, all_calls}
use ttobserver_v.Observer.Aside.{IsAside}
use ttobserver_v.Observer.Engage.{waiting, engage}
use ttobserver_v.Observer.Engage.Runs.{ticks, announced, upto, IsRun, engage-IsRun}

only_offset-IsOffsetStore : IsOffsetStore only_offset
only_offset-IsOffsetStore = record {
  Holds = λ n w. w ≡ n;
  reads = λ n w h. cc (h);
  read_keeps = λ n w h. h;
  stores = λ o n w small h. (refl, refl);
}

crawling-IsAside : (n : ℕ) → IsAside (only_offset-IsOffsetStore.Holds n) crawling
crawling-IsAside n = record {
  web = record { head_keeps = λ url w h. h; get_keeps = λ url w h. h };
  sleep = λ seconds w h. h;
  extract = λ f e. absurd (cc (e));
  get_torrent = λ name w h. h;
  get_torrent_files = λ id w h. h;
  get_torrent_meta = λ id w h. h;
  get_torrent_image = λ id w h. h;
  add_torrent = λ name content files w h. h;
  add_torrent_meta = λ id meta w h. h;
  add_torrent_image = λ id image w h. h;
}

engage-IsRun_example :
    IsRun crawling only_offset-IsOffsetStore crawling-IsAside 2 5 5 (engage crawling (ticks 2) 5)
unfolding only_offset-IsOffsetStore
engage-IsRun_example =
    engage-IsRun crawling only_offset-IsOffsetStore crawling-IsAside 2 5 5 (omega arith)
      (omega arith) refl

-- The crawler with the world of the table; its own database is not used.
abbrev crawling_texts : Observer String ℕ
crawling_texts = record {
  crawler = crawling.crawler;
  texts = crawling.texts;
  web = one_page;
  codec = crawling.codec;
  db = empty_db;
  extract = none;
  sleep = λ seconds. pure tt;
  announcer = record { producers = 1 ∷ 2 ∷ []; db = empty_db };
}

one_row-IsApart : (n : ℕ) → IsApart (HasOffset one_row one_row-HasConfig n) one_row
unfolding one_row-HasConfig
one_row-IsApart n = record {
  pings = λ w h. h;
  queries = λ query args w h. h;
  execs = λ query args other w h. rw other h;
}

texts-IsOutside : (n : ℕ) → IsOutside (HasOffset one_row one_row-HasConfig n) crawling_texts
texts-IsOutside n = record {
  web = record { head_keeps = λ url w h. h; get_keeps = λ url w h. h };
  sleep = λ seconds w h. h;
  extract = λ f e. absurd (cc (e));
}

abbrev crawling_sql : Observer String ℕ
crawling_sql = on_sql one_row one_row-HasConfig crawling_texts one_row-IsApart texts-IsOutside

engage-get_crawl_offset_example :
    let r = engage crawling_sql (ticks 2) "5" in
    let found = announced crawling_sql 2 5 "5" in
    (r.0 ≡ (waiting, all_calls found))
    × Rises 5 (upto crawling_sql 2 5 "5") (offsets found)
    × ((get_crawl_offset (some one_row) r.1).0 ≡ (upto crawling_sql 2 5 "5", none))
unfolding one_row-HasConfig format_uint
engage-get_crawl_offset_example =
    engage-get_crawl_offset one_row one_row-HasConfig crawling_texts one_row-IsApart texts-IsOutside
      2 5 "5" (omega arith) (omega arith) (omega arith, refl)
