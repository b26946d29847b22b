-- ===== src/Observer/Check/Faulty.antt =====
-- `CheckTorrent` of observer.go on the database of shared/sqldb/db.go, when the search by name fails.
use mathlib.Core.Path.{subst}
use ttobserver_v.Base.{sym, ℕ, ◌<◌, ◌≡◌, ◌≢◌, ◌∙◌, ap, String, true, none, some, ◌++◌, arith, ◌==◌}
use ttobserver_v.Base.Int.{int_eq}
use ttobserver_v.Shared.Errors.{Err, Fault}
use ttobserver_v.Shared.Database.{Database, invalid_db_id}
use ttobserver_v.Shared.Torrent.{TorrentInfo, get_torrent}
use ttobserver_v.Producer.Announcer.{send_all}
use ttobserver_v.SqlDb.{Conn}
use ttobserver_v.SqlDb.Methods.{sql_database}
use ttobserver_v.SqlDb.Scans.{get_torrent-fault}
use ttobserver_v.Observer.Settings.{Observer}
use ttobserver_v.Observer.Check.{known, check_torrent}
use ttobserver_v.Observer.Check.Found.{
  fetched, url_of, anniversary_calls, check_torrent-IsAnnounced,
}

module _ {W P Row : Type 0} (cr : Observer W P) (c : Conn W Row)
    (uses : cr.db ≡ sql_database (some c)) where
  open cr use {crawler, texts, web, db, announcer}

  known-id : (name : String) (w : W) → (known cr name w).0.0 ≡ (db.get_torrent name w).0.0
  unfolding known
  known-id name w = ground arith

  get_torrent-invalid :
      (name : String) (w : W) {x : Err}
      → (db.get_torrent name w).0.1 ≡ some x
      → (db.get_torrent name w).0.0 ≡ invalid_db_id
  get_torrent-invalid name w {x} =
      subst
        (λ (d : Database W).
          (d.get_torrent name w).0.1 ≡ some x → (d.get_torrent name w).0.0 ≡ invalid_db_id)
        (sym uses)
        (λ h.
          let id = ((sql_database (some c)).get_torrent name w).0.0 in
          get_torrent-fault c name id w {x = x} (ap (λ (f : Fault). (id, f)) h))

  -- On the database of SQL, a torrent whose search by name fails is announced as new, once to every
  -- producer, whether it is stored or not.
  pub check_torrent-as_new :
      (offset : ℕ) (t : TorrentInfo) (w : W) (x : Err)
      → crawler.anniversary ≢ 0
      → fetched cr offset w ≡ (some t, none)
      → 0 < t.len
      → (db.get_torrent t.name (get_torrent web texts.error_text (url_of cr offset) w).1).0.1
        ≡ some x
      → (sent : TorrentInfo) × (sent.name ≡ t.name)
        × ((check_torrent cr offset w).0.1
            ≡ send_all announcer true (some sent) ++ anniversary_calls cr offset)
  check_torrent-as_new offset t w x h e p failed =
      let w' = (get_torrent web texts.error_text (url_of cr offset) w).1 in
      let a = check_torrent-IsAnnounced cr offset t w h e p in
      let invalid = known-id t.name w' ∙ get_torrent-invalid t.name w' failed in
      let is_new : ((known cr t.name w').0.0 == invalid_db_id) ≡ true = rw invalid in
      (a.sent, a.name_kept, a.each_once ∙ rw is_new)
