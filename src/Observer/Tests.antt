-- ===== src/Observer/Tests.antt =====
-- A small crawler for observer.go, and the theorems at it.
use ttobserver_v.Base.{
  ℕ, ◌<◌, ◌≡◌, ◌≢◌, ◌↔◌, ◌⊎◌, refl, ap, ◌==◌, true, false, none, some, [], ◌∷◌, ◌++◌, arith, String,
  pure, contains, lookup, string_eq,
}
use ttobserver_v.Base.Int.{ℤ}
use ttobserver_v.Shared.Errors.{Fault, err, message, parse_error}
use ttobserver_v.SqlDb.Scans.{get_torrent-dead}
use ttobserver_v.Shared.Torrent.Files.{files_of-total}
use ttobserver_v.Shared.Torrent.{TorrentInfo, FileSet, info_of, get_torrent, new_files}
use ttobserver_v.Shared.Torrent.Fetch.{get_torrent-found}
use ttobserver_v.Shared.Torrent.Poster.{get_torrent_poster}
use ttobserver_v.Producer.Announcer.{send_all}
use ttobserver_v.SqlDb.{Conn}
use ttobserver_v.SqlDb.Methods.{sql_database}
use ttobserver_v.Observer.Doubles.{entries, tale, page, no_pictures, crawling}
use ttobserver_v.Observer.Settings.{Observer}
use ttobserver_v.Observer.Check.{returned, known, check_torrent, mark_known}
use ttobserver_v.Observer.Check.Known.{contains-new_files-mark_known}
use ttobserver_v.Observer.Check.Found.{
  url_of, fetched, IsThere, IsAnnounced, anniversary_calls, check_torrent-returned,
  check_torrent-IsAnnounced,
}
use ttobserver_v.Observer.Check.Faulty.{check_torrent-as_new}
use ttobserver_v.Observer.Engage.{on_tick, stuck}
use ttobserver_v.Observer.Engage.Ends.{on_tick-ends}
use ttobserver_v.Observer.Engage.Advance.{IsAdvanced, on_tick-IsAdvanced}

on_tick-IsAdvanced_example : IsAdvanced crawling 5 5 (on_tick crawling 5)
on_tick-IsAdvanced_example = on_tick-IsAdvanced crawling 5 5 5 (omega arith) (omega arith) refl

-- What a page gives
abbrev found_tale : TorrentInfo
found_tale = info_of crawling.web (1 ∷ []) tale

found :
    (url : String) (w : ℕ)
    → (get_torrent crawling.web (λ e. "error") url w).0 ≡ (some found_tale, none)
found url w =
    get_torrent-found crawling.web (λ e. "error") url w (1 ∷ []) tale
      (record { response = page; here = refl; no_error = refl; accepted = omega arith })
      (record { response = page; here = refl; no_error = refl; accepted = omega arith }) refl refl

found_tale-len : 0 < found_tale.len
unfolding info_of
found_tale-len = omega (arith, files_of-total crawling.web tale entries refl)

check_torrent-returned_example :
    let o = (check_torrent crawling 7 5).0.0 in
    ((o ≡ returned true) × IsThere crawling (fetched crawling 7 5))
    ⊎ ((o ≡ returned false) × (IsThere crawling (fetched crawling 7 5) → ⊥))
check_torrent-returned_example = check_torrent-returned crawling 7 5 (omega arith)

check_torrent-IsAnnounced_example :
    let w' = (get_torrent crawling.web (λ e. "error") (url_of crawling 7) 5).1 in
    IsAnnounced crawling 7 found_tale
      (known crawling found_tale.name w').0
      (check_torrent crawling 7 5).0.1
check_torrent-IsAnnounced_example =
    check_torrent-IsAnnounced crawling 7 found_tale 5 (omega arith) (found _ 5) found_tale-len

-- A connection of SQL that is lost
abbrev lost : Conn ℕ Unit
lost = record {
  ping = pure (some (message "lost"));
  exec = λ query args. pure none;
  query = λ query args. pure (none, none);
  scan_int = λ row. err parse_error;
  scan_text = λ row. err parse_error;
  scan_texts = λ row. err parse_error;
  scan_bytes = λ row. err parse_error;
  scan_torrent = λ row. err parse_error;
  close = pure tt;
}

abbrev on_lost : Observer ℕ ℕ
on_lost = record crawling { db = sql_database (some lost) }

search_fails :
    (name : String) (w : ℕ)
    → ((sql_database (some lost)).get_torrent name w).0.1 ≡ some (message "lost")
search_fails name w = ap (λ (r : ℤ × Fault). r.1) (get_torrent-dead lost name w refl)

check_torrent-as_new_example :
    (sent : TorrentInfo) × (sent.name ≡ found_tale.name)
    × ((check_torrent on_lost 7 5).0.1
        ≡ send_all crawling.announcer true (some sent) ++ anniversary_calls on_lost 7)
check_torrent-as_new_example =
    check_torrent-as_new on_lost lost refl 7 found_tale 5 (message "lost") (omega arith) (found _ 5)
      found_tale-len (search_fails found_tale.name _)

-- The page is no picture, so that the thumbnail fails.
no_poster :
    (url : String)
    → (url == "") ≡ false
    → get_torrent_poster no_pictures crawling.web (λ e. "error") url 320 5
      ≡ (([], some parse_error), 5)
unfolding get_torrent_poster
no_poster url full = rw full

abbrev some_files : FileSet
some_files = ("/one", true) ∷ ("/two", true) ∷ []

contains-new_files-mark_known_example :
    (contains {A = String} "/two" (new_files (mark_known ("/one" ∷ []) some_files)) ≡ true) ↔ (
      (lookup "/two" some_files ≡ some true) × (contains {A = String} "/two" ("/one" ∷ []) ≡ false))
contains-new_files-mark_known_example =
    contains-new_files-mark_known "/two" ("/one" ∷ []) some_files (refl, (refl, tt))

on_tick-ends_example : (on_tick crawling 5).0.0 ≢ stuck
on_tick-ends_example = on_tick-ends crawling 5
