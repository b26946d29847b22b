-- ===== src/SqlDb/Tests.antt =====
-- Connections for shared/sqldb/db.go, and the theorems at them.
use ttobserver_v.Base.{
  ◌≡◌, refl, none, some, List, [], ◌∷◌, arith, String, pure, ◌==◌, string_eq, if◌then◌else◌,
}
use ttobserver_v.Base.Int.{pos}
use ttobserver_v.Shared.Errors.{Fault, ok, err, message, parse_error}
use ttobserver_v.SqlDb.{
  Arg, int, text, blob, Conn, scan_first, with_rows, checked, run_query, exec_no_result,
}
use ttobserver_v.SqlDb.Queries.{insert_or_update_torrent, insert_torrent_file}
use ttobserver_v.SqlDb.Methods.{
  get_torrent, insert_files, add_torrent, update_crawl_offset, update_config_value,
  get_crawl_offset,
}
use ttobserver_v.SqlDb.Offsets.{IsConfigStore, get_crawl_offset-update}
use ttobserver_v.SqlDb.Torrents.{add_torrent-last}

-- The value that a statement writes last, if it is a text.
abbrev written_text : List Arg → String → String
written_text (name ∷ text val ∷ []) old = val
written_text args old = old

-- The world is one value of the configuration, and a row is a text.
abbrev one_value : Conn String String
one_value = record {
  ping = pure none;
  exec = λ query args w. (none, written_text args w);
  query = λ query args w. ((some (record { items = w ∷ []; fault = none }), none), w);
  scan_int = λ row. ok (pos 5);
  scan_text = λ row. ok row;
  scan_texts = λ row. ok (row, row);
  scan_bytes = λ row. ok [];
  scan_torrent = λ row. err parse_error;
  close = pure tt;
}

one_value-IsConfigStore : IsConfigStore one_value
one_value-IsConfigStore = record {
  row = λ val. val;
  holds = λ val. refl;
  selects = λ name val w done. refl;
}

stored_offset : (update_crawl_offset (some one_value) 42 "").0 ≡ none
unfolding update_crawl_offset update_config_value exec_no_result
stored_offset = refl

get_crawl_offset-update_example :
    (get_crawl_offset (some one_value) (update_crawl_offset (some one_value) 42 "").1).0
    ≡ (42, none)
get_crawl_offset-update_example =
    get_crawl_offset-update one_value one_value-IsConfigStore 42 "" (omega arith) stored_offset refl

-- A connection that refuses the file "bad", and whose queries fail.
abbrev refuse : List Arg → Fault
refuse (i ∷ text val ∷ []) = if val == "bad" then some (message "refused") else none
refuse args = none

abbrev refusing : Conn String String
refusing = record one_value { exec = λ query args w. (refuse args, w) }

abbrev failing : Conn String String
failing = record one_value {
  exec = λ query args w. (some (message "lost"), w);
  query = λ query args w. ((none, some (message "lost")), w);
}

torrent_stored :
    exec_no_result (some refusing) insert_or_update_torrent (text "tale" ∷ blob [] ∷ []) ""
    ≡ (none, "")
unfolding exec_no_result
torrent_stored = refl

torrent_found : get_torrent (some refusing) "tale" "" ≡ ((pos 5, none), "")
unfolding get_torrent run_query checked with_rows scan_first
torrent_found = refl

-- The file "bad" is refused, and the error is lost.
add_torrent-last_example :
    let before = (insert_files (some refusing) (pos 5) none ("bad" ∷ []) "").1 in
    let last =
      exec_no_result (some refusing) insert_torrent_file (int (pos 5) ∷ text "good" ∷ []) before in
    add_torrent (some refusing) "tale" [] ("bad" ∷ "good" ∷ []) "" ≡ ((pos 5, last.0), last.1)
add_torrent-last_example =
    add_torrent-last (some refusing) "tale" [] ("bad" ∷ []) "good" (pos 5) "" "" "" torrent_stored
      torrent_found

abbrev all_of : String
all_of = "SELECT id FROM tt_chat"
