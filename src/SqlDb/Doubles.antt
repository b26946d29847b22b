-- ===== src/SqlDb/Doubles.antt =====
-- A table with one value, for the tests.
use ttobserver_v.Base.{
  refl, none, some, List, [], ◌∷◌, pure, String, ◌==◌, string_eq, if◌then◌else◌,
}
use ttobserver_v.Base.Int.{pos}
use ttobserver_v.Shared.Errors.{ok, err, parse_error}
use ttobserver_v.SqlDb.{Arg, text, Conn}
use ttobserver_v.SqlDb.Queries.{insert_or_update_config}
use ttobserver_v.SqlDb.OffsetStore.{HasConfig}

-- The world is the one value of the table, and a row is a text.
abbrev pub kept : List Arg → String → String
kept (name ∷ text val ∷ []) old = val
kept args old = old

abbrev pub one_row : Conn String String
one_row = record {
  ping = pure none;
  exec = λ query args w. (none, (if query == insert_or_update_config then kept args w else w));
  query = λ query args w. ((some (record { items = w ∷ []; fault = none }), none), w);
  scan_int = λ row. ok (pos 5);
  scan_text = λ row. ok row;
  scan_texts = λ row. ok (row, row);
  scan_bytes = λ row. ok [];
  scan_torrent = λ row. err parse_error;
  close = pure tt;
}

unfoldable pub one_row-HasConfig : HasConfig one_row
one_row-HasConfig = record {
  config = λ name w. some w;
  row = λ val. val;
  scans = λ val. refl;
  pings = λ w. refl;
  ping_keeps = λ name w. refl;
  selects = λ name val w here. cc;
  select_keeps = λ name other w. refl;
  upserts = λ name val w. (refl, refl);
}
