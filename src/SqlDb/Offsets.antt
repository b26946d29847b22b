-- ===== src/SqlDb/Offsets.antt =====
-- shared/sqldb/db.go: the crawl offset is read as it was stored.
use ttobserver_v.Base.{ℕ, ◌^◌, ◌<◌, ◌≡◌, ap, ◌∙◌, String, none, some, List, [], ◌∷◌}
use ttobserver_v.Base.Decimal.{format_uint, parse_uint-format_uint}
use ttobserver_v.Shared.Errors.{ok}
use ttobserver_v.SqlDb.{Arg, text, Conn, scan_first, with_rows}
use ttobserver_v.SqlDb.Alive.{run_query-alive, exec-done}
use ttobserver_v.SqlDb.Queries.{select_config, insert_or_update_config, conf_crawl_offset}
use ttobserver_v.SqlDb.Methods.{
  parsed, get_config_value, update_config_value, get_crawl_offset, update_crawl_offset,
}

-- What SQL says of the two statements on the table TT_CONFIG: after the upsert of a name, the
-- selection of the name has one row, and it holds the value. A ping in between changes no row.
pub record IsConfigStore {W Row : Type 0} (c : Conn W Row) : Type 0 where
  pub row : String → Row
  pub holds : (val : String) → c.scan_text (row val) ≡ ok val
  pub selects :
      (name val : String) (w : W)
      → (c.exec insert_or_update_config (text name ∷ text val ∷ []) w).0 ≡ none
      → let w' = (c.exec insert_or_update_config (text name ∷ text val ∷ []) w).1 in
        (c.query select_config (text name ∷ []) (c.ping w').1).0
        ≡ (some (record { items = row val ∷ []; fault = none }), none)

pub parsed-format_uint :
    (offset : ℕ) → offset < 2 ^ 64 → parsed (format_uint offset, none) ≡ (offset, none)
unfolding parsed
parsed-format_uint offset small = rw (parsed, parse_uint-format_uint offset small)

module _ {W Row : Type 0} (c : Conn W Row) (store : IsConfigStore c) where
  -- A value that was stored is read by a reader whose connection is alive.
  get_config_value-stored :
      (name val : String) (w : W)
      → (c.exec insert_or_update_config (text name ∷ text val ∷ []) w).0 ≡ none
      → let w' = (c.exec insert_or_update_config (text name ∷ text val ∷ []) w).1 in
        (c.ping w').0 ≡ none → (get_config_value (some c) name w').0 ≡ (val, none)
  unfolding get_config_value with_rows scan_first
  get_config_value-stored name val w done alive =
      let w' = (c.exec insert_or_update_config (text name ∷ text val ∷ []) w).1 in
      run_query-alive c "" (λ d. scan_first d.scan_text "") select_config (text name ∷ []) w' alive
      ∙ rw (store.selects name val w done, with_rows, scan_first, store.holds val)

  -- After an offset was stored without an error, a reader whose connection is alive gets it back.
  pub get_crawl_offset-update :
      (offset : ℕ) (w : W)
      → offset < 2 ^ 64
      → (update_crawl_offset (some c) offset w).0 ≡ none
      → let w' = (update_crawl_offset (some c) offset w).1 in
        (c.ping w').0 ≡ none → (get_crawl_offset (some c) w').0 ≡ (offset, none)
  unfolding update_crawl_offset update_config_value get_crawl_offset
  get_crawl_offset-update offset w small done alive =
      let val = format_uint offset in
      let args : List Arg = text conf_crawl_offset ∷ text val ∷ [] in
      let ran = exec-done c insert_or_update_config args w done in
      rw ran (
        ap parsed (
          get_config_value-stored conf_crawl_offset val (c.ping w).1 (rw ran at done)
            (rw ran at alive))
        ∙ parsed-format_uint offset small)
