-- ===== src/SqlDb/OffsetStore.antt =====
-- shared/sqldb/db.go: the SQL database has a crawl offset.
use ttobserver_v.Base.{
  ℕ, ◌^◌, ◌<◌, ◌≡◌, refl, ap, ◌∙◌, String, Option, none, some, List, All, [], ◌∷◌, arith,
}
use ttobserver_v.Base.Decimal.{format_uint}
use ttobserver_v.Shared.Errors.{Fault, ok}
use ttobserver_v.Shared.Database.Offsets.{IsOffsetStore, Op, Fits, run, replay, run-replay}
use ttobserver_v.SqlDb.{text, Conn, scan_first, with_rows, checked, run_query, exec_no_result}
use ttobserver_v.SqlDb.Queries.{select_config, insert_or_update_config, conf_crawl_offset}
use ttobserver_v.SqlDb.Methods.{
  parsed, get_config_value, update_config_value, get_crawl_offset, update_crawl_offset,
  sql_database,
}
use ttobserver_v.SqlDb.Offsets.{parsed-format_uint}

-- A connection that is alive, with the table TT_CONFIG: the value of each name that has one.
pub record HasConfig {W Row : Type 0} (c : Conn W Row) : Type 0 where
  pub config : String → W → Option String
  pub row : String → Row
  pub scans : (val : String) → c.scan_text (row val) ≡ ok val
  pub pings : (w : W) → (c.ping w).0 ≡ none
  pub ping_keeps : (name : String) (w : W) → config name (c.ping w).1 ≡ config name w
  pub selects :
      (name val : String) (w : W)
      → config name w ≡ some val
      → (c.query select_config (text name ∷ []) w).0
        ≡ (some (record { items = row val ∷ []; fault = none }), none)
  pub select_keeps :
      (name other : String) (w : W)
      → config other (c.query select_config (text name ∷ []) w).1 ≡ config other w
  pub upserts :
      (name val : String) (w : W)
      → ((c.exec insert_or_update_config (text name ∷ text val ∷ []) w).0 ≡ none)
        × (config name (c.exec insert_or_update_config (text name ∷ text val ∷ []) w).1 ≡ some val)

module _ {W Row : Type 0} (c : Conn W Row) (table : HasConfig c) where
  open table use {config}

  -- The offset stands in the table, in decimal.
  abbrev pub HasOffset : ℕ → W → Type 0
  HasOffset n w = (n < 2 ^ 64) × (config conf_crawl_offset w ≡ some (format_uint n))

  query_after_ping :
      (w : W)
      → run_query
          (some c)
          ""
          (λ d. scan_first d.scan_text "")
          select_config
          (text conf_crawl_offset ∷ [])
          w
        ≡ (let (r, w') = c.query select_config (text conf_crawl_offset ∷ []) (c.ping w).1 in
            (with_rows "" (scan_first c.scan_text "") r, w'))
  unfolding run_query checked
  query_after_ping w = ground (arith, table.pings w)

  pub sql-reads : (n : ℕ) (w : W) → HasOffset n w → (get_crawl_offset (some c) w).0 ≡ (n, none)
  unfolding get_crawl_offset get_config_value with_rows scan_first
  sql-reads n w (small, here) =
      let val = format_uint n in
      let there = table.ping_keeps conf_crawl_offset w ∙ here in
      let rows : List Row = table.row val ∷ [] in
      ap (λ (r : (String × Fault) × W). parsed r.0) (query_after_ping w)
      ∙ ap (λ r. parsed (with_rows "" (scan_first c.scan_text "") r))
          (table.selects conf_crawl_offset val (c.ping w).1 there)
      ∙ ap (λ r. parsed r) (rw (with_rows, scan_first, table.scans val) refl)
      ∙ parsed-format_uint n small

  pub sql-keeps : (n : ℕ) (w : W) → HasOffset n w → HasOffset n (get_crawl_offset (some c) w).1
  unfolding get_crawl_offset get_config_value
  sql-keeps n w (small, here) = (
    small,
    ap (λ (r : (String × Fault) × W). config conf_crawl_offset r.1) (query_after_ping w)
        ∙ table.select_keeps conf_crawl_offset conf_crawl_offset (c.ping w).1
        ∙ table.ping_keeps conf_crawl_offset w
        ∙ here,
  )

  pub sql-stores :
      (o n : ℕ) (w : W)
      → n < 2 ^ 64
      → HasOffset o w
      → ((update_crawl_offset (some c) n w).0 ≡ none)
        × HasOffset n (update_crawl_offset (some c) n w).1
  unfolding update_crawl_offset update_config_value exec_no_result
  sql-stores o n w small here =
      let done = table.upserts conf_crawl_offset (format_uint n) (c.ping w).1 in
      (ground (arith, table.pings w, done), (small, ground (arith, table.pings w, done)))

  unfoldable pub sql-IsOffsetStore : IsOffsetStore (sql_database (some c))
  sql-IsOffsetStore = record {
    Holds = HasOffset;
    reads = sql-reads;
    read_keeps = sql-keeps;
    stores = sql-stores;
  }

  -- A client of the SQL database sees the answers of a number.
  pub run-sql_database :
      (ops : List Op) (o : ℕ) (w : W)
      → All Fits ops
      → HasOffset o w
      → run (sql_database (some c)) ops w ≡ replay ops o
  unfolding sql-IsOffsetStore
  run-sql_database = run-replay (sql_database (some c)) sql-IsOffsetStore
