-- ===== src/SqlDb/Scans.antt =====
-- shared/sqldb/db.go: what the helpers that read rows give, with and without an error.
use ttobserver_v.Base.{
  ◌≡◌, String, sym, ◌∙◌, Option, none, some, List, [], ◌∷◌, ◌++◌, arith, Option-cases, inl, inr,
}
use ttobserver_v.Base.Int.{ℤ}
use ttobserver_v.Shared.Errors.{Err, Fault, Result, ok}
use ttobserver_v.Shared.Database.{invalid_db_id}
use ttobserver_v.SqlDb.{Arg, text, Rows, Conn, scan_all, scan_first, with_rows}
use ttobserver_v.SqlDb.Alive.{run_query-alive, run_query-dead}
use ttobserver_v.SqlDb.Queries.{select_torrent_id}
use ttobserver_v.SqlDb.Methods.{get_torrent}

module _ {A Row : Type 0} (scan : Row → Result A) where
  next :
      (r : Row) (rs : List Row) (e : Fault) (acc : List A) (a : A) {as' : List A}
      → scan r ≡ ok a
      → scan_all scan acc (r ∷ rs) e ≡ (as', none)
      → scan_all scan (acc ++ a ∷ []) rs e ≡ (as', none)
  unfolding scan_all
  next r rs e acc a q h = rw (q, scan_all) at h

  pub scan_first-fault :
      (default a : A) (rs : List Row) (e : Fault) {x : Err}
      → scan_first scan default rs e ≡ (a, some x)
      → a ≡ default
  unfolding scan_first
  scan_first-fault default a [] e h = cc
  scan_first-fault default a (r ∷ rs) e h = ground arith

-- The rows that a query gave; there may be none at all.
abbrev pub rows_of : {Row : Type 0} → Option (Rows Row) × Fault → List Row
rows_of (some rows, e) = rows.items
rows_of (none, e) = []

module _ {W Row : Type 0} (c : Conn W Row) where
  -- The answer to a query, after the connection was tried.
  abbrev pub answer : String → List Arg → W → Option (Rows Row) × Fault
  answer query args w = (c.query query args (c.ping w).1).0

  pub get_torrent-dead :
      (name : String) (w : W) {x : Err}
      → (c.ping w).0 ≡ some x
      → (get_torrent (some c) name w).0 ≡ (invalid_db_id, some x)
  unfolding get_torrent
  get_torrent-dead name w h =
      run_query-dead c {A = ℤ} invalid_db_id (λ d. scan_first d.scan_int invalid_db_id)
        select_torrent_id (text name ∷ []) w h

  with_rows-fault :
      {A : Type 0} (scan : Row → Result A) (default a : A) (r : Option (Rows Row) × Fault) {x : Err}
      → with_rows default (scan_first scan default) r ≡ (a, some x)
      → a ≡ default
  unfolding with_rows
  with_rows-fault scan default a (some rows, none) h =
      scan_first-fault scan default a rows.items rows.fault h
  with_rows-fault scan default a (some rows, some e) h = cc
  with_rows-fault scan default a (none, e) h = cc

  -- An error of `GetTorrent` comes with the invalid identifier, which also stands for a name that
  -- the database does not have.
  pub get_torrent-fault :
      (name : String) (id : ℤ) (w : W) {x : Err}
      → (get_torrent (some c) name w).0 ≡ (id, some x)
      → id ≡ invalid_db_id
  unfolding get_torrent
  get_torrent-fault name id w h = elim (Option-cases (c.ping w).0) [
    | inl alive ↦
        with_rows-fault c.scan_int invalid_db_id id _ (sym (run_query-alive c _ _ _ _ w alive) ∙ h)
    | inr (y, dead) ↦ cc (get_torrent-dead name w dead)
  ]
