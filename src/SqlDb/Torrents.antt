-- ===== src/SqlDb/Torrents.antt =====
-- shared/sqldb/db.go: `AddTorrent` where a statement fails.
use ttobserver_v.Base.{◌≡◌, refl, String, Option, none, some, List, [], ◌∷◌, ◌++◌}
use ttobserver_v.Base.Int.{ℤ, pos}
use ttobserver_v.Shared.Errors.{Err, Fault}
use ttobserver_v.Shared.Database.{Bytes}
use ttobserver_v.SqlDb.{int, text, blob, Conn, exec_no_result}
use ttobserver_v.SqlDb.Queries.{insert_torrent_file, insert_or_update_torrent}
use ttobserver_v.SqlDb.Methods.{get_torrent, insert_files, with_id, after_upsert, add_torrent}

module _ {W Row : Type 0} (con : Option (Conn W Row)) where
  insert_files-append :
      (id : ℤ) (e : Fault) (files : List String) (file : String) (w : W)
      → insert_files con id e (files ++ file ∷ []) w
        ≡ exec_no_result con insert_torrent_file
            (int id ∷ text file ∷ [])
            (insert_files con id e files w).1
  unfolding insert_files
  insert_files-append id e [] file w = refl
  insert_files-append id e (f ∷ files) file w =
      let (x, w') = exec_no_result con insert_torrent_file (int id ∷ text f ∷ []) w in
      insert_files-append id x files file w'

  -- When the torrent was stored and has an identifier, `AddTorrent` reports exactly the error of the
  -- last file's insertion: the errors of the other files are lost.
  pub add_torrent-last :
      (name : String) (content : Bytes) (files : List String) (file : String) (id : ℤ) (w w₁ w₂ : W)
      → exec_no_result con insert_or_update_torrent (text name ∷ blob content ∷ []) w ≡ (none, w₁)
      → get_torrent con name w₁ ≡ ((id, none), w₂)
      → let before = (insert_files con id none files w₂).1 in
        let last = exec_no_result con insert_torrent_file (int id ∷ text file ∷ []) before in
        add_torrent con name content (files ++ file ∷ []) w ≡ ((id, last.0), last.1)
  unfolding add_torrent after_upsert with_id
  add_torrent-last name content files file id w w₁ w₂ stored found =
      rw (stored, found, insert_files-append id none files file w₂)

  -- Where the torrent was not stored, its error is reported with the identifier 0 and no file is
  -- inserted.
  pub add_torrent-not_stored :
      (name : String) (content : Bytes) (files : List String) (w w₁ : W) (x : Err)
      → exec_no_result con insert_or_update_torrent (text name ∷ blob content ∷ []) w ≡ (some x, w₁)
      → add_torrent con name content files w ≡ ((pos 0, some x), w₁)
  unfolding add_torrent after_upsert
  add_torrent-not_stored name content files w w₁ x failed = rw failed
