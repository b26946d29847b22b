-- ===== src/Observer/Check.antt =====
-- observer.go: `CheckTorrent`, which looks for a torrent at one offset.
pub mod Known
pub mod Found
pub mod Faulty
pub mod Sends
pub mod Aside
use ttobserver_v.Base.{
  ℕ, ◌%◌, String, Bool, false, true, Option, none, some, List, [], ◌∷◌, ◌++◌, lookup, insert, M,
  pure, ◌>>=◌, if◌then◌else◌, ltb, ◌==◌, nat_eq, string_eq,
}
use ttobserver_v.Base.Int.{ℤ, int_eq}
use ttobserver_v.Shared.Errors.{Fault}
use ttobserver_v.Shared.Database.{Bytes, Database, invalid_db_id}
use ttobserver_v.Shared.Torrent.{TorrentInfo, FileSet, new_files, get_torrent}
use ttobserver_v.Producer.Announcer.{Call, send_nx_get_all}
use ttobserver_v.Observer.Settings.{Observer}
use ttobserver_v.Observer.Notify.{notify, is_ok}

-- `torrent.Files[file] = false` for a file that the map has.
mark : String → Option Bool → FileSet → FileSet
mark file none files = files
mark file (some flag) files = insert file false files

-- The loop over the files that the database has.
unfoldable pub mark_known : List String → FileSet → FileSet
unfolding mark
mark_known [] files = files
mark_known (file ∷ existing) files = mark_known existing (mark file (lookup file files) files)

-- How a call ends: it returns, or it panics, as a division by zero does.
pub data Outcome : Type 0 where
  returned : Bool → Outcome
  panicked : Outcome

module _ {W P : Type 0} (cr : Observer W P) where
  open cr use {crawler, texts, web, db, announcer}

  -- The identifier that the database has for the name, and the files that it has.
  unfoldable pub known : String → M W (ℤ × List String)
  known name = do
    g ← db.get_torrent name
    if is_ok g.1
        then (do f ← db.get_torrent_files g.0; pure (g.0, (if is_ok f.1 then f.0 else [])))
        else pure (g.0, [])

  -- `offset > 0 && offset%Anniversary == 0`, where the remainder by zero panics.
  unfoldable pub finish : ℕ → List (Call P) → Outcome × List (Call P)
  finish offset calls =
      if ltb 0 offset
      then (if crawler.anniversary == 0
          then (panicked, calls)
          else if offset % crawler.anniversary == 0
          then (returned true, calls ++ send_nx_get_all announcer offset)
          else (returned true, calls))
      else (returned true, calls)

  unfoldable pub announce : ℕ → String → String → TorrentInfo → M W (Outcome × List (Call P))
  unfolding finish known
  announce offset full_context full_url t = do
    k ← known t.name
    let files = mark_known k.1 t.files
    a ← db.add_torrent t.name t.content (new_files files)
    let t' = record t { files = files; id = a.0; url = full_url }
    calls ← notify cr t' full_context (k.0 == invalid_db_id)
    pure (finish offset calls)

  after_fetch : ℕ → String → String → Option TorrentInfo × Fault → M W (Outcome × List (Call P))
  unfolding announce
  after_fetch offset full_context full_url (some t, none) =
      if ltb 0 t.len then announce offset full_context full_url t else pure (returned false, [])
  after_fetch offset full_context full_url (none, none) = pure (returned false, [])
  after_fetch offset full_context full_url (_, some e) = pure (returned false, [])

  unfoldable pub check_torrent : ℕ → M W (Outcome × List (Call P))
  unfolding after_fetch
  check_torrent offset = do
    let full_context = texts.sprintf crawler.context_url offset
    let full_url = texts.join_path full_context
    r ← get_torrent web texts.error_text full_url
    after_fetch offset full_context full_url r
