-- ===== src/Cmd/Migrate.antt =====
-- cmd/migrate.go: the copy of one database into another.
pub mod Newest
pub mod Facts
pub mod Stored
mod Tests
use ttobserver_v.Base.{
  ℕ, String, Bool, Option, none, some, List, [], ◌∷◌, Dict, insert, string_eq, M, pure, ◌>>=◌, ◌>>◌,
  if◌then◌else◌,
}
use ttobserver_v.Base.Int.{ℤ, int_leb}
use ttobserver_v.Shared.Errors.{Err, Fault}
use ttobserver_v.Shared.Database.{Database, DbFactory, DbTorrent, Meta, connect}

-- Where `logger.Fatal` ends the program
pub data Stage : Type 0 where
  old_connection new_connection read_offset write_offset read_chats write_chats read_admins : Stage
  write_admins read_torrents read_files write_torrent read_meta write_meta : Stage
  -- a driver that gives no database and no error
  no_database : Stage

pub data Outcome : Type 0 where
  complete : Outcome
  fatal : Stage → Fault → Outcome

-- The slice sorted by the identifier, by `sort.Slice`.
unfoldable pub insert_by_id : DbTorrent → List DbTorrent → List DbTorrent
insert_by_id t [] = t ∷ []
insert_by_id t (u ∷ us) = if int_leb t.id u.id then t ∷ u ∷ us else u ∷ insert_by_id t us

unfoldable pub sort_by_id : List DbTorrent → List DbTorrent
unfolding insert_by_id
sort_by_id [] = []
sort_by_id (t ∷ ts) = insert_by_id t (sort_by_id ts)

-- `unq[t.Name] = t` for each torrent
unfoldable pub index_names : List DbTorrent → Dict String DbTorrent → Dict String DbTorrent
index_names [] unq = unq
index_names (t ∷ ts) unq = index_names ts (insert t.name t unq)

-- The torrents that are copied, by their names.
unfoldable pub by_name : List DbTorrent → Dict String DbTorrent
unfolding index_names sort_by_id
by_name ts = index_names (sort_by_id ts) []

module _ {W : Type 0} where
  -- The rest is run only if the program was not ended.
  abbrev pub then_do : M W Outcome → M W Outcome → M W Outcome
  then_do m rest w =
      let (o, w') = m w in elim o [ complete ↦ rest w' | fatal s e ↦ (fatal s e, w') ]

  -- A call whose error ends the program.
  unfoldable pub must : Stage → M W Fault → M W Outcome
  must stage m = do e ← m; pure (elim e [ none ↦ complete | some x ↦ fatal stage (some x) ])

  -- A read whose error ends the program, and what follows it.
  unfoldable pub must_get : {A : Type 0} → Stage → M W (A × Fault) → (A → M W Outcome) → M W Outcome
  must_get stage m rest = do
    r ← m
    elim r.1 [ none ↦ rest r.0 | some x ↦ pure (fatal stage (some x)) ]

  -- A loop whose body may end the program.
  unfoldable pub each : {A : Type 0} → (A → M W Outcome) → List A → M W Outcome
  each body [] = pure complete
  each body (a ∷ as') = then_do (body a) (each body as')

  module _ (old_db new_db : Database W) where
    put_meta : DbTorrent → Meta → M W Outcome
    unfolding must
    put_meta t m = must write_meta (new_db.add_torrent_meta t.id m)

    copy_meta : DbTorrent → M W Outcome
    unfolding must_get put_meta
    copy_meta t = must_get read_meta (old_db.get_torrent_meta t.id) (put_meta t)

    put_torrent : DbTorrent → List String → M W Outcome
    unfolding must copy_meta
    put_torrent t fs = then_do (must write_torrent (new_db.m_put_torrent t fs)) (copy_meta t)

    -- One torrent, with its files and its meta.
    unfoldable pub copy_torrent : String × DbTorrent → M W Outcome
    unfolding must_get put_torrent
    copy_torrent (name, t) = must_get read_files (old_db.get_torrent_files t.id) (put_torrent t)

    put_offset : ℕ → M W Outcome
    unfolding must
    put_offset offset = must write_offset (new_db.update_crawl_offset offset)

    put_chat : ℤ → M W Outcome
    unfolding must
    put_chat c = must write_chats (new_db.add_chat c)

    put_admin : ℤ → M W Outcome
    unfolding must
    put_admin c = must write_admins (new_db.add_admin c)

    put_torrents : List DbTorrent → M W Outcome
    unfolding each copy_torrent by_name
    put_torrents ts = each copy_torrent (by_name ts)

    unfoldable pub copy_offset : M W Outcome
    unfolding must_get put_offset
    copy_offset = must_get read_offset old_db.get_crawl_offset put_offset

    unfoldable pub copy_chats : M W Outcome
    unfolding must_get each put_chat
    copy_chats = must_get read_chats old_db.get_chats (each put_chat)

    unfoldable pub copy_admins : M W Outcome
    unfolding must_get each put_admin
    copy_admins = must_get read_admins old_db.get_admins (each put_admin)

    unfoldable pub copy_torrents : M W Outcome
    unfolding must_get put_torrents
    copy_torrents = must_get read_torrents old_db.m_get_torrents put_torrents

    unfoldable pub copy_all : M W Outcome
    unfolding copy_offset copy_chats copy_admins copy_torrents
    copy_all = then_do copy_offset (then_do copy_chats (then_do copy_admins copy_torrents))

  -- `Close` of both databases, the new one first; a program that is ended closes none.
  close_both : Database W → Database W → Outcome → M W Outcome
  close_both old_db new_db complete = do new_db.close; old_db.close; pure complete
  close_both old_db new_db (fatal s e) = pure (fatal s e)

  with_both : Database W → Option (Database W) × Fault → M W Outcome
  unfolding close_both copy_all
  with_both old_db (some new_db, none) = do o ← copy_all old_db new_db; close_both old_db new_db o
  with_both old_db (none, none) = pure (fatal no_database none)
  with_both old_db (_, some e) = pure (fatal new_connection (some e))

  with_old :
      {V : Type 0}
      → Dict String (DbFactory W V (Database W))
      → Option (Dict String V)
      → String
      → Option (Database W) × Fault
      → M W Outcome
  unfolding with_both
  with_old drivers params to (some old_db, none) = do
    r ← connect drivers to params
    with_both old_db r
  with_old drivers params to (none, none) = pure (fatal no_database none)
  with_old drivers params to (_, some e) = pure (fatal old_connection (some e))

  -- `migrate`, from one driver to another, with the parameters of the configuration.
  unfoldable pub migrate :
      {V : Type 0}
      → Dict String (DbFactory W V (Database W))
      → Option (Dict String V)
      → String
      → String
      → M W Outcome
  unfolding with_old
  migrate drivers params from to = do r ← connect drivers from params; with_old drivers params to r
