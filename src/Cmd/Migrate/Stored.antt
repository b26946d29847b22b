-- ===== src/Cmd/Migrate/Stored.antt =====
-- `migrate` of cmd/migrate.go: what a copy that ends without an error has stored.
use mathlib.Core.Path.{subst}
use ttobserver_v.Base.{
  ◌≡◌, ◌∙◌, sym, ap, String, Option, none, some, List, [], ◌∷◌, ◌++◌, Dict, All, inl, inr,
}
use ttobserver_v.Base.Int.{ℤ}
use ttobserver_v.Shared.Errors.{Fault}
use ttobserver_v.Shared.Database.{Database, DbFactory, DbTorrent, connect}
use ttobserver_v.Cmd.Migrate.{
  with_both, with_old, close_both, migrate, Outcome, complete, Stage, then_do, must, each,
  copy_torrent, put_meta, copy_meta, put_torrent, put_offset, put_chat, put_admin, put_torrents,
  copy_offset, copy_chats, copy_admins, copy_torrents, copy_all, by_name,
}
use ttobserver_v.Cmd.Migrate.Newest.{IsNewest, by_name-IsNewest}
use ttobserver_v.Cmd.Migrate.Facts.{
  Outcome-cases, All-keep, Fact, IsSource, IsTarget, Keeps, Keeps-each, Keeps-must, Keeps-must_get,
  Keeps-then_do, Puts, Puts-each, Puts-must, Puts-must_get, Puts-then_do, admin, chat,
  facts_of_files, facts_of_meta, gather, offset, torrent,
}

module _ {W : Type 0} (Holds : Fact → W → Type 0) where
  module _ (old_db new_db : Database W) (source : IsSource Holds old_db)
      (target : IsTarget Holds new_db) where
    open source use {crawl_offset, chats, admins, torrents, files_of, meta_of}

    -- The facts of one torrent of the old database
    abbrev pub facts_of_torrent : String × DbTorrent → List Fact
    facts_of_torrent (name, t) =
        (torrent t.id ∷ facts_of_files t.id (files_of t.id)) ++ facts_of_meta t.id (meta_of t.id)

    Keeps-copy_meta : (t : DbTorrent) → Keeps Holds (copy_meta old_db new_db t)
    unfolding copy_meta put_meta
    Keeps-copy_meta t =
        Keeps-must_get Holds Stage.read_meta (old_db.get_torrent_meta t.id)
          (put_meta old_db new_db t) (source.meta_keeps t.id)
          (λ m.
            Keeps-must Holds Stage.write_meta (new_db.add_torrent_meta t.id m)
              (target.meta_keeps t.id m))

    Keeps-copy_torrent : (e : String × DbTorrent) → Keeps Holds (copy_torrent old_db new_db e)
    unfolding copy_torrent put_torrent
    Keeps-copy_torrent (name, t) =
        Keeps-must_get Holds Stage.read_files (old_db.get_torrent_files t.id)
          (put_torrent old_db new_db t) (source.files_keeps t.id)
          (λ fs.
            Keeps-then_do Holds (must Stage.write_torrent (new_db.m_put_torrent t fs))
              (copy_meta old_db new_db t)
              (Keeps-must Holds Stage.write_torrent (new_db.m_put_torrent t fs)
                (target.torrent_keeps t fs))
              (Keeps-copy_meta t))

    Puts-copy_meta :
        (t : DbTorrent) → Puts Holds (copy_meta old_db new_db t) (facts_of_meta t.id (meta_of t.id))
    unfolding copy_meta put_meta
    Puts-copy_meta t =
        Puts-must_get Holds Stage.read_meta (old_db.get_torrent_meta t.id)
          (put_meta old_db new_db t) (meta_of t.id) (facts_of_meta t.id (meta_of t.id))
          (source.meta_read t.id)
          (Puts-must Holds Stage.write_meta (new_db.add_torrent_meta t.id (meta_of t.id))
            (facts_of_meta t.id (meta_of t.id)) (target.meta_writes t.id (meta_of t.id)))

    Puts-put_torrent :
        (t : DbTorrent)
        → Puts Holds (put_torrent old_db new_db t (files_of t.id)) (facts_of_torrent ("", t))
    unfolding put_torrent
    Puts-put_torrent t =
        let fs = files_of t.id in
        Puts-then_do Holds (must Stage.write_torrent (new_db.m_put_torrent t fs))
          (copy_meta old_db new_db t) (torrent t.id ∷ facts_of_files t.id fs)
          (facts_of_meta t.id (meta_of t.id))
          (Puts-must Holds Stage.write_torrent (new_db.m_put_torrent t fs)
            (torrent t.id ∷ facts_of_files t.id fs) (target.torrent_writes t fs))
          (Puts-copy_meta t) (Keeps-copy_meta t)

    Puts-copy_torrent :
        (e : String × DbTorrent) → Puts Holds (copy_torrent old_db new_db e) (facts_of_torrent e)
    unfolding copy_torrent
    Puts-copy_torrent (name, t) =
        Puts-must_get Holds Stage.read_files (old_db.get_torrent_files t.id)
          (put_torrent old_db new_db t) (files_of t.id) (facts_of_torrent (name, t))
          (source.files_read t.id) (Puts-put_torrent t)

    -- All that the old database has: the offset, the chats, the administrators, and of each name the
    -- torrent that is copied.
    abbrev pub facts_of_source : List Fact
    facts_of_source =
        (offset crawl_offset ∷ [])
        ++ (gather (λ c. chat c ∷ []) chats
            ++ (gather (λ c. admin c ∷ []) admins ++ gather facts_of_torrent (by_name torrents)))

    Puts-copy_torrents :
        Puts Holds (copy_torrents old_db new_db) (gather facts_of_torrent (by_name torrents))
    unfolding copy_torrents put_torrents
    Puts-copy_torrents =
        Puts-must_get Holds Stage.read_torrents old_db.m_get_torrents (put_torrents old_db new_db)
          torrents (gather facts_of_torrent (by_name torrents)) source.torrents_read
          (Puts-each Holds (copy_torrent old_db new_db) facts_of_torrent Puts-copy_torrent
            Keeps-copy_torrent (by_name torrents))

    Keeps-copy_torrents : Keeps Holds (copy_torrents old_db new_db)
    unfolding copy_torrents put_torrents
    Keeps-copy_torrents =
        Keeps-must_get Holds Stage.read_torrents old_db.m_get_torrents (put_torrents old_db new_db)
          source.torrents_keeps
          (λ ts. Keeps-each Holds (copy_torrent old_db new_db) Keeps-copy_torrent (by_name ts))

    Keeps-put_admin : (c : ℤ) → Keeps Holds (put_admin old_db new_db c)
    unfolding put_admin
    Keeps-put_admin c =
        Keeps-must Holds Stage.write_admins (new_db.add_admin c) (target.admin_keeps c)

    Keeps-put_chat : (c : ℤ) → Keeps Holds (put_chat old_db new_db c)
    unfolding put_chat
    Keeps-put_chat c = Keeps-must Holds Stage.write_chats (new_db.add_chat c) (target.chat_keeps c)

    Keeps-copy_admins : Keeps Holds (copy_admins old_db new_db)
    unfolding copy_admins
    Keeps-copy_admins =
        Keeps-must_get Holds Stage.read_admins old_db.get_admins (each (put_admin old_db new_db))
          source.admins_keeps (λ cs. Keeps-each Holds (put_admin old_db new_db) Keeps-put_admin cs)

    Keeps-copy_chats : Keeps Holds (copy_chats old_db new_db)
    unfolding copy_chats
    Keeps-copy_chats =
        Keeps-must_get Holds Stage.read_chats old_db.get_chats (each (put_chat old_db new_db))
          source.chats_keeps (λ cs. Keeps-each Holds (put_chat old_db new_db) Keeps-put_chat cs)

    Puts-copy_admins : Puts Holds (copy_admins old_db new_db) (gather (λ c. admin c ∷ []) admins)
    unfolding copy_admins put_admin
    Puts-copy_admins =
        Puts-must_get Holds Stage.read_admins old_db.get_admins (each (put_admin old_db new_db))
          admins (gather (λ c. admin c ∷ []) admins) source.admins_read
          (Puts-each Holds (put_admin old_db new_db) (λ c. admin c ∷ [])
            (λ c.
              Puts-must Holds Stage.write_admins (new_db.add_admin c) (admin c ∷ [])
                (target.admin_writes c))
            Keeps-put_admin admins)

    Puts-copy_chats : Puts Holds (copy_chats old_db new_db) (gather (λ c. chat c ∷ []) chats)
    unfolding copy_chats put_chat
    Puts-copy_chats =
        Puts-must_get Holds Stage.read_chats old_db.get_chats (each (put_chat old_db new_db)) chats
          (gather (λ c. chat c ∷ []) chats) source.chats_read
          (Puts-each Holds (put_chat old_db new_db) (λ c. chat c ∷ [])
            (λ c.
              Puts-must Holds Stage.write_chats (new_db.add_chat c) (chat c ∷ [])
                (target.chat_writes c))
            Keeps-put_chat chats)

    Puts-copy_offset : Puts Holds (copy_offset old_db new_db) (offset crawl_offset ∷ [])
    unfolding copy_offset put_offset
    Puts-copy_offset =
        Puts-must_get Holds Stage.read_offset old_db.get_crawl_offset (put_offset old_db new_db)
          crawl_offset (offset crawl_offset ∷ []) source.offset_read
          (Puts-must Holds Stage.write_offset (new_db.update_crawl_offset crawl_offset)
            (offset crawl_offset ∷ []) (target.offset_writes crawl_offset))

    Puts-copy_all : Puts Holds (copy_all old_db new_db) facts_of_source
    unfolding copy_all
    Puts-copy_all =
        let torrents_last = Puts-copy_torrents in
        Puts-then_do Holds (copy_offset old_db new_db) _ (offset crawl_offset ∷ []) _
          Puts-copy_offset
          (Puts-then_do Holds (copy_chats old_db new_db) _ (gather (λ c. chat c ∷ []) chats) _
            Puts-copy_chats
            (Puts-then_do Holds (copy_admins old_db new_db) (copy_torrents old_db new_db)
              (gather (λ c. admin c ∷ []) admins) (gather facts_of_torrent (by_name torrents))
              Puts-copy_admins Puts-copy_torrents Keeps-copy_torrents)
            (Keeps-then_do Holds (copy_admins old_db new_db) (copy_torrents old_db new_db)
              Keeps-copy_admins Keeps-copy_torrents))
          (Keeps-then_do Holds (copy_chats old_db new_db)
            (then_do (copy_admins old_db new_db) (copy_torrents old_db new_db)) Keeps-copy_chats
            (Keeps-then_do Holds (copy_admins old_db new_db) (copy_torrents old_db new_db)
              Keeps-copy_admins Keeps-copy_torrents))

    Puts-with_both :
        (fs : List Fact)
        → Puts Holds (copy_all old_db new_db) fs
        → Puts Holds (with_both old_db (some new_db, none)) fs
    unfolding with_both close_both
    Puts-with_both fs h w e =
        let (o, w') = copy_all old_db new_db w in
        elim (Outcome-cases o) [
          | inl done ↦
              rw (done, close_both)
                (All-keep Holds old_db.close fs (new_db.close w').1 source.close_keeps
                  (All-keep Holds new_db.close fs w' target.close_keeps (h w done)))
          | inr (s, x, stop) ↦ absurd (cc (rw (stop, close_both) at e))
        ]

    migrate-with_both :
        {V : Type 0} (drivers : Dict String (DbFactory W V (Database W)))
        (params : Option (Dict String V)) (from to : String) (w w₁ w₂ : W)
        → connect drivers from params w ≡ ((some old_db, none), w₁)
        → connect drivers to params w₁ ≡ ((some new_db, none), w₂)
        → migrate drivers params from to w ≡ with_both old_db (some new_db, none) w₂
    unfolding migrate with_old
    migrate-with_both drivers params from to w w₁ w₂ p q =
        ap (λ (r : (Option (Database W) × Fault) × W). with_old drivers params to r.0 r.1) p
        ∙ ap (λ (r : (Option (Database W) × Fault) × W). with_both old_db r.0 r.1) q

    -- When `migrate` connects to both databases and ends without an error, where the reads of the old
    -- database succeed and stay the same, and what a write without an error has stored is kept by all
    -- that follows, the new database has the offset, every chat, every administrator, and for each
    -- torrent that is copied an entry under its identifier, the names of all its files and all keys of
    -- its meta; the torrents that are copied are, for each name, one with the greatest identifier.
    pub migrate-stored :
        {V : Type 0} (drivers : Dict String (DbFactory W V (Database W)))
        (params : Option (Dict String V)) (from to : String) (w w₁ w₂ : W)
        → connect drivers from params w ≡ ((some old_db, none), w₁)
        → connect drivers to params w₁ ≡ ((some new_db, none), w₂)
        → (migrate drivers params from to w).0 ≡ complete
        → All (λ f. Holds f (migrate drivers params from to w).1) facts_of_source
          × IsNewest torrents (by_name torrents)
    migrate-stored drivers params from to w w₁ w₂ p q e =
        let ran = migrate-with_both drivers params from to w w₁ w₂ p q in
        let done = ap (λ (r : Outcome × W). r.0) (sym ran) ∙ e in
        (
          subst (λ (r : Outcome × W). All (λ f. Holds f r.1) facts_of_source) (sym ran)
              (Puts-with_both facts_of_source Puts-copy_all w₂ done),
          by_name-IsNewest torrents,
        )
