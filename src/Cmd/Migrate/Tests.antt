-- ===== src/Cmd/Migrate/Tests.antt =====
-- Two databases for `migrate` of cmd/migrate.go, one with two torrents of a name, and the theorems
-- at them.
use mathlib.Core.List.{Memᴰ}
use ttobserver_v.Base.{
  ◌≡◌, refl, String, true, false, none, some, List, [], ◌∷◌, ◌++◌, Dict, lookup, string_eq, M, pure,
  All,
}
use ttobserver_v.Base.Int.{pos}
use ttobserver_v.Shared.Errors.{Fault}
use ttobserver_v.Shared.Database.{Database, DbFactory, DbTorrent, connect, run_factory}
use ttobserver_v.Cmd.Migrate.{
  complete, migrate, by_name, index_names, sort_by_id, insert_by_id, with_old, with_both,
  close_both, copy_all, copy_offset, copy_chats, copy_admins, copy_torrents, put_offset, put_chat,
  put_admin, put_torrents, copy_torrent, put_torrent, copy_meta, put_meta, must, must_get, each,
}
use ttobserver_v.Cmd.Migrate.Facts.{
  Fact, offset, chat, admin, torrent, facts_of_files, facts_of_meta, IsSource, IsTarget,
}
use ttobserver_v.Cmd.Migrate.Newest.{IsNewest}
use ttobserver_v.Cmd.Migrate.Stored.{facts_of_source, migrate-stored}

abbrev first_tale : DbTorrent
first_tale = record { id = pos 1; name = "tale"; content = []; image = [] }

abbrev second_tale : DbTorrent
second_tale = record { id = pos 2; name = "tale"; content = []; image = [] }

abbrev two_tales : List DbTorrent
two_tales = second_tale ∷ first_tale ∷ []

second_is_copied : lookup "tale" (by_name two_tales) ≡ some second_tale
unfolding by_name index_names sort_by_id insert_by_id
second_is_copied = refl

-- The world is what the new database was given.
abbrev put : List Fact → M (List Fact) Fault
put fs w = (none, fs ++ w)

abbrev tales_db : Database (List Fact)
tales_db = record {
  is_nil = false;
  add_admin = λ id. put (admin id ∷ []);
  add_chat = λ id. put (chat id ∷ []);
  add_torrent_image = λ id image. pure none;
  add_torrent_meta = λ id m. put (facts_of_meta id m);
  add_torrent = λ name content files. pure (pos 0, none);
  check_torrent = λ id. pure (true, none);
  close = pure tt;
  del_admin = λ id. pure none;
  del_chat = λ id. pure none;
  get_admin_exist = λ id. pure (true, none);
  get_admins = pure (pos 8 ∷ [], none);
  get_chat_exist = λ id. pure (true, none);
  get_chats = pure (pos 5 ∷ pos 6 ∷ [], none);
  get_crawl_offset = pure (42, none);
  get_torrent_files = λ id. pure ("/a" ∷ "/b" ∷ [], none);
  get_torrent_image = λ id. pure ([], none);
  get_torrent_meta = λ id. pure (("genre", "saga") ∷ [], none);
  get_torrent = λ name. pure (pos 0, none);
  update_crawl_offset = λ n. put (offset n ∷ []);
  m_get_torrents = pure (two_tales, none);
  m_put_torrent = λ t fs. put (torrent t.id ∷ facts_of_files t.id fs);
}

abbrev Holds : Fact → List Fact → Type 0
Holds f w = Memᴰ f w

Mem-weaken : (f : Fact) (fs w : List Fact) → Memᴰ f w → Memᴰ f (fs ++ w)
Mem-weaken f [] w m = m
Mem-weaken f (g ∷ fs) w m = Memᴰ.tail (Mem-weaken f fs w m)

All-Mem-weaken :
    (g : Fact) (fs w : List Fact) → All (λ f. Memᴰ f w) fs → All (λ f. Memᴰ f (g ∷ w)) fs
All-Mem-weaken g [] w h = tt
All-Mem-weaken g (f ∷ fs) w h = (Memᴰ.tail h.0, All-Mem-weaken g fs w h.1)

put-holds : (fs w : List Fact) → All (λ f. Memᴰ f (fs ++ w)) fs
put-holds [] w = tt
put-holds (f ∷ fs) w = (Memᴰ.head refl, All-Mem-weaken f fs (fs ++ w) (put-holds fs w))

tales-IsSource : IsSource Holds tales_db
tales-IsSource = record {
  crawl_offset = 42;
  chats = pos 5 ∷ pos 6 ∷ [];
  admins = pos 8 ∷ [];
  torrents = two_tales;
  files_of = λ id. "/a" ∷ "/b" ∷ [];
  meta_of = λ id. ("genre", "saga") ∷ [];
  offset_read = λ w. refl;
  chats_read = λ w. refl;
  admins_read = λ w. refl;
  torrents_read = λ w. refl;
  files_read = λ id w. refl;
  meta_read = λ id w. refl;
  offset_keeps = λ f w h. h;
  chats_keeps = λ f w h. h;
  admins_keeps = λ f w h. h;
  torrents_keeps = λ f w h. h;
  files_keeps = λ id f w h. h;
  meta_keeps = λ id f w h. h;
  close_keeps = λ f w h. h;
}

tales-IsTarget : IsTarget Holds tales_db
tales-IsTarget = record {
  offset_writes = λ n w done. put-holds (offset n ∷ []) w;
  chat_writes = λ c w done. put-holds (chat c ∷ []) w;
  admin_writes = λ c w done. put-holds (admin c ∷ []) w;
  torrent_writes = λ t fs w done. put-holds (torrent t.id ∷ facts_of_files t.id fs) w;
  meta_writes = λ id m w done. put-holds (facts_of_meta id m) w;
  chat_keeps = λ c f w h. Mem-weaken f (chat c ∷ []) w h;
  admin_keeps = λ c f w h. Mem-weaken f (admin c ∷ []) w h;
  torrent_keeps = λ t fs f w h. Mem-weaken f (torrent t.id ∷ facts_of_files t.id fs) w h;
  meta_keeps = λ id m f w h. Mem-weaken f (facts_of_meta id m) w h;
  close_keeps = λ f w h. h;
}

abbrev drivers : Dict String (DbFactory (List Fact) Unit (Database (List Fact)))
drivers =
    ("old", λ params. pure (some tales_db, none))
    ∷ ("new", λ params. pure (some tales_db, none))
    ∷ []

connected_old : connect drivers "old" (some []) [] ≡ ((some tales_db, none), [])
unfolding connect run_factory
connected_old = refl

connected_new : connect drivers "new" (some []) [] ≡ ((some tales_db, none), [])
unfolding connect run_factory
connected_new = refl

ended_well : (migrate drivers (some []) "old" "new" []).0 ≡ complete
unfolding migrate with_old with_both close_both copy_all copy_offset copy_chats copy_admins
    copy_torrents put_offset put_chat put_admin put_torrents copy_torrent put_torrent copy_meta
    put_meta must must_get each by_name index_names sort_by_id insert_by_id connect run_factory
ended_well = refl

migrate-stored_example :
    All
      (λ f. Holds f (migrate drivers (some []) "old" "new" []).1)
      (facts_of_source Holds tales_db tales_db tales-IsSource tales-IsTarget)
    × IsNewest two_tales (by_name two_tales)
unfolding tales-IsSource
migrate-stored_example =
    migrate-stored Holds tales_db tales_db tales-IsSource tales-IsTarget drivers (some []) "old"
      "new" [] [] [] connected_old connected_new ended_well
