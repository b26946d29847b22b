-- ===== src/Shared/Database/Doubles.antt =====
-- A database without contents, for the tests.
use ttobserver_v.Base.{none, [], false, pure}
use ttobserver_v.Base.Int.{pos}
use ttobserver_v.Shared.Database.{Database, invalid_db_id}

abbrev pub empty_db : {W : Type 0} → Database W
empty_db = record {
  is_nil = false;
  add_admin = λ id. pure none;
  add_chat = λ chat. pure none;
  add_torrent_image = λ id image. pure none;
  add_torrent_meta = λ id meta. pure none;
  add_torrent = λ name content files. pure (pos 1, none);
  check_torrent = λ id. pure (false, none);
  close = pure tt;
  del_admin = λ id. pure none;
  del_chat = λ chat. pure none;
  get_admin_exist = λ id. pure (false, none);
  get_admins = pure ([], none);
  get_chat_exist = λ chat. pure (false, none);
  get_chats = pure ([], none);
  get_crawl_offset = pure (0, none);
  get_torrent_files = λ id. pure ([], none);
  get_torrent_image = λ id. pure ([], none);
  get_torrent_meta = λ id. pure ([], none);
  get_torrent = λ name. pure (invalid_db_id, none);
  update_crawl_offset = λ offset. pure none;
  m_get_torrents = pure ([], none);
  m_put_torrent = λ t files. pure none;
}
