-- ===== src/SqlDb/Queries.antt =====
-- shared/sqldb/db.go: the texts of the statements.
use ttobserver_v.Base.{String}

abbrev pub sql_lite_driver : String
sql_lite_driver = "sqlite3"

abbrev pub pg_driver : String
pg_driver = "postgres"

abbrev pub db_file_param : String
db_file_param = "dbfile"

abbrev pub db_address_param : String
db_address_param = "dbaddress"

abbrev pub select_chats : String
select_chats = "SELECT ID FROM TT_CHAT"

abbrev pub insert_chat : String
insert_chat = "INSERT INTO TT_CHAT(ID) VALUES ($1)"

abbrev pub del_chat : String
del_chat = "DELETE FROM TT_CHAT WHERE ID = $1"

abbrev pub exist_chat : String
exist_chat = "SELECT TRUE FROM TT_CHAT WHERE ID = $1"

abbrev pub select_admins : String
select_admins = "SELECT ID FROM TT_ADMIN"

abbrev pub insert_admin : String
insert_admin = "INSERT INTO TT_ADMIN(ID) VALUES ($1)"

abbrev pub del_admin : String
del_admin = "DELETE FROM TT_ADMIN WHERE ID = $1"

abbrev pub exist_admin : String
exist_admin = "SELECT 1 FROM TT_ADMIN WHERE ID = $1"

abbrev pub select_torrents : String
select_torrents = "SELECT ID, NAME, DATA, IMAGE FROM TT_TORRENT"

abbrev pub select_torrent_id : String
select_torrent_id = "SELECT ID FROM TT_TORRENT WHERE NAME = $1"

abbrev pub exist_torrent : String
exist_torrent = "SELECT 1 FROM TT_TORRENT WHERE ID = $1"

abbrev pub insert_torrent : String
insert_torrent = "INSERT INTO TT_TORRENT(ID, NAME, DATA, IMAGE) VALUES ($1, $2, $3, $4)"

abbrev pub insert_or_update_torrent : String
insert_or_update_torrent =
    "INSERT INTO TT_TORRENT(NAME, DATA) VALUES ($1, $2) ON CONFLICT(NAME) DO UPDATE SET DATA = EXCLUDED.DATA"

abbrev pub select_torrent_meta : String
select_torrent_meta = "SELECT NAME, VALUE FROM TT_TORRENT_META WHERE TORRENT = $1"

abbrev pub insert_torrent_meta : String
insert_torrent_meta =
    "INSERT INTO TT_TORRENT_META(TORRENT, NAME, VALUE) VALUES($1, $2, $3) ON CONFLICT(TORRENT,NAME) DO UPDATE SET VALUE = EXCLUDED.VALUE"

abbrev pub select_torrent_files : String
select_torrent_files = "SELECT NAME FROM TT_TORRENT_FILE WHERE TORRENT = $1"

abbrev pub insert_torrent_file : String
insert_torrent_file =
    "INSERT INTO TT_TORRENT_FILE(TORRENT, NAME) VALUES ($1, $2) ON CONFLICT (TORRENT,NAME) DO NOTHING"

abbrev pub select_torrent_image : String
select_torrent_image = "SELECT IMAGE FROM TT_TORRENT WHERE ID = $1"

abbrev pub insert_torrent_image : String
insert_torrent_image = "UPDATE TT_TORRENT SET IMAGE = $1 WHERE ID = $2"

abbrev pub select_config : String
select_config = "SELECT VALUE FROM TT_CONFIG WHERE NAME = $1"

abbrev pub insert_or_update_config : String
insert_or_update_config =
    "INSERT INTO TT_CONFIG(NAME, VALUE) VALUES ($1, $2) ON CONFLICT(NAME) DO UPDATE SET VALUE = EXCLUDED.VALUE"

abbrev pub conf_crawl_offset : String
conf_crawl_offset = "CRAWL_OFFSET"
