-- ===== src/RedisDb/Keys.antt =====
-- shared/redis/db.go: the names of the keys and fields.
use ttobserver_v.Base.{String}

abbrev pub db_driver : String
db_driver = "redis"

abbrev pub param_address : String
param_address = "address"

abbrev pub param_password : String
param_password = "password"

abbrev pub param_db : String
param_db = "db"

abbrev pub s_chat : String
s_chat = "tt_chat"

abbrev pub s_admin : String
s_admin = "tt_adm"

abbrev pub k_conf_offset : String
k_conf_offset = "tt_offset"

abbrev pub k_torrent_index : String
k_torrent_index = "tt_idx"

abbrev pub h_torrent_id : String
h_torrent_id = "tt_ti"

abbrev pub h_torrent : String
h_torrent = "tt_t_"

abbrev pub h_torrent_file : String
h_torrent_file = "tt_t_f_"

abbrev pub h_torrent_meta : String
h_torrent_meta = "tt_t_m_"

abbrev pub f_index : String
f_index = "idx"

abbrev pub f_name : String
f_name = "name"

abbrev pub f_data : String
f_data = "data"

abbrev pub f_image : String
f_image = "img"
