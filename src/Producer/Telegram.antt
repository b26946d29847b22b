-- ===== src/Producer/Telegram.antt =====
-- producer/tg/telegram.go: the bot that announces torrents in chats, and its commands.
pub mod Commands
pub mod Sending
pub mod Setup
mod Tests
use ttobserver_v.Base.{
  ℕ, String, append_text, Bool, true, false, Option, none, some, List, [], ◌∷◌, ◌++◌, Dict, M, pure,
  ◌>>=◌, ◌>>◌, if◌then◌else◌, ◌==◌, string_eq, is_empty, ltb,
}
use ttobserver_v.Base.Int.{ℤ}
use ttobserver_v.RedisDb.Ints.{format_int, parse_int}
use ttobserver_v.Shared.Errors.{Err, Fault, required_parameters, message}
use ttobserver_v.Shared.Database.{Bytes, Database}
use ttobserver_v.Shared.Torrent.{TorrentInfo, Web, ErrorText}
use ttobserver_v.Shared.Torrent.Poster.{Codec, get_torrent_poster}
use ttobserver_v.Producer.Indexes.{
  Template, format_message, format_indexes_message, get_new_files_indexes,
}
use ttobserver_v.Producer.Values.{
  Value, text, number, flag, Format, replace_all, announcement, msg_index, msg_new_indexes,
}

abbrev pub msg_watch : String
msg_watch = "watch"

abbrev pub msg_admin : String
msg_admin = "admin"

abbrev pub cmd_ls_admins : String
cmd_ls_admins = "/lsadmins"

abbrev pub cmd_ls_chats : String
cmd_ls_chats = "/lschats"

abbrev pub cmd_update_poster : String
cmd_update_poster = "/uploadposter"

-- A template that is not parsed is nil, `none`.
pub record Templates : Type 0 where
  pub state : Option (Template Value)
  pub announce : Option (Template Value)
  pub nx : Option (Template Value)
  pub single_index : Option (Template Value)
  pub multiple_indexes : Option (Template Value)

-- The texts of the configuration
pub record Messages : Type 0 where
  pub state : String
  pub announce : String
  pub nx : String
  pub replacements : Dict String String
  pub added : String
  pub updated : String
  pub single_index : String
  pub multiple_indexes : String
  pub unauthorized : String

-- Outside: the client of Telegram. `send_photo` has the path of the picture, empty for none.
pub record Client (W : Type 0) : Type 0 where
  pub get_chat_title : ℤ → M W (List String × Fault)
  pub send_msg : String → List ℤ → Bool → M W (Unit {0})
  pub send_photo : String → String → List ℤ → Bool → M W (Unit {0})
  pub login_as_bot : String → M W Fault
  pub add_command : String → M W Fault
  pub handle_updates : M W (Unit {0})
  pub close : M W (Unit {0})

-- Outside: temporary files (`CreateTemp` with `Name`, then `Write` with `Sync`), the extension of a
-- picture and the text of a list of titles.
pub record Files (W : Type 0) : Type 0 where
  pub extension : Bytes → String
  pub create_temp : String → M W (Option String)
  pub write : String → Bytes → M W Fault
  pub remove : String → M W Fault
  pub titles : List String → String

pub data Command : Type 0 where
  ls_chats ls_admins update_poster : Command

pub record Notifier (W : Type 0) : Type 1 where
  pub messages : Messages
  pub templates : Templates
  pub db : Database W
  pub client : Client W
  pub files : Files W
  pub format : Format
  pub web : Web W
  pub codec : Codec
  pub error_text : ErrorText
  -- `errUnauthorized` and `errNotFound`
  pub err_unauthorized : Err
  pub err_not_found : Err

-- `tmpl.New(name).Parse(text)`: a template that fails is nil, and its error is only logged.
abbrev pub Parser : Type 0
Parser = String → String → Option (Template Value)

abbrev no_templates : Templates
no_templates = record {
  state = none;
  announce = none;
  nx = none;
  single_index = none;
  multiple_indexes = none;
}
