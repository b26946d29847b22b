-- ===== src/Producer/Telegram/Tests.antt =====
-- A bot of producer/tg/telegram.go whose world is which files are there, and the theorems at it.
use ttobserver_v.Base.{
  ◌≢◌, refl, String, Bool, true, false, none, some, List, [], ◌∷◌, ◌++◌, pure, arith, if◌then◌else◌,
  ◌==◌, string_eq, eq_iff,
}
use ttobserver_v.Base.Int.{ℤ, pos}
use ttobserver_v.Shared.Errors.{message, ok, err, parse_error}
use ttobserver_v.Shared.Database.{Database}
use ttobserver_v.Shared.Torrent.{TorrentInfo}
use ttobserver_v.Shared.Torrent.Poster.{Codec}
use ttobserver_v.Producer.Telegram.{Notifier, Client, Files, ls_chats, no_templates}
use ttobserver_v.Producer.Telegram.Commands.{on_command}
use ttobserver_v.Producer.Telegram.Commands.Answers.{IsOutbox, IsAnswered, on_command-IsAnswered}
use ttobserver_v.Producer.Telegram.Sending.Delivery.{IsFileSystem}

abbrev Disk : Type 0
Disk = String → Bool

-- Nobody is an administrator.
abbrev one_chat : {W : Type 0} → Database W
one_chat = record {
  is_nil = false;
  add_admin = λ id. pure none;
  add_chat = λ id. pure none;
  add_torrent_image = λ id image. pure none;
  add_torrent_meta = λ id m. pure none;
  add_torrent = λ name content files. pure (pos 0, none);
  check_torrent = λ id. pure (true, none);
  close = pure tt;
  del_admin = λ id. pure none;
  del_chat = λ id. pure none;
  get_admin_exist = λ id. pure (false, none);
  get_admins = pure ([], none);
  get_chat_exist = λ id. pure (true, none);
  get_chats = pure (pos 5 ∷ [], none);
  get_crawl_offset = pure (42, none);
  get_torrent_files = λ id. pure ([], none);
  get_torrent_image = λ id. pure ([], none);
  get_torrent_meta = λ id. pure ([], none);
  get_torrent = λ name. pure (pos 0, none);
  update_crawl_offset = λ n. pure none;
  m_get_torrents = pure ([], none);
  m_put_torrent = λ t fs. pure none;
}

-- A temporary file has one name, and is not written where that file is there.
abbrev disk : Files Disk
disk = record {
  extension = λ photo. "jpg";
  create_temp =
      λ ext w. if w "tmp" then (none, w) else (some "tmp", λ q. if "tmp" == q then true else w q);
  write = λ path photo. pure none;
  remove = λ p w. (none, λ q. if p == q then false else w q);
  titles = λ ts. "";
}

abbrev no_pictures : Codec
no_pictures = record {
  Picture = Unit;
  decode_image = λ body. (none, some parse_error);
  width = λ p. 1;
  height = λ p. 1;
  scale = λ p x y. p;
  encode_jpeg = λ p. err parse_error;
}

abbrev quiet : {W : Type 0} → Client W
quiet = record {
  get_chat_title = λ id. pure ([], none);
  send_msg = λ msg chats b. pure tt;
  send_photo = λ path msg chats b. pure tt;
  login_as_bot = λ token. pure none;
  add_command = λ name. pure none;
  handle_updates = pure tt;
  close = pure tt;
}

abbrev bot_with : {W : Type 0} → Database W → Client W → Files W → Notifier W
bot_with db client files = record {
  messages = record {
    state = "";
    announce = "{{.name}}";
    nx = "";
    replacements = [];
    added = "added";
    updated = "updated";
    single_index = "";
    multiple_indexes = "";
    unauthorized = "";
  };
  templates = record no_templates { announce = some (λ values. ok "text") };
  db = db;
  client = client;
  files = files;
  format = record { ratio = λ n d. ""; replace = λ name k v. name };
  web = record {
    head = λ url. pure (none, none);
    get = λ url. pure (none, none);
    decode = λ content. err parse_error;
    join = λ parts. "";
  };
  codec = no_pictures;
  error_text = λ e. "error";
  err_unauthorized = message "unauthorized";
  err_not_found = message "not found";
}

abbrev bot : Notifier Disk
bot = bot_with one_chat quiet disk

has_a_name : ◌≢◌ {A = String} "tmp" ""
has_a_name e = cc (e)

bot-IsFileSystem : IsFileSystem bot
bot-IsFileSystem = record {
  there = λ q w. w q;
  chats_keep = λ q w. refl;
  photo_keeps = λ path msg chats b q w. refl;
  uncreated = λ ext q w failed. ground (arith, failed);
  created = λ ext p q w done. ground (arith, done, has_a_name, eq_iff p "tmp");
  write_keeps = λ path q photo w. refl;
  removed = λ p q w done. refl;
}

abbrev tale : TorrentInfo
tale = record {
  id = pos 0;
  name = "tale";
  url = "";
  image = 9 ∷ [];
  meta = [];
  files = [];
  content = 7 ∷ [];
  len = 0;
}

abbrev empty_disk : Disk
empty_disk q = false

-- A bot whose world is the messages that were sent, and for which everybody is an administrator.
abbrev chatty : Notifier (List (List ℤ))
chatty =
    bot_with (record one_chat { get_admin_exist = λ id. pure (true, none) })
      (record quiet { send_msg = λ msg chats b w. (tt, w ++ (chats ∷ [])) })
      (record {
        extension = λ photo. "jpg";
        create_temp = λ ext. pure none;
        write = λ path photo. pure none;
        remove = λ p. pure none;
        titles = λ ts. "";
      })

chatty-IsOutbox : IsOutbox chatty
chatty-IsOutbox = record {
  sent = λ w. w;
  sends = λ msg chats b w. refl;
  title_keeps = λ id w. refl;
  admin_keeps = λ id w. refl;
  admins_keep = λ w. refl;
  chats_keep = λ w. refl;
  check_keeps = λ id w. refl;
  image_keeps = λ id image w. refl;
  head_keeps = λ url w. refl;
  get_keeps = λ url w. refl;
}

on_command-IsAnswered_example :
    IsAnswered chatty chatty-IsOutbox [] (pos 5) true (on_command chatty ls_chats (pos 5) [] [])
unfolding chatty-IsOutbox
on_command-IsAnswered_example = on_command-IsAnswered chatty chatty-IsOutbox ls_chats (pos 5) [] []
