-- ===== src/Producer/Telegram/Sending.antt =====
-- producer/tg/telegram.go: the messages that the bot sends, with their pictures.
pub mod Delivery
use ttobserver_v.Base.{
  ℕ, String, append_text, Bool, true, false, Option, none, some, List, [], ◌∷◌, ◌++◌, Dict, M, pure,
  ◌>>=◌, ◌>>◌, if◌then◌else◌, ◌==◌, string_eq, is_empty, ltb,
}
use ttobserver_v.Base.Int.{ℤ}
use ttobserver_v.RedisDb.Ints.{format_int, parse_int}
use ttobserver_v.Shared.Errors.{Err, Fault, required_parameters, message}
use ttobserver_v.Shared.Database.{Bytes, Database}
use ttobserver_v.Shared.Torrent.{TorrentInfo, Web, ErrorText}
use ttobserver_v.Shared.Torrent.Poster.{Codec, get_torrent_poster}
use ttobserver_v.Producer.Indexes.{
  Template, format_message, format_indexes_message, get_new_files_indexes,
}
use ttobserver_v.Producer.Values.{
  Value, text, number, flag, Format, replace_all, announcement, msg_index, msg_new_indexes,
}
use ttobserver_v.Producer.Telegram.{
  msg_watch, msg_admin, cmd_ls_admins, cmd_ls_chats, cmd_update_poster, Templates, Messages, Client,
  Files, Command, ls_chats, ls_admins, update_poster, Notifier, Parser, no_templates,
}

module _ {W : Type 0} (tg : Notifier W) where
  open tg use {messages, templates, db, client, files, format, web, codec, error_text}

  path_written : String → Fault → String
  path_written path none = path
  path_written path (some e) = ""

  written_path : Bytes → Option String → M W String
  unfolding path_written
  written_path photo none = pure ""
  written_path photo (some path) = do e ← files.write path photo; pure (path_written path e)

  -- The path of the picture's temporary file, empty where there is none that was written.
  photo_path : Bytes → M W String
  unfolding written_path
  photo_path photo =
      if is_empty photo
      then pure ""
      else (do p ← files.create_temp (files.extension photo); written_path photo p)

  -- To all chats that the database gives, which are none where it fails, beside the error.
  unfoldable pub send_msg_to_mobs : String → Bytes → M W (Unit {0})
  unfolding photo_path
  send_msg_to_mobs msg photo = do
    chats ← db.get_chats
    path ← photo_path photo
    client.send_photo path msg chats.0 true
    if path == "" then pure tt else (do files.remove path; pure tt)

  send_message : Bytes → String × Fault → M W (Unit {0})
  unfolding send_msg_to_mobs
  send_message photo (msg, none) = send_msg_to_mobs msg photo
  send_message photo (msg, some e) = pure tt

  -- The text of an announcement, with its error.
  unfoldable pub announce_text : Bool → TorrentInfo → String × Fault
  unfolding format_message format_indexes_message get_new_files_indexes replace_all announcement
  announce_text is_new t =
      let action = if is_new then messages.added else messages.updated in
      let name = replace_all format messages.replacements t.name in
      let indexes =
        format_indexes_message text (get_new_files_indexes t.files) templates.single_index
          templates.multiple_indexes msg_new_indexes in
      format_message templates.announce (announcement format action name t indexes.0)

  unfoldable pub send : Bool → TorrentInfo → M W (Unit {0})
  unfolding send_message announce_text
  send is_new t =
      if messages.announce == "" then pure tt else send_message t.image (announce_text is_new t)

  unfoldable pub send_nx_get : ℕ → M W (Unit {0})
  unfolding send_message format_message
  send_nx_get offset =
      if messages.nx == ""
      then pure tt
      else send_message [] (format_message templates.nx ((msg_index, number offset) ∷ []))

  unfoldable pub close : M W (Unit {0})
  close = client.close
