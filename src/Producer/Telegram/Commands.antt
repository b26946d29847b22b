-- ===== src/Producer/Telegram/Commands.antt =====
-- producer/tg/telegram.go: the commands of the bot, and the state that it shows.
pub mod Answers
use ttobserver_v.Base.{
  ℕ, String, append_text, Bool, true, false, Option, none, some, List, [], ◌∷◌, ◌++◌, Dict, M, pure,
  ◌>>=◌, ◌>>◌, if◌then◌else◌, ◌==◌, string_eq, is_empty, ltb,
}
use ttobserver_v.Base.Int.{ℤ}
use ttobserver_v.RedisDb.Ints.{format_int, parse_int}
use ttobserver_v.Shared.Errors.{Err, Fault, required_parameters, message}
use ttobserver_v.Shared.Database.{Bytes, Database}
use ttobserver_v.Shared.Torrent.{TorrentInfo, Web, ErrorText}
use ttobserver_v.Shared.Torrent.Poster.{Codec, get_torrent_poster}
use ttobserver_v.Producer.Indexes.{
  Template, format_message, format_indexes_message, get_new_files_indexes,
}
use ttobserver_v.Producer.Values.{
  Value, text, number, flag, Format, replace_all, announcement, msg_index, msg_new_indexes,
}
use ttobserver_v.Producer.Telegram.{
  msg_watch, msg_admin, cmd_ls_admins, cmd_ls_chats, cmd_update_poster, Templates, Messages, Client,
  Files, Command, ls_chats, ls_admins, update_poster, Notifier, Parser, no_templates,
}

module _ {W : Type 0} (tg : Notifier W) where
  open tg use {messages, templates, db, client, files, format, web, codec, error_text}

  title_of : List String × Fault → List String
  title_of (title, none) = title
  title_of (title, some e) = title ++ error_text e ∷ []

  -- A line for each chat; an error stands behind the title.
  chat_lines : List ℤ → M W String
  unfolding title_of
  chat_lines [] = pure ""
  chat_lines (id ∷ ids) = do
    r ← client.get_chat_title id
    rest ← chat_lines ids
    let title = files.titles (title_of r)
    pure
        (append_text (format_int id) (append_text ": " (append_text title (append_text "\n" rest))))

  list_chats : ℤ → List ℤ × Fault → M W Fault
  unfolding chat_lines
  list_chats chat (ids, some e) = pure (some e)
  list_chats chat (ids, none) = do
    resp ← chat_lines ids
    client.send_msg resp (chat ∷ []) false
    pure none

  -- What follows the question whether the caller is an administrator.
  when_admin : M W Fault → Bool × Fault → M W Fault
  when_admin rest (true, e) = rest
  when_admin rest (false, some e) = pure (some e)
  when_admin rest (false, none) = pure (some tg.err_unauthorized)

  -- `/lschats`, or `/lsadmins`
  unfoldable pub get_chats : ℤ → Bool → M W Fault
  unfolding when_admin list_chats
  get_chats chat admins = do
    r ← db.get_admin_exist chat
    when_admin (do l ← (if admins then db.get_admins else db.get_chats); list_chats chat l) r

  state_message : Bool → Bool → ℕ → String × Fault
  unfolding format_message
  state_message is_mob is_admin index =
      format_message templates.state
        ((msg_watch, flag is_mob) ∷ (msg_admin, flag is_admin) ∷ (msg_index, number index) ∷ [])

  -- The state that the client shows; the first error ends it.
  unfoldable pub get_state : ℤ → M W (String × Fault)
  unfolding state_message
  get_state chat = do
    mob ← db.get_chat_exist chat
    let with_mob = (do
      admin ← db.get_admin_exist chat
      let with_admin = (do
        index ← db.get_crawl_offset
        pure (elim index.1 [ none ↦ state_message mob.0 admin.0 index.0 | some e ↦ ("", some e) ]))
      elim admin.1 [ none ↦ with_admin | some e ↦ pure ("", some e) ])
    elim mob.1 [ none ↦ with_mob | some e ↦ pure ("", some e) ]

  stored : ℤ → Fault → M W Fault
  stored chat (some e) = pure (some e)
  stored chat none = do client.send_msg messages.added (chat ∷ []) false; pure none

  fetched : ℤ → ℤ → Bytes × Fault → M W Fault
  unfolding stored
  fetched chat id (poster, some e) = pure (some e)
  fetched chat id (poster, none) = do e ← db.add_torrent_image id poster; stored chat e

  checked : ℤ → ℤ → String → Bool × Fault → M W Fault
  unfolding fetched
  checked chat id url (_, some e) = pure (some e)
  checked chat id url (false, none) = pure (some tg.err_not_found)
  checked chat id url (true, none) = do
    p ← get_torrent_poster codec web error_text url 0
    fetched chat id p

  with_id : ℤ → String → ℤ × Fault → M W Fault
  unfolding checked
  with_id chat url (id, some e) = pure (some e)
  with_id chat url (id, none) = do r ← db.check_torrent id; checked chat id url r

  with_args : ℤ → List String → M W Fault
  unfolding with_id
  with_args chat (a ∷ url ∷ args) =
      if a == ""
      then pure (some required_parameters)
      else if url == ""
      then pure (some required_parameters)
      else with_id chat url (parse_int a)
  with_args chat args = pure (some required_parameters)

  -- `/uploadposter` with the identifier and the address
  unfoldable pub upload_poster : ℤ → List String → M W Fault
  unfolding when_admin with_args
  upload_poster chat args = do r ← db.get_admin_exist chat; when_admin (with_args chat args) r

  -- The three commands, and their handlers.
  pub on_command : Command → ℤ → List String → M W Fault
  unfolding get_chats upload_poster
  on_command ls_chats chat args = get_chats chat false
  on_command ls_admins chat args = get_chats chat true
  on_command update_poster chat args = upload_poster chat args
