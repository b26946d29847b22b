-- ===== src/Producer/Telegram/Setup.antt =====
-- producer/tg/telegram.go: `init` and `New`, and the functions that the client is given.
use ttobserver_v.Base.{Bool, String, none, some, M, pure, ◌>>=◌, ◌>>◌, string_eq}
use ttobserver_v.Base.Int.{ℤ}
use ttobserver_v.Shared.Database.{Database}
use ttobserver_v.Shared.Errors.{Fault}
use ttobserver_v.Producer.Telegram.{
  cmd_ls_admins, cmd_ls_chats, cmd_update_poster, Templates, Messages, Client, Parser, no_templates,
}

parsed : Parser → Messages → Templates
parsed parse m = record {
  announce = parse "announce" m.announce;
  state = parse "state" m.state;
  nx = parse "n1000" m.nx;
  single_index = parse "singleIndex" m.single_index;
  multiple_indexes = parse "multipleIndexes" m.multiple_indexes;
}

-- `BackendFunctions`: what the client calls for chats and administrators, and for the state of a chat.
pub record Backend (W : Type 0) : Type 0 where
  pub chat_exist : ℤ → M W (Bool × Fault)
  pub chat_add : ℤ → M W Fault
  pub chat_rm : ℤ → M W Fault
  pub admin_exist : ℤ → M W (Bool × Fault)
  pub admin_add : ℤ → M W Fault
  pub admin_rm : ℤ → M W Fault
  pub state : ℤ → M W (String × Fault)

unfoldable pub backend_of : {W : Type 0} → Database W → (ℤ → M W (String × Fault)) → Backend W
backend_of db get_state = record {
  chat_exist = db.get_chat_exist;
  chat_add = db.add_chat;
  chat_rm = db.del_chat;
  admin_exist = db.get_admin_exist;
  admin_add = db.add_admin;
  admin_rm = db.del_admin;
  state = get_state;
}

module _ {W : Type 0} (client : Client W) (parse : Parser) where
  -- `init`: the errors of the commands are only logged.
  unfoldable pub init : String → Messages → M W (Templates × Fault)
  unfolding parsed
  init token m = do
    e ← client.login_as_bot token
    let commands = (do
      client.add_command cmd_ls_chats
      client.add_command cmd_ls_admins
      client.add_command cmd_update_poster
      pure (parsed parse m, none))
    elim e [ none ↦ commands | some x ↦ pure (no_templates, some x) ]

  start_updates : Templates × Fault → M W (Templates × Fault)
  start_updates (t, some e) = pure (t, some e)
  start_updates (t, none) = do client.handle_updates; pure (t, none)

  -- `New`, with the configuration as it was read, or its error.
  unfoldable pub new : String × Messages × Fault → M W (Templates × Fault)
  unfolding init start_updates
  new (token, m, some e) = pure (no_templates, some e)
  new (token, m, none) = do r ← init token m; start_updates r
