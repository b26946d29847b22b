-- ===== src/Producer/Telegram/Commands/Answers.antt =====
-- producer/tg/telegram.go: what a command sends, and for whom.
use ttobserver_v.Base.{
  ◌≡◌, refl, ◌∙◌, String, Bool, true, false, none, some, List, [], ◌∷◌, ◌++◌, M, ap, ◌==◌,
  string_eq, Bool-cases, inl, inr,
}
use ttobserver_v.Base.Int.{ℤ}
use ttobserver_v.RedisDb.Ints.{parse_int}
use ttobserver_v.Shared.Errors.{Fault}
use ttobserver_v.Shared.Database.{Bytes}
use ttobserver_v.Shared.Torrent.Poster.{get_torrent_poster}
use ttobserver_v.Shared.Torrent.Aside.{get_torrent_poster-Keeps}
use ttobserver_v.Producer.Telegram.{Notifier, Command, ls_chats, ls_admins, update_poster}
use ttobserver_v.Producer.Telegram.Commands.{
  on_command, get_chats, upload_poster, when_admin, list_chats, chat_lines, with_args, with_id,
  checked, fetched, stored,
}

-- The messages that were sent, as their chats: only the client sends, and only by `SendMsg`.
pub record IsOutbox {W : Type 0} (tg : Notifier W) : Type 0 where
  pub sent : W → List (List ℤ)
  pub sends :
      (msg : String) (chats : List ℤ) (b : Bool) (w : W)
      → sent (tg.client.send_msg msg chats b w).1 ≡ sent w ++ (chats ∷ [])
  pub title_keeps : (id : ℤ) (w : W) → sent (tg.client.get_chat_title id w).1 ≡ sent w
  pub admin_keeps : (id : ℤ) (w : W) → sent (tg.db.get_admin_exist id w).1 ≡ sent w
  pub admins_keep : (w : W) → sent (tg.db.get_admins w).1 ≡ sent w
  pub chats_keep : (w : W) → sent (tg.db.get_chats w).1 ≡ sent w
  pub check_keeps : (id : ℤ) (w : W) → sent (tg.db.check_torrent id w).1 ≡ sent w
  pub image_keeps :
      (id : ℤ) (image : Bytes) (w : W) → sent (tg.db.add_torrent_image id image w).1 ≡ sent w
  pub head_keeps : (url : String) (w : W) → sent (tg.web.head url w).1 ≡ sent w
  pub get_keeps : (url : String) (w : W) → sent (tg.web.get url w).1 ≡ sent w

module _ {W : Type 0} (tg : Notifier W) (outbox : IsOutbox tg) where
  open outbox use {sent}

  -- One message to the chat when there is no error, and else none.
  abbrev pub IsAnswer : List (List ℤ) → ℤ → Fault × W → Type 0
  IsAnswer before chat (none, w) = sent w ≡ before ++ ((chat ∷ []) ∷ [])
  IsAnswer before chat (some e, w) = sent w ≡ before

  poster-keeps :
      (url : String) (before : List (List ℤ)) (w : W)
      → sent w ≡ before
      → sent (get_torrent_poster tg.codec tg.web tg.error_text url 0 w).1 ≡ before
  poster-keeps url before w h =
      get_torrent_poster-Keeps (λ v. sent v ≡ before) tg.web
        (record {
          head_keeps = λ u v k. outbox.head_keeps u v ∙ k;
          get_keeps = λ u v k. outbox.get_keeps u v ∙ k;
        })
        tg.codec tg.error_text url 0 w h

  chat_lines-keeps : (ids : List ℤ) (w : W) → sent (chat_lines tg ids w).1 ≡ sent w
  unfolding chat_lines
  chat_lines-keeps [] w = refl
  chat_lines-keeps (id ∷ ids) w =
      chat_lines-keeps ids (tg.client.get_chat_title id w).1 ∙ outbox.title_keeps id w

  list_chats-IsAnswer :
      (chat : ℤ) (r : List ℤ × Fault) (before : List (List ℤ)) (w : W)
      → sent w ≡ before
      → IsAnswer before chat (list_chats tg chat r w)
  unfolding list_chats
  list_chats-IsAnswer chat (ids, some e) before w h = h
  list_chats-IsAnswer chat (ids, none) before w h =
      let (resp, w₁) = chat_lines tg ids w in
      outbox.sends resp (chat ∷ []) false w₁
      ∙ ap (λ s. s ++ ((chat ∷ []) ∷ [])) (chat_lines-keeps ids w ∙ h)

  stored-IsAnswer :
      (chat : ℤ) (e : Fault) (before : List (List ℤ)) (w : W)
      → sent w ≡ before
      → IsAnswer before chat (stored tg chat e w)
  unfolding stored
  stored-IsAnswer chat (some e) before w h = h
  stored-IsAnswer chat none before w h =
      outbox.sends tg.messages.added (chat ∷ []) false w ∙ ap (λ s. s ++ ((chat ∷ []) ∷ [])) h

  fetched-IsAnswer :
      (chat id : ℤ) (r : Bytes × Fault) (before : List (List ℤ)) (w : W)
      → sent w ≡ before
      → IsAnswer before chat (fetched tg chat id r w)
  unfolding fetched
  fetched-IsAnswer chat id (poster, some e) before w h = h
  fetched-IsAnswer chat id (poster, none) before w h =
      let (e, w₁) = tg.db.add_torrent_image id poster w in
      stored-IsAnswer chat e before w₁ (outbox.image_keeps id poster w ∙ h)

  checked-IsAnswer :
      (chat id : ℤ) (url : String) (r : Bool × Fault) (before : List (List ℤ)) (w : W)
      → sent w ≡ before
      → IsAnswer before chat (checked tg chat id url r w)
  unfolding checked
  checked-IsAnswer chat id url (true, some e) before w h = h
  checked-IsAnswer chat id url (false, some e) before w h = h
  checked-IsAnswer chat id url (false, none) before w h = h
  checked-IsAnswer chat id url (true, none) before w h =
      let (p, w₁) = get_torrent_poster tg.codec tg.web tg.error_text url 0 w in
      fetched-IsAnswer chat id p before w₁ (poster-keeps url before w h)

  with_id-IsAnswer :
      (chat : ℤ) (url : String) (r : ℤ × Fault) (before : List (List ℤ)) (w : W)
      → sent w ≡ before
      → IsAnswer before chat (with_id tg chat url r w)
  unfolding with_id
  with_id-IsAnswer chat url (id, some e) before w h = h
  with_id-IsAnswer chat url (id, none) before w h =
      let (r, w₁) = tg.db.check_torrent id w in
      checked-IsAnswer chat id url r before w₁ (outbox.check_keeps id w ∙ h)

  with_args-IsAnswer :
      (chat : ℤ) (args : List String) (before : List (List ℤ)) (w : W)
      → sent w ≡ before
      → IsAnswer before chat (with_args tg chat args w)
  unfolding with_args
  with_args-IsAnswer chat [] before w h = h
  with_args-IsAnswer chat (a ∷ []) before w h = h
  with_args-IsAnswer chat (a ∷ url ∷ args) before w h = elim (Bool-cases (a == "")) [
    | inl no_id ↦ rw no_id h
    | inr some_id ↦ elim (Bool-cases (url == "")) [
      | inl no_url ↦ rw (some_id, no_url) h
      | inr some_url ↦ rw (some_id, some_url) (with_id-IsAnswer chat url (parse_int a) before w h)
    ]
  ]

  -- An answer, which is a success only for an administrator.
  abbrev pub IsAnswered : List (List ℤ) → ℤ → Bool → Fault × W → Type 0
  IsAnswered before chat is_admin r = IsAnswer before chat r × (r.0 ≡ none → is_admin ≡ true)

  when_admin-IsAnswered :
      (chat : ℤ) (rest : M W Fault) (r : Bool × Fault) (before : List (List ℤ)) (w : W)
      → sent w ≡ before
      → IsAnswer before chat (rest w)
      → IsAnswered before chat r.0 (when_admin tg rest r w)
  unfolding when_admin
  when_admin-IsAnswered chat rest (true, e) before w h k = (k, λ _. refl)
  when_admin-IsAnswered chat rest (false, some e) before w h k = (h, λ q. absurd (cc (q)))
  when_admin-IsAnswered chat rest (false, none) before w h k = (h, λ q. absurd (cc (q)))

  get_chats-IsAnswered :
      (chat : ℤ) (admins : Bool) (w : W)
      → IsAnswered (sent w) chat (tg.db.get_admin_exist chat w).0.0 (get_chats tg chat admins w)
  unfolding get_chats
  get_chats-IsAnswered chat true w =
      let (r, w₁) = tg.db.get_admin_exist chat w in
      let asked = outbox.admin_keeps chat w in
      let (l, w₂) = tg.db.get_admins w₁ in
      when_admin-IsAnswered chat _ r (sent w) w₁ asked
        (list_chats-IsAnswer chat l (sent w) w₂ (outbox.admins_keep w₁ ∙ asked))
  get_chats-IsAnswered chat false w =
      let (r, w₁) = tg.db.get_admin_exist chat w in
      let asked = outbox.admin_keeps chat w in
      let (l, w₂) = tg.db.get_chats w₁ in
      when_admin-IsAnswered chat _ r (sent w) w₁ asked
        (list_chats-IsAnswer chat l (sent w) w₂ (outbox.chats_keep w₁ ∙ asked))

  -- Each of the three commands that the producer handles itself (/lschats, /lsadmins and
  -- /uploadposter) sends exactly one message, to the chat that asks, when it ends without an error, and
  -- sends none when it ends with one; it ends without an error only for a chat that the database gives
  -- as an administrator.
  pub on_command-IsAnswered :
      (c : Command) (chat : ℤ) (args : List String) (w : W)
      → IsAnswered (sent w) chat (tg.db.get_admin_exist chat w).0.0 (on_command tg c chat args w)
  unfolding on_command upload_poster
  on_command-IsAnswered ls_chats chat args w = get_chats-IsAnswered chat false w
  on_command-IsAnswered ls_admins chat args w = get_chats-IsAnswered chat true w
  on_command-IsAnswered update_poster chat args w =
      let (r, w₁) = tg.db.get_admin_exist chat w in
      let asked = outbox.admin_keeps chat w in
      when_admin-IsAnswered chat _ r (sent w) w₁ asked
        (with_args-IsAnswer chat args (sent w) w₁ asked)
