-- ===== src/Producer/Vk/Sending.antt =====
-- producer/vk/vkcom.go: the upload of pictures and the posts.
pub mod Posts
use ttobserver_v.Base.{
  ℕ, zero, suc, ◌-◌, ◌^◌, String, append_text, Bool, true, false, Option, none, some, List, [], ◌∷◌,
  ◌++◌, Dict, lookup, M, pure, ◌>>=◌, ◌>>◌, if◌then◌else◌, ◌==◌, string_eq, is_empty, leb, ◌||◌,
  ◌&&◌, not,
}
use ttobserver_v.Base.Int.{ℤ, pos, negsuc}
use ttobserver_v.Shared.Errors.{Err, Fault, required_parameters, message}
use ttobserver_v.Shared.Database.{Bytes, Meta}
use ttobserver_v.Shared.Torrent.{TorrentInfo}
use ttobserver_v.Producer.Indexes.{
  Template, format_message, format_indexes_message, get_new_files_indexes,
}
use ttobserver_v.Producer.Values.{
  Value, text, number, Format, replace_all, announcement, msg_index, msg_new_indexes,
}
use ttobserver_v.Producer.Vk.{
  msg_tags, Messages, Settings, Templates, Client, Texts, Notifier, owner_of, build_hash_tags,
}

module _ {W U P : Type 0} (vk : Notifier W U P) where
  open vk use {settings, templates, format}
  open settings use {messages}

  -- The text of an announcement, where the two maps are visited in the order of their entries.
  unfoldable pub announce_text : Bool → TorrentInfo → String × Fault
  unfolding format_message format_indexes_message get_new_files_indexes replace_all announcement
      build_hash_tags
  announce_text is_new t =
      let action = if is_new then messages.added else messages.updated in
      let name = replace_all format messages.replacements t.name in
      let indexes =
        format_indexes_message text (get_new_files_indexes t.files) templates.single_index
          templates.multiple_indexes msg_new_indexes in
      format_message templates.announce (
        announcement format action name t indexes.0
        ++ (msg_tags, text (build_hash_tags vk t.meta)) ∷ [])

-- The notifier with the two maps in the orders in which the loops visit them.
abbrev pub in_order :
    {W U P : Type 0} → Notifier W U P → Dict String String × Dict String Bool → Notifier W U P
in_order vk (replacements, tags) = record vk {
  settings = record vk.settings {
    messages = record vk.settings.messages { replacements = replacements; tags = tags };
  };
}

module _ {W U P : Type 0} (vk : Notifier W U P) where
  open vk use {settings, templates, texts}
  open settings use {messages}

  photo_name : List String → M W String
  photo_name (_ ∷ ext ∷ parts) = texts.random_name ext
  photo_name parts = pure ""

  module _ (client : Client W U P) where
    attach : List P × Fault → String × Fault
    attach (photos, some e) = ("", some e)
    attach (p ∷ photos, none) = (client.attachment p, none)
    attach ([], none) = ("", some (message "unable to get uploaded photo info"))

    save_upload : ℕ → U × Fault → M W (String × Fault)
    unfolding attach
    save_upload group (u, some e) = pure ("", some e)
    save_upload group (u, none) = do r ← client.save_photo group u; pure (attach r)

    decode_answer : ℕ → Bytes × Fault → M W (String × Fault)
    unfolding save_upload
    decode_answer group (body, some e) = pure ("", some e)
    decode_answer group (body, none) = save_upload group (client.decode_upload body)

    upload_to : Bytes → ℕ → String × Fault → M W (String × Fault)
    unfolding photo_name decode_answer
    upload_to photo group (url, some e) = pure ("", some e)
    upload_to photo group (url, none) = do
      name ← photo_name (texts.content_type photo)
      r ← client.post_photo url name photo
      decode_answer group r

    unfoldable pub upload_image : Bytes → ℕ → M W (String × Fault)
    unfolding upload_to
    upload_image photo group = do r ← client.upload_server group; upload_to photo group r

    -- The attachment of the picture, empty where there is none or it cannot be uploaded.
    attachment_of : Bytes → ℕ → M W (String × Fault)
    unfolding upload_image
    attachment_of photo group = if is_empty photo then pure ("", none) else upload_image photo group

    -- A post whose text cannot be made is left out; errors are not passed on.
    post : ℕ → String → String × Fault → M W (Unit {0})
    post group attachment (msg, none) = do client.wall_post (owner_of group) msg attachment; pure tt
    post group attachment (msg, some e) = pure tt

    -- The loop over the groups: the text is made anew for each group, in new orders of the maps.
    post_all : Bool → TorrentInfo → List ℕ → M W (Unit {0})
    unfolding attachment_of post announce_text
    post_all is_new t [] = pure tt
    post_all is_new t (group ∷ groups) = do
      a ← attachment_of t.image group
      order ← texts.visit
      post group a.0 (announce_text (in_order vk order) is_new t)
      post_all is_new t groups

    post_nx : String × Fault → List ℕ → M W (Unit {0})
    unfolding post
    post_nx msg [] = pure tt
    post_nx msg (group ∷ groups) = do post group "" msg; post_nx msg groups

  -- The tests before the loop.
  unfoldable pub is_announced : TorrentInfo → Bool
  unfolding get_new_files_indexes
  is_announced t =
      not (messages.announce == "")
      && (settings.ignore_unchanged && not (is_empty (get_new_files_indexes t.files))
          || not settings.ignore_unchanged)
      && not (vk.ignored t.name)

  send_by : Option (Client W U P) → Bool → TorrentInfo → M W (Unit {0})
  unfolding post_all
  send_by none is_new t = pure tt
  send_by (some client) is_new t = post_all client is_new t settings.group_ids

  unfoldable pub send : Bool → TorrentInfo → M W (Unit {0})
  unfolding is_announced send_by
  send is_new t = if is_announced t then send_by vk.client is_new t else pure tt

  send_nx_by : Option (Client W U P) → ℕ → M W (Unit {0})
  unfolding post_nx format_message
  send_nx_by none offset = pure tt
  send_nx_by (some client) offset =
      post_nx client (format_message templates.nx ((msg_index, number offset) ∷ []))
        settings.group_ids

  unfoldable pub send_nx_get : ℕ → M W (Unit {0})
  unfolding send_nx_by
  send_nx_get offset = if messages.nx == "" then pure tt else send_nx_by vk.client offset
