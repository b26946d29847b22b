-- ===== src/Producer/Vk.antt =====
-- producer/vk/vkcom.go: the producer that posts announcements on the walls of groups.
pub mod Sending
pub mod Setup
mod Tests
use ttobserver_v.Base.{
  ℕ, zero, suc, ◌-◌, ◌^◌, String, append_text, Bool, true, false, Option, none, some, List, [], ◌∷◌,
  ◌++◌, Dict, lookup, M, pure, ◌>>=◌, ◌>>◌, if◌then◌else◌, ◌==◌, string_eq, is_empty, leb, ◌||◌,
  ◌&&◌, not,
}
use ttobserver_v.Base.Int.{ℤ, pos, negsuc}
use ttobserver_v.Shared.Errors.{Err, Fault, required_parameters, message}
use ttobserver_v.Shared.Database.{Bytes, Meta}
use ttobserver_v.Shared.Torrent.{TorrentInfo}
use ttobserver_v.Producer.Indexes.{
  Template, format_message, format_indexes_message, get_new_files_indexes,
}
use ttobserver_v.Producer.Values.{
  Value, text, number, Format, replace_all, announcement, msg_index, msg_new_indexes,
}

abbrev pub msg_tags : String
msg_tags = "tags"

-- The texts of the configuration; a tag's flag is whether its value is a list.
pub record Messages : Type 0 where
  pub announce : String
  pub nx : String
  pub replacements : Dict String String
  pub added : String
  pub updated : String
  pub single_index : String
  pub multiple_indexes : String
  pub tags : Dict String Bool
  pub tags_separator : String

pub record Settings : Type 0 where
  pub token : String
  pub group_ids : List ℕ  -- uint
  pub ignore_unchanged : Bool
  pub ignore_regexp : String
  pub messages : Messages
  pub proxy : String

-- A template that is not parsed is nil, `none`.
pub record Templates : Type 0 where
  pub announce : Option (Template Value)
  pub nx : Option (Template Value)
  pub single_index : Option (Template Value)
  pub multiple_indexes : Option (Template Value)

-- Outside: the client, with an answer to an upload of type `U` and a photo of type `P`. A post has
-- its owner, its text and its attachments, and is always from the group.
pub record Client (W U P : Type 0) : Type 0 where
  pub upload_server : ℕ → M W (String × Fault)
  pub post_photo : String → String → Bytes → M W (Bytes × Fault)
  pub decode_upload : Bytes → U × Fault
  pub save_photo : ℕ → U → M W (List P × Fault)
  pub attachment : P → String
  pub wall_post : ℤ → String → String → M W Fault

-- Outside: texts (`strings.TrimSpace` and `Split`, the two replacements of patterns), the type of a
-- content split at "/", and a random number before an extension; and the orders in which the loops
-- for one group visit the maps of replacements and of tags, which Go draws anew for each loop.
pub record Texts (W : Type 0) : Type 0 where
  pub trim : String → String
  pub split : String → String → List String
  pub strip_symbols : String → String
  pub join_spaces : String → String
  pub content_type : Bytes → List String
  pub random_name : String → M W String
  pub visit : M W (Dict String String × Dict String Bool)

pub record Notifier (W U P : Type 0) : Type 0 where
  pub settings : Settings
  pub templates : Templates
  -- `none` for a nil client
  pub client : Option (Client W U P)
  pub ignored : String → Bool
  pub texts : Texts W
  pub format : Format

-- `-int(groupId)` for 64 bits
abbrev opposite : ℕ → ℤ
opposite zero = pos zero
opposite (suc n) = negsuc n

unfoldable pub owner_of : ℕ → ℤ
owner_of id = if leb id (2 ^ 63) then opposite id else pos (2 ^ 64 - id)

module _ {W U P : Type 0} (vk : Notifier W U P) where
  open vk use {settings, templates, texts, format}
  open settings use {messages}

  write_tag : String → String
  write_tag s =
      let trimmed = texts.trim s in
      if trimmed == ""
      then ""
      else append_text "#" (append_text (texts.join_spaces (texts.strip_symbols trimmed)) " ")

  write_tags : List String → String
  unfolding write_tag
  write_tags [] = ""
  write_tags (s ∷ ss) = append_text (write_tag s) (write_tags ss)

  -- The value of a tag in the meta, which is empty where it is missing.
  tag_text : Bool → Option String → String
  unfolding write_tags write_tag
  tag_text multi none = ""
  tag_text multi (some m) =
      if m == ""
      then ""
      else (if multi then write_tags (texts.split m messages.tags_separator) else write_tag m)

  all_tags : Dict String Bool → Meta → String
  unfolding tag_text
  all_tags [] m = ""
  all_tags ((tag, multi) ∷ tags) m = append_text (tag_text multi (lookup tag m)) (all_tags tags m)

  unfoldable pub build_hash_tags : Meta → String
  unfolding all_tags
  build_hash_tags m = if is_empty m || is_empty messages.tags then "" else all_tags messages.tags m
