-- ===== src/Producer/Values.antt =====
-- producer/shared.go: the names of the values of a message, and the values; and the parts of an
-- announcement that the producers of messages share.
use ttobserver_v.Base.{ℕ, String, Bool, [], ◌∷◌, Dict, string_eq, length}
use ttobserver_v.Base.Int.{ℤ}
use ttobserver_v.Shared.Database.{Meta}
use ttobserver_v.Shared.Torrent.{TorrentInfo}
use ttobserver_v.Producer.FileSize.{format_file_size}

abbrev pub msg_action : String
msg_action = "action"

abbrev pub msg_name : String
msg_name = "name"

abbrev pub msg_size : String
msg_size = "size"

abbrev pub msg_url : String
msg_url = "url"

abbrev pub msg_file_count : String
msg_file_count = "filecount"

abbrev pub msg_index : String
msg_index = "index"

abbrev pub msg_new_indexes : String
msg_new_indexes = "newindexes"

abbrev pub msg_meta : String
msg_meta = "meta"

pub data Value : Type 0 where
  text : String → Value
  number : ℕ → Value
  int : ℤ → Value
  flag : Bool → Value
  meta : Meta → Value

-- What a producer asks of the standard library for texts: `%.2f` of a quotient, and
-- `strings.Replace` of all occurrences.
pub record Format : Type 0 where
  pub ratio : ℕ → ℕ → String
  pub replace : String → String → String → String

-- The loop over the replacements, in the order in which the map is visited.
unfoldable pub replace_all : Format → Dict String String → String → String
replace_all f [] name = name
replace_all f ((k, v) ∷ more) name = replace_all f more (f.replace name k v)

-- The values of an announcement.
unfoldable pub announcement : Format → String → String → TorrentInfo → String → Dict String Value
unfolding format_file_size
announcement f action name t new_indexes =
    (msg_action, text action)
    ∷ (msg_name, text name)
    ∷ (msg_size, text (format_file_size f.ratio t.len))
    ∷ (msg_url, text t.url)
    ∷ (msg_file_count, number (length t.files))
    ∷ (msg_meta, meta t.meta)
    ∷ (msg_new_indexes, text new_indexes)
    ∷ []
