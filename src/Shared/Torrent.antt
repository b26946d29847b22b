-- ===== src/Shared/Torrent.antt =====
-- shared/torrent.go: the torrent data, `NewFiles`, `GetTorrent`, `GenerateTorrentInfoHash`;
-- the children have `GetTorrentPoster` and the theorems.
pub mod Poster
pub mod Files
pub mod Aside
pub mod Fetch
use ttobserver_v.Base.{
  ℕ, ◌+◌, ◌%◌, ◌^◌, String, Bool, false, true, Option, none, some, List, [], ◌∷◌, ◌++◌, Dict,
  insert, M, pure, ◌>>=◌, if◌then◌else◌, ltb, ◌==◌, string_eq, append_text,
}
use ttobserver_v.Base.Int.{ℤ, pos}
use ttobserver_v.Shared.Errors.{Err, Result, Fault, ok, err, message}
use ttobserver_v.Shared.Database.{Bytes, Meta}

-- The flag of a file is whether it is new.
abbrev pub FileSet : Type 0
FileSet = Dict String Bool

pub record TorrentInfo : Type 0 where
  pub id : ℤ
  pub name : String
  pub url : String
  pub image : Bytes
  pub meta : Meta
  pub files : FileSet
  pub content : Bytes
  pub len : ℕ

-- The files whose flag is set, in the order in which the map is visited.
unfoldable pub new_files : FileSet → List String
new_files [] = []
new_files ((file, is_new) ∷ m) = if is_new then file ∷ new_files m else new_files m

-- A nil path is `none`.
pub record FileEntry : Type 0 where
  pub len : ℕ
  pub path : Option (List String)

-- The decoded metainfo, as far as it is read: a nil list of files is `none`.
pub record Torrent : Type 0 where
  pub publisher_url : String
  pub len : ℕ
  pub files : Option (List FileEntry)
  pub name : String

-- A response with the outcome of `io.ReadAll` on its body: what was read, and an error.
pub record Response : Type 0 where
  pub status_code : ℕ
  pub status : String
  pub body : Bytes × Fault

-- Outside the program: the network, the decoder of bencode, `filepath.Join`.
pub record Web (W : Type 0) : Type 0 where
  pub head : String → M W (Option Response × Fault)
  pub get : String → M W (Option Response × Fault)
  pub decode : Bytes → Result Torrent
  pub join : List String → String

-- The text of an error, `err.Error()`.
abbrev pub ErrorText : Type 0
ErrorText = Err → String

abbrev fault_text : ErrorText → Fault → String
fault_text text none = ""
fault_text text (some e) = append_text (text e) " "

abbrev response_text : Option Response → String
response_text none = "empty response"
response_text (some resp) = resp.status

-- The calls that close the response change nothing that is modelled.
unfoldable pub build_error : ErrorText → Option Response → Fault → String → Err
build_error text resp http_err desc =
    let start : String = (if desc == "" then desc else append_text desc ".") in
    message (append_text (append_text start (fault_text text http_err)) (response_text resp))

module _ {W : Type 0} (web : Web W) where
  -- `res.Files["/"+filepath.Join(allParts...)] = true`, for a path that is not nil.
  add_path : String → Option (List String) → FileSet → FileSet
  add_path name none files = files
  add_path name (some parts) files = insert (append_text "/" (web.join (name ∷ parts))) true files

  -- The loop over `torrent.Info.Files`; the sum is a uint64.
  unfoldable pub add_files : String → List FileEntry → FileSet → ℕ → FileSet × ℕ
  unfolding add_path
  add_files name [] files total = (files, total)
  add_files name (f ∷ fs) files total =
      add_files name fs (add_path name f.path files) ((total + f.len) % 2 ^ 64)

  -- The branches on `torrent.Info.Files != nil`.
  collect : String → ℕ → Option (List FileEntry) → FileSet × ℕ
  unfolding add_files
  collect name single (some fs) = add_files name fs [] 0
  collect name single none = (insert (append_text "/" name) true [], single)

  unfoldable pub files_of : Torrent → FileSet × ℕ
  unfolding collect
  files_of t = collect t.name t.len t.files

  -- The identifier, the picture and the meta have Go's zero values.
  unfoldable pub info_of : Bytes → Torrent → TorrentInfo
  unfolding files_of
  info_of content t = record {
    id = pos 0;
    name = t.name;
    url = t.publisher_url;
    image = [];
    meta = [];
    files = (files_of t).0;
    content = content;
    len = (files_of t).1;
  }

  abbrev Fetched : Type 0
  Fetched = Option TorrentInfo × Fault

  decoded : Bytes → Result Torrent → Fetched
  unfolding info_of
  decoded content (ok t) = (some (info_of content t), none)
  decoded content (err e) = (none, some e)

  read_body : Bytes × Fault → Fetched
  unfolding decoded
  read_body (content, none) = decoded content (web.decode content)
  read_body (content, some e) = (none, some e)

  after_get : ErrorText → Option Response → Fault → Fetched
  unfolding read_body build_error
  after_get text (some resp) none =
      if ltb resp.status_code 400
      then read_body resp.body
      else (none, some (build_error text (some resp) none "get torrent"))
  after_get text resp e = (none, some (build_error text resp e "get torrent"))

  -- A status of 400 or more for the HEAD request is no error: there is no torrent yet.
  after_head : ErrorText → String → Option Response → Fault → M W Fetched
  unfolding after_get
  after_head text url (some resp) none =
      if ltb resp.status_code 400
      then (do r ← web.get url; pure (after_get text r.0 r.1))
      else pure (none, none)
  after_head text url resp e = pure (none, e)

  unfoldable pub get_torrent : ErrorText → String → M W (Option TorrentInfo × Fault)
  unfolding after_head
  get_torrent text url = do r ← web.head url; after_head text url r.0 r.1

-- The info dictionary's bytes as decoded, and the two hashes of the standard library.
pub record Hashing : Type 0 where
  pub raw_info : Bytes → Result Bytes
  pub sha1 : Bytes → Bytes
  pub sha256 : Bytes → Bytes

-- Go's nil slices are empty.
unfoldable pub generate_torrent_info_hash : Hashing → Bytes → Bool → Bytes × Bytes × Fault
generate_torrent_info_hash h content v2 = elim (h.raw_info content) [
  | ok info ↦ (h.sha1 info, (if v2 then h.sha256 info else []), none)
  | err e ↦ ([], [], some e)
]
