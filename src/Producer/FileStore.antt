-- ===== src/Producer/FileStore.antt =====
-- producer/file/file.go: the producer that writes each torrent to a file, named by a template.
use ttobserver_v.Base.{
  ℕ, ◌%◌, ◌^◌, String, Bool, true, false, Option, none, some, [], ◌∷◌, M, pure, ◌>>=◌,
  if◌then◌else◌, ◌==◌, string_eq,
}
use ttobserver_v.Shared.Errors.{Fault, message}
use ttobserver_v.Shared.Database.{Bytes}
use ttobserver_v.Shared.Torrent.{TorrentInfo}
use ttobserver_v.Producer.Indexes.{Template, format_message}
use ttobserver_v.Producer.Values.{Value, text, int, msg_name}

abbrev pub tmpl_id : String
tmpl_id = "id"

abbrev pub tmpl_hash : String
tmpl_hash = "hash"

pub record Settings : Type 0 where
  pub name_template : String
  pub permissions : String

-- The template, and the permissions, which are a uint64.
pub record Notifier : Type 0 where
  pub template : Option (Template Value)
  pub perm : ℕ

-- Outside: `os.Stat` of the directory of a path, with `IsDir`; the parser of templates; octal
-- numbers below 2^32; `filepath.Clean`; and the base64 text of the SHA-1 hash of a name.
pub record Files (W : Type 0) : Type 0 where
  pub stat_dir : String → M W (Bool × Fault)
  pub parse : String → Option (Template Value) × Fault
  pub parse_octal : String → ℕ × Fault
  pub clean : String → String
  pub name_hash : String → String
  pub write_file : String → Bytes → ℕ → M W Fault

module _ {W : Type 0} (files : Files W) where
  permissions_of : String → ℕ × Fault
  permissions_of permissions =
      if permissions == "" then (420, none) else files.parse_octal permissions

  with_template : Settings → Option (Template Value) × Fault → Notifier × Fault
  unfolding permissions_of
  with_template n (t, some e) = (record { template = t; perm = 0 }, some e)
  with_template n (t, none) =
      let (perm, e) = permissions_of n.permissions in (record { template = t; perm = perm }, e)

  with_directory : Settings → Bool × Fault → Notifier × Fault
  unfolding with_template
  with_directory n (_, some e) = (record { template = none; perm = 0 }, some e)
  with_directory n (false, none) =
      (record { template = none; perm = 0 }, some (message "invalid path"))
  with_directory n (true, none) = with_template n (files.parse n.name_template)

  -- `New`, with the error of reading the configuration.
  unfoldable pub new : Settings → Fault → M W (Notifier × Fault)
  unfolding with_directory
  new n (some e) = pure (record { template = none; perm = 0 }, some e)
  new n none = do r ← files.stat_dir n.name_template; pure (with_directory n r)

  -- The name of a torrent's file.
  unfoldable pub name_of : Notifier → TorrentInfo → String × Fault
  unfolding format_message
  name_of fl t = format_message fl.template (
      (msg_name, text t.name)
      ∷ (tmpl_id, int t.id)
      ∷ (tmpl_hash, text (files.name_hash t.name))
      ∷ [])

  write_to : Notifier → TorrentInfo → String × Fault → M W Fault
  write_to fl t (name, some e) = pure (some e)
  write_to fl t (name, none) =
      if files.clean name == ""
      then pure (some (message "filename is empty"))
      else files.write_file (files.clean name) t.content (fl.perm % 2 ^ 32)

  -- The error is only logged.
  unfoldable pub send : Notifier → TorrentInfo → M W Fault
  unfolding write_to name_of
  send fl t = write_to fl t (name_of fl t)
