-- ===== src/Observer/Check/Known.antt =====
-- `CheckTorrent` of observer.go: which files it stores and announces as new.
use ttobserver_v.Base.{
  ◌≡◌, ◌↔◌, refl, String, Bool, true, false, Option, none, some, List, [], ◌∷◌, arith, lookup,
  HasUniqueKeys, lookup-insert, insert-HasUniqueKeys, contains, string_eq, eq_iff, ◌==◌,
  if◌then◌else◌,
}
use ttobserver_v.Shared.Torrent.{FileSet, new_files}
use ttobserver_v.Shared.Torrent.Files.{contains-new_files}
use ttobserver_v.Observer.Check.{mark, mark_known}

abbrev pub cleared : Option Bool → Option Bool
cleared none = none
cleared (some b) = some false

lookup-mark :
    (file f : String) (flag : Option Bool) (files : FileSet)
    → lookup file files ≡ flag
    → lookup f (mark file flag files)
      ≡ (if file == f then cleared (lookup f files) else lookup f files)
unfolding mark
lookup-mark file f none files e = ground (arith, eq_iff file f)
lookup-mark file f (some b) files e =
    ground (arith, eq_iff file f, lookup-insert file f false files)

mark-HasUniqueKeys :
    (file : String) (flag : Option Bool) (files : FileSet)
    → HasUniqueKeys files
    → HasUniqueKeys (mark file flag files)
unfolding mark
mark-HasUniqueKeys file none files h = h
mark-HasUniqueKeys file (some b) files h = insert-HasUniqueKeys file false files h

pub mark_known-HasUniqueKeys :
    (existing : List String) (files : FileSet)
    → HasUniqueKeys files
    → HasUniqueKeys (mark_known existing files)
unfolding mark_known
mark_known-HasUniqueKeys [] files h = h
mark_known-HasUniqueKeys (file ∷ existing) files h =
    mark_known-HasUniqueKeys existing (mark file (lookup file files) files)
      (mark-HasUniqueKeys file (lookup file files) files h)

-- The files stay those of the torrent; exactly those that are known lose their flag.
pub lookup-mark_known :
    (f : String) (existing : List String) (files : FileSet)
    → lookup f (mark_known existing files)
      ≡ (if contains f existing then cleared (lookup f files) else lookup f files)
unfolding mark_known
lookup-mark_known f [] files = refl
lookup-mark_known f (file ∷ existing) files = ground (
  arith,
  lookup-mark file f (lookup file files) files refl,
  lookup-mark_known f existing (mark file (lookup file files) files),
)

-- A file is handed to `AddTorrent` as new exactly when the torrent lists it as new and the
-- database does not have it.
pub contains-new_files-mark_known :
    (f : String) (existing : List String) (files : FileSet)
    → HasUniqueKeys files
    → (contains f (new_files (mark_known existing files)) ≡ true)
      ↔ ((lookup f files ≡ some true) × (contains f existing ≡ false))
contains-new_files-mark_known f existing files h = ground (
  arith,
  contains-new_files f (mark_known existing files) (mark_known-HasUniqueKeys existing files h),
  lookup-mark_known f existing files,
)
