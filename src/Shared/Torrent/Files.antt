-- ===== src/Shared/Torrent/Files.antt =====
-- The files of a torrent of shared/torrent.go: what `GetTorrent` collects and `NewFiles` lists.
use ttobserver_v.Base.{
  ℕ, ◌+◌, ◌%◌, ◌^◌, ◌<◌, ◌≡◌, ◌↔◌, String, true, false, Option, none, some, List, [], ◌∷◌, arith,
  lookup, insert, HasUniqueKeys, lookup-insert, insert-HasUniqueKeys, contains, string_eq, eq_iff,
}
use ttobserver_v.Shared.Torrent.{
  FileSet, FileEntry, Torrent, Web, new_files, add_path, add_files, collect, files_of,
}

-- A file is listed as new exactly when the map holds it with the flag set.
pub contains-new_files :
    (f : String) (m : FileSet)
    → HasUniqueKeys m
    → (contains f (new_files m) ≡ true) ↔ (lookup f m ≡ some true)
unfolding new_files
contains-new_files f [] h = ground arith
contains-new_files f ((g, true) ∷ m) h = ground (arith, eq_iff g f, contains-new_files f m h.1)
contains-new_files f ((g, false) ∷ m) h = ground (arith, eq_iff g f, contains-new_files f m h.1)

-- Every flag is set, and no file is listed twice.
pub record IsFresh (m : FileSet) : Type 0 where
  pub unique : HasUniqueKeys m
  pub flagged : (f : String) → lookup f m ≡ some false → ⊥

abbrev pub total_length : List FileEntry → ℕ
total_length [] = 0
total_length (f ∷ fs) = f.len + total_length fs

insert-IsFresh : (f : String) (m : FileSet) → IsFresh m → IsFresh (insert f true m)
insert-IsFresh f m h = record {
  unique = insert-HasUniqueKeys f true m h.unique;
  flagged = λ g e. ground (arith, lookup-insert f g true m, h.flagged g);
}

module _ {W : Type 0} (web : Web W) where
  add_path-IsFresh :
      (name : String) (p : Option (List String)) (m : FileSet)
      → IsFresh m
      → IsFresh (add_path web name p m)
  unfolding add_path
  add_path-IsFresh name none m h = h
  add_path-IsFresh name (some parts) m h = insert-IsFresh _ m h

  add_files-IsFresh :
      (name : String) (fs : List FileEntry) (m : FileSet) (total : ℕ)
      → IsFresh m
      → IsFresh (add_files web name fs m total).0
  unfolding add_files
  add_files-IsFresh name [] m total h = h
  add_files-IsFresh name (f ∷ fs) m total h =
      add_files-IsFresh name fs (add_path web name f.path m) _ (add_path-IsFresh name f.path m h)

  IsFresh-empty : IsFresh []
  IsFresh-empty = record { unique = tt; flagged = λ g e. cc }

  collect-IsFresh :
      (name : String) (single : ℕ) (fs : Option (List FileEntry))
      → IsFresh (collect web name single fs).0
  unfolding collect
  collect-IsFresh name single (some fs) = add_files-IsFresh name fs [] 0 IsFresh-empty
  collect-IsFresh name single none = insert-IsFresh _ [] IsFresh-empty

  pub files_of-IsFresh : (t : Torrent) → IsFresh (files_of web t).0
  unfolding files_of
  files_of-IsFresh t = collect-IsFresh t.name t.len t.files

  add_files-total :
      (name : String) (fs : List FileEntry) (m : FileSet) (total : ℕ)
      → total < 2 ^ 64
      → (add_files web name fs m total).1 ≡ (total + total_length fs) % 2 ^ 64
  unfolding add_files
  add_files-total name [] m total h = omega arith
  add_files-total name (f ∷ fs) m total h = omega (
    arith,
    add_files-total name fs (add_path web name f.path m) ((total + f.len) % 2 ^ 64) (omega arith),
  )

  -- The length of a torrent of several files is the sum of theirs, as a uint64.
  pub files_of-total :
      (t : Torrent) (fs : List FileEntry)
      → t.files ≡ some fs
      → (files_of web t).1 ≡ total_length fs % 2 ^ 64
  unfolding files_of collect
  files_of-total t fs e = rw e (omega (arith, add_files-total t.name fs [] 0 (omega arith)))
