-- ===== src/Producer/Tests.antt =====
-- Runs of producer/shared.go, and the theorems at them.
use ttobserver_v.Base.{◌*◌, ◌<◌, ◌≡◌, refl, true, false, [], ◌∷◌, arith, length, string_eq}
use ttobserver_v.Shared.Torrent.{FileSet, new_files}
use ttobserver_v.Producer.FileSize.{unit_of, IsUnit, unit_of-IsUnit}
use ttobserver_v.Producer.Indexes.{
  insert_sorted, sort_strings, paths_of, indexes_from, get_new_files_indexes,
}
use ttobserver_v.Producer.Indexes.Order.{Rises, get_new_files_indexes-Rises}

unit_of-IsUnit_example :
    IsUnit (5 * 1024 * 1024) (unit_of (5 * 1024 * 1024)) × ((unit_of (5 * 1024 * 1024)).1 < 8)
unit_of-IsUnit_example = unit_of-IsUnit (5 * 1024 * 1024) (omega arith) (omega arith)

-- In the order of the paths, the second and the third file are new.
abbrev some_files : FileSet
some_files = ("/c", true) ∷ ("/a", false) ∷ ("/b", true) ∷ []

get_new_files_indexes_test : get_new_files_indexes some_files ≡ 2 ∷ 3 ∷ []
unfolding get_new_files_indexes indexes_from sort_strings insert_sorted paths_of
get_new_files_indexes_test = refl

get_new_files_indexes-Rises_example :
    Rises 0 3 (get_new_files_indexes some_files)
    × (length (get_new_files_indexes some_files) ≡ length (new_files some_files))
get_new_files_indexes-Rises_example =
    get_new_files_indexes-Rises some_files (refl, (refl, (refl, tt)))
