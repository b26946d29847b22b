-- ===== src/Producer/Indexes/Order.antt =====
-- The indexes of `GetNewFilesIndexes` in producer/shared.go: which, how many and in what order.
use ttobserver_v.Base.{
  ℕ, suc, ◌+◌, ◌≤◌, ◌<◌, ◌≡◌, refl, ◌∙◌, String, Bool, none, some, List, [], ◌∷◌, lookup,
  HasUniqueKeys, length, eq_iff, string_eq, if◌then◌else◌, arith, All, Bool-cases, inl, inr,
}
use ttobserver_v.Shared.Torrent.{FileSet, new_files}
use ttobserver_v.Producer.Indexes.{
  insert_sorted, sort_strings, paths_of, flag_of, indexes_from, get_new_files_indexes,
}

-- The numbers rise, lie above `lo` and are at most `hi`.
abbrev pub Rises : ℕ → ℕ → List ℕ → Type 0
Rises lo hi [] = Unit
Rises lo hi (i ∷ is) = (lo < i) × (i ≤ hi) × Rises i hi is

Rises-weaken : (a b hi : ℕ) (is : List ℕ) → a ≤ b → Rises b hi is → Rises a hi is
Rises-weaken a b hi [] h r = tt
Rises-weaken a b hi (i ∷ is) h r = (omega arith, r.1, r.2)

-- How many of some paths are flagged.
flagged : FileSet → List String → ℕ
flagged files [] = 0
flagged files (p ∷ ps) =
    if flag_of (lookup p files) then suc (flagged files ps) else flagged files ps

indexes_from-Rises :
    (i hi : ℕ) (ps : List String) (files : FileSet)
    → i + length ps ≤ hi
    → Rises i hi (indexes_from i ps files)
unfolding indexes_from
indexes_from-Rises i hi [] files h = tt
indexes_from-Rises i hi (p ∷ ps) files h =
    let rest = indexes_from-Rises (suc i) hi ps files (omega arith) in
    elim (Bool-cases (flag_of (lookup p files))) [
      | inl set ↦ rw set (omega arith, omega arith, rest)
      | inr clear ↦
          rw clear (Rises-weaken i (suc i) hi (indexes_from (suc i) ps files) (omega arith) rest)
    ]

length-indexes_from :
    (i : ℕ) (ps : List String) (files : FileSet)
    → length (indexes_from i ps files) ≡ flagged files ps
unfolding indexes_from flagged
length-indexes_from i [] files = refl
length-indexes_from i (p ∷ ps) files = ground (arith, length-indexes_from (suc i) ps files)

flagged-insert_sorted :
    (files : FileSet) (x : String) (ps : List String)
    → flagged files (insert_sorted x ps) ≡ flagged files (x ∷ ps)
unfolding insert_sorted flagged
flagged-insert_sorted files x [] = refl
flagged-insert_sorted files x (p ∷ ps) = ground (arith, flagged-insert_sorted files x ps)

flagged-cons :
    (files : FileSet) (p : String) (ps qs : List String)
    → flagged files ps ≡ flagged files qs
    → flagged files (p ∷ ps) ≡ flagged files (p ∷ qs)
unfolding flagged
flagged-cons files p ps qs h = ground arith

flagged-sort_strings :
    (files : FileSet) (ps : List String) → flagged files (sort_strings ps) ≡ flagged files ps
unfolding sort_strings
flagged-sort_strings files [] = refl
flagged-sort_strings files (p ∷ ps) =
    flagged-insert_sorted files p (sort_strings ps)
    ∙ flagged-cons files p (sort_strings ps) ps (flagged-sort_strings files ps)

length-insert_sorted :
    (x : String) (ps : List String) → length (insert_sorted x ps) ≡ suc (length ps)
unfolding insert_sorted
length-insert_sorted x [] = refl
length-insert_sorted x (p ∷ ps) = ground (arith, length-insert_sorted x ps)

length-sort_strings : (ps : List String) → length (sort_strings ps) ≡ length ps
unfolding sort_strings
length-sort_strings [] = refl
length-sort_strings (p ∷ ps) =
    length-insert_sorted p (sort_strings ps) ∙ omega (arith, length-sort_strings ps)

length-paths_of : (m : FileSet) → length (paths_of m) ≡ length m
unfolding paths_of
length-paths_of [] = refl
length-paths_of (e ∷ m) = omega (arith, length-paths_of m)

-- Every entry of `m` is what `files` says of its path.
abbrev Agrees : FileSet → FileSet → Type 0
Agrees files m = All (λ (e : String × Bool). lookup e.0 files ≡ some e.1) m

flagged-paths_of :
    (files m : FileSet) → Agrees files m → flagged files (paths_of m) ≡ length (new_files m)
unfolding paths_of flagged new_files
flagged-paths_of files [] h = refl
flagged-paths_of files ((p, f) ∷ m) h = ground (arith, flagged-paths_of files m)

Agrees-cons :
    (p : String) (f : Bool) (files m : FileSet)
    → lookup p m ≡ none
    → Agrees files m
    → Agrees ((p, f) ∷ files) m
Agrees-cons p f files [] fresh h = tt
Agrees-cons p f files ((q, g) ∷ m) fresh h =
    ground (arith, eq_iff p q, eq_iff q p, Agrees-cons p f files m)

Agrees-self : (m : FileSet) → HasUniqueKeys m → Agrees m m
Agrees-self [] h = tt
Agrees-self ((p, f) ∷ m) h = ground (arith, eq_iff p p, Agrees-cons p f m m h.0 (Agrees-self m h.1))

-- The indexes rise strictly, are between 1 and the number of files, and are as many as there are
-- new files.
pub get_new_files_indexes-Rises :
    (files : FileSet)
    → HasUniqueKeys files
    → Rises 0 (length files) (get_new_files_indexes files)
      × (length (get_new_files_indexes files) ≡ length (new_files files))
unfolding get_new_files_indexes
get_new_files_indexes-Rises files h = (
  indexes_from-Rises 0 (length files) (sort_strings (paths_of files)) files
      (omega (arith, length-sort_strings (paths_of files), length-paths_of files)),
  length-indexes_from 0 (sort_strings (paths_of files)) files
      ∙ flagged-sort_strings files (paths_of files)
      ∙ flagged-paths_of files files (Agrees-self files h),
)
