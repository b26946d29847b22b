-- ===== src/Producer/Indexes.antt =====
-- producer/shared.go: `GetNewFilesIndexes`, `FormatMessage` and `FormatIndexesMessage`.
pub mod Order
use Prim.Native.Nat.{Ordering}
use Prim.Native.String.{compare}
use ttobserver_v.Base.{
  ℕ, zero, suc, ◌+◌, String, append_text, Bool, true, false, Option, none, some, List, [], ◌∷◌,
  Dict, lookup, insert, string_eq, if◌then◌else◌,
}
use ttobserver_v.Base.Decimal.{format_uint}
use ttobserver_v.Shared.Errors.{Fault, Result, ok, err, template_not_set}
use ttobserver_v.Shared.Torrent.{FileSet}

-- Go compares strings by their bytes.
abbrev pub string_le : String → String → Bool
string_le a b = elim (compare a b) [ Ordering.gt ↦ false | _ ↦ true ]

unfoldable pub insert_sorted : String → List String → List String
insert_sorted x [] = x ∷ []
insert_sorted x (y ∷ ys) = if string_le x y then x ∷ y ∷ ys else y ∷ insert_sorted x ys

-- The result of `sort.Strings`.
unfoldable pub sort_strings : List String → List String
unfolding insert_sorted
sort_strings [] = []
sort_strings (x ∷ xs) = insert_sorted x (sort_strings xs)

unfoldable pub paths_of : FileSet → List String
paths_of [] = []
paths_of ((path, flag) ∷ m) = path ∷ paths_of m

-- `files[path]`, which is false for a missing key
abbrev pub flag_of : Option Bool → Bool
flag_of none = false
flag_of (some b) = b

-- The loop over the sorted paths, from position `i`.
unfoldable pub indexes_from : ℕ → List String → FileSet → List ℕ
indexes_from i [] files = []
indexes_from i (path ∷ paths) files =
    let rest = indexes_from (suc i) paths files in
    if flag_of (lookup path files) then suc i ∷ rest else rest

unfoldable pub get_new_files_indexes : FileSet → List ℕ
unfolding indexes_from sort_strings paths_of
get_new_files_indexes files = indexes_from 0 (sort_strings (paths_of files)) files

-- A template's `Execute`, on values of type `V`; a nil template is `none`.
abbrev pub Template : Type 0 → Type 0
Template V = Dict String V → Result String

abbrev written : Result String → String × Fault
written (ok text) = (text, none)
written (err e) = ("", some e)

unfoldable pub format_message : {V : Type 0} → Option (Template V) → Dict String V → String × Fault
format_message (some tmpl) values = written (tmpl values)
format_message none values = ("", some template_not_set)

-- The loop that writes the numbers, with ", " before each but the first.
join_from : Bool → List ℕ → String
join_from is_first [] = ""
join_from is_first (i ∷ is) =
    append_text (if is_first then "" else ", ") (append_text (format_uint i) (join_from false is))

-- `text` makes a value for the template of a string.
unfoldable pub format_indexes_message :
    {V : Type 0}
    → (String → V)
    → List ℕ
    → Option (Template V)
    → Option (Template V)
    → String
    → String × Fault
unfolding join_from format_message
format_indexes_message text [] single mul placeholder = ("", none)
format_indexes_message text (i ∷ []) single mul placeholder =
    format_message single (insert placeholder (text (join_from true (i ∷ []))) [])
format_indexes_message text (i ∷ j ∷ is) single mul placeholder =
    format_message mul (insert placeholder (text (join_from true (i ∷ j ∷ is))) [])
