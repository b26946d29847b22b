-- ===== src/Shared/Tests.antt =====
-- Pages for shared/torrent.go, and the theorems at them.
use ttobserver_v.Base.{
  ℕ, ◌%◌, ◌^◌, ◌≤◌, ◌≡◌, refl, none, some, List, [], ◌∷◌, arith, String, pure, string_eq,
}
use ttobserver_v.Shared.Errors.{Err, Fault, ok}
use ttobserver_v.Shared.Torrent.{FileEntry, Torrent, Response, Web, info_of, files_of, get_torrent}
use ttobserver_v.Shared.Torrent.Files.{IsFresh, total_length, files_of-total}
use ttobserver_v.Shared.Torrent.Fetch.{IsGood, Origin, get_torrent-some, get_torrent-found}
use ttobserver_v.Shared.Torrent.Poster.{thumb_size}
use ttobserver_v.Shared.Torrent.Poster.Bounds.{Fits, thumb_size-Fits}

abbrev two_entries : List FileEntry
two_entries =
    record { len = 30; path = some ("one" ∷ []) }
    ∷ record { len = 12; path = some ("two" ∷ []) }
    ∷ []

abbrev tale : Torrent
tale = record { publisher_url = ""; len = 0; files = some two_entries; name = "tale" }

abbrev page : Response
page = record { status_code = 200; status = "200 OK"; body = (1 ∷ 2 ∷ [], none) }

-- The last part of a path
abbrev last_part : List String → String
last_part [] = ""
last_part (p ∷ []) = p
last_part (p ∷ q ∷ ps) = last_part (q ∷ ps)

-- Every page has the one torrent.
abbrev one_page : Web ℕ
one_page = record {
  head = λ url. pure (some page, none);
  get = λ url. pure (some page, none);
  decode = λ content. ok tale;
  join = last_part;
}

abbrev text_of : Err → String
text_of e = "error"

page-IsGood : IsGood (some page, none)
page-IsGood = record { response = page; here = refl; no_error = refl; accepted = omega arith }

there :
    (get_torrent one_page text_of "here" 0).0 ≡ (some (info_of one_page (1 ∷ 2 ∷ []) tale), none)
there =
    get_torrent-found one_page text_of "here" 0 (1 ∷ 2 ∷ []) tale page-IsGood
      (record { response = page; here = refl; no_error = refl; accepted = omega arith }) refl refl

get_torrent-some_example :
    ◌≡◌ {A = Fault} none none
    × Origin one_page "here" 0 (info_of one_page (1 ∷ 2 ∷ []) tale)
    × IsFresh (info_of one_page (1 ∷ 2 ∷ []) tale).files
get_torrent-some_example =
    get_torrent-some one_page text_of "here" 0 (info_of one_page (1 ∷ 2 ∷ []) tale) none there

files_of-total_example : (files_of one_page tale).1 ≡ total_length two_entries % 2 ^ 64
files_of-total_example = files_of-total one_page tale two_entries refl

thumb_size-Fits_example :
    Fits 320 800 600 (thumb_size 320 800 600)
    × (800 ≤ 320 → 600 ≤ 320 → thumb_size 320 800 600 ≡ (800, 600))
thumb_size-Fits_example =
    thumb_size-Fits 320 800 600 (omega arith) (omega arith) (omega arith) (omega arith)
      (omega arith) (omega arith)
