-- ===== src/Shared/Torrent/Aside.antt =====
-- shared/torrent.go: what the requests leave as it was.
use ttobserver_v.Base.{ℕ, Keeps, arith, String, Option, none, some, string_eq}
use ttobserver_v.Shared.Errors.{Fault}
use ttobserver_v.Shared.Torrent.{Response, Web, ErrorText, after_head, get_torrent}
use ttobserver_v.Shared.Torrent.Poster.{Codec, get_torrent_poster}

-- Requests leave `q` as it was.
pub record IsAsideWeb {W : Type 0} (q : W → Type 0) (web : Web W) : Type 0 where
  pub head_keeps : (url : String) → Keeps q (web.head url)
  pub get_keeps : (url : String) → Keeps q (web.get url)

module _ {W : Type 0} (q : W → Type 0) (web : Web W) (aside : IsAsideWeb q web) where
  after_head-Keeps :
      (text : ErrorText) (url : String) (resp : Option Response) (e : Fault)
      → Keeps q (after_head web text url resp e)
  unfolding after_head
  after_head-Keeps text url (some resp) none w h = ground (arith, h, aside.get_keeps url w h)
  after_head-Keeps text url none e w h = h
  after_head-Keeps text url (some resp) (some e) w h = h

  pub get_torrent-Keeps : (text : ErrorText) (url : String) → Keeps q (get_torrent web text url)
  unfolding get_torrent
  get_torrent-Keeps text url w h =
      let (r, w') = web.head url w in
      after_head-Keeps text url r.0 r.1 w' (aside.head_keeps url w h)

  pub get_torrent_poster-Keeps :
      (c : Codec) (text : ErrorText) (url : String) (max_size : ℕ)
      → Keeps q (get_torrent_poster c web text url max_size)
  unfolding get_torrent_poster
  get_torrent_poster-Keeps c text url max_size w h = ground (arith, h, aside.get_keeps url w h)
