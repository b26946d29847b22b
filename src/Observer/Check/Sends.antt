-- ===== src/Observer/Check/Sends.antt =====
-- `CheckTorrent` of observer.go: it closes no producer.
use ttobserver_v.Base.{[], ℕ, String, ◌≡◌, refl, Bool, Option, none, some, List, arith}
use ttobserver_v.Shared.Errors.{Fault}
use ttobserver_v.Shared.Torrent.{TorrentInfo, new_files, get_torrent}
use ttobserver_v.Producer.Announcer.{Call, send_nx_get_all}
use ttobserver_v.Producer.Announcer.Closes.{
  closes, closes-appended, closes-send_all, closes-send_nx_get_all,
}
use ttobserver_v.Observer.Settings.{Observer}
use ttobserver_v.Observer.Notify.{notify}
use ttobserver_v.Observer.Check.{finish, announce, after_fetch, check_torrent, known, mark_known}
use ttobserver_v.Observer.Check.Found.{url_of}

module _ {W P : Type 0} (cr : Observer W P) where
  open cr use {crawler, texts, web, db, announcer}

  finish-closes :
      (offset : ℕ) (calls : List (Call P))
      → closes calls ≡ []
      → closes (finish cr offset calls).1 ≡ []
  unfolding finish
  finish-closes offset calls h = ground (
    arith,
    h,
    closes-appended calls (send_nx_get_all announcer offset) h
        (closes-send_nx_get_all announcer offset),
  )

  notify-closes :
      (t : TorrentInfo) (context : String) (is_new : Bool) (w : W)
      → closes (notify cr t context is_new w).0 ≡ []
  unfolding notify
  notify-closes t context is_new w = closes-send_all announcer is_new _

  announce-closes :
      (offset : ℕ) (context url : String) (t : TorrentInfo) (w : W)
      → closes (announce cr offset context url t w).0.1 ≡ []
  unfolding announce
  announce-closes offset context url t w =
      let (k, w₁) = known cr t.name w in
      let files = mark_known k.1 t.files in
      let (a, w₂) = db.add_torrent t.name t.content (new_files files) w₁ in
      finish-closes offset _ (notify-closes _ context _ w₂)

  after_fetch-closes :
      (offset : ℕ) (context url : String) (r : Option TorrentInfo × Fault) (w : W)
      → closes (after_fetch cr offset context url r w).0.1 ≡ []
  unfolding after_fetch
  after_fetch-closes offset context url (some t, none) w =
      ground (arith, announce-closes offset context url t w)
  after_fetch-closes offset context url (none, none) w = refl
  after_fetch-closes offset context url (some t, some x) w = refl
  after_fetch-closes offset context url (none, some x) w = refl

  -- A check closes no producer.
  pub check_torrent-closes : (offset : ℕ) (w : W) → closes (check_torrent cr offset w).0.1 ≡ []
  unfolding check_torrent
  check_torrent-closes offset w =
      let (r, w') = get_torrent web texts.error_text (url_of cr offset) w in
      after_fetch-closes offset (texts.sprintf crawler.context_url offset) (url_of cr offset) r w'
