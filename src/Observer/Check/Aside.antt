-- ===== src/Observer/Check/Aside.antt =====
-- `CheckTorrent` of observer.go: what it leaves as it was, and that it calls nothing where it finds
-- nothing.
use ttobserver_v.Base.{ℕ, String, false, ◌≡◌, refl, Option, none, some, [], Keeps, arith}
use ttobserver_v.Shared.Errors.{Fault}
use ttobserver_v.Shared.Torrent.{TorrentInfo, new_files, get_torrent}
use ttobserver_v.Shared.Torrent.Aside.{get_torrent-Keeps}
use ttobserver_v.Observer.Settings.{Observer}
use ttobserver_v.Observer.Aside.{IsAside}
use ttobserver_v.Observer.Notify.Aside.{notify-Keeps}
use ttobserver_v.Observer.Check.{
  returned, known, mark_known, finish, announce, after_fetch, check_torrent,
}
use ttobserver_v.Observer.Check.Found.{url_of}

module _ {W P : Type 0} (cr : Observer W P) where
  open cr use {crawler, texts, web, db}

  after_fetch-quiet :
      (offset : ℕ) (context url : String) (r : Option TorrentInfo × Fault) (w : W)
      → (after_fetch cr offset context url r w).0.0 ≡ returned false
      → (after_fetch cr offset context url r w).0.1 ≡ []
  unfolding after_fetch announce finish
  after_fetch-quiet offset context url (some t, none) w e = ground arith
  after_fetch-quiet offset context url (none, none) w e = refl
  after_fetch-quiet offset context url (some t, some x) w e = refl
  after_fetch-quiet offset context url (none, some x) w e = refl

  -- A check that finds nothing calls no producer.
  pub check_torrent-quiet :
      (offset : ℕ) (w : W)
      → (check_torrent cr offset w).0.0 ≡ returned false
      → (check_torrent cr offset w).0.1 ≡ []
  unfolding check_torrent
  check_torrent-quiet offset w =
      let (r, w') = get_torrent web texts.error_text (url_of cr offset) w in
      after_fetch-quiet offset (texts.sprintf crawler.context_url offset) (url_of cr offset) r w'

  module _ (q : W → Type 0) (aside : IsAside q cr) where
    known-Keeps : (name : String) → Keeps q (known cr name)
    unfolding known
    known-Keeps name w h =
        let (g, w') = db.get_torrent name w in
        let h' = aside.get_torrent name w h in ground (arith, h', aside.get_torrent_files g.0 w' h')

    announce-Keeps :
        (offset : ℕ) (context url : String) (t : TorrentInfo)
        → Keeps q (announce cr offset context url t)
    unfolding announce
    announce-Keeps offset context url t w h =
        let (k, w₁) = known cr t.name w in
        let files = mark_known k.1 t.files in
        let (a, w₂) = db.add_torrent t.name t.content (new_files files) w₁ in
        notify-Keeps q cr aside _ context _ w₂
          (aside.add_torrent t.name t.content (new_files files) w₁ (known-Keeps t.name w h))

    after_fetch-Keeps :
        (offset : ℕ) (context url : String) (r : Option TorrentInfo × Fault)
        → Keeps q (after_fetch cr offset context url r)
    unfolding after_fetch
    after_fetch-Keeps offset context url (some t, none) w h =
        ground (arith, h, announce-Keeps offset context url t w h)
    after_fetch-Keeps offset context url (none, none) w h = h
    after_fetch-Keeps offset context url (some t, some x) w h = h
    after_fetch-Keeps offset context url (none, some x) w h = h

    -- A check leaves as it was what everything that it calls leaves so.
    pub check_torrent-Keeps : (offset : ℕ) → Keeps q (check_torrent cr offset)
    unfolding check_torrent
    check_torrent-Keeps offset w h =
        let (r, w') = get_torrent web texts.error_text (url_of cr offset) w in
        after_fetch-Keeps offset (texts.sprintf crawler.context_url offset) (url_of cr offset) r w'
          (get_torrent-Keeps q web aside.web texts.error_text (url_of cr offset) w h)
