-- ===== src/Observer/Notify/Aside.antt =====
-- `notify` of observer.go: what it leaves as it was.
use ttobserver_v.Base.{String, Bool, ◌≡◌, refl, Option, none, some, M, Keeps, arith}
use ttobserver_v.Base.Int.{ℤ}
use ttobserver_v.Shared.Errors.{Fault}
use ttobserver_v.Shared.Database.{Meta}
use ttobserver_v.Shared.Torrent.{TorrentInfo}
use ttobserver_v.Shared.Torrent.Aside.{get_torrent_poster-Keeps}
use ttobserver_v.Shared.Torrent.Poster.{get_torrent_poster}
use ttobserver_v.Observer.Settings.{Observer, RawMeta}
use ttobserver_v.Observer.Aside.{IsAside}
use ttobserver_v.Observer.Notify.{
  fetch_raw, fetch_meta, existing_meta, choose_meta, absolute, reload_image, refresh_image,
  complete, notify,
}

module _ {W P : Type 0} (q : W → Type 0) (cr : Observer W P) (aside : IsAside q cr) where
  open cr use {crawler, web, codec, texts, db, extract}

  fetch_raw-Keeps :
      (f : String → M W (RawMeta × Fault)) (context : String)
      → extract ≡ some f
      → Keeps q (fetch_raw cr f context)
  unfolding fetch_raw
  fetch_raw-Keeps f context e w h =
      let w₁ = (f context w).1 in
      let w₂ = (cr.sleep crawler.meta_retry w₁).1 in
      let h₁ = aside.extract f e context w h in
      let h₂ = aside.sleep crawler.meta_retry w₁ h₁ in
      ground (arith, h₁, aside.extract f e context w₂ h₂)

  fetch_meta-Keeps :
      (f : Option (String → M W (RawMeta × Fault))) (context : String)
      → extract ≡ f
      → Keeps q (fetch_meta cr f context)
  unfolding fetch_meta
  fetch_meta-Keeps none context e w h = h
  fetch_meta-Keeps (some f) context e w h = fetch_raw-Keeps f context e w h

  choose_meta-Keeps :
      (id : ℤ) (upstream existing : Meta) → Keeps q (choose_meta cr id upstream existing)
  unfolding choose_meta
  choose_meta-Keeps id upstream existing w h =
      ground (arith, h, aside.add_torrent_meta id upstream w h)

  reload_image-Keeps : (id : ℤ) (url : String) → Keeps q (reload_image cr id url)
  unfolding reload_image
  reload_image-Keeps id url w h =
      let place = absolute cr url in
      let (p, w') = get_torrent_poster codec web texts.error_text place crawler.image_thumb w in
      let h' =
        get_torrent_poster-Keeps q web aside.web codec texts.error_text place crawler.image_thumb w
          h in
      ground (arith, h', aside.add_torrent_image id p.0 w' h')

  refresh_image-Keeps :
      (id : ℤ) (existing : Meta) (url : String) → Keeps q (refresh_image cr id existing url)
  unfolding refresh_image
  refresh_image-Keeps id existing url w h =
      let h' = aside.get_torrent_image id w h in
      ground (arith, h', reload_image-Keeps id url (db.get_torrent_image id w).1 h')

  complete-Keeps : (id : ℤ) (context : String) → Keeps q (complete cr id context)
  unfolding complete existing_meta
  complete-Keeps id context w h =
      let (up, w₁) = fetch_meta cr extract context w in
      let (existing, w₂) = existing_meta cr id w₁ in
      let (meta, w₃) = choose_meta cr id up.0 existing w₂ in
      refresh_image-Keeps id existing up.1 w₃ (
        choose_meta-Keeps id up.0 existing w₂
          (aside.get_torrent_meta id w₁ (fetch_meta-Keeps extract context refl w h)))

  -- An announcement changes nothing but what its calls change.
  pub notify-Keeps :
      (torrent : TorrentInfo) (context : String) (is_new : Bool)
      → Keeps q (notify cr torrent context is_new)
  unfolding notify
  notify-Keeps torrent context is_new = complete-Keeps torrent.id context
