-- ===== src/Producer/Telegram/Sending/Delivery.antt =====
-- producer/tg/telegram.go: the temporary file of a picture that is sent.
use ttobserver_v.Base.{
  ◌≡◌, ◌≢◌, String, Bool, true, false, none, some, List, ◌==◌, string_eq, if◌then◌else◌, ◌⊎◌,
}
use ttobserver_v.Base.Int.{ℤ}
use ttobserver_v.Shared.Database.{Bytes}
use ttobserver_v.Producer.Telegram.{Notifier}

-- What the file system does: a temporary file is new and has a name, a write makes no file, and a
-- file that is removed without an error is gone. The database and the client touch no file.
pub record IsFileSystem {W : Type 0} (tg : Notifier W) : Type 0 where
  pub there : String → W → Bool
  pub chats_keep : (q : String) (w : W) → there q (tg.db.get_chats w).1 ≡ there q w
  pub photo_keeps :
      (path msg : String) (chats : List ℤ) (b : Bool) (q : String) (w : W)
      → there q (tg.client.send_photo path msg chats b w).1 ≡ there q w
  pub uncreated :
      (ext q : String) (w : W)
      → (tg.files.create_temp ext w).0 ≡ none
      → there q (tg.files.create_temp ext w).1 ≡ there q w
  pub created :
      (ext p q : String) (w : W)
      → (tg.files.create_temp ext w).0 ≡ some p
      → (p ≢ "")
        × (there p w ≡ false)
        × (there q (tg.files.create_temp ext w).1 ≡ (if p == q then true else there q w))
  pub write_keeps :
      (path q : String) (photo : Bytes) (w : W)
      → there q (tg.files.write path photo w).1 ≡ there q w
  pub removed :
      (p q : String) (w : W)
      → (tg.files.remove p w).0 ≡ none
      → there q (tg.files.remove p w).1 ≡ (if p == q then false else there q w)

-- No write to a file fails.
abbrev pub Writable : {W : Type 0} → Notifier W → Type 0
Writable {W = W} tg =
    (path : String) (photo : Bytes) (w : W) → (tg.files.write path photo w).0 ≡ none

-- A file that is there can be removed.
abbrev pub Removable : {W : Type 0} (tg : Notifier W) → IsFileSystem tg → Type 0
Removable {W = W} tg fs =
    (p : String) (w : W) → fs.there p w ≡ true → (tg.files.remove p w).0 ≡ none

module _ {W : Type 0} (tg : Notifier W) (fs : IsFileSystem tg) (writable : Writable tg)
    (removable : Removable tg fs) where
  open fs use {there}

  -- Where a picture's path is, and what is there then.
  PathThere : String → W → String × W → Type 0
  PathThere q w (p, w') =
      ((p ≡ "") × (there q w' ≡ there q w))
      ⊎ ((p ≢ "") × (there p w ≡ false) × (there q w' ≡ (if p == q then true else there q w)))
