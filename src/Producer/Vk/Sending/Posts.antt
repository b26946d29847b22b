-- ===== src/Producer/Vk/Sending/Posts.antt =====
-- producer/vk/vkcom.go: which posts an announcement makes.
use mathlib.Core.Path.{subst}
use mathlib.Core.List.{Perm, append_assoc, append-nil}
use ttobserver_v.Base.{
  ℕ, ◌≡◌, refl, ◌∙◌, sym, ap, String, Bool, true, false, ◌⊎◌, Dict, none, some, List, [], ◌∷◌, ◌++◌,
  M, arith, ◌==◌, string_eq, is_empty, ◌||◌, ◌&&◌, not, HasUniqueKeys, length, Bool-cases, inl, inr,
}
use ttobserver_v.Base.Int.{ℤ}
use ttobserver_v.Shared.Errors.{Fault}
use ttobserver_v.Shared.Database.{Bytes}
use ttobserver_v.Shared.Torrent.{TorrentInfo, new_files}
use ttobserver_v.Producer.Indexes.{get_new_files_indexes}
use ttobserver_v.Producer.Indexes.Order.{get_new_files_indexes-Rises}
use ttobserver_v.Producer.Vk.{Notifier, Client, owner_of}
use ttobserver_v.Producer.Vk.Sending.{
  photo_name, save_upload, decode_answer, upload_to, upload_image, attachment_of, post, post_all,
  in_order, announce_text, is_announced, send_by, send,
}

-- Orders in which the two maps of the messages can be visited: each entry is visited once.
abbrev pub IsVisit :
    {W U P : Type 0} → Notifier W U P → Dict String String × Dict String Bool → Type 0
IsVisit vk (replacements, tags) =
    Perm replacements vk.settings.messages.replacements × Perm tags vk.settings.messages.tags

-- The posts that were asked for, as owners with texts: an upload asks for none.
pub record IsWall {W U P : Type 0} (vk : Notifier W U P) (client : Client W U P) : Type 0 where
  pub asked : W → List (ℤ × String)
  pub posts :
      (owner : ℤ) (msg attachment : String) (w : W)
      → asked (client.wall_post owner msg attachment w).1 ≡ asked w ++ ((owner, msg) ∷ [])
  pub server_keeps : (group : ℕ) (w : W) → asked (client.upload_server group w).1 ≡ asked w
  pub photo_keeps :
      (url name : String) (photo : Bytes) (w : W)
      → asked (client.post_photo url name photo w).1 ≡ asked w
  pub save_keeps : (group : ℕ) (u : U) (w : W) → asked (client.save_photo group u w).1 ≡ asked w
  pub visit_keeps : (w : W) → asked (vk.texts.visit w).1 ≡ asked w
  pub visits : (w : W) → IsVisit vk (vk.texts.visit w).0
  pub name_keeps : (ext : String) (w : W) → asked (vk.texts.random_name ext w).1 ≡ asked w

module _ {W U P : Type 0} (vk : Notifier W U P) (client : Client W U P)
    (wall : IsWall vk client) where
  open wall use {asked}

  Quiet : {A : Type 0} → M W A → Type 0
  Quiet m = (w : W) → asked (m w).1 ≡ asked w

  Quiet-name : (parts : List String) → Quiet (photo_name vk parts)
  unfolding Quiet photo_name
  Quiet-name [] w = refl
  Quiet-name (a ∷ []) w = refl
  Quiet-name (a ∷ ext ∷ parts) w = wall.name_keeps ext w

  Quiet-save : (group : ℕ) (r : U × Fault) → Quiet (save_upload vk client group r)
  unfolding Quiet save_upload
  Quiet-save group (u, some e) w = refl
  Quiet-save group (u, none) w = wall.save_keeps group u w

  Quiet-decode : (group : ℕ) (r : Bytes × Fault) → Quiet (decode_answer vk client group r)
  unfolding Quiet decode_answer
  Quiet-decode group (body, some e) w = refl
  Quiet-decode group (body, none) w = Quiet-save group (client.decode_upload body) w

  Quiet-upload_to :
      (photo : Bytes) (group : ℕ) (r : String × Fault) → Quiet (upload_to vk client photo group r)
  unfolding Quiet upload_to
  Quiet-upload_to photo group (url, some e) w = refl
  Quiet-upload_to photo group (url, none) w =
      let (name, w₁) = photo_name vk (vk.texts.content_type photo) w in
      let (r, w₂) = client.post_photo url name photo w₁ in
      Quiet-decode group r w₂
      ∙ wall.photo_keeps url name photo w₁
      ∙ Quiet-name (vk.texts.content_type photo) w

  Quiet-attachment_of : (photo : Bytes) (group : ℕ) → Quiet (attachment_of vk client photo group)
  unfolding Quiet attachment_of upload_image
  Quiet-attachment_of [] group w = refl
  Quiet-attachment_of (b ∷ photo) group w =
      let (r, w₁) = client.upload_server group w in
      Quiet-upload_to (b ∷ photo) group r w₁ ∙ wall.server_keeps group w

  -- A text of the announcement, for some order of the two maps.
  abbrev pub IsText : Bool → TorrentInfo → String → Type 0
  IsText is_new t msg =
      (order : Dict String String × Dict String Bool) × IsVisit vk order
      × (announce_text (in_order vk order) is_new t ≡ (msg, none))

  -- One post for each group, in order, each with a text of the announcement.
  abbrev pub ArePosts : Bool → TorrentInfo → List ℕ → List (ℤ × String) → Type 0
  ArePosts is_new t [] [] = Unit
  ArePosts is_new t (group ∷ groups) ((owner, msg) ∷ posts) =
      (owner ≡ owner_of group) × IsText is_new t msg × ArePosts is_new t groups posts
  ArePosts is_new t _ _ = ⊥

  -- What is asked for between two worlds: one post for each group.
  abbrev pub Announces : Bool → TorrentInfo → List ℕ → W → W → Type 0
  Announces is_new t groups w w' =
      (posts : List (ℤ × String)) × (asked w' ≡ asked w ++ posts) × ArePosts is_new t groups posts

  -- The text can be made, in whatever order the maps are visited.
  abbrev pub IsTold : Bool → TorrentInfo → Type 0
  IsTold is_new t =
      (order : Dict String String × Dict String Bool)
      → IsVisit vk order
      → (announce_text (in_order vk order) is_new t).1 ≡ none

  post-one :
      (group : ℕ) (attachment : String) (r : String × Fault) (w : W)
      → r.1 ≡ none
      → asked (post vk client group attachment r w).1 ≡ asked w ++ ((owner_of group, r.0) ∷ [])
  unfolding post
  post-one group attachment (msg, none) w e = wall.posts (owner_of group) msg attachment w
  post-one group attachment (msg, some x) w e = absurd (cc (e))

  post_all-Announces :
      (is_new : Bool) (t : TorrentInfo) (groups : List ℕ) (w : W)
      → IsTold is_new t
      → Announces is_new t groups w (post_all vk client is_new t groups w).1
  unfolding post_all Quiet
  post_all-Announces is_new t [] w told = ([], sym (append-nil (asked w)), tt)
  post_all-Announces is_new t (g ∷ groups) w told =
      let (a, w₁) = attachment_of vk client t.image g w in
      let (order, w₂) = vk.texts.visit w₁ in
      let visited = wall.visits w₁ in
      let r = announce_text (in_order vk order) is_new t in
      let made = told order visited in
      let w₃ = (post vk client g a.0 r w₂).1 in
      let (posts, after, each) = post_all-Announces is_new t groups w₃ told in
      (
        (owner_of g, r.0) ∷ posts,
        after
            ∙ ap (λ p. p ++ posts)
                (post-one g a.0 r w₂ made
                  ∙ ap (λ p. p ++ ((owner_of g, r.0) ∷ []))
                      (wall.visit_keeps w₁ ∙ Quiet-attachment_of t.image g w))
            ∙ append_assoc (asked w) ((owner_of g, r.0) ∷ []) posts,
        (refl, (order, visited, ap (λ f. (r.0, f)) made), each),
      )

  -- Whether a torrent is to be announced: there is a text for it, its name is not ignored, and it has
  -- a new file unless unchanged torrents are announced too.
  abbrev pub announces : TorrentInfo → Bool
  announces t =
      not (vk.settings.messages.announce == "")
      && (not vk.settings.ignore_unchanged || not (is_empty (new_files t.files)))
      && not (vk.ignored t.name)

  is_empty-length :
      {A B : Type 0} (xs : List A) (ys : List B) → length xs ≡ length ys → is_empty xs ≡ is_empty ys
  is_empty-length [] [] e = refl
  is_empty-length [] (y ∷ ys) e = absurd (omega (arith, e))
  is_empty-length (x ∷ xs) [] e = absurd (omega (arith, e))
  is_empty-length (x ∷ xs) (y ∷ ys) e = refl

  is_announced-announces :
      (t : TorrentInfo) → HasUniqueKeys t.files → is_announced vk t ≡ announces t
  unfolding is_announced
  is_announced-announces t h = ground (
    arith,
    is_empty-length (get_new_files_indexes t.files) (new_files t.files)
        (get_new_files_indexes-Rises t.files h).1,
  )

  send_by-Announces :
      (is_new : Bool) (t : TorrentInfo) (w : W)
      → vk.client ≡ some client
      → IsTold is_new t
      → Announces is_new t vk.settings.group_ids w (send_by vk vk.client is_new t w).1
  unfolding send_by
  send_by-Announces is_new t w here told =
      subst (λ c. Announces is_new t vk.settings.group_ids w (send_by vk c is_new t w).1) (sym here)
        (post_all-Announces is_new t vk.settings.group_ids w told)

  -- With a client, a text that can be made in whatever order the maps are visited, and no file
  -- listed twice, an announcement asks for exactly one post in each group, in order, each with the
  -- text for some order of the maps of replacements and tags, when the torrent is to be announced,
  -- and else for none, whether or not pictures and posts fail.
  pub send-announces :
      (is_new : Bool) (t : TorrentInfo) (w : W)
      → vk.client ≡ some client
      → IsTold is_new t
      → HasUniqueKeys t.files
      → ((announces t ≡ true) × Announces is_new t vk.settings.group_ids w (send vk is_new t w).1)
        ⊎ ((announces t ≡ false) × (asked (send vk is_new t w).1 ≡ asked w))
  unfolding send
  send-announces is_new t w here told h = elim (Bool-cases (announces t)) [
    | inl wanted ↦
        inl (
          wanted,
          rw (is_announced-announces t h ∙ wanted) (send_by-Announces is_new t w here told),
        )
    | inr unwanted ↦ inr (unwanted, rw (is_announced-announces t h ∙ unwanted) refl)
  ]
