-- ===== src/Observer/Check/Found.antt =====
-- `CheckTorrent` of observer.go: when an offset counts as found, and what is announced.
use mathlib.Core.Path.{subst, sym}
use mathlib.Core.List.{append-nil}
use ttobserver_v.Base.{
  ℕ, ◌%◌, ◌<◌, ◌≡◌, ◌≢◌, refl, String, true, false, Option, none, some, List, [], ◌++◌, arith, ltb,
  ltb→lt, Bool-cases, inl, inr, ◌==◌, nat_eq, if◌then◌else◌, ◌&&◌, ◌⊎◌,
}
use ttobserver_v.Base.Int.{ℤ, int_eq}
use ttobserver_v.Shared.Errors.{Fault}
use ttobserver_v.Shared.Database.{invalid_db_id}
use ttobserver_v.Shared.Torrent.{TorrentInfo, new_files, get_torrent}
use ttobserver_v.Producer.Announcer.{Call, send_all, send_nx_get_all}
use ttobserver_v.Observer.Settings.{Observer}
use ttobserver_v.Observer.Notify.{notify, complete}
use ttobserver_v.Observer.Check.{
  Outcome, returned, known, finish, announce, after_fetch, check_torrent, mark_known,
}

module _ {W P : Type 0} (cr : Observer W P) where
  open cr use {crawler, texts, web, db, announcer}

  -- The address that is asked for an offset.
  abbrev pub url_of : ℕ → String
  url_of offset = texts.join_path (texts.sprintf crawler.context_url offset)

  abbrev pub fetched : ℕ → W → Option TorrentInfo × Fault
  fetched offset w = (get_torrent web texts.error_text (url_of offset) w).0

  -- There is a torrent at the offset, without an error and with a length that is not 0.
  abbrev pub IsThere : Option TorrentInfo × Fault → Type 0
  IsThere (some t, none) = 0 < t.len
  IsThere _ = ⊥

  finish-returns :
      (offset : ℕ) (calls : List (Call P))
      → crawler.anniversary ≢ 0
      → (finish cr offset calls).0 ≡ returned true
  unfolding finish
  finish-returns offset calls h = ground arith

  after_fetch-returns :
      (offset : ℕ) (context url : String) (r : Option TorrentInfo × Fault) (w : W)
      → crawler.anniversary ≢ 0
      → let o = (after_fetch cr offset context url r w).0.0 in
        ((o ≡ returned true) × IsThere r) ⊎ ((o ≡ returned false) × (IsThere r → ⊥))
  unfolding after_fetch announce
  after_fetch-returns offset context url (some t, none) w h = elim (Bool-cases (ltb 0 t.len)) [
    | inl some_length ↦
        inl (
          rw some_length (unfold announce in finish-returns offset _ h),
          ltb→lt 0 t.len some_length,
        )
    | inr no_length ↦ inr (rw no_length, λ p. ground arith)
  ]
  after_fetch-returns offset context url (none, none) w h = inr (refl, λ p. p)
  after_fetch-returns offset context url (some t, some e) w h = inr (refl, λ p. p)
  after_fetch-returns offset context url (none, some e) w h = inr (refl, λ p. p)

  -- With an anniversary set, a check returns whatever the database answers, and it returns true
  -- exactly when there is a torrent of a length that is not 0 at the offset.
  pub check_torrent-returned :
      (offset : ℕ) (w : W)
      → crawler.anniversary ≢ 0
      → let o = (check_torrent cr offset w).0.0 in
        ((o ≡ returned true) × IsThere (fetched offset w))
        ⊎ ((o ≡ returned false) × (IsThere (fetched offset w) → ⊥))
  unfolding check_torrent
  check_torrent-returned offset w h =
      after_fetch-returns offset (texts.sprintf crawler.context_url offset) (url_of offset)
        (fetched offset w) (get_torrent web texts.error_text (url_of offset) w).1 h

  -- The calls of `SendNxGet` for an offset.
  abbrev pub anniversary_calls : ℕ → List (Call P)
  anniversary_calls offset =
      if ltb 0 offset && offset % crawler.anniversary == 0
      then send_nx_get_all announcer offset
      else []

  -- What the announcement of `t` has: the torrent that is sent to every producer, once, is `t` with
  -- its address and with the flags of the files that are `existing` cleared.
  pub record IsAnnounced (offset : ℕ) (t : TorrentInfo) (k : ℤ × List String)
      (calls : List (Call P)) : Type 0 where
    pub sent : TorrentInfo
    pub each_once :
        calls ≡ send_all announcer (k.0 == invalid_db_id) (some sent) ++ anniversary_calls offset
    pub name_kept : sent.name ≡ t.name
    pub content_kept : sent.content ≡ t.content
    pub len_kept : sent.len ≡ t.len
    pub url_set : sent.url ≡ url_of offset
    pub files_marked : sent.files ≡ mark_known k.1 t.files

  finish-calls :
      (offset : ℕ) (calls : List (Call P))
      → crawler.anniversary ≢ 0
      → (finish cr offset calls).1 ≡ calls ++ anniversary_calls offset
  unfolding finish
  finish-calls offset calls h = ground (arith, append-nil calls)

  announce-IsAnnounced :
      (offset : ℕ) (context : String) (t : TorrentInfo) (w : W)
      → crawler.anniversary ≢ 0
      → IsAnnounced offset t
          (known cr t.name w).0
          (announce cr offset context (url_of offset) t w).0.1
  unfolding announce notify
  announce-IsAnnounced offset context t w h =
      let (k, w₁) = known cr t.name w in
      let files = mark_known k.1 t.files in
      let (a, w₂) = db.add_torrent t.name t.content (new_files files) w₁ in
      let (c, w₃) = complete cr a.0 context w₂ in
      record {
        sent = record t { files = files; id = a.0; url = url_of offset; meta = c.0; image = c.1 };
        each_once = finish-calls offset _ h;
        name_kept = refl;
        content_kept = refl;
        len_kept = refl;
        url_set = refl;
        files_marked = refl;
      }

  after_fetch-some :
      (offset : ℕ) (context url : String) (r : Option TorrentInfo × Fault) (t : TorrentInfo) (w : W)
      → r ≡ (some t, none)
      → 0 < t.len
      → after_fetch cr offset context url r w ≡ announce cr offset context url t w
  unfolding after_fetch
  after_fetch-some offset context url r t w e p = rw e (ground arith)

  -- A torrent that is found is announced once to every producer, as new exactly when the database
  -- gave no identifier for its name, and the anniversary after it where the offset is a multiple.
  pub check_torrent-IsAnnounced :
      (offset : ℕ) (t : TorrentInfo) (w : W)
      → crawler.anniversary ≢ 0
      → fetched offset w ≡ (some t, none)
      → 0 < t.len
      → let w' = (get_torrent web texts.error_text (url_of offset) w).1 in
        IsAnnounced offset t (known cr t.name w').0 (check_torrent cr offset w).0.1
  unfolding check_torrent
  check_torrent-IsAnnounced offset t w h e p =
      let w' = (get_torrent web texts.error_text (url_of offset) w).1 in
      let context = texts.sprintf crawler.context_url offset in
      subst
        (λ (o : (Outcome × List (Call P)) × W). IsAnnounced offset t (known cr t.name w').0 o.0.1)
        (sym (after_fetch-some offset context (url_of offset) (fetched offset w) t w' e p))
        (announce-IsAnnounced offset context t w' h)
