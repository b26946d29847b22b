-- ===== src/Shared/Torrent/Fetch.antt =====
-- `GetTorrent` of shared/torrent.go: when there is a torrent, when an error and when neither.
use ttobserver_v.Base.{
  ◌<◌, ◌≡◌, refl, String, Option, none, some, arith, inl, inr, Bool-cases, ltb, ltb→lt, lt→ltb, ◌∙◌,
}
use ttobserver_v.Shared.Errors.{Fault, Result, ok, err}
use ttobserver_v.Shared.Database.{Bytes}
use ttobserver_v.Shared.Torrent.{
  TorrentInfo, Torrent, Response, Web, ErrorText, info_of, decoded, read_body, after_get,
  after_head, get_torrent,
}
use ttobserver_v.Shared.Torrent.Files.{IsFresh, files_of-IsFresh}

-- A response that is there, without an error and with a status below 400.
pub record IsGood (r : Option Response × Fault) : Type 0 where
  pub response : Response
  pub here : r.0 ≡ some response
  pub no_error : r.1 ≡ none
  pub accepted : response.status_code < 400

-- Where a torrent comes from: both requests were answered, and the second's body was read and
-- decoded.
pub record Origin {W : Type 0} (web : Web W) (url : String) (w : W) (t : TorrentInfo) : Type 0 where
  pub head_good : IsGood (web.head url w).0
  pub get_good : IsGood (web.get url (web.head url w).1).0
  pub content : Bytes
  pub source : Torrent
  pub read : get_good.response.body ≡ (content, none)
  pub decodes : web.decode content ≡ ok source
  pub same : t ≡ info_of web content source

no_torrent :
    {t : TorrentInfo} {e f : Fault} → ◌≡◌ {A = Option TorrentInfo × Fault} (none, f) (some t, e) → ⊥
no_torrent h = cc

module _ {W : Type 0} (web : Web W) where
  -- `t` is made of the bytes and the metainfo of a body that was read and decoded.
  abbrev Read : Bytes × Fault → TorrentInfo → Type 0
  Read b t =
      (content : Bytes) × (source : Torrent) × (b ≡ (content, none))
      × (web.decode content ≡ ok source)
      × (t ≡ info_of web content source)

  decoded-some :
      (content : Bytes) (r : Result Torrent) {t : TorrentInfo} {e : Fault}
      → decoded web content r ≡ (some t, e)
      → (e ≡ none) × ((source : Torrent) × (r ≡ ok source) × (t ≡ info_of web content source))
  unfolding decoded
  decoded-some content (ok s) h = (cc, (s, refl, cc))
  decoded-some content (err x) h = cc

  read_body-some :
      (b : Bytes × Fault) {t : TorrentInfo} {e : Fault}
      → read_body web b ≡ (some t, e)
      → (e ≡ none) × Read b t
  unfolding read_body
  read_body-some (content, none) h =
      let d = decoded-some content (web.decode content) h in
      (d.0, (content, d.1.0, refl, d.1.1, d.1.2))
  read_body-some (content, some x) h = cc

  after_get-some :
      (text : ErrorText) (r : Option Response × Fault) {t : TorrentInfo} {e : Fault}
      → after_get web text r.0 r.1 ≡ (some t, e)
      → (e ≡ none) × ((g : IsGood r) × Read g.response.body t)
  unfolding after_get
  after_get-some text (some resp, none) h = elim (Bool-cases (ltb resp.status_code 400)) [
    | inl low ↦
        let d = read_body-some resp.body ((rw low at h)) in
        (
          d.0,
          (
            record { response = resp; here = refl; no_error = refl; accepted = ltb→lt _ _ low },
            d.1,
          ),
        )
    | inr high ↦ absurd (no_torrent ((rw high at h)))
  ]
  after_get-some text (some resp, some x) h = cc
  after_get-some text (none, x) h = cc

  after_head-some :
      (text : ErrorText) (url : String) (r : Option Response × Fault) (w : W) {t : TorrentInfo}
      {e : Fault}
      → (after_head web text url r.0 r.1 w).0 ≡ (some t, e)
      → (e ≡ none) × IsGood r × ((g : IsGood (web.get url w).0) × Read g.response.body t)
  unfolding after_head
  after_head-some text url (some resp, none) w h = elim (Bool-cases (ltb resp.status_code 400)) [
    | inl low ↦
        let d = after_get-some text (web.get url w).0 ((rw low at h)) in
        (
          d.0,
          record { response = resp; here = refl; no_error = refl; accepted = ltb→lt _ _ low },
          d.1,
        )
    | inr high ↦ absurd (no_torrent ((rw high at h)))
  ]
  after_head-some text url (some resp, some x) w h = cc
  after_head-some text url (none, x) w h = cc

  -- A torrent comes with no error, and only out of two good responses and a body that was read
  -- whole and decoded; all its files are flagged as new, and none is listed twice.
  pub get_torrent-some :
      (text : ErrorText) (url : String) (w : W) (t : TorrentInfo) (e : Fault)
      → (get_torrent web text url w).0 ≡ (some t, e)
      → (e ≡ none) × Origin web url w t × IsFresh t.files
  unfolding get_torrent
  get_torrent-some text url w t e h =
      let d = after_head-some text url (web.head url w).0 (web.head url w).1 h in
      let r = d.2.1 in
      (
        d.0,
        record {
          head_good = d.1;
          get_good = d.2.0;
          content = r.0;
          source = r.1;
          read = r.2;
          decodes = r.3;
          same = r.4;
        },
        rw (r.4, info_of) (files_of-IsFresh web r.1),
      )

  read_body-found :
      (b : Bytes × Fault) (content : Bytes) (source : Torrent)
      → b ≡ (content, none)
      → web.decode content ≡ ok source
      → read_body web b ≡ (some (info_of web content source), none)
  unfolding read_body decoded
  read_body-found b content source e d = rw (e, d)

  after_get-found :
      (text : ErrorText) (r : Option Response × Fault) (g : IsGood r)
      → after_get web text r.0 r.1 ≡ read_body web g.response.body
  unfolding after_get
  after_get-found text r g = rw (g.here, g.no_error) (ground (arith, lt→ltb _ _ g.accepted))

  after_head-found :
      (text : ErrorText) (url : String) (r : Option Response × Fault) (w : W)
      → IsGood r
      → (after_head web text url r.0 r.1 w).0
        ≡ after_get web text (web.get url w).0.0 (web.get url w).0.1
  unfolding after_head
  after_head-found text url r w g = rw (g.here, g.no_error) (ground (arith, lt→ltb _ _ g.accepted))

  -- With two good responses and a body that is read and decodes, there is the torrent of the
  -- metainfo, without an error.
  pub get_torrent-found :
      (text : ErrorText) (url : String) (w : W) (content : Bytes) (source : Torrent)
      → IsGood (web.head url w).0
      → (g : IsGood (web.get url (web.head url w).1).0) → g.response.body ≡ (content, none)
      → web.decode content ≡ ok source
      → (get_torrent web text url w).0 ≡ (some (info_of web content source), none)
  unfolding get_torrent
  get_torrent-found text url w content source h g b d =
      after_head-found text url (web.head url w).0 (web.head url w).1 h
      ∙ after_get-found text (web.get url (web.head url w).1).0 g
      ∙ read_body-found g.response.body content source b d
