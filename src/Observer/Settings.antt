-- ===== src/Observer/Settings.antt =====
-- observer.go: the fields of `Observer` that the crawler reads, what it calls, and `ReadConfig`.
use ttobserver_v.Base.{none, some, pure, ◌>>=◌, ℕ, String, Bool, Option, Dict, M}
use ttobserver_v.Base.Int.{ℤ}
use ttobserver_v.Shared.Errors.{Fault}
use ttobserver_v.Shared.Database.{Bytes, Database}
use ttobserver_v.Shared.Torrent.{Web, ErrorText}
use ttobserver_v.Shared.Torrent.Poster.{Codec}
use ttobserver_v.Producer.Announcer.{Announcer}

-- The settings of `Crawler`; numbers of type uint are below 2^64.
pub record Crawler : Type 0 where
  pub base_url : String
  pub context_url : String
  pub limit : ℕ
  pub delay : ℤ
  pub threshold : ℕ
  pub anniversary : ℕ
  pub meta_retry : ℕ
  pub image_meta_field : String
  pub image_thumb : ℕ

abbrev pub RawMeta : Type 0
RawMeta = Dict String Bytes

-- The texts that the standard library makes: `fmt.Sprintf` of the context's format, `JoinPath` on
-- the parsed base URL, `strings.Contains`, and `TrimSpace` after `UnescapeString`.
pub record Texts : Type 0 where
  pub sprintf : String → ℕ → String
  pub join_path : String → String
  pub contains_text : String → String → Bool
  pub clean : Bytes → String
  pub error_text : ErrorText

-- A running observer, in a world `W` with producers `P`; a nil extractor is `none`.
pub record Observer (W P : Type 0) : Type 1 where
  pub crawler : Crawler
  pub texts : Texts
  pub web : Web W
  pub codec : Codec
  pub db : Database W
  pub extract : Option (String → M W (RawMeta × Fault))
  pub sleep : ℕ → M W (Unit {0})
  pub announcer : Announcer (Database W) P

-- `ReadConfig`: `clean` is `filepath.Clean`, `decode` is `json.Unmarshal` into an observer of zero
-- values; the observer comes with an error too.
unfoldable pub read_config :
    {W C : Type 0}
    → (String → String)
    → (String → M W (Bytes × Fault))
    → (Bytes → C × Fault)
    → C
    → String
    → M W (C × Fault)
read_config clean read_file decode zero path = do
  r ← read_file (clean path)
  pure (elim r.1 [ none ↦ decode r.0 | some e ↦ (zero, some e) ])
