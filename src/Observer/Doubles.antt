-- ===== src/Observer/Doubles.antt =====
-- A small crawler, for the tests of observer.go.
use ttobserver_v.Base.{ℕ, true, false, none, some, List, [], ◌∷◌, pure, append_text, string_eq}
use ttobserver_v.Base.Int.{pos}
use ttobserver_v.Shared.Errors.{ok, err, parse_error}
use ttobserver_v.Shared.Database.{Database}
use ttobserver_v.Shared.Torrent.{FileEntry, Torrent, Response, Web}
use ttobserver_v.Shared.Torrent.Poster.{Codec}
use ttobserver_v.Observer.Settings.{Texts, Observer}
use ttobserver_v.Shared.Database.Doubles.{empty_db}

abbrev pub entries : List FileEntry
entries = record { len = 42; path = some ("one" ∷ []) } ∷ []

abbrev pub tale : Torrent
tale = record { publisher_url = ""; len = 0; files = some entries; name = "tale" }

abbrev pub page : Response
page = record { status_code = 200; status = "200 OK"; body = (1 ∷ [], none) }

-- Every page has the one torrent.
abbrev pub one_page : {W : Type 0} → Web W
one_page = record {
  head = λ url. pure (some page, none);
  get = λ url. pure (some page, none);
  decode = λ content. ok tale;
  join = λ parts. "";
}

-- The world is the stored offset; no torrent is stored, and each has the picture 9.
abbrev pub only_offset : Database ℕ
only_offset = record empty_db {
  check_torrent = λ id. pure (true, none);
  get_crawl_offset = λ w. ((w, none), w);
  get_torrent_image = λ id. pure (9 ∷ [], none);
  update_crawl_offset = λ offset w. (none, offset);
}

abbrev pub no_pictures : Codec
no_pictures = record {
  Picture = Unit;
  decode_image = λ body. (none, some parse_error);
  width = λ p. 1;
  height = λ p. 1;
  scale = λ p x y. p;
  encode_jpeg = λ p. err parse_error;
}

abbrev pub texts_of_tests : Texts
texts_of_tests = record {
  sprintf = λ format n. format;
  join_path = λ path. append_text "https://tales.test" path;
  contains_text = λ text part. false;
  clean = λ value. "";
  error_text = λ e. "error";
}

-- Producers are numbers; there are two.
abbrev pub crawling : Observer ℕ ℕ
crawling = record {
  crawler = record {
    base_url = "https://tales.test";
    context_url = "/torrent";
    limit = 0;
    delay = pos 60;
    threshold = 3;
    anniversary = 1000;
    meta_retry = 0;
    image_meta_field = "image";
    image_thumb = 320;
  };
  texts = texts_of_tests;
  web = one_page;
  codec = no_pictures;
  db = only_offset;
  extract = none;
  sleep = λ seconds. pure tt;
  announcer = record { producers = 1 ∷ 2 ∷ []; db = only_offset };
}
