-- ===== src/Producer/Vk/Tests.antt =====
-- A wall for producer/vk/vkcom.go that keeps its posts, and the theorem at it.
use mathlib.Core.List.{Permᴰ}
use ttobserver_v.Base.{◌≡◌, refl, String, true, false, none, some, List, [], ◌∷◌, ◌++◌, pure, ◌⊎◌}
use ttobserver_v.Base.Int.{ℤ, pos}
use ttobserver_v.Shared.Errors.{ok}
use ttobserver_v.Shared.Torrent.{TorrentInfo}
use ttobserver_v.Producer.Indexes.{format_message}
use ttobserver_v.Producer.Vk.{Notifier, Client, build_hash_tags, all_tags, tag_text, write_tag}
use ttobserver_v.Producer.Vk.Sending.{announce_text, send}
use ttobserver_v.Producer.Vk.Sending.Posts.{IsWall, IsTold, Announces, announces, send-announces}

abbrev Wall : Type 0
Wall = List (ℤ × String)

-- No picture can be uploaded.
abbrev wall : Client Wall Unit Unit
wall = record {
  upload_server = λ group. pure ("http://here", none);
  post_photo = λ url name photo. pure ([], none);
  decode_upload = λ body. (tt, none);
  save_photo = λ group u. pure ([], none);
  attachment = λ p. "";
  wall_post = λ owner msg attachment w. (none, w ++ ((owner, msg) ∷ []));
}

abbrev two_groups : Notifier Wall Unit Unit
two_groups = record {
  settings = record {
    token = "token";
    group_ids = 3 ∷ 4 ∷ [];
    ignore_unchanged = true;
    ignore_regexp = "";
    messages = record {
      announce = "{{.name}}";
      nx = "";
      replacements = [];
      added = "added";
      updated = "updated";
      single_index = "";
      multiple_indexes = "";
      tags = ("genre", false) ∷ [];
      tags_separator = ",";
    };
    proxy = "";
  };
  templates = record {
    announce = some (λ values. ok "text");
    nx = none;
    single_index = none;
    multiple_indexes = none;
  };
  client = some wall;
  ignored = λ name. false;
  texts = record {
    trim = λ s. s;
    split = λ s separator. s ∷ [];
    strip_symbols = λ s. "";
    join_spaces = λ s. s;
    content_type = λ photo. "image" ∷ "jpeg" ∷ [];
    random_name = λ ext. pure "1.jpeg";
    visit = pure ([], ("genre", false) ∷ []);
  };
  format = record { ratio = λ n d. ""; replace = λ name k v. name };
}

wall-IsWall : IsWall two_groups wall
wall-IsWall = record {
  asked = λ w. w;
  posts = λ owner msg attachment w. refl;
  server_keeps = λ group w. refl;
  photo_keeps = λ url name photo w. refl;
  save_keeps = λ group u w. refl;
  visit_keeps = λ w. refl;
  visits = λ w. (∣ Permᴰ.nil ∣₁, ∣ Permᴰ.cons refl Permᴰ.nil ∣₁);
  name_keeps = λ ext w. refl;
}

abbrev tale : TorrentInfo
tale = record {
  id = pos 0;
  name = "tale";
  url = "";
  image = 9 ∷ [];
  meta = [];
  files = ("/a", true) ∷ [];
  content = 7 ∷ [];
  len = 0;
}

told : IsTold two_groups wall wall-IsWall true tale
unfolding announce_text format_message
told order visited = refl

send-announces_example :
    let after = (send two_groups true tale []).1 in
    ((announces two_groups wall wall-IsWall tale ≡ true)
      × Announces two_groups wall wall-IsWall true tale (3 ∷ 4 ∷ []) [] after)
    ⊎ ((announces two_groups wall wall-IsWall tale ≡ false) × (after ≡ []))
unfolding wall-IsWall
send-announces_example =
    send-announces two_groups wall wall-IsWall true tale [] refl told (refl, tt)

-- A value of nothing but symbols is written as a tag without a name.
nameless_tag : build_hash_tags two_groups (("genre", "!!!") ∷ []) ≡ "# "
unfolding build_hash_tags all_tags tag_text write_tag
nameless_tag = refl
