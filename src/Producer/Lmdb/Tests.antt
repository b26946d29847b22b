-- ===== src/Producer/Lmdb/Tests.antt =====
-- A store for producer/lmdb/db.go whose world is the values by their keys, and the theorems at it.
use ttobserver_v.Base.{
  ◌≡◌, ◌≢◌, refl, String, Bool, true, false, Option, none, some, [], ◌∷◌, ◌⊎◌, inl, inr, pure,
  arith, if◌then◌else◌, nat_beq, nat_beq_iff, ◌&&◌, Bool-cases,
}
use ttobserver_v.Base.Int.{pos}
use ttobserver_v.Shared.Errors.{Err, Fault, ok, message}
use ttobserver_v.Shared.Database.{Bytes}
use ttobserver_v.Shared.Torrent.{TorrentInfo, Hashing, generate_torrent_info_hash}
use ttobserver_v.Producer.Lmdb.{Settings, Env, send, make_env, new_db}
use ttobserver_v.Producer.Lmdb.Keys.{IsStore, Sets, keys, send-Sets}
use ttobserver_v.Producer.Lmdb.Opening.{new_db-none}

abbrev same : Bytes → Bytes → Bool
same [] [] = true
same (x ∷ xs) (y ∷ ys) = nat_beq x y && same xs ys
same _ _ = false

same-true : (a b : Bytes) → same a b ≡ true → a ≡ b
same-true [] [] e = refl
same-true [] (y ∷ ys) e = absurd (cc (e))
same-true (x ∷ xs) [] e = absurd (cc (e))
same-true (x ∷ xs) (y ∷ ys) e = ground (arith, nat_beq_iff x y, same-true xs ys)

same_self : (a : Bytes) → same a a ≡ true
same_self [] = refl
same_self (x ∷ xs) = ground (arith, nat_beq_iff x x, same_self xs)

same-false : (a b : Bytes) → same a b ≡ false → a ≢ b
same-false a b e h = cc (e, h, same_self a)

abbrev Values : Type 0
Values = Bytes → Option String

-- A transaction that fails is taken back.
abbrev settle : Fault → Values → Values → Fault × Values
settle none w w' = (none, w')
settle (some e) w w' = (some e, w)

-- No environment can be made.
abbrev values : Env Values
values = record {
  new_env = pure (some (message "no environment"));
  wrap_env = pure none;
  set_max_dbs = λ n. pure none;
  set_map_size = λ n. pure none;
  stat = λ path. pure none;
  is_not_exist = λ e. true;
  mkdir = λ path. pure none;
  open_env = λ path async no_sync. pure none;
  update = λ body w. settle (body w).0 w (body w).1;
  create_dbi = λ name. pure none;
  put = λ k v w. (none, λ j. if same j k then some v else w j);
  sync = pure none;
  close = pure none;
}

values-puts :
    (k j : Bytes) (v : String) (w : Values)
    → ((j ≡ k) × ((values.put k v w).1 j ≡ some v)) ⊎ ((j ≢ k) × ((values.put k v w).1 j ≡ w j))
values-puts k j v w = elim (Bool-cases (same j k)) [
  | inl here ↦ inl (same-true j k here, rw (here) refl)
  | inr apart ↦ inr (same-false j k apart, rw (apart) refl)
]

settled :
    (e : Fault) (w w' : Values)
    → (settle e w w').0 ≡ none
    → (e ≡ none) × ((j : Bytes) → (settle e w w').1 j ≡ w' j)
settled none w w' done = (refl, λ j. refl)
settled (some e) w w' done = absurd (cc (done))

taken_back :
    (e : Fault) (x : Err) (j : Bytes) (w w' : Values)
    → (settle e w w').0 ≡ some x
    → (settle e w w').1 j ≡ w j
taken_back none x j w w' failed = absurd (cc (failed))
taken_back (some e) x j w w' failed = refl

values-IsStore : IsStore values
values-IsStore = record {
  value = λ j w. w j;
  puts = λ k j v w done. values-puts k j v w;
  inside = λ w. w;
  inside_same = λ j w. refl;
  commits = λ body w done. settled (body w).0 w (body w).1 done;
  aborts = λ body e j w failed. taken_back (body w).0 e j w (body w).1 failed;
}

abbrev hash_file : Settings
hash_file = record {
  path = "/tmp/hashes";
  max_size = pos 0;
  db_name = "hashes";
  key_prefix = 7 ∷ [];
  calculate_v2 = true;
  async_write = false;
  no_meta_sync = false;
}

abbrev hashing : Hashing
hashing = record {
  raw_info = λ content. ok content;
  sha1 = λ info. 1 ∷ [];
  sha256 = λ info. 2 ∷ 3 ∷ [];
}

abbrev tale : TorrentInfo
tale = record {
  id = pos 0;
  name = "tale";
  url = "";
  image = [];
  meta = [];
  files = [];
  content = 7 ∷ [];
  len = 0;
}

hashed : generate_torrent_info_hash hashing (7 ∷ []) true ≡ (1 ∷ [], 2 ∷ 3 ∷ [], none)
unfolding generate_torrent_info_hash
hashed = refl

abbrev no_values : Values
no_values j = none

send-Sets_example :
    let r = send hash_file values hashing tale no_values in
    ((r.0 ≡ none)
      × Sets hash_file values values-IsStore
          (keys hash_file values values-IsStore (1 ∷ []) (2 ∷ 3 ∷ []))
          "tale"
          no_values
          r.1)
    ⊎ (r.0 ≢ none × Sets hash_file values values-IsStore [] "tale" no_values r.1)
send-Sets_example =
    send-Sets hash_file values values-IsStore hashing tale (1 ∷ []) (2 ∷ 3 ∷ []) no_values hashed

has_path : ◌≢◌ {A = String} "/tmp/hashes" ""
has_path e = cc (e)

has_name : ◌≢◌ {A = String} "hashes" ""
has_name e = cc (e)

-- The environment is made, and the file cannot be opened.
abbrev unopened : Env Values
unopened = record values {
  new_env = pure none;
  open_env = λ path async no_sync. pure (some (message "no file"));
}

new_db-none_example :
    (((make_env hash_file unopened no_values).0 ≡ none)
      × ((new_db hash_file unopened no_values).0 ≡ some none))
    ⊎ (((make_env hash_file unopened no_values).0 ≢ none)
        × ((new_db hash_file unopened no_values).0 ≡ none))
new_db-none_example = new_db-none hash_file unopened no_values has_path has_name (λ w. refl)
