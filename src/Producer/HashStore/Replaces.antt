-- ===== src/Producer/HashStore/Replaces.antt =====
-- producer/redis/redis.go: what an announcement leaves in the table of the hashes.
use ttobserver_v.Base.{
  ◌≡◌, ◌≢◌, refl, ◌∙◌, sym, ap, String, Bool, Option, none, some, List, [], ◌∷◌, map, arith,
  if◌then◌else◌, ◌==◌, ◌&&◌, string_eq, contains, not, pure, take, append_text, inl, inr, eq_iff,
  Bool-cases,
}
use ttobserver_v.Shared.Errors.{Fault}
use ttobserver_v.Shared.Database.{Bytes}
use ttobserver_v.Shared.Torrent.{TorrentInfo, Hashing, generate_torrent_info_hash}
use ttobserver_v.Producer.SqlStore.{sha1_size}
use ttobserver_v.Producer.HashStore.{
  Settings, Client, v1_field, v2_field, hybrid_field, present, name_key, delete_fields,
  forget_fields, forget, hash_entries, name_entries, store_name, store, send,
}

-- The value of a field after entries are written in order
abbrev pub written : List (String × String) → String → Option String → Option String
written [] f old = old
written ((g, v) ∷ es) f old = written es f (if g == f then some v else old)

-- A server that answers: what its commands do to the fields of its hashes. Only the commands that
-- write entries may fail.
pub record IsServer {W : Type 0} (con : Client W) : Type 0 where
  pub field : String → String → W → Option String
  pub read :
      (key : String) (fs : List String) (w : W)
      → (con.hmget key fs w).0 ≡ (map (λ f. field key f w) fs, none)
  pub read_keeps :
      (key : String) (fs : List String) (k f : String) (w : W)
      → field k f (con.hmget key fs w).1 ≡ field k f w
  pub deleted :
      (key : String) (fs : List String) (k f : String) (w : W)
      → field k f (con.hdel key fs w).1 ≡ (if key == k && contains f fs then none else field k f w)
  pub stored :
      (key : String) (es : List (String × String)) (k f : String) (w : W)
      → (con.hset key es w).0 ≡ none
      → field k f (con.hset key es w).1
        ≡ (if key == k then written es f (field k f w) else field k f w)

module _ {W : Type 0} (r : Settings) (con : Client W) (server : IsServer con) where
  open server use {field}

  -- The hashes that are kept for a name
  unfoldable pub previous : String → W → List String
  unfolding present name_key
  previous name w =
      present r con
        (map (λ f. field (name_key r con name) f w) (v1_field ∷ v2_field ∷ hybrid_field ∷ []))

  delete_fields-field :
      (fs : List String) (k f : String) (w : W)
      → field k f (delete_fields r con fs w).1
        ≡ (if r.hash_key == k && contains f fs then none else field k f w)
  unfolding delete_fields
  delete_fields-field [] k f w = ground arith
  delete_fields-field (g ∷ fs) k f w = server.deleted r.hash_key (g ∷ fs) k f w

  forget-field :
      (name k f : String) (w : W)
      → field k f (forget r con name w).1
        ≡ (if r.hash_key == k && contains f (previous name w) then none else field k f w)
  unfolding forget forget_fields previous
  forget-field name k f w =
      let fs : List String = v1_field ∷ v2_field ∷ hybrid_field ∷ [] in
      let w' = (con.hmget (name_key r con name) fs w).1 in
      ap (λ p. field k f (forget_fields r con p w').1) (server.read (name_key r con name) fs w)
      ∙ delete_fields-field (previous name w) k f w'
      ∙ ap (λ o. if r.hash_key == k && contains f (previous name w) then none else o)
          (server.read_keeps (name_key r con name) fs k f w)

  -- Two writes, to different hashes
  stored_both :
      (a b : String) (es ns : List (String × String)) (f : String) (w : W)
      → a ≢ b
      → (con.hset a es w).0 ≡ none
      → (con.hset b ns (con.hset a es w).1).0 ≡ none
      → let w' = (con.hset b ns (con.hset a es w).1).1 in
        (field a f w' ≡ written es f (field a f w)) × (field b f w' ≡ written ns f (field b f w))
  stored_both a b es ns f w apart first second =
      let w₁ = (con.hset a es w).1 in
      ground (
        arith,
        eq_iff a b,
        eq_iff b a,
        eq_iff a a,
        eq_iff b b,
        server.stored a es a f w first,
        server.stored a es b f w first,
        server.stored b ns a f w₁ second,
        server.stored b ns b f w₁ second,
      )

  store_name-field :
      (name : String) (h1 h2 : Bytes) (f : String) (w : W) (e : Fault)
      → r.hash_key ≢ name_key r con name
      → let (o, w₁) = con.hset r.hash_key (hash_entries r con name h1 h2) w in
        o ≡ e
        → (store_name r con name h1 h2 e w₁).0 ≡ none
        → let w' = (store_name r con name h1 h2 e w₁).1 in
          (field r.hash_key f w' ≡ written (hash_entries r con name h1 h2) f (field r.hash_key f w))
          × (field (name_key r con name) f w'
              ≡ written (name_entries r con h1 h2) f (field (name_key r con name) f w))
  unfolding store_name
  store_name-field name h1 h2 f w none apart first second =
      stored_both r.hash_key (name_key r con name) (hash_entries r con name h1 h2)
        (name_entries r con h1 h2) f w apart first second
  store_name-field name h1 h2 f w (some e) apart first second = absurd (cc (second))

  store-field :
      (name : String) (h1 h2 : Bytes) (f : String) (w : W)
      → r.hash_key ≢ name_key r con name
      → (store r con name (h1, h2, none) w).0 ≡ none
      → let w' = (store r con name (h1, h2, none) w).1 in
        (field r.hash_key f w' ≡ written (hash_entries r con name h1 h2) f (field r.hash_key f w))
        × (field (name_key r con name) f w'
            ≡ written (name_entries r con h1 h2) f (field (name_key r con name) f w))
  unfolding store
  store-field name h1 h2 f w apart done =
      store_name-field name h1 h2 f w (con.hset r.hash_key (hash_entries r con name h1 h2) w).0
        apart refl done

  sent :
      (is_new : Bool) (name : String) (h1 h2 : Bytes) (f : String) (w : W)
      → r.hash_key ≢ name_key r con name
      → let w₁ = ((if is_new then pure tt else forget r con name) w).1 in
        (store r con name (h1, h2, none) w₁).0 ≡ none
        → let w' = (store r con name (h1, h2, none) w₁).1 in
          (field r.hash_key f w'
            ≡ written
                (hash_entries r con name h1 h2)
                f
                (if not is_new && contains f (previous name w) then none else field r.hash_key f w))
          × (field (name_key r con name) f w'
              ≡ written (name_entries r con h1 h2) f (field (name_key r con name) f w))
  sent is_new name h1 h2 f w apart done =
      let w₁ = ((if is_new then pure tt else forget r con name) w).1 in
      ground (
        arith,
        eq_iff r.hash_key r.hash_key,
        eq_iff r.hash_key (name_key r con name),
        store-field name h1 h2 f w₁ apart done,
        forget-field name r.hash_key f w,
        forget-field name (name_key r con name) f w,
      )

  -- The hashes of a torrent that are stored
  abbrev pub hashes : Bytes → Bytes → List String
  hashes h1 h2 =
      con.raw h1 ∷ (if r.calculate_v2 then con.raw h2 ∷ con.raw (take sha1_size h2) ∷ [] else [])

  written-hash_entries :
      (name : String) (h1 h2 : Bytes) (f : String) (old : Option String)
      → written (hash_entries r con name h1 h2) f old
        ≡ (if contains f (hashes h1 h2) then some name else old)
  unfolding hash_entries
  written-hash_entries name h1 h2 f old = elim (Bool-cases r.calculate_v2) [
    | inl v2 ↦ rw (v2) ground arith
    | inr v1 ↦ rw (v1) ground arith
  ]

  -- On a server that answers the reads and deletions, with a table whose key is not that of the
  -- hash of the torrent's name, an announcement whose writes succeed leaves in the table its own
  -- hashes with its name, and of a torrent that is not new no other hash that was kept for the
  -- name; every other field of the table is as before.
  pub send-replaces :
      (h : Hashing) (is_new : Bool) (t : TorrentInfo) (h1 h2 : Bytes) (f : String) (w : W)
      → append_text r.name_key_prefix t.name ≢ r.hash_key
      → generate_torrent_info_hash h t.content r.calculate_v2 ≡ (h1, h2, none)
      → (send r con h is_new t w).0 ≡ none
      → field r.hash_key f (send r con h is_new t w).1 ≡ (
          if contains f (hashes h1 h2)
          then some t.name
          else (if not is_new && contains f (previous t.name w)
              then none
              else field r.hash_key f w))
  unfolding send name_key
  send-replaces h is_new t h1 h2 f w apart hashed done =
      let w₁ = ((if is_new then pure tt else forget r con t.name) w).1 in
      let ran : send r con h is_new t w ≡ store r con t.name (h1, h2, none) w₁ =
        ap (λ p. store r con t.name p w₁) hashed in
      let stored = ap (λ (o : Fault × W). o.0) (sym ran) ∙ done in
      ap (λ (o : Fault × W). field r.hash_key f o.1) ran
      ∙ (sent is_new t.name h1 h2 f w (λ e. apart (sym e)) stored).0
      ∙ written-hash_entries t.name h1 h2 f _
