-- ===== src/Producer/Lmdb/Keys.antt =====
-- producer/lmdb/db.go: the entries that an announcement makes.
use mathlib.Core.List.{Memᴰ}
use mathlib.Core.Path.{subst}
use ttobserver_v.Base.{
  ◌≡◌, ◌≢◌, refl, ◌∙◌, sym, String, Option, none, some, List, [], ◌∷◌, ◌++◌, M, take, All,
  Option-cases, inl, inr, ◌⊎◌,
}
use ttobserver_v.Shared.Errors.{Err, Fault}
use ttobserver_v.Shared.Database.{Bytes}
use ttobserver_v.Shared.Torrent.{TorrentInfo, Hashing, generate_torrent_info_hash}
use ttobserver_v.Producer.SqlStore.{sha1_size}
use ttobserver_v.Producer.Lmdb.{Settings, Env, if_ok, put_v2, put_hashes, store_hashes, send}

-- What the environment does: a put changes the value of its key, and a transaction whose function
-- fails, or that cannot be committed, changes nothing.
pub record IsStore {W : Type 0} (env : Env W) : Type 0 where
  pub value : Bytes → W → Option String
  pub puts :
      (k j : Bytes) (v : String) (w : W)
      → (env.put k v w).0 ≡ none
      → ((j ≡ k) × (value j (env.put k v w).1 ≡ some v))
        ⊎ ((j ≢ k) × (value j (env.put k v w).1 ≡ value j w))
  -- the world in which the function runs
  pub inside : W → W
  pub inside_same : (j : Bytes) (w : W) → value j (inside w) ≡ value j w
  pub commits :
      (body : M W Fault) (w : W)
      → (env.update body w).0 ≡ none
      → ((body (inside w)).0 ≡ none)
        × ((j : Bytes) → value j (env.update body w).1 ≡ value j (body (inside w)).1)
  pub aborts :
      (body : M W Fault) (e : Err) (j : Bytes) (w : W)
      → (env.update body w).0 ≡ some e
      → value j (env.update body w).1 ≡ value j w

module _ {W : Type 0} (cfg : Settings) (env : Env W) (store : IsStore env) where
  open store use {value}

  -- Exactly the values of some keys are set to a name
  abbrev pub Sets : List Bytes → String → W → W → Type 0
  Sets ks name w w' =
      (j : Bytes)
      → (Memᴰ j ks × (value j w' ≡ some name)) ⊎ (All (λ k. j ≢ k) ks × (value j w' ≡ value j w))

  Sets-put :
      (k : Bytes) (ks : List Bytes) (name : String) (w w' : W)
      → (env.put k name w).0 ≡ none
      → Sets ks name (env.put k name w).1 w'
      → Sets (k ∷ ks) name w w'
  Sets-put k ks name w w' done rest j = elim (rest j) [
    | inl (later, is) ↦ inl (Memᴰ.tail later, is)
    | inr (apart, same) ↦ elim (store.puts k j name w done) [
      | inl (here, is) ↦ inl (Memᴰ.head here, same ∙ is)
      | inr (other, same') ↦ inr ((other, apart), same ∙ same')
    ]
  ]

  Sets-none : (name : String) (w : W) → Sets [] name w w
  Sets-none name w j = inr (tt, refl)

  -- A put before the rest of the function
  put-if_ok :
      (k : Bytes) (ks : List Bytes) (name : String) (rest : M W Fault) (w : W)
      → ((w : W) → (rest w).0 ≡ none → Sets ks name w (rest w).1)
      → let (e, w₁) = env.put k name w in
        (if_ok cfg env rest e w₁).0 ≡ none → Sets (k ∷ ks) name w (if_ok cfg env rest e w₁).1
  unfolding if_ok
  put-if_ok k ks name rest w sets done =
      let w₁ = (env.put k name w).1 in
      elim (Option-cases (env.put k name w).0) [
        | inl good ↦ rw (good) (Sets-put k ks name w (rest w₁).1 good (sets w₁ (rw (good) at done)))
        | inr (e, bad) ↦ absurd (cc (rw (bad) at done))
      ]

  -- The keys of the hybrid hashes, and of all hashes
  abbrev pub keys_v2 : Bytes → List Bytes
  keys_v2 [] = []
  keys_v2 (b ∷ h2) = (cfg.key_prefix ++ b ∷ h2) ∷ (cfg.key_prefix ++ take sha1_size (b ∷ h2)) ∷ []

  abbrev pub keys : Bytes → Bytes → List Bytes
  keys h1 h2 = (cfg.key_prefix ++ h1) ∷ keys_v2 h2

  put_v2-Sets :
      (name : String) (h2 : Bytes) (w : W)
      → (put_v2 cfg env name h2 w).0 ≡ none
      → Sets (keys_v2 h2) name w (put_v2 cfg env name h2 w).1
  unfolding put_v2
  put_v2-Sets name [] w done = Sets-none name w
  put_v2-Sets name (b ∷ h2) w done =
      let short : Bytes = cfg.key_prefix ++ take sha1_size (b ∷ h2) in
      put-if_ok (cfg.key_prefix ++ b ∷ h2) (short ∷ []) name (env.put short name) w
        (λ w' good.
          Sets-put short [] name w' (env.put short name w').1 good
            (Sets-none name (env.put short name w').1))
        done

  put_hashes-Sets :
      (name : String) (h1 h2 : Bytes) (w : W)
      → (put_hashes cfg env name h1 h2 w).0 ≡ none
      → Sets (keys h1 h2) name w (put_hashes cfg env name h1 h2 w).1
  unfolding put_hashes
  put_hashes-Sets name h1 h2 w done =
      put-if_ok (cfg.key_prefix ++ h1) (keys_v2 h2) name (put_v2 cfg env name h2) w
        (put_v2-Sets name h2) done

  -- The same keys are set when the values before and after are the same
  through :
      (ks : List Bytes) (name : String) (j : Bytes) {a b c d : Option String}
      → b ≡ a
      → d ≡ c
      → (Memᴰ j ks × (c ≡ some name)) ⊎ (All (λ k. j ≢ k) ks × (c ≡ b))
      → (Memᴰ j ks × (d ≡ some name)) ⊎ (All (λ k. j ≢ k) ks × (d ≡ a))
  through ks name j before after (inl (there, is)) = inl (there, after ∙ is)
  through ks name j before after (inr (apart, same)) = inr (apart, after ∙ same ∙ before)

  update-Sets :
      (name : String) (h1 h2 : Bytes) (w : W)
      → let r = env.update (put_hashes cfg env name h1 h2) w in
        ((r.0 ≡ none) × Sets (keys h1 h2) name w r.1) ⊎ (r.0 ≢ none × Sets [] name w r.1)
  update-Sets name h1 h2 w =
      let body = put_hashes cfg env name h1 h2 in
      elim (Option-cases (env.update body w).0) [
        | inl good ↦
            let (ran, same) = store.commits body w good in
            inl (
              good,
              λ j.
                  through (keys h1 h2) name j (store.inside_same j w) (same j)
                    (put_hashes-Sets name h1 h2 (store.inside w) ran j),
            )
        | inr (e, bad) ↦ inr ((λ good. cc (good, bad)), λ j. inr (tt, store.aborts body e j w bad))
      ]

  -- When the hashes of a torrent can be made, `Send` sets the values of exactly their keys, each
  -- behind the prefix, to the torrent's name; or it ends with an error, and no value has changed.
  pub send-Sets :
      (h : Hashing) (t : TorrentInfo) (h1 h2 : Bytes) (w : W)
      → generate_torrent_info_hash h t.content cfg.calculate_v2 ≡ (h1, h2, none)
      → let r = send cfg env h t w in
        ((r.0 ≡ none) × Sets (keys h1 h2) t.name w r.1) ⊎ (r.0 ≢ none × Sets [] t.name w r.1)
  unfolding send store_hashes
  send-Sets h t h1 h2 w hashed =
      subst
        (λ (p : Bytes × Bytes × Fault).
          let r = store_hashes cfg env t.name p w in
          ((r.0 ≡ none) × Sets (keys h1 h2) t.name w r.1) ⊎ (r.0 ≢ none × Sets [] t.name w r.1))
        (sym hashed) (update-Sets t.name h1 h2 w)
