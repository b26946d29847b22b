-- ===== src/Cmd/Migrate/Facts.antt =====
-- `migrate` of cmd/migrate.go: steps that store facts in the new database, and what joins them.
use ttobserver_v.Base.{
  ℕ, ◌≡◌, refl, ap, String, none, List, [], ◌∷◌, ◌++◌, M, arith, All, Option-cases, inl, inr, ◌⊎◌,
}
use ttobserver_v.Base.Int.{ℤ}
use ttobserver_v.Shared.Errors.{Fault}
use ttobserver_v.Shared.Database.{Database, DbTorrent, Meta}
use ttobserver_v.Cmd.Migrate.{Outcome, complete, fatal, Stage, then_do, must, must_get, each}

-- What the new database may hold: the crawl offset, a chat, an administrator, a torrent by its
-- identifier, a file of a torrent, a value of a torrent's meta.
pub data Fact : Type 0 where
  offset : ℕ → Fact
  chat : ℤ → Fact
  admin : ℤ → Fact
  torrent : ℤ → Fact
  file : ℤ → String → Fact
  meta : ℤ → String → Fact

abbrev pub facts_of_files : ℤ → List String → List Fact
facts_of_files id [] = []
facts_of_files id (f ∷ fs) = file id f ∷ facts_of_files id fs

abbrev pub facts_of_meta : ℤ → Meta → List Fact
facts_of_meta id [] = []
facts_of_meta id ((k, v) ∷ m) = meta id k ∷ facts_of_meta id m

pub Outcome-cases : (o : Outcome) → (o ≡ complete) ⊎ ((s : Stage) × (x : Fault) × (o ≡ fatal s x))
Outcome-cases complete = inl refl
Outcome-cases (fatal s x) = inr (s, x, refl)

-- The facts of all the elements of a list
abbrev pub gather : {A : Type 0} → (A → List Fact) → List A → List Fact
gather facts [] = []
gather facts (a ∷ as') = facts a ++ gather facts as'

module _ {W : Type 0} (Holds : Fact → W → Type 0) where
  -- A call that takes nothing away.
  abbrev pub Keeps : {A : Type 0} → M W A → Type 0
  Keeps m = (f : Fact) (w : W) → Holds f w → Holds f (m w).1

  -- A write of some facts: where it reports no error they hold after it.
  abbrev pub Writes : M W Fault → List Fact → Type 0
  Writes m fs = (w : W) → (m w).0 ≡ none → All (λ f. Holds f (m w).1) fs

  -- A database that is read: its answers stay the same while the other one is written.
  pub record IsSource (old_db : Database W) : Type 0 where
    pub crawl_offset : ℕ
    pub chats : List ℤ
    pub admins : List ℤ
    pub torrents : List DbTorrent
    pub files_of : ℤ → List String
    pub meta_of : ℤ → Meta
    pub offset_read : (w : W) → (old_db.get_crawl_offset w).0 ≡ (crawl_offset, none)
    pub chats_read : (w : W) → (old_db.get_chats w).0 ≡ (chats, none)
    pub admins_read : (w : W) → (old_db.get_admins w).0 ≡ (admins, none)
    pub torrents_read : (w : W) → (old_db.m_get_torrents w).0 ≡ (torrents, none)
    pub files_read : (id : ℤ) (w : W) → (old_db.get_torrent_files id w).0 ≡ (files_of id, none)
    pub meta_read : (id : ℤ) (w : W) → (old_db.get_torrent_meta id w).0 ≡ (meta_of id, none)
    pub offset_keeps : Keeps old_db.get_crawl_offset
    pub chats_keeps : Keeps old_db.get_chats
    pub admins_keeps : Keeps old_db.get_admins
    pub torrents_keeps : Keeps old_db.m_get_torrents
    pub files_keeps : (id : ℤ) → Keeps (old_db.get_torrent_files id)
    pub meta_keeps : (id : ℤ) → Keeps (old_db.get_torrent_meta id)
    pub close_keeps : Keeps old_db.close

  -- A database that is written: a write stores its facts, and the later ones take none away; the
  -- offset is written first and once.
  pub record IsTarget (new_db : Database W) : Type 0 where
    pub offset_writes : (n : ℕ) → Writes (new_db.update_crawl_offset n) (offset n ∷ [])
    pub chat_writes : (c : ℤ) → Writes (new_db.add_chat c) (chat c ∷ [])
    pub admin_writes : (c : ℤ) → Writes (new_db.add_admin c) (admin c ∷ [])
    pub torrent_writes :
        (t : DbTorrent) (fs : List String)
        → Writes (new_db.m_put_torrent t fs) (torrent t.id ∷ facts_of_files t.id fs)
    pub meta_writes :
        (id : ℤ) (m : Meta) → Writes (new_db.add_torrent_meta id m) (facts_of_meta id m)
    pub chat_keeps : (c : ℤ) → Keeps (new_db.add_chat c)
    pub admin_keeps : (c : ℤ) → Keeps (new_db.add_admin c)
    pub torrent_keeps : (t : DbTorrent) (fs : List String) → Keeps (new_db.m_put_torrent t fs)
    pub meta_keeps : (id : ℤ) (m : Meta) → Keeps (new_db.add_torrent_meta id m)
    pub close_keeps : Keeps new_db.close

  -- The facts hold after a step that does not end the program.
  abbrev pub Puts : M W Outcome → List Fact → Type 0
  Puts m fs = (w : W) → (m w).0 ≡ complete → All (λ f. Holds f (m w).1) fs

  pub All-keep :
      {A : Type 0} (m : M W A) (fs : List Fact) (w : W)
      → Keeps m
      → All (λ f. Holds f w) fs
      → All (λ f. Holds f (m w).1) fs
  All-keep m [] w k h = tt
  All-keep m (f ∷ fs) w k h = (k f w h.0, All-keep m fs w k h.1)

  pub All-both : (P : Fact → Type 0) (fs gs : List Fact) → All P fs → All P gs → All P (fs ++ gs)
  All-both P [] gs h k = k
  All-both P (f ∷ fs) gs h k = (h.0, All-both P fs gs h.1 k)

  pub Keeps-then_do : (m n : M W Outcome) → Keeps m → Keeps n → Keeps (then_do m n)
  Keeps-then_do m n km kn f w h = ground (arith, km f w, kn f (m w).1)

  pub Keeps-must : (s : Stage) (m : M W Fault) → Keeps m → Keeps (must s m)
  unfolding must
  Keeps-must s m k f w h = k f w h

  pub Keeps-must_get :
      {A : Type 0} (s : Stage) (m : M W (A × Fault)) (rest : A → M W Outcome)
      → Keeps m
      → ((a : A) → Keeps (rest a))
      → Keeps (must_get s m rest)
  unfolding must_get
  Keeps-must_get s m rest k kr f w h = let (r, w') = m w in ground (arith, k f w, kr r.0 f w')

  pub Keeps-each :
      {A : Type 0} (body : A → M W Outcome)
      → ((a : A) → Keeps (body a))
      → (as' : List A) → Keeps (each body as')
  unfolding each
  Keeps-each body k [] f w h = h
  Keeps-each body k (a ∷ as') f w h =
      Keeps-then_do (body a) (each body as') (k a) (Keeps-each body k as') f w h

  pub then_do-complete :
      (m n : M W Outcome) (w : W)
      → (then_do m n w).0 ≡ complete
      → ((m w).0 ≡ complete) × (then_do m n w ≡ n (m w).1)
  then_do-complete m n w e = elim (Outcome-cases (m w).0) [
    | inl done ↦ (done, rw (done, then_do))
    | inr (s, x, stop) ↦ absurd (cc (rw (stop, then_do) at e))
  ]

  pub Puts-then_do :
      (m n : M W Outcome) (fs gs : List Fact)
      → Puts m fs
      → Puts n gs
      → Keeps n
      → Puts (then_do m n) (fs ++ gs)
  Puts-then_do m n fs gs pm pn kn w e =
      let (done, next) = then_do-complete m n w e in
      let w' = (m w).1 in
      rw next (
        All-both (λ f. Holds f (n w').1) fs gs (All-keep n fs w' kn (pm w done))
          (pn w' (rw next at e)))

  pub Puts-must : (s : Stage) (m : M W Fault) (fs : List Fact) → Writes m fs → Puts (must s m) fs
  unfolding must
  Puts-must s m fs h w e = elim (Option-cases (m w).0) [
    | inl fine ↦ h w fine
    | inr (x, bad) ↦ absurd (cc (rw bad at e))
  ]

  pub must_get-known :
      {A : Type 0} (s : Stage) (m : M W (A × Fault)) (rest : A → M W Outcome) (a : A) (w : W)
      → (m w).0 ≡ (a, none)
      → must_get s m rest w ≡ rest a (m w).1
  unfolding must_get
  must_get-known {A} s m rest a w known =
      rw (known, must_get) (ap (λ (b : A × Fault). rest b.0 (m w).1) known)

  -- A read whose answer is known.
  pub Puts-must_get :
      {A : Type 0} (s : Stage) (m : M W (A × Fault)) (rest : A → M W Outcome) (a : A)
      (fs : List Fact)
      → ((w : W) → (m w).0 ≡ (a, none))
      → Puts (rest a) fs
      → Puts (must_get s m rest) fs
  unfolding must_get
  Puts-must_get s m rest a fs known h w e =
      let next = must_get-known s m rest a w (known w) in rw next (h (m w).1 (rw next at e))

  -- A loop puts the facts of all its elements.
  pub Puts-each :
      {A : Type 0} (body : A → M W Outcome) (facts : A → List Fact)
      → ((a : A) → Puts (body a) (facts a))
      → ((a : A) → Keeps (body a))
      → (as' : List A) → Puts (each body as') (gather facts as')
  unfolding each
  Puts-each body facts p k [] w e = tt
  Puts-each body facts p k (a ∷ as') w e =
      Puts-then_do (body a) (each body as') (facts a) (gather facts as') (p a)
        (Puts-each body facts p k as') (Keeps-each body k as') w e
