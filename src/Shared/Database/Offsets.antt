-- ===== src/Shared/Database/Offsets.antt =====
-- shared/database.go: what the crawler relies on in a database for the crawl offset, and what a
-- client of it can see.
use ttobserver_v.Base.{ℕ, ◌^◌, ◌<◌, ◌≡◌, refl, none, List, [], ◌∷◌, All}
use ttobserver_v.Shared.Errors.{Fault}
use ttobserver_v.Shared.Database.{Database}

-- A database that has a crawl offset: it is read as it was stored, and a store succeeds.
pub record IsOffsetStore {W : Type 0} (db : Database W) : Type 1 where
  pub Holds : ℕ → W → Type 0
  pub reads : (n : ℕ) (w : W) → Holds n w → (db.get_crawl_offset w).0 ≡ (n, none)
  pub read_keeps : (n : ℕ) (w : W) → Holds n w → Holds n (db.get_crawl_offset w).1
  pub stores :
      (o n : ℕ) (w : W)
      → n < 2 ^ 64
      → Holds o w
      → ((db.update_crawl_offset n w).0 ≡ none) × Holds n (db.update_crawl_offset n w).1

-- What a client does with the offset, and what it sees.
pub data Op : Type 0 where
  get : Op
  update : ℕ → Op

pub data Seen : Type 0 where
  read : ℕ × Fault → Seen
  updated : Fault → Seen

-- A run of the client on a database.
unfoldable pub run : {W : Type 0} → Database W → List Op → W → List Seen
run db [] w = []
run db (get ∷ ops) w = let (r, w') = db.get_crawl_offset w in read r ∷ run db ops w'
run db (update n ∷ ops) w = let (e, w') = db.update_crawl_offset n w in updated e ∷ run db ops w'

-- The same on a number.
abbrev pub replay : List Op → ℕ → List Seen
replay [] o = []
replay (get ∷ ops) o = read (o, none) ∷ replay ops o
replay (update n ∷ ops) o = updated none ∷ replay ops n

-- The offsets of a client are numbers of 64 bits.
abbrev pub Fits : Op → Type 0
Fits get = Unit
Fits (update n) = n < 2 ^ 64

module _ {W : Type 0} (db : Database W) (store : IsOffsetStore db) where
  -- A database with a crawl offset answers as the number does.
  pub run-replay :
      (ops : List Op) (o : ℕ) (w : W) → All Fits ops → store.Holds o w → run db ops w ≡ replay ops o
  unfolding run
  run-replay [] o w fits h = refl
  run-replay (get ∷ ops) o w fits h = cc (
    store.reads o w h,
    run-replay ops o (db.get_crawl_offset w).1 fits.1 (store.read_keeps o w h),
  )
  run-replay (update n ∷ ops) o w fits h =
      let (done, h') = store.stores o n w fits.0 h in
      cc (done, run-replay ops n (db.update_crawl_offset n w).1 fits.1 h')
