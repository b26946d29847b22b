-- ===== src/RedisDb/Tests.antt =====
-- A small Redis of hashes for shared/redis/db.go, and the theorem at it.
use ttobserver_v.Base.{
  ◌≡◌, ◌≢◌, ◌⊎◌, inl, inr, refl, false, Option, none, some, List, [], ◌∷◌, arith, String, pure,
  ◌==◌, string_eq, if◌then◌else◌, contains, eq_iff,
}
use ttobserver_v.Base.Int.{pos}
use ttobserver_v.Shared.Errors.{Err, redis_nil}
use ttobserver_v.Shared.Database.{DbTorrent, invalid_db_id}
use ttobserver_v.RedisDb.{
  Val, text, Client, get_torrent, m_put_torrent, add_torrent, tx, tx_fault, store_torrent, index_of,
  new_index, as_nil, add_files, any_fault,
}
use ttobserver_v.RedisDb.Added.{IsIndexStore, get_torrent-add_torrent}
use ttobserver_v.RedisDb.Migrated.{answer, fields, IsHashStore, get_torrent-m_put_torrent}

-- The field of each hash that is there
abbrev Hashes : Type 0
Hashes = String → String → Option String

abbrev val_text : Val → String
val_text (text s) = s
val_text _ = "data"

abbrev written : String → List (String × Val) → Option String → Option String
written f [] old = old
written f ((g, v) ∷ fs) old = if g == f then some (val_text v) else written f fs old

written-other :
    (f : String) (fs : List (String × Val)) (old : Option String)
    → contains f (fields fs) ≡ false
    → written f fs old ≡ old
written-other f [] old h = refl
written-other f ((g, v) ∷ fs) old h = ground (arith, written-other f fs old)

abbrev hset_in : String → List (String × Val) → Hashes → Hashes
hset_in k fs w k' f = if k == k' then written f fs (w k' f) else w k' f

abbrev set_in : String → Hashes → Hashes
set_in k w k' f = if k == k' then none else w k' f

abbrev hashes : Client Hashes
hashes = record {
  hget = λ k f w. (answer (w k f), w);
  hget_bytes = λ k f w. (([], some redis_nil), w);
  hget_all = λ k. pure ([], none);
  hset = λ k fs w. (none, hset_in k fs w);
  hexists = λ k f. pure (false, none);
  sadd = λ k vs. pure none;
  srem = λ k v. pure none;
  sismember = λ k v. pure (false, none);
  smembers = λ k. pure ([], none);
  incr = λ k. pure (1, none);
  get_uint = λ k. pure (0, none);
  set = λ k v w. (none, set_in k w);
  tx_pipelined = λ body w. let (r, w') = body w in ((r.0, [], r.1), w');
  close = pure tt;
}

hset_in-other :
    (k k' f : String) (fs : List (String × Val)) (w : Hashes)
    → (k ≢ k') ⊎ (contains f (fields fs) ≡ false)
    → hset_in k fs w k' f ≡ w k' f
hset_in-other k k' f fs w (inl apart) = ground (arith, eq_iff k k')
hset_in-other k k' f fs w (inr other) = ground (arith, written-other f fs (w k' f) other)

set_in-other : (k k' f : String) (w : Hashes) → k ≢ k' → set_in k w k' f ≡ w k' f
set_in-other k k' f w apart = ground (arith, eq_iff k k')

hashes-IsHashStore : IsHashStore hashes
hashes-IsHashStore = record {
  field = λ k f w. w k f;
  reads = λ k f w. refl;
  hset_field = hset_in-other;
  sadd_field = λ k k' f vs w. refl;
  set_field = λ k k' f v w apart. set_in-other k k' f w apart;
  tx_runs = λ body w. refl;
}

abbrev tale : DbTorrent
tale = record { id = pos 7; name = "tale"; content = 1 ∷ []; image = [] }

abbrev text_of : Err → String
text_of e = "error"

get_torrent-m_put_torrent_example :
    (get_torrent text_of hashes "tale"
      (m_put_torrent text_of hashes tale ("one" ∷ []) (λ k f. none)).1).0
    ≡ (invalid_db_id, none)
unfolding hashes-IsHashStore
get_torrent-m_put_torrent_example =
    get_torrent-m_put_torrent text_of hashes hashes-IsHashStore "tale" tale ("one" ∷ [])
      (λ k f. none) refl

hashes-IsIndexStore : IsIndexStore hashes hashes-IsHashStore
unfolding hashes-IsHashStore
hashes-IsIndexStore = record {
  hset_writes = λ k f v w done. ground (arith, eq_iff k k, eq_iff f f);
  hget_keeps = λ k f k' f' w. refl;
  incr_keeps = λ k k' f w. refl;
  incr_small = λ k w. omega arith;
  tx_number = λ body w. refl;
  tx_fails = λ body w done. done;
}

abbrev no_hashes : Hashes
no_hashes k f = none

added : (add_torrent text_of hashes "tale" [] ("/a" ∷ []) no_hashes).0.1 ≡ none
unfolding add_torrent tx tx_fault store_torrent index_of new_index as_nil add_files any_fault
added = refl

get_torrent-add_torrent_example :
    let (r, w') = add_torrent text_of hashes "tale" [] ("/a" ∷ []) no_hashes in
    (get_torrent text_of hashes "tale" w').0 ≡ r
get_torrent-add_torrent_example =
    get_torrent-add_torrent text_of hashes hashes-IsHashStore hashes-IsIndexStore "tale" []
      ("/a" ∷ []) no_hashes added
