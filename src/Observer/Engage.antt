-- ===== src/Observer/Engage.antt =====
-- observer.go: `Engage`, the loop that looks for torrents at each tick.
pub mod Advance
pub mod Announced
pub mod Runs
pub mod Calm
pub mod Ends
pub mod Sends
pub mod OnSql
mod Tests
use ttobserver_v.Base.{
  ℕ, zero, suc, ◌+◌, ◌-◌, ◌*◌, ◌&&◌, ◌%◌, ◌^◌, Bool, false, true, Option, none, some, List, [], ◌∷◌,
  ◌++◌, M, pure, ◌>>=◌, ◌>>◌, if◌then◌else◌, ltb,
}
use ttobserver_v.Base.Int.{ℤ, pos, negsuc}
use ttobserver_v.Shared.Errors.{Err, Fault}
use ttobserver_v.Shared.Database.{Database}
use ttobserver_v.Producer.Announcer.{Call}
use ttobserver_v.Observer.Settings.{Observer}
use ttobserver_v.Observer.Check.{Outcome, returned, panicked, check_torrent}

-- A uint
abbrev pub u64 : ℕ → ℕ
u64 n = n % 2 ^ 64

-- How the scan of one tick ends: with the new offset, by a panic, or with no fuel left.
pub data Scan (P : Type 0) : Type 0 where
  finished : ℕ → List (Call P) → Scan P
  crashed : List (Call P) → Scan P
  out_of_fuel : Scan P

-- The loop over `offsetToCheck`, for any check of one offset: `new_next` and `calls` so far.
unfoldable pub scan :
    {W P : Type 0}
    → (ℕ → M W (Outcome × List (Call P)))
    → ℕ
    → ℕ
    → ℕ
    → ℕ
    → List (Call P)
    → M W (Scan P)
scan check zero limit offset new_next calls w =
    (if ltb offset limit then out_of_fuel else finished new_next calls, w)
scan check (suc fuel) limit offset new_next calls w = elim (ltb offset limit) [
  | false ↦ (finished new_next calls, w)
  | true ↦
      let (r, w') = check offset w in
      elim r.0 [
        | panicked ↦ (crashed (calls ++ r.1), w')
        | returned found ↦
            scan check fuel limit (u64 (offset + 1)) (if found then u64 (offset + 1) else new_next)
              (calls ++ r.1) w'
      ]
]

-- `NewTicker` panics unless the delay in nanoseconds, an int64, is positive.
abbrev nanoseconds : ℤ → ℕ
nanoseconds (pos n) = u64 (n * 1000000000)
nanoseconds (negsuc n) = u64 (2 ^ 64 - u64 ((n + 1) * 1000000000))

abbrev pub can_tick : ℤ → Bool
can_tick d = ltb 0 (nanoseconds d) && ltb (nanoseconds d) (2 ^ 63)

pub data Event : Type 0 where
  tick stop : Event

-- Where the loop stands: it waits for an event, or it has ended.
pub data Standing : Type 0 where
  waiting stopped crash stuck : Standing
  fatal : Err → Standing

module _ {W P : Type 0} (cr : Observer W P) where
  open cr use {crawler, db}

  -- `UpdateCrawlOffset`, where the offset has grown; its error is only logged.
  store : ℕ → ℕ → List (Call P) → M W (Standing × List (Call P))
  store next_offset new_next calls =
      if ltb next_offset new_next
      then (do db.update_crawl_offset new_next; pure (waiting, calls))
      else pure (waiting, calls)

  after_scan : ℕ → Scan P → M W (Standing × List (Call P))
  unfolding store
  after_scan next_offset (finished new_next calls) = store next_offset new_next calls
  after_scan next_offset (crashed calls) = pure (crash, calls)
  after_scan next_offset out_of_fuel = pure (stuck, [])

  after_offset : ℕ × Fault → M W (Standing × List (Call P))
  unfolding after_scan scan
  after_offset (next_offset, some e) = pure (fatal e, [])
  after_offset (next_offset, none) = do
    s ←
        scan (check_torrent cr) crawler.threshold (u64 (next_offset + crawler.threshold))
          next_offset next_offset []
    after_scan next_offset s

  unfoldable pub on_tick : M W (Standing × List (Call P))
  unfolding after_offset
  on_tick = do g ← db.get_crawl_offset; after_offset g

  -- The loop over the events, as long as it waits.
  unfoldable pub engage : List Event → M W (Standing × List (Call P))
  unfolding on_tick
  engage [] w = ((waiting, []), w)
  engage (stop ∷ events) w = ((stopped, []), w)
  engage (tick ∷ events) w =
      let (r, w') = on_tick w in
      elim r.0 [
        | waiting ↦ let (r', w'') = engage events w' in ((r'.0, r.1 ++ r'.1), w'')
        | _ ↦ (r, w')
      ]
