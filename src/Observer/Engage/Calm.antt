-- ===== src/Observer/Engage/Calm.antt =====
-- `Engage` of observer.go: a tick does not panic when an anniversary is set.
use ttobserver_v.Base.{
  ℕ, zero, suc, ◌+◌, ◌≡◌, ◌≢◌, Bool, none, some, List, [], ◌++◌, M, arith, if◌then◌else◌,
}
use ttobserver_v.Shared.Errors.{Fault}
use ttobserver_v.Producer.Announcer.{Call}
use ttobserver_v.Observer.Settings.{Observer}
use ttobserver_v.Observer.Check.{Outcome, returned, check_torrent}
use ttobserver_v.Observer.Engage.{
  u64, Scan, finished, crashed, out_of_fuel, scan, Standing, stopped, crash, store, after_scan,
  after_offset, on_tick,
}
use ttobserver_v.Observer.Engage.Advance.{calm}

-- A tick that neither panics nor ends the loop by itself
abbrev pub IsCalm : Standing → Type 0
IsCalm crash = ⊥
IsCalm stopped = ⊥
IsCalm _ = Unit

abbrev IsWhole : {P : Type 0} → Scan P → Type 0
IsWhole (crashed calls) = ⊥
IsWhole _ = Unit

module _ {W P : Type 0} (check : ℕ → M W (Outcome × List (Call P)))
    (returns : (i : ℕ) (w : W) → (b : Bool) × ((check i w).0.0 ≡ returned b)) where
  scan-IsWhole :
      (fuel limit offset new_next : ℕ) (calls : List (Call P)) (w : W)
      → IsWhole (scan check fuel limit offset new_next calls w).0
  unfolding scan
  scan-IsWhole zero limit offset new_next calls w = ground arith
  scan-IsWhole (suc fuel) limit offset new_next calls w =
      let (b, e) = returns offset w in
      let (r, w') = check offset w in
      let next = if b then u64 (offset + 1) else new_next in
      ground (arith, e, scan-IsWhole fuel limit (u64 (offset + 1)) next (calls ++ r.1) w')

module _ {W P : Type 0} (cr : Observer W P) (set : cr.crawler.anniversary ≢ 0) where
  after_scan-IsCalm : (o : ℕ) (s : Scan P) (w : W) → IsWhole s → IsCalm (after_scan cr o s w).0.0
  unfolding after_scan store
  after_scan-IsCalm o (finished n calls) w h = ground arith
  after_scan-IsCalm o (crashed calls) w h = h
  after_scan-IsCalm o out_of_fuel w h = tt

  after_offset-IsCalm : (g : ℕ × Fault) (w : W) → IsCalm (after_offset cr g w).0.0
  unfolding after_offset
  after_offset-IsCalm (o, some e) w = tt
  after_offset-IsCalm (o, none) w =
      let t = cr.crawler.threshold in
      let (s, w') = scan (check_torrent cr) t (u64 (o + t)) o o [] w in
      after_scan-IsCalm o s w'
        (scan-IsWhole (check_torrent cr) (calm cr set) t (u64 (o + t)) o o [] w)

  -- With an anniversary set, a tick goes on or ends with the error of the offset.
  pub on_tick-IsCalm : (w : W) → IsCalm (on_tick cr w).0.0
  unfolding on_tick
  on_tick-IsCalm w = let (g, w') = cr.db.get_crawl_offset w in after_offset-IsCalm g w'
