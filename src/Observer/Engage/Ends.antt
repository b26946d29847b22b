-- ===== src/Observer/Engage/Ends.antt =====
-- `Engage` of observer.go: the loop over the window of a tick ends within its fuel.
use ttobserver_v.Base.{
  ℕ, zero, suc, ◌+◌, ◌^◌, ◌≤◌, ◌<◌, ◌≢◌, none, some, List, [], ◌++◌, M, arith, ltb, Bool-cases, inl,
  inr, ltb→lt,
}
use ttobserver_v.Shared.Errors.{Fault}
use ttobserver_v.Producer.Announcer.{Call}
use ttobserver_v.Observer.Settings.{Observer}
use ttobserver_v.Observer.Check.{Outcome, check_torrent}
use ttobserver_v.Observer.Engage.{
  u64, Scan, finished, crashed, out_of_fuel, scan, stuck, store, after_scan, after_offset, on_tick,
}

abbrev HasFuel : {P : Type 0} → Scan P → Type 0
HasFuel out_of_fuel = ⊥
HasFuel _ = Unit

module _ {W P : Type 0} (check : ℕ → M W (Outcome × List (Call P))) where
  scan-HasFuel :
      (fuel limit offset new_next : ℕ) (calls : List (Call P)) (w : W)
      → limit < 2 ^ 64
      → limit ≤ offset + fuel
      → HasFuel (scan check fuel limit offset new_next calls w).0
  unfolding scan
  scan-HasFuel zero limit offset new_next calls w small enough = ground arith
  scan-HasFuel (suc fuel) limit offset new_next calls w small enough =
      elim (Bool-cases (ltb offset limit)) [
        | inl e ↦
            let (r, w') = check offset w in
            let next = u64 (offset + 1) in
            let below : offset < limit = ltb→lt offset limit e in
            let enough' : limit ≤ next + fuel = omega arith in
            ground (
              arith,
              e,
              scan-HasFuel fuel limit next next (calls ++ r.1) w' small enough',
              scan-HasFuel fuel limit next new_next (calls ++ r.1) w' small enough',
            )
        | inr e ↦ ground (arith, e)
      ]

module _ {W P : Type 0} (cr : Observer W P) where
  after_scan-ends : (o : ℕ) (s : Scan P) (w : W) → HasFuel s → (after_scan cr o s w).0.0 ≢ stuck
  unfolding after_scan store
  after_scan-ends o (finished n calls) w h = λ e. ground (arith, e)
  after_scan-ends o (crashed calls) w h = λ e. cc (e)
  after_scan-ends o out_of_fuel w h = absurd h

  after_offset-ends : (g : ℕ × Fault) (w : W) → (after_offset cr g w).0.0 ≢ stuck
  unfolding after_offset
  after_offset-ends (o, some e) w = λ q. cc (q)
  after_offset-ends (o, none) w =
      let t = cr.crawler.threshold in
      let (s, w') = scan (check_torrent cr) t (u64 (o + t)) o o [] w in
      after_scan-ends o s w'
        (scan-HasFuel (check_torrent cr) t (u64 (o + t)) o o [] w (omega arith) (omega arith))

  -- The loop over the window ends within its fuel, for every offset and threshold: where the end of the
  -- window wraps around, nothing is checked.
  pub on_tick-ends : (w : W) → (on_tick cr w).0.0 ≢ stuck
  unfolding on_tick
  on_tick-ends w = let (g, w') = cr.db.get_crawl_offset w in after_offset-ends g w'
