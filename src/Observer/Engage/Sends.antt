-- ===== src/Observer/Engage/Sends.antt =====
-- `Engage` of observer.go: it closes no producer.
use ttobserver_v.Base.{ℕ, zero, suc, ◌+◌, ◌≡◌, refl, none, some, List, [], ◌∷◌, ◌++◌, M, arith}
use ttobserver_v.Shared.Errors.{Fault}
use ttobserver_v.Producer.Announcer.{Call}
use ttobserver_v.Producer.Announcer.Closes.{closes, closes-appended}
use ttobserver_v.Observer.Settings.{Observer}
use ttobserver_v.Observer.Check.{Outcome, check_torrent}
use ttobserver_v.Observer.Check.Sends.{check_torrent-closes}
use ttobserver_v.Observer.Engage.{
  u64, Scan, finished, crashed, out_of_fuel, scan, Event, tick, stop, store, after_scan,
  after_offset, on_tick, engage,
}

abbrev calls_in : {P : Type 0} → Scan P → List (Call P)
calls_in (finished n calls) = calls
calls_in (crashed calls) = calls
calls_in out_of_fuel = []

module _ {W P : Type 0} (check : ℕ → M W (Outcome × List (Call P)))
    (sends : (i : ℕ) (w : W) → closes (check i w).0.1 ≡ []) where
  scan-closes :
      (fuel limit offset new_next : ℕ) (calls : List (Call P)) (w : W)
      → closes calls ≡ []
      → closes (calls_in (scan check fuel limit offset new_next calls w).0) ≡ []
  unfolding scan
  scan-closes zero limit offset new_next calls w h = ground (arith, h)
  scan-closes (suc fuel) limit offset new_next calls w h =
      let (r, w') = check offset w in
      let none_closed : closes (calls ++ r.1) ≡ [] = closes-appended calls r.1 h (sends offset w) in
      let from = u64 (offset + 1) in
      ground (
        arith,
        h,
        none_closed,
        scan-closes fuel limit from from (calls ++ r.1) w' none_closed,
        scan-closes fuel limit from new_next (calls ++ r.1) w' none_closed,
      )

module _ {W P : Type 0} (cr : Observer W P) where
  after_scan-closes :
      (o : ℕ) (s : Scan P) (w : W)
      → closes (calls_in s) ≡ []
      → closes (after_scan cr o s w).0.1 ≡ []
  unfolding after_scan store
  after_scan-closes o (finished n calls) w h = ground (arith, h)
  after_scan-closes o (crashed calls) w h = h
  after_scan-closes o out_of_fuel w h = refl

  after_offset-closes : (g : ℕ × Fault) (w : W) → closes (after_offset cr g w).0.1 ≡ []
  unfolding after_offset
  after_offset-closes (o, some e) w = refl
  after_offset-closes (o, none) w =
      let t = cr.crawler.threshold in
      let (s, w') = scan (check_torrent cr) t (u64 (o + t)) o o [] w in
      after_scan-closes o s w'
        (scan-closes (check_torrent cr) (check_torrent-closes cr) t (u64 (o + t)) o o [] w refl)

  pub on_tick-closes : (w : W) → closes (on_tick cr w).0.1 ≡ []
  unfolding on_tick
  on_tick-closes w = let (g, w') = cr.db.get_crawl_offset w in after_offset-closes g w'

  -- The loop closes no producer, whatever it meets.
  pub engage-closes : (events : List Event) (w : W) → closes (engage cr events w).0.1 ≡ []
  unfolding engage
  engage-closes [] w = refl
  engage-closes (stop ∷ events) w = refl
  engage-closes (tick ∷ events) w =
      let (r, w') = on_tick cr w in
      let rest = (engage cr events w').0.1 in
      ground (
        arith,
        on_tick-closes w,
        engage-closes events w',
        closes-appended r.1 rest (on_tick-closes w) (engage-closes events w'),
      )
