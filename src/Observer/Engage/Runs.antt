-- ===== src/Observer/Engage/Runs.antt =====
-- `Engage` of observer.go: what the ticks of a run announce together.
use mathlib.Core.List.{map-append}
use mathlib.Core.Path.{subst}
use ttobserver_v.Base.{
  ℕ, zero, suc, ◌+◌, ◌*◌, ◌^◌, ◌<◌, ◌≡◌, ◌≢◌, refl, sym, ap, none, List, [], ◌∷◌, ◌++◌, arith, ltb,
  Bool-cases, inl, inr,
}
use ttobserver_v.Shared.Database.Offsets.{IsOffsetStore}
use ttobserver_v.Producer.Announcer.{Call}
use ttobserver_v.Observer.Settings.{Observer}
use ttobserver_v.Observer.Aside.{IsAside}
use ttobserver_v.Observer.Check.{check_torrent}
use ttobserver_v.Observer.Check.Aside.{check_torrent-quiet, check_torrent-Keeps}
use ttobserver_v.Observer.Engage.{Event, tick, Standing, waiting, on_tick, engage}
use ttobserver_v.Observer.Engage.Announced.{
  Announced, Rises, Rises-append, all_calls, all_calls-append, offsets, announced_in,
  announced_in-Rises, announced_in-calls, run_checks-Keeps,
}
use ttobserver_v.Observer.Engage.Advance.{
  next_of-IsNext, run_checks, calm, new_offset, world_after, on_tick-run_checks, length-run_checks,
}

-- A run of `n` ticks.
abbrev pub ticks : ℕ → List Event
ticks zero = []
ticks (suc n) = tick ∷ ticks n

module _ {W P : Type 0} (cr : Observer W P) where
  open cr use {crawler, db}

  -- The world after the offset was read.
  abbrev read : W → W
  read w = (db.get_crawl_offset w).1

  -- What `n` ticks announce, from the stored offset `o` on, and the offset that is stored at the end.
  pub announced : ℕ → ℕ → W → List (Announced P)
  announced zero o w = []
  announced (suc n) o w =
      announced_in (check_torrent cr) crawler.threshold o (read w)
      ++ announced n (new_offset cr o (read w)) (world_after cr o (read w))

  pub upto : ℕ → ℕ → W → ℕ
  upto zero o w = o
  upto (suc n) o w = upto n (new_offset cr o (read w)) (world_after cr o (read w))

  -- The loop after a tick that ended so.
  abbrev after_tick : List Event → (Standing × List (Call P)) × W → (Standing × List (Call P)) × W
  after_tick events (r, w) = elim r.0 [
    | waiting ↦ let (r', w') = engage cr events w in ((r'.0, r.1 ++ r'.1), w')
    | _ ↦ (r, w)
  ]

  engage-tick :
      (events : List Event) (calls : List (Call P)) (w w' : W)
      → on_tick cr w ≡ ((waiting, calls), w')
      → engage cr (tick ∷ events) w
        ≡ (let (r, w'') = engage cr events w' in ((r.0, calls ++ r.1), w''))
  unfolding engage
  engage-tick events calls w w' e = ap (after_tick events) e

  module _ (store : IsOffsetStore db) (aside : (n : ℕ) → IsAside (store.Holds n) cr) where
    -- What a run of `n` ticks from the offset `o` does: it goes on, and calls the producers for the
    -- offsets it announced and for no other; those rise strictly, from `o` on, and stay below the
    -- offset that the database has in the end.
    pub record IsRun (n o : ℕ) (w : W) (r : (Standing × List (Call P)) × W) : Type 0 where
      pub goes_on : r.0 ≡ (waiting, all_calls (announced n o w))
      pub rises : Rises o (upto n o w) (offsets (announced n o w))
      pub stored : store.Holds (upto n o w) r.1

    reads : (o : ℕ) (w : W) → store.Holds o w → db.get_crawl_offset w ≡ ((o, none), read w)
    reads o w h = cc (store.reads o w h)

    window-Holds :
        (o : ℕ) (w : W)
        → o + crawler.threshold < 2 ^ 64
        → store.Holds o w
        → store.Holds (new_offset cr o (read w)) (world_after cr o (read w))
    window-Holds o w small h =
        let w' = (run_checks (check_torrent cr) crawler.threshold o (read w)).1 in
        let os = (run_checks (check_torrent cr) crawler.threshold o (read w)).0.0 in
        let h' =
          run_checks-Keeps (check_torrent cr) (store.Holds o) crawler.threshold o
            (check_torrent-Keeps cr (store.Holds o) (aside o)) (read w) (store.read_keeps o w h) in
        let next = next_of-IsNext o o os (omega arith) in
        let all = length-run_checks (check_torrent cr) crawler.threshold o (read w) in
        elim (Bool-cases (ltb o (new_offset cr o (read w)))) [
          | inl grows ↦
              rw grows
                (store.stores o (new_offset cr o (read w)) w' (omega (arith, next.no_more, all))
                  h').1
          | inr same ↦
              let here : o ≡ new_offset cr o (read w) = ground (arith, same, next.no_less) in
              rw same (subst (λ k. store.Holds k w') here h')
        ]

    -- On a database of which every read and every store of the offset succeeds, from a stored
    -- offset, with windows that do not pass 2^64 and an anniversary set, where only the two
    -- operations for the offset change it, n ticks go on; the calls are those for the offsets that
    -- were found, which rise strictly, so none is announced twice, and the offset that is stored
    -- in the end is past all of them.
    pub engage-IsRun :
        (n o : ℕ) (w : W)
        → crawler.anniversary ≢ 0
        → o + n * crawler.threshold < 2 ^ 64
        → store.Holds o w
        → IsRun n o w (engage cr (ticks n) w)
    unfolding announced upto engage
    engage-IsRun zero o w set small h = record { goes_on = refl; rises = omega arith; stored = h }
    engage-IsRun (suc n) o w set small h =
        let o' = new_offset cr o (read w) in
        let w' = world_after cr o (read w) in
        let next =
          next_of-IsNext o o (run_checks (check_torrent cr) crawler.threshold o (read w)).0.0
            (omega arith) in
        let all = length-run_checks (check_torrent cr) crawler.threshold o (read w) in
        let one : o + crawler.threshold < 2 ^ 64 = omega arith in
        let fits : o' + n * crawler.threshold < 2 ^ 64 = omega (arith, next.no_more, all) in
        let rest = engage-IsRun n o' w' set fits (window-Holds o w one h) in
        let here = on_tick-run_checks cr o w (read w) set one (reads o w h) in
        record {
          goes_on =
              rw
                (
                  engage-tick (ticks n) _ w w' here,
                  rest.goes_on,
                  sym (
                      announced_in-calls (check_torrent cr) crawler.threshold o (read w)
                        (calm cr set) (check_torrent-quiet cr)),
                  all_calls-append,
                )
                refl;
          rises = rw (map-append) (
              Rises-append o o' (upto n o' w') _ _
                (announced_in-Rises (check_torrent cr) crawler.threshold o o (read w) (omega arith))
                rest.rises);
          stored = rw (engage-tick (ticks n) _ w w' here) rest.stored;
        }
