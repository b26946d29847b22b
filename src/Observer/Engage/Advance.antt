-- ===== src/Observer/Engage/Advance.antt =====
-- `Engage` of observer.go: what one tick does with the crawl offset.
use mathlib.Core.List.{append_assoc, append-nil}
use ttobserver_v.Base.{
  ℕ, zero, suc, ◌+◌, ◌^◌, ◌≤◌, ◌<◌, ◌≡◌, ◌≢◌, ◌⊎◌, inl, inr, refl, ◌∙◌, Bool, true, false, none,
  some, List, [], ◌∷◌, ◌++◌, M, arith, ltb, if◌then◌else◌, length, get_elem?,
}
use ttobserver_v.Producer.Announcer.{Call}
use ttobserver_v.Observer.Settings.{Observer}
use ttobserver_v.Observer.Check.{Outcome, returned, panicked, check_torrent}
use ttobserver_v.Observer.Check.Found.{check_torrent-returned}
use ttobserver_v.Observer.Engage.{
  u64, finished, scan, Standing, waiting, store, after_scan, after_offset, on_tick,
}

-- The offset after the last one that was found, for the outcomes from `offset` on.
abbrev pub next_of : ℕ → ℕ → List Outcome → ℕ
next_of offset default [] = default
next_of offset default (returned true ∷ os) = next_of (suc offset) (suc offset) os
next_of offset default (o ∷ os) = next_of (suc offset) default os

-- Every offset that was found lies below the new offset, and the new offset is the old one or one
-- past an offset that was found.
pub record IsNext (offset default : ℕ) (os : List Outcome) (n : ℕ) : Type 0 where
  pub covers : (i : ℕ) → get_elem? os i ≡ some (returned true) → offset + i < n
  pub reached :
      (n ≡ default) ⊎ ((i : ℕ) × (get_elem? os i ≡ some (returned true)) × (n ≡ suc (offset + i)))
  pub no_less : default ≤ n
  pub no_more : n ≤ offset + length os

module _ (offset default n : ℕ) (os : List Outcome) (h : default ≤ offset) where
  IsNext-found :
      IsNext (suc offset) (suc offset) os n → IsNext offset default (returned true ∷ os) n
  IsNext-found next = record {
    covers = covers_all;
    reached = reached_all next.reached;
    no_less = omega arith;
    no_more = omega arith;
  }
    where
      covers_all :
          (i : ℕ) → get_elem? (returned true ∷ os) i ≡ some (returned true) → offset + i < n
      covers_all zero e = omega arith
      covers_all (suc i) e = omega (arith, next.covers i e)

      reached_all :
          (n ≡ suc offset)
            ⊎ ((i : ℕ) × (get_elem? os i ≡ some (returned true)) × (n ≡ suc (suc offset + i)))
          → (n ≡ default)
            ⊎ ((i : ℕ) × (get_elem? (returned true ∷ os) i ≡ some (returned true))
                × (n ≡ suc (offset + i)))
      reached_all (inl e) = inr (0, refl, omega arith)
      reached_all (inr (i, e, q)) = inr (suc i, e, omega arith)

  IsNext-missed :
      (o : Outcome)
      → o ≢ returned true
      → IsNext (suc offset) default os n
      → IsNext offset default (o ∷ os) n
  IsNext-missed o miss next = record {
    covers = covers_all;
    reached = reached_all next.reached;
    no_less = next.no_less;
    no_more = omega arith;
  }
    where
      covers_all : (i : ℕ) → get_elem? (o ∷ os) i ≡ some (returned true) → offset + i < n
      covers_all zero e = absurd (miss (cc))
      covers_all (suc i) e = omega (arith, next.covers i e)

      reached_all :
          (n ≡ default)
            ⊎ ((i : ℕ) × (get_elem? os i ≡ some (returned true)) × (n ≡ suc (suc offset + i)))
          → (n ≡ default)
            ⊎ ((i : ℕ) × (get_elem? (o ∷ os) i ≡ some (returned true)) × (n ≡ suc (offset + i)))
      reached_all (inl e) = inl e
      reached_all (inr (i, e, q)) = inr (suc i, e, omega arith)

pub next_of-IsNext :
    (offset default : ℕ) (os : List Outcome)
    → default ≤ offset
    → IsNext offset default os (next_of offset default os)
next_of-IsNext offset default [] h = record {
  covers = λ i e. cc;
  reached = inl refl;
  no_less = omega arith;
  no_more = omega arith;
}
next_of-IsNext offset default (returned true ∷ os) h =
    IsNext-found offset default _ os h (next_of-IsNext (suc offset) (suc offset) os (omega arith))
next_of-IsNext offset default (returned false ∷ os) h =
    IsNext-missed offset default _ os h (returned false) (λ e. cc)
      (next_of-IsNext (suc offset) default os (omega arith))
next_of-IsNext offset default (panicked ∷ os) h =
    IsNext-missed offset default _ os h panicked (λ e. cc)
      (next_of-IsNext (suc offset) default os (omega arith))

next_of-cons :
    (offset default : ℕ) (found : Bool) (o : Outcome) (os : List Outcome)
    → o ≡ returned found
    → next_of offset default (o ∷ os)
      ≡ next_of (suc offset) (if found then suc offset else default) os
next_of-cons offset default true o os e = rw e
next_of-cons offset default false o os e = rw e

module _ {W P : Type 0} (check : ℕ → M W (Outcome × List (Call P))) where
  -- The checks of `n` offsets in a row: their outcomes, their calls and the world after them.
  unfoldable pub run_checks : ℕ → ℕ → W → (List Outcome × List (Call P)) × W
  run_checks zero offset w = (([], []), w)
  run_checks (suc n) offset w =
      let (r, w') = check offset w in
      let (rest, w'') = run_checks n (suc offset) w' in ((r.0 ∷ rest.0, r.1 ++ rest.1), w'')

  pub length-run_checks : (n offset : ℕ) (w : W) → length (run_checks n offset w).0.0 ≡ n
  unfolding run_checks
  length-run_checks zero offset w = refl
  length-run_checks (suc n) offset w =
      omega (arith, length-run_checks n (suc offset) (check offset w).1)

  scan-end :
      (fuel limit new_next : ℕ) (calls : List (Call P)) (w : W)
      → scan check fuel limit limit new_next calls w ≡ (finished new_next calls, w)
  unfolding scan
  scan-end zero limit new_next calls w = ground arith
  scan-end (suc fuel) limit new_next calls w = ground arith

  scan-step :
      (fuel limit offset new_next : ℕ) (calls : List (Call P)) (w : W) (found : Bool)
      → offset < limit
      → limit < 2 ^ 64
      → (check offset w).0.0 ≡ returned found
      → scan check (suc fuel) limit offset new_next calls w
        ≡ scan check fuel limit
            (suc offset)
            (if found then suc offset else new_next)
            (calls ++ (check offset w).0.1)
            (check offset w).1
  unfolding scan
  scan-step fuel limit offset new_next calls w found below small e =
      let step : u64 (offset + 1) ≡ suc offset = omega arith in ground (arith, e, step)

  -- The loop is the checks of all offsets below the limit, in order; it does not run out of fuel.
  scan-run_checks :
      (n offset limit new_next : ℕ) (calls : List (Call P)) (w : W)
      → limit ≡ offset + n
      → limit < 2 ^ 64
      → ((i : ℕ) (v : W) → (b : Bool) × ((check i v).0.0 ≡ returned b))
      → scan check n limit offset new_next calls w ≡ (
        finished
            (next_of offset new_next (run_checks n offset w).0.0)
            (calls ++ (run_checks n offset w).0.1),
        (run_checks n offset w).1,
      )
  unfolding run_checks
  scan-run_checks zero offset limit new_next calls w e small calm =
      let here : limit ≡ offset = omega arith in
      rw (here, append-nil) (scan-end zero offset new_next calls w)
  scan-run_checks (suc n) offset limit new_next calls w e small calm =
      let (found, r) = calm offset w in
      let (o, w') = check offset w in
      let next = if found then suc offset else new_next in
      scan-step n limit offset new_next calls w found (omega arith) small r
      ∙ scan-run_checks n (suc offset) limit next (calls ++ o.1) w' (omega arith) small calm
      ∙ rw (
        next_of-cons offset new_next found o.0 (run_checks n (suc offset) w').0.0 r,
        append_assoc,
      )

module _ {W P : Type 0} (cr : Observer W P) where
  open cr use {crawler, db}

  pub calm :
      crawler.anniversary ≢ 0
      → (i : ℕ) (w : W) → (b : Bool) × ((check_torrent cr i w).0.0 ≡ returned b)
  calm h i w = elim (check_torrent-returned cr i w h) [
    | inl (e, _) ↦ (true, e)
    | inr (e, _) ↦ (false, e)
  ]

  -- What a tick does from the stored offset `o`: all offsets of the window are checked in order, and
  -- `n`, which no check lowers, is stored where it is greater than `o`.
  pub record IsAdvanced (o : ℕ) (w : W) (r : (Standing × List (Call P)) × W) : Type 0 where
    pub n : ℕ
    pub next : IsNext o o (run_checks (check_torrent cr) crawler.threshold o w).0.0 n
    pub checked :
        length (run_checks (check_torrent cr) crawler.threshold o w).0.0 ≡ crawler.threshold
    pub goes_on : r.0 ≡ (waiting, (run_checks (check_torrent cr) crawler.threshold o w).0.1)
    pub stored : r.1 ≡ (
        let w' = (run_checks (check_torrent cr) crawler.threshold o w).1 in
        if ltb o n then (db.update_crawl_offset n w').1 else w')

  -- The new offset that the window from `o` gives.
  abbrev pub new_offset : ℕ → W → ℕ
  new_offset o w = next_of o o (run_checks (check_torrent cr) crawler.threshold o w).0.0

  store-eq :
      (o n : ℕ) (calls : List (Call P)) (w : W)
      → store cr o n calls w
        ≡ ((waiting, calls), (if ltb o n then (db.update_crawl_offset n w).1 else w))
  unfolding store
  store-eq o n calls w = ground arith

  after_offset-eq :
      (o : ℕ) (w : W)
      → crawler.anniversary ≢ 0
      → o + crawler.threshold < 2 ^ 64
      → let (r, w') = run_checks (check_torrent cr) crawler.threshold o w in
        after_offset cr (o, none) w ≡ store cr o (new_offset o w) r.1 w'
  unfolding after_offset after_scan
  after_offset-eq o w h small = rw (
      scan-run_checks (check_torrent cr) crawler.threshold o (u64 (o + crawler.threshold)) o [] w
        (omega arith) (omega arith) (calm h))

  -- The world after the window from `o`.
  abbrev pub world_after : ℕ → W → W
  world_after o w =
      let w' = (run_checks (check_torrent cr) crawler.threshold o w).1 in
      if ltb o (new_offset o w) then (db.update_crawl_offset (new_offset o w) w').1 else w'

  pub on_tick-run_checks :
      (o : ℕ) (w w' : W)
      → crawler.anniversary ≢ 0
      → o + crawler.threshold < 2 ^ 64
      → db.get_crawl_offset w ≡ ((o, none), w')
      → on_tick cr w
        ≡ ((waiting, (run_checks (check_torrent cr) crawler.threshold o w').0.1), world_after o w')
  unfolding on_tick
  on_tick-run_checks o w w' h small e =
      let (r, w'') = run_checks (check_torrent cr) crawler.threshold o w' in
      let same = after_offset-eq o w' h small ∙ store-eq o (new_offset o w') r.1 w'' in rw e same

  -- With an anniversary set, a window that does not pass 2^64 and a crawl offset that is read
  -- without an error, one tick of Engage implements its specification: every offset of the window
  -- is checked once and in order, and the crawl offset that is stored is one past the last offset
  -- found; where none was found nothing is stored.
  pub on_tick-IsAdvanced :
      (o : ℕ) (w w' : W)
      → crawler.anniversary ≢ 0
      → o + crawler.threshold < 2 ^ 64
      → db.get_crawl_offset w ≡ ((o, none), w')
      → IsAdvanced o w' (on_tick cr w)
  on_tick-IsAdvanced o w w' h small e =
      let r = (run_checks (check_torrent cr) crawler.threshold o w').0 in
      rw (on_tick-run_checks o w w' h small e) (record {
        n = new_offset o w';
        next = next_of-IsNext o o r.0 (omega arith);
        checked = length-run_checks (check_torrent cr) crawler.threshold o w';
        goes_on = refl;
        stored = refl;
      })
