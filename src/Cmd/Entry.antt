-- ===== src/Cmd/Entry.antt =====
-- cmd/ttobserver.go: the program's entry. The observer is initiated, runs and is closed, alone or as
-- a node of a cluster; a signal ends the program.
pub mod Retried
pub mod Sound
pub mod Closing
mod Tests
use ttobserver_v.Base.{
  ℕ, String, Bool, true, false, Option, none, some, List, [], ◌∷◌, ◌++◌, Dict, M, pure, ◌>>=◌, ◌>>◌,
  if◌then◌else◌, ◌==◌, string_eq, ◌&&◌, not,
}
use ttobserver_v.Shared.Errors.{Err, Fault}
use ttobserver_v.Shared.Database.{Database, DbFactory}
use ttobserver_v.Producer.Announcer.{Factory, Announcer, Call}
use ttobserver_v.Observer.Settings.{Observer, RawMeta}
use ttobserver_v.Observer.Engage.{
  Event, Standing, waiting, stopped, crash, stuck, fatal, can_tick, engage, on_tick,
}
use ttobserver_v.Observer.Life.{Conf, Tools, Parts, configured, init, close}

-- The flags of the command line, and what the program runs for them.
pub record Flags : Type 0 where
  pub config_path : String
  pub migration : Bool
  pub from_driver : String
  pub to_driver : String

pub data Run : Type 0 where
  migrates : String → String → Run
  refuses : Run
  in_cluster : Run
  alone : Run
  no_config : Err → Run

-- The branches of `main` on the flags, for the `url` of the cluster.
abbrev dispatch : Flags → String → Run
dispatch flags nats_url =
    if flags.migration
    then (if not (flags.from_driver == "") && not (flags.to_driver == "")
        then migrates flags.from_driver flags.to_driver
        else refuses)
    else if not (nats_url == "")
    then in_cluster
    else alone

-- What `main` reads of the configuration, and the two calls that make the log; levels of type `L`.
pub record MainConf : Type 0 where
  pub nats_url : String
  pub log_file : String
  pub log_level : String

pub record Logging (W F L : Type 0) : Type 0 where
  pub open_file : String → M W (F × Fault)
  pub level_of : String → L × Fault
  pub info : L

level_or : {L : Type 0} → L → L × Fault → L
level_or info (level, none) = level
level_or info (level, some e) = info

opened : {F L : Type 0} → L → F × Fault → Option (Option F × L)
opened level (f, none) = some (some f, level)
opened level (f, some e) = none

-- The log's file, with the standard output as `none`, and its level; where the file cannot be opened
-- the log stays as it was.
log_to : {W F L : Type 0} → Logging W F L → MainConf → M W (Option (Option F × L))
unfolding level_or opened
log_to logging c =
    let level = level_or logging.info (logging.level_of c.log_level) in
    if c.log_file == ""
    then pure (some (none, level))
    else (do f ← logging.open_file c.log_file; pure (opened level f))

run_with :
    {W F L : Type 0} → Logging W F L → Flags → MainConf × Fault → M W (Run × Option (Option F × L))
unfolding log_to
run_with logging flags (c, none) = do l ← log_to logging c; pure (dispatch flags c.nats_url, l)
run_with logging flags (c, some e) = pure (no_config e, none)

-- `main`; without a configuration `logger.Fatal` ends the program.
unfoldable pub main :
    {W F L : Type 0}
    → (String → M W (MainConf × Fault))
    → Logging W F L
    → Flags
    → M W (Run × Option (Option F × L))
unfolding run_with
main read_config logging flags = do r ← read_config flags.config_path; run_with logging flags r

-- How the program ends: with a status, or by a panic.
pub data Exit : Type 0 where
  exited : ℕ → Exit
  panicked : Exit
  no_fuel : Exit

-- What a node of the cluster meets: the cluster cannot be reached at the start; `asMaster` ends with
-- an error before `StartFn`, or comes to `StartFn`; a tick in `Engage`. After a signal `main` runs `Stop`
-- of cluster.go, which is modelled there, and ends the program.
pub data Input : Type 0 where
  no_cluster refused won tick : Input

-- A node of the cluster looks for the master, leads in `Engage`, or has ended; with the observer and
-- the map of all producers.
pub data Phase (W X P : Type 0) : Type 0 where
  looking leading : Parts W X P → Dict String P → Phase W X P
  ended : Exit → Phase W X P

module _ {W A X V P : Type 0} (tools : Tools A X) (conf : Conf A V)
    (drivers : Dict String (DbFactory W V (Database W)))
    (factories : Dict String (Factory W (Option (Database W)) P)) (base : Observer W P)
    (extract_data : X → String → M W (RawMeta × Fault)) where
  -- The observer as `Engage` uses it; `base` has the fields that `Init` does not set. A nil database
  -- or announcer is no observer: its use is a panic.
  abbrev extractor_of : Option X → Option (String → M W (RawMeta × Fault))
  extractor_of none = none
  extractor_of (some x) = some (extract_data x)

  abbrev with_fields :
      Parts W X P
      → Option (Database W)
      → Option (Announcer (Option (Database W)) P)
      → Option (Observer W P)
  with_fields parts (some db) (some a) = some (record base {
    crawler = record base.crawler { delay = parts.delay };
    db = db;
    extract = extractor_of parts.extractor;
    announcer = record { producers = a.producers; db = db };
  })
  with_fields parts _ _ = none

  unfoldable pub observer_of : Parts W X P → Option (Observer W P)
  observer_of parts = with_fields parts parts.db parts.announcer

  -- What `Engage` did until a signal came, or the program ended in it. A ticker that cannot be made is
  -- a panic at its start.
  after_engage : Parts W X P → Standing × List (Call P) → M W (Exit × List (Call P))
  after_engage parts (waiting, calls) = do
    r ← close tools conf drivers factories parts
    pure (elim r [ none ↦ (panicked, calls) | some closed ↦ (exited 0, calls ++ closed.1) ])
  after_engage parts (stopped, calls) = pure (exited 1, calls)
  after_engage parts (fatal e, calls) = pure (exited 1, calls)
  after_engage parts (crash, calls) = pure (panicked, calls)
  after_engage parts (stuck, calls) = pure (no_fuel, calls)

  engaged : Parts W X P → Option (Observer W P) → List Event → M W (Exit × List (Call P))
  unfolding after_engage
  engaged parts none events = pure (panicked, [])
  engaged parts (some cr) events =
      if can_tick parts.delay
      then (do r ← engage cr events; after_engage parts r)
      else pure (panicked, [])

  initiated : Parts W X P × Fault × Dict String P → List Event → M W (Exit × List (Call P))
  unfolding engaged
  initiated (parts, none, all) events = engaged parts (observer_of parts) events
  initiated (parts, some e, all) events = pure (exited 0, [])

  -- `start`, interrupted after the events if the program has not ended by then. The error of `Init` is
  -- only logged.
  unfoldable pub start : List Event → M W (Exit × List (Call P))
  unfolding initiated
  start events = do
    r ← init tools conf drivers factories (configured tools conf drivers factories) []
    initiated r events

  -- `startClustered`: `SuspendFn`
  suspend : Parts W X P → Dict String P → M W (Phase W X P × List (Call P))
  suspend parts all = do
    r ← close tools conf drivers factories parts
    pure (elim r [ none ↦ (ended panicked, []) | some closed ↦ (looking closed.0 all, closed.1) ])

  -- `StartFn`, and `SuspendFn` after an error; without one the node stays in `Engage`, once its ticker is
  -- made.
  start_fn : Parts W X P × Fault × Dict String P → M W (Phase W X P × List (Call P))
  unfolding suspend
  start_fn (parts, none, all) =
      pure ((if can_tick parts.delay then leading parts all else ended panicked), [])
  start_fn (parts, some e, all) = suspend parts all

  after_tick : Parts W X P → Dict String P → Standing × List (Call P) → Phase W X P × List (Call P)
  after_tick parts all (waiting, calls) = (leading parts all, calls)
  after_tick parts all (stopped, calls) = (looking parts all, calls)
  after_tick parts all (fatal e, calls) = (ended (exited 1), calls)
  after_tick parts all (crash, calls) = (ended panicked, calls)
  after_tick parts all (stuck, calls) = (ended no_fuel, calls)

  lead : Parts W X P → Dict String P → Option (Observer W P) → M W (Phase W X P × List (Call P))
  unfolding after_tick
  lead parts all none = pure (ended panicked, [])
  lead parts all (some cr) = do r ← on_tick cr; pure (after_tick parts all r)

  -- What happens to the node until a signal comes.
  unfoldable pub step : Input → Phase W X P → M W (Phase W X P × List (Call P))
  unfolding start_fn lead
  step refused (looking parts all) = suspend parts all
  step won (looking parts all) = do r ← init tools conf drivers factories parts all; start_fn r
  step no_cluster (looking parts all) = pure (ended (exited 1), [])
  step tick (leading parts all) = lead parts all (observer_of parts)
  step i phase = pure (phase, [])

  unfoldable pub run : List Input → Phase W X P → M W (Phase W X P × List (Call P))
  unfolding step
  run [] phase = pure (phase, [])
  run (i ∷ is) phase = do r ← step i phase; rest ← run is r.0; pure (rest.0, r.1 ++ rest.1)
