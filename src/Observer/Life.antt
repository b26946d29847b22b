-- ===== src/Observer/Life.antt =====
-- observer.go: `Init` and `Close`.
pub mod Ready
pub mod Retried
pub mod Channels
mod Tests
use ttobserver_v.Base.{
  ℕ, String, Bool, false, true, Option, none, some, List, [], ◌∷◌, ◌++◌, Dict, M, pure, ◌>>=◌, ◌==◌,
  nat_eq, if◌then◌else◌, is_empty, ◌≡◌, ◌<◌, refl, arith, Bool-cases, inl, inr, ◌>>◌,
}
use ttobserver_v.Base.Int.{ℤ, pos, int_eq}
use ttobserver_v.Shared.Errors.{Err, Fault, actions_not_set}
use ttobserver_v.Shared.Database.{Database, DbFactory, connect, is_nil_pointer}
use ttobserver_v.Producer.Announcer.{Config, Factory, Announcer, Call, new, close_all}

-- What `Init` reads of the configuration; actions of type `A`, parameters of type `V`.
pub record Conf (A V : Type 0) : Type 0 where
  pub base_url : String
  pub meta_actions : List A
  pub limit : ℕ
  pub delay : ℤ
  pub producers : List Config
  pub driver : String
  pub parameters : Option (Dict String V)

-- Outside: `url.Parse`, and the extractor's `Compile` and its two limits.
pub record Tools (A X : Type 0) : Type 0 where
  pub parse_url : String → Fault
  pub compile : List A → X × Fault
  pub limited : X → ℕ → X

-- The channel `stopped`: nil, made, or closed.
pub data Channel : Type 0 where
  unset open_channel closed_channel : Channel

-- The fields of the observer that `Init` sets; nil is `none`.
pub record Parts (W X P : Type 0) : Type 0 where
  pub db : Option (Database W)
  pub extractor : Option X
  pub announcer : Option (Announcer (Option (Database W)) P)
  pub delay : ℤ
  pub stopped : Channel

-- The delay that stands for 0
abbrev pub default_delay : ℤ
default_delay = pos 5

abbrev pub or_default : ℤ → ℤ
or_default d = if d == pos 0 then default_delay else d

module _ {W A X V P : Type 0} (tools : Tools A X) (conf : Conf A V)
    (drivers : Dict String (DbFactory W V (Database W)))
    (factories : Dict String (Factory W (Option (Database W)) P)) where
  -- The fields, the error and the producers of the program.
  abbrev pub Progress : Type 0
  Progress = Parts W X P × Fault × Dict String P

  unfoldable pub with_announcer :
      Parts W X P → Announcer (Option (Database W)) P × Fault × Dict String P → Progress
  with_announcer parts (a, none, all) = (
    record parts { announcer = some a; delay = or_default parts.delay; stopped = open_channel },
    none,
    all,
  )
  with_announcer parts (a, some e, all) = (record parts { announcer = some a }, some e, all)

  unfoldable pub start_producers : Parts W X P → Dict String P → M W Progress
  unfolding with_announcer
  start_producers parts all = do
    r ← new factories parts.db conf.producers all
    pure (with_announcer parts r)

  unfoldable pub with_extractor : Parts W X P → X × Fault → Dict String P → M W Progress
  unfolding start_producers
  with_extractor parts (x, none) all =
      start_producers (record parts { extractor = some (tools.limited x conf.limit) }) all
  with_extractor parts (x, some e) all = pure (parts, some e, all)

  unfoldable pub with_url : Parts W X P → Fault → Dict String P → M W Progress
  unfolding with_extractor
  with_url parts none all =
      if is_empty conf.meta_actions
      then pure (parts, some actions_not_set, all)
      else with_extractor parts (tools.compile conf.meta_actions) all
  with_url parts (some e) all = pure (parts, some e, all)

  unfoldable pub with_db : Parts W X P → Fault → Dict String P → M W Progress
  unfolding with_url
  with_db parts none all = with_url parts (tools.parse_url conf.base_url) all
  with_db parts (some e) all = pure (parts, some e, all)

  -- The observer as the configuration gives it.
  abbrev pub configured : Parts W X P
  configured = record {
    db = none;
    extractor = none;
    announcer = none;
    delay = conf.delay;
    stopped = unset;
  }

  -- `Init`, of an observer that may have been initiated before.
  unfoldable pub init : Parts W X P → Dict String P → M W Progress
  unfolding with_db
  init old all = do
    d ← connect drivers conf.driver conf.parameters
    with_db (record old { db = d.0 }) d.1 all

  unfoldable pub close_db : Option (Database W) → M W (Unit {0})
  close_db none = pure tt
  close_db (some db) = db.close

  unfoldable pub calls_of : Option (Announcer (Option (Database W)) P) → List (Call P)
  calls_of none = []
  calls_of (some a) = close_all a

  unfoldable pub close_rest : Parts W X P → M W (Option (Parts W X P × List (Call P)))
  unfolding close_db calls_of
  close_rest parts =
      if is_nil_pointer parts.db
      then pure none
      else (do close_db parts.db; pure (some (parts, calls_of parts.announcer)))

  unfoldable pub close_at : Channel → Parts W X P → M W (Option (Parts W X P × List (Call P)))
  unfolding close_rest
  close_at unset parts = close_rest parts
  close_at open_channel parts = close_rest (record parts { stopped = closed_channel })
  close_at closed_channel parts = pure none

  -- `Close`: the producers are closed, and then the database; a channel that is closed already and a
  -- database that is a nil pointer are a panic, `none`.
  unfoldable pub close : Parts W X P → M W (Option (Parts W X P × List (Call P)))
  unfolding close_at
  close parts = close_at parts.stopped parts
