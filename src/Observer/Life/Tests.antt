-- ===== src/Observer/Life/Tests.antt =====
-- A start of observer.go without producers, and the theorem at it.
use ttobserver_v.Base.{
  ℕ, String, Option, none, some, [], ◌∷◌, Dict, pure, is_empty, false, ◌≡◌, refl,
}
use ttobserver_v.Base.Int.{pos}
use ttobserver_v.Shared.Database.{Database, DbFactory, connect, run_factory, nil_database}
use ttobserver_v.Shared.Database.Doubles.{empty_db}
use ttobserver_v.Producer.Announcer.{Factory, new, start_from}
use ttobserver_v.Observer.Life.{
  Conf, Tools, Parts, configured, with_announcer, start_producers, with_extractor, with_url,
  with_db, init, close, close_at, close_rest,
}
use ttobserver_v.Observer.Life.Ready.{IsReady, init-IsReady}

abbrev tools : Tools String ℕ
tools = record {
  parse_url = λ url. none;
  compile = λ actions. (3, none);
  limited = λ x limit. limit;
}

abbrev conf : Conf String String
conf = record {
  base_url = "https://tales.test";
  meta_actions = "findFirst" ∷ [];
  limit = 100;
  delay = pos 0;
  producers = [];
  driver = "memory";
  parameters = some [];
}

abbrev drivers : Dict String (DbFactory ℕ String (Database ℕ))
drivers = ("memory", λ params. pure (some empty_db, none)) ∷ []

abbrev no_factories : Dict String (Factory ℕ (Option (Database ℕ)) ℕ)
no_factories = []

abbrev unmade : Parts ℕ ℕ ℕ
unmade = configured tools conf drivers no_factories

no_fault : (init tools conf drivers no_factories unmade [] 0).0.1 ≡ none
unfolding init with_db with_url with_extractor start_producers with_announcer connect run_factory
    new start_from
no_fault = refl

init-IsReady_example :
    let d = (connect drivers conf.driver conf.parameters 0).0 in
    (d.1 ≡ none)
    × IsReady tools conf drivers no_factories d.0
        (init tools conf drivers no_factories unmade [] 0).0.0
    × (is_empty conf.meta_actions ≡ false)
init-IsReady_example = init-IsReady tools conf drivers no_factories unmade [] 0 no_fault

-- A database that is a nil pointer makes `Close` panic.
nil_pointer_panics :
    (close tools conf drivers no_factories (record unmade { db = some nil_database }) 0).0 ≡ none
unfolding close close_at close_rest nil_database
nil_pointer_panics = refl
