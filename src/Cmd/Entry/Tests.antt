-- ===== src/Cmd/Entry/Tests.antt =====
-- A node of the cluster whose first start fails, and the theorems at it.
use ttobserver_v.Base.{
  ℕ, suc, ◌+◌, ◌≡◌, refl, String, Option, none, some, false, List, [], ◌∷◌, Dict, eq_iff, string_eq,
  nat_eq, ◌==◌, if◌then◌else◌, pure, insert,
}
use ttobserver_v.Base.Int.{pos}
use ttobserver_v.Shared.Errors.{timeout}
use ttobserver_v.Shared.Database.{Database, DbFactory, connect, run_factory, is_nil_pointer}
use ttobserver_v.Shared.Database.Doubles.{empty_db}
use ttobserver_v.Producer.Announcer.{
  Factory, close, attach, initiate, with_factory, start_from, effective_id, new, close_all,
}
use ttobserver_v.Producer.Announcer.Start.{AreFresh}
use ttobserver_v.Observer.Doubles.{crawling}
use ttobserver_v.Observer.Life.{
  Conf, Tools, Parts, unset, open_channel, configured, with_announcer, start_producers,
  with_extractor, with_url, with_db, init, close_db, calls_of, close_rest, close_at,
}
use ttobserver_v.Observer.Life.Retried.{made}
use ttobserver_v.Cmd.Entry.{Input, won, tick, looking, leading, suspend, start_fn, step, start}
use ttobserver_v.Observer.Engage.{Event}
use ttobserver_v.Cmd.Entry.Closing.{IsClosing, start-IsClosing}
use ttobserver_v.Cmd.Entry.Retried.{step-retried}

abbrev tools : Tools String ℕ
tools = record {
  parse_url = λ url. none;
  compile = λ actions. (3, none);
  limited = λ x limit. limit;
}

abbrev conf : Conf String String
conf = record {
  base_url = "https://tales.test";
  meta_actions = "findFirst" ∷ [];
  limit = 100;
  delay = pos 0;
  producers =
      record { id = ""; kind = "telegram"; config_path = "a.json" }
      ∷ record { id = "second"; kind = "telegram"; config_path = "b.json" }
      ∷ [];
  driver = "memory";
  parameters = some [];
}

abbrev drivers : Dict String (DbFactory ℕ String (Database ℕ))
drivers = ("memory", λ params. pure (some empty_db, none)) ∷ []

-- The world counts the producers; the second attempt of all fails.
abbrev flaky : Dict String (Factory ℕ (Option (Database ℕ)) ℕ)
flaky =
    ("telegram", λ path db w. ((if w == 1 then (none, some timeout) else (some w, none)), suc w))
    ∷ []

abbrev half : Parts ℕ ℕ ℕ
half = record {
  db = some empty_db;
  extractor = some 100;
  announcer = some (record { producers = 0 ∷ []; db = some empty_db });
  delay = pos 0;
  stopped = unset;
}

abbrev other_half : Parts ℕ ℕ ℕ
other_half = record {
  db = some empty_db;
  extractor = some 100;
  announcer = some (record { producers = 2 ∷ []; db = some empty_db });
  delay = pos 5;
  stopped = open_channel;
}

abbrev one_made : Dict String ℕ
one_made = ("telegram", 0) ∷ []

producers-AreFresh : AreFresh {P = ℕ} conf.producers []
unfolding effective_id
producers-AreFresh = (refl, ((λ e. cc ((eq_iff "telegram" "second").1 e)), tt), (refl, tt, tt))

first_start :
    step tools conf drivers flaky crawling
      (λ x context. pure ([], none))
      won
      (looking (configured tools conf drivers flaky) [])
      0
    ≡ ((looking half one_made, close 0 ∷ []), 2)
unfolding step start_fn suspend init with_db with_url with_extractor start_producers with_announcer
    connect run_factory new start_from with_factory initiate attach effective_id close_rest close_at
    close_db calls_of close_all ttobserver_v.Observer.Life.close
first_start = refl

second_start :
    step tools conf drivers flaky crawling
      (λ x context. pure ([], none))
      won
      (looking half one_made)
      2
    ≡ ((leading other_half (insert "second" 2 one_made), []), 3)
unfolding step start_fn init with_db with_url with_extractor start_producers with_announcer connect
    run_factory new start_from with_factory initiate attach effective_id
second_start = refl

step-retried_example : 1 + made other_half.announcer ≡ 2
step-retried_example =
    step-retried tools conf drivers flaky crawling (λ x context. pure ([], none)) 0 2 2 3 half
      other_half one_made (insert "second" 2 one_made) (close 0 ∷ []) [] producers-AreFresh
      first_start second_start

usable : (w : ℕ) → is_nil_pointer (connect drivers conf.driver conf.parameters w).0.0 ≡ false
unfolding connect run_factory
usable w = refl

abbrev inputs : List Input
inputs = won ∷ won ∷ tick ∷ []

start-IsClosing_example :
    IsClosing tools conf drivers flaky crawling
      (λ x context. pure ([], none))
      (init tools conf drivers flaky (configured tools conf drivers flaky) [] 2)
      (Event.tick ∷ [])
      (start tools conf drivers flaky crawling (λ x context. pure ([], none)) (Event.tick ∷ []) 2).0
start-IsClosing_example =
    start-IsClosing tools conf drivers flaky crawling (λ x context. pure ([], none))
      (Event.tick ∷ []) 2 (λ fine. usable 2)
