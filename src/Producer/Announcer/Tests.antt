-- ===== src/Producer/Announcer/Tests.antt =====
-- A start of producer/announcer.go with two configurations, and the theorems at it.
use ttobserver_v.Base.{
  ℕ, suc, ◌≡◌, refl, none, some, List, [], ◌∷◌, Dict, eq_iff, length, String, string_eq, nat_eq,
  ◌==◌, if◌then◌else◌, ◌+◌,
}
use ttobserver_v.Producer.Announcer.{
  Config, Factory, attach, initiate, with_factory, start_from, effective_id, new,
}
use ttobserver_v.Producer.Announcer.Start.{AreFresh}
use ttobserver_v.Producer.Announcer.Restart.{new-again}
use ttobserver_v.Producer.Announcer.Retried.{new-retried}
use ttobserver_v.Shared.Errors.{timeout}

-- The world counts the producers that were made, and a producer is its number.
abbrev numbered : Dict String (Factory ℕ Unit ℕ)
numbered = ("telegram", λ path db w. ((some w, none), suc w)) ∷ []

abbrev two_configs : List Config
two_configs =
    record { id = ""; kind = "telegram"; config_path = "a.json" }
    ∷ record { id = "second"; kind = "telegram"; config_path = "b.json" }
    ∷ []

no_fault : (new numbered tt two_configs [] 0).0.1 ≡ none
unfolding new start_from with_factory initiate attach effective_id
no_fault = refl

two_configs-AreFresh : AreFresh {P = ℕ} two_configs []
unfolding effective_id
two_configs-AreFresh = (refl, ((λ e. cc ((eq_iff "telegram" "second").1 e)), tt), (refl, tt, tt))

new-again_example :
    let started = (new numbered tt two_configs [] 0).0.2 in
    new numbered tt two_configs started 2 ≡ ((record { producers = []; db = tt }, none, started), 2)
new-again_example = new-again numbered tt tt two_configs [] 0 2 no_fault

-- The second attempt of all fails.
abbrev flaky : Dict String (Factory ℕ Unit ℕ)
flaky =
    ("telegram", λ path db w. ((if w == 1 then (none, some timeout) else (some w, none)), suc w))
    ∷ []

-- After the start that failed
abbrev half_started : Dict String ℕ
half_started = (new flaky tt two_configs [] 0).0.2

retried : (new flaky tt two_configs half_started 2).0.1 ≡ none
unfolding new start_from with_factory initiate attach effective_id
retried = refl

new-retried_example :
    length (new flaky tt two_configs [] 0).0.0.producers
      + length (new flaky tt two_configs half_started 2).0.0.producers
    ≡ 2
new-retried_example = new-retried flaky tt tt two_configs [] 0 2 two_configs-AreFresh retried
