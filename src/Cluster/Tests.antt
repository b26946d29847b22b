-- ===== src/Cluster/Tests.antt =====
-- Runs of cluster.go, and the theorems at them: a connection on which no master answers.
use ttobserver_v.Base.{
  ℕ, suc, ◌≡◌, refl, ap, ◌%◌, ◌^◌, true, false, none, some, [], ◌∷◌, arith, pure, if◌then◌else◌,
  ◌==◌, string_eq,
}
use ttobserver_v.Base.Int.{pos}
use ttobserver_v.Shared.Errors.{no_responders, timeout}
use ttobserver_v.Shared.Database.{Bytes}
use ttobserver_v.Cluster.{Settings, Nats, Node, start, rounds, ping, respond_id, same_bytes}
use ttobserver_v.Cluster.Misses.{misses, rounds-Counts, ping-look, look}
use ttobserver_v.Cluster.Misses.Leads.{IsDeserted}
use ttobserver_v.Cluster.Stopped.{CountsSuspended}
use ttobserver_v.Cluster.Election.{
  Phase, idle, proposing, master, Nodes, update, is_subscribed, Step, Reach, Reach-IsUnique,
}

abbrev two_retries : Settings
two_retries = record {
  nats_url = "nats://here";
  master_subject = "master";
  propose_subject = "propose";
  master_ping_interval = pos 10;
  master_retry_count = 2;
  start_fn_set = true;
  suspend_fn_set = true;
}

-- The world counts the requests; nobody answers.
abbrev silent : Nats ℕ ℕ
silent = record {
  request = λ subject w. (some no_responders, suc w);
  is_connected = pure true;
  subscribe = λ subject. pure (some 0, none);
  unsubscribe = λ s. pure tt;
  start_fn = pure none;
  suspend_fn = pure tt;
}

abbrev fresh_node : Node ℕ
fresh_node = record { error_count = 0; proposed_sub = none; master_sub = none }

rounds-Counts_example :
    let r = (rounds two_retries silent 3 fresh_node [] 0).0 in r.0.error_count ≡ misses r.1 % 2 ^ 32
rounds-Counts_example = rounds-Counts two_retries silent 3 fresh_node [] 0 refl

ping-look_example :
    (ping two_retries silent fresh_node 7).1 ≡ look two_retries silent (some no_responders) 8
ping-look_example = ping-look two_retries silent fresh_node [] 7 refl (omega arith) (omega arith)

abbrev number : ℕ → Bytes
number n = n ∷ []

abbrev head_of : Bytes → ℕ
head_of [] = 0
head_of (x ∷ xs) = x

number-distinct : (i j : ℕ) → number i ≡ number j → i ≡ j
number-distinct i j e = ap head_of e

-- Node 0 subscribes to the proposals, is not answered and becomes master; node 1 is answered.
abbrev one_proposes : Nodes
one_proposes = update (λ _. idle) 0 (proposing none)

abbrev one_asks : Nodes
one_asks = update one_proposes 0 (proposing (some false))

abbrev one_leads : Nodes
one_leads = update one_asks 0 master

abbrev two_proposes : Nodes
two_proposes = update one_leads 1 (proposing none)

abbrev two_asks : Nodes
two_asks = update two_proposes 1 (proposing (some true))

alone : (j : ℕ) → is_subscribed (one_proposes j) ≡ true → respond_id (number j) (number 0) ≡ false
unfolding respond_id same_bytes
alone j h = ground arith

lands : (s : Nodes) (i : ℕ) (p : Phase) → update s i p i ≡ p
lands s i p = ground arith

heard : respond_id (number 0) (number 1) ≡ true
unfolding respond_id same_bytes
heard = refl

abbrev Never : ℕ → Type 0
Never _ = ⊥

two_asks-Reach : Reach number Never two_asks
unfolding native.Mathlib.Decide.ℕ_discrete
two_asks-Reach =
    let asked =
      Reach.next (Reach.next Reach.start (Step.subscribe 0 refl))
        (Step.ask_silent 0 (lands (λ _. idle) 0 (proposing none)) alone) in
    let leads = Reach.next asked (Step.win 0 (lands one_proposes 0 (proposing (some false)))) in
    Reach.next (Reach.next leads (Step.subscribe 1 refl))
      (Step.ask_heard 1 0 (lands one_leads 1 (proposing none)) refl heard)

Reach-IsUnique_example : ◌≡◌ {A = ℕ} 0 0
unfolding native.Mathlib.Decide.ℕ_discrete
Reach-IsUnique_example =
    Reach-IsUnique number number-distinct Never (λ i l. l) two_asks-Reach 0 0 refl refl

-- Nobody answers, and the world counts the starts of the work.
abbrev lonely : Nats ℕ ℕ
lonely = record silent {
  request = λ subject. pure (some (if subject == "propose" then timeout else no_responders));
  start_fn = λ w. (none, suc w);
}

lonely-IsDeserted : IsDeserted two_retries lonely
lonely-IsDeserted = record {
  started = λ w. w;
  no_master = λ w. refl;
  unanswered = λ w. refl;
  connected = λ w. refl;
  subscribes = λ subject w. refl;
  request_keeps = λ subject w. refl;
  connected_keeps = λ w. refl;
  subscribe_keeps = λ subject w. refl;
  unsubscribe_keeps = λ s w. refl;
  suspend_keeps = λ w. refl;
  starts = λ w. refl;
}

-- The world counts how often the work was suspended.
abbrev suspending : Nats ℕ ℕ
suspending = record silent {
  request = λ subject. pure (some no_responders);
  suspend_fn = λ w. (tt, suc w);
}

suspending-CountsSuspended : CountsSuspended suspending (pure tt)
suspending-CountsSuspended = record {
  suspended = λ w. w;
  suspends = λ w. refl;
  unsubscribe_keeps = λ s w. refl;
  connected_keeps = λ w. refl;
  close_keeps = λ w. refl;
}

-- Where answers may be late, node 1 takes the timeout for a silence, and there are two masters.
abbrev Always : ℕ → Type 0
Always _ = Unit

two_lead-Reach : Reach number Always (update two_asks 1 master)
unfolding native.Mathlib.Decide.ℕ_discrete
two_lead-Reach =
    let asked =
      Reach.next (Reach.next Reach.start (Step.subscribe 0 refl))
        (Step.ask_silent 0 (lands (λ _. idle) 0 (proposing none)) alone) in
    let leads = Reach.next asked (Step.win 0 (lands one_proposes 0 (proposing (some false)))) in
    let answered =
      Reach.next (Reach.next leads (Step.subscribe 1 refl))
        (Step.ask_heard 1 0 (lands one_leads 1 (proposing none)) refl heard) in
    Reach.next answered (Step.win_late 1 (lands two_proposes 1 (proposing (some true))) tt)

two_lead : (update two_asks 1 master 0 ≡ master) × (update two_asks 1 master 1 ≡ master)
unfolding native.Mathlib.Decide.ℕ_discrete
two_lead = (refl, refl)
