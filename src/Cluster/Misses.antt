-- ===== src/Cluster/Misses.antt =====
-- The counter of cluster.go: what the number of failed requests has to do with what was seen.
pub mod Leads
use ttobserver_v.Base.{
  ℕ, zero, suc, ◌+◌, ◌%◌, ◌^◌, ◌<◌, ◌≡◌, refl, ◌∙◌, ap, Option, none, some, List, [], ◌∷◌, arith,
  leb, Bool-cases, inl, inr,
}
use ttobserver_v.Shared.Errors.{Fault}
use ttobserver_v.Cluster.{
  Settings, Nats, Node, Seen, alive, missing, failed, lacks_responders, propose, as_master,
  suspend_on, miss, on_answer, ping, rounds,
}

-- How often the master was missing since it was last alive; the last sight comes first.
abbrev pub misses : List Seen → ℕ
misses [] = 0
misses (alive ∷ seen) = 0
misses (missing ∷ seen) = suc (misses seen)
misses (failed ∷ seen) = misses seen

-- The counter shows what was seen, as a uint32.
abbrev pub Counts : {S : Type 0} → Node S → List Seen → Type 0
Counts node seen = node.error_count ≡ misses seen % 2 ^ 32

module _ {W S : Type 0} (cl : Settings) (nats : Nats W S) where
  count-propose :
      (node : Node S) (s : Option S × Fault) (w : W)
      → (propose cl nats node s w).0.0.error_count ≡ node.error_count
  unfolding propose
  count-propose node (s, some e) w = refl
  count-propose node (s, none) w = refl

  count-suspend_on : (r : Node S × Fault) (w : W) → (suspend_on cl nats r w).0 ≡ r.0
  unfolding suspend_on
  count-suspend_on (node, none) w = refl
  count-suspend_on (node, some e) w = refl

  count-miss :
      (node : Node S) (w : W)
      → (miss cl nats node w).0.error_count ≡ (node.error_count + 1) % 2 ^ 32
  unfolding miss as_master
  count-miss node w =
      elim (Bool-cases (leb cl.master_retry_count ((node.error_count + 1) % 2 ^ 32))) [
        | inl stands ↦
            let counted : Node S = record node { error_count = (node.error_count + 1) % 2 ^ 32 } in
            let (s, w') = nats.subscribe cl.propose_subject w in
            let (r, w'') = propose cl nats counted s w' in
            rw stands (
              ap (λ (q : Node S). q.error_count) (count-suspend_on r w'')
              ∙ count-propose counted s w')
        | inr waits ↦ rw waits
      ]

  -- A step of the counter, for what is seen.
  count-on_answer :
      (node : Node S) (seen : List Seen) (answer : Fault) (w : W)
      → Counts node seen
      → let r = (on_answer cl nats node answer w).0 in Counts r.0 (r.1 ∷ seen)
  unfolding on_answer
  count-on_answer node seen none w h = refl
  count-on_answer node seen (some e) w h =
      let (gone, w') = lacks_responders cl nats (some e) w in ground (arith, count-miss node w')

  ping-Counts :
      (node : Node S) (seen : List Seen) (w : W)
      → Counts node seen
      → let r = (ping cl nats node w).0 in Counts r.0 (r.1 ∷ seen)
  unfolding ping
  ping-Counts node seen w h =
      let (answer, w') = nats.request cl.master_subject w in count-on_answer node seen answer w' h

  -- After any number of rounds the counter is the number of requests that the master has missed
  -- since it last answered, as a uint32.
  pub rounds-Counts :
      (n : ℕ) (node : Node S) (seen : List Seen) (w : W)
      → Counts node seen
      → let r = (rounds cl nats n node seen w).0 in Counts r.0 r.1
  unfolding rounds
  rounds-Counts zero node seen w h = h
  rounds-Counts (suc n) node seen w h =
      let (r, w') = ping cl nats node w in
      rounds-Counts n r.0 (r.1 ∷ seen) w' (ping-Counts node seen w h)

  -- The world after a request to the master and the look at its error, with nothing else done.
  pub look : Fault → W → W
  look none w = w
  look (some e) w = (lacks_responders cl nats (some e) w).1

  on_answer-look :
      (node : Node S) (seen : List Seen) (answer : Fault) (w : W)
      → Counts node seen
      → suc (misses seen) < cl.master_retry_count
      → cl.master_retry_count < 2 ^ 32
      → (on_answer cl nats node answer w).1 ≡ look answer w
  unfolding on_answer look miss
  on_answer-look node seen none w h few small = refl
  on_answer-look node seen (some e) w h few small =
      let (gone, w') = lacks_responders cl nats (some e) w in ground arith

  -- A node whose missed requests, the one of this round included, are fewer than its retry count,
  -- which is below 2^32, only asks: it does not propose itself and starts or suspends no work.
  pub ping-look :
      (node : Node S) (seen : List Seen) (w : W)
      → Counts node seen
      → suc (misses seen) < cl.master_retry_count
      → cl.master_retry_count < 2 ^ 32
      → let (answer, w') = nats.request cl.master_subject w in
        (ping cl nats node w).1 ≡ look answer w'
  unfolding ping
  ping-look node seen w h few small =
      let (answer, w') = nats.request cl.master_subject w in
      on_answer-look node seen answer w' h few small
