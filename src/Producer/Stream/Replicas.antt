-- ===== src/Producer/Stream/Replicas.antt =====
-- producer/nats/nats.go: how many replicas the stream gets.
use ttobserver_v.Base.{
  ℕ, zero, suc, ◌+◌, ◌*◌, ◌<◌, ◌≤◌, ◌≡◌, false, Option, none, some, ◌⊎◌, nat_eq, string_eq,
}
use ttobserver_v.Shared.Errors.{Err, Fault}
use ttobserver_v.Producer.Stream.{Settings, Client, too_many_replicas}

-- A server with room for a number of replicas: a stream with more is refused for that reason.
pub record HasRoom {W : Type 0} (st : Settings) (nats : Client W) (room : ℕ) : Type 0 where
  pub refusal : Err
  pub refusal_text : nats.error_text refusal ≡ too_many_replicas
  pub refusal_differs : nats.in_use refusal ≡ false
  pub replicas_of : W → Option ℕ
  pub added :
      (n : ℕ) (w : W)
      → n ≤ room
      → let (e, w') = nats.add_stream st.stream st.subject n w in
        (e ≡ none) × (replicas_of w' ≡ some n)
  pub refused :
      (n : ℕ) (w : W) → room < n → (nats.add_stream st.stream st.subject n w).0 ≡ some refusal

-- The smallest count that the loop tries
abbrev pub lowest : ℕ → ℕ
lowest zero = 1
lowest (suc zero) = 1
lowest (suc (suc zero)) = 2
lowest (suc (suc (suc n))) = lowest (suc n)

module _ {W : Type 0} (st : Settings) (nats : Client W) (room : ℕ)
    (server : HasRoom st nats room) where
  open server use {refusal, replicas_of}

  -- The stream has the count of replicas, or the greatest one for which there is room among those that
  -- are below it by an even number.
  abbrev pub IsMade : ℕ → Fault × W → Type 0
  IsMade n (e, w) =
      (e ≡ none)
      × ((k d : ℕ) × (replicas_of w ≡ some k)
          × (k ≤ room)
          × (n ≡ k + 2 * d)
          × ((d ≡ 0) ⊎ (room < k + 2)))
