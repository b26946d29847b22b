-- ===== src/Producer/Stan/Retry.antt =====
-- producer/stan/stan.go: when the attempts to publish and to reconnect succeed.
use ttobserver_v.Base.{
  ℕ, zero, suc, ◌<◌, ◌≡◌, ◌↔◌, refl, ◌∙◌, sym, ap, none, some, M, arith, Option-cases, inl, inr,
}
use ttobserver_v.Shared.Errors.{Err, Fault, ok}
use ttobserver_v.Shared.Database.{Bytes}
use ttobserver_v.Shared.Torrent.{TorrentInfo}
use ttobserver_v.Producer.Stan.{Settings, Stan, retry, send, send_encoded, try_publish}

module _ {W : Type 0} where
  -- The world after a number of runs
  abbrev pub after : M W Fault → ℕ → W → W
  after body zero w = w
  after body (suc i) w = after body i (body w).1

  -- One of the first runs succeeds
  abbrev pub Succeeds : M W Fault → ℕ → W → Type 0
  Succeeds body n w = (i : ℕ) × (i < n) × ((body (after body i w)).0 ≡ none)

  retry-none : (body : M W Fault) (n : ℕ) (w : W) → (retry body n none w).0 ≡ none
  unfolding retry
  retry-none body zero w = refl
  retry-none body (suc n) w = refl

  retry-succeeded :
      (body : M W Fault) (n : ℕ) (e : Err) (w : W)
      → (retry body n (some e) w).0 ≡ none
      → Succeeds body n w
  unfolding retry
  retry-succeeded body zero e w done = absurd (cc (done))
  retry-succeeded body (suc n) e w done = elim (Option-cases (body w).0) [
    | inl good ↦ (zero, omega arith, good)
    | inr (e', bad) ↦
        let (i, less, found) =
          retry-succeeded body n e' (body w).1
            (ap (λ x. (retry body n x (body w).1).0) (sym bad) ∙ done) in
        (suc i, omega (arith, less), found)
  ]

  retry-Succeeds :
      (body : M W Fault) (n : ℕ) (e : Err) (w : W)
      → Succeeds body n w
      → (retry body n (some e) w).0 ≡ none
  unfolding retry
  retry-Succeeds body zero e w (i, less, found) = absurd (omega (arith, less))
  retry-Succeeds body (suc n) e w (zero, less, found) =
      ap (λ x. (retry body n x (body w).1).0) found ∙ retry-none body n (body w).1
  retry-Succeeds body (suc n) e w (suc i, less, found) = elim (Option-cases (body w).0) [
    | inl good ↦ ap (λ x. (retry body n x (body w).1).0) good ∙ retry-none body n (body w).1
    | inr (e', bad) ↦
        ap (λ x. (retry body n x (body w).1).0) bad
        ∙ retry-Succeeds body n e' (body w).1 (i, omega (arith, less), found)
  ]

  -- A torrent that can be encoded is published exactly when one of the first `DefaultPingMaxOut`
  -- attempts succeeds, each made in the world that the attempts before it leave: no attempt is
  -- given up early.
  pub send-Succeeds :
      (st : Settings) (stan : Stan W) (dummy : Err) (t : TorrentInfo) (content : Bytes) (w : W)
      → stan.encode t ≡ ok content
      → ((send st stan dummy t w).0 ≡ none) ↔ Succeeds (try_publish st stan content) stan.max_out w
  unfolding send send_encoded
  send-Succeeds st stan dummy t content w encoded =
      let body = try_publish st stan content in
      let ran : send st stan dummy t w ≡ retry body stan.max_out (some dummy) w =
        ap (λ r. send_encoded st stan dummy r w) encoded in
      (
        λ done.
            retry-succeeded body stan.max_out dummy w
              (ap (λ (o : Fault × W). o.0) (sym ran) ∙ done),
        λ found. ap (λ (o : Fault × W). o.0) ran ∙ retry-Succeeds body stan.max_out dummy w found,
      )
