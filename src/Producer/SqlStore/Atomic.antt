-- ===== src/Producer/SqlStore/Atomic.antt =====
-- producer/sqldb/db.go: the transaction that replaces the hashes of a torrent, as a whole.
use ttobserver_v.Base.{◌≡◌, ◌∙◌, ap, String, List, [], ◌++◌, M, ◌>>=◌, Option-cases, inl, inr, ◌⊎◌}
use ttobserver_v.Shared.Errors.{Fault}
use ttobserver_v.Shared.Database.{Bytes}
use ttobserver_v.SqlDb.{Arg}
use ttobserver_v.Producer.SqlStore.{Settings, Server, statements, end_transaction, exec_db}
use ttobserver_v.Producer.SqlStore.Transaction.{IsTransactional, script, Adds, statements-Adds}

module _ {W : Type 0} (d : Settings) (server : Server W) (laws : IsTransactional server) where
  open laws use {effective, pending}

  -- The table is as before, or the whole script took effect
  AllOrNothing : List (String × List Arg) → W → W → Type 0
  AllOrNothing s w w' = (effective w' ≡ effective w) ⊎ (effective w' ≡ effective w ++ s)

  -- The transaction, once it is open
  in_transaction : String → Bytes → Bytes → M W Fault
  in_transaction name h1 h2 = do e ← statements d server name h1 h2; end_transaction d server e

  in_transaction-atomic :
      (name : String) (h1 h2 : Bytes) (w : W)
      → pending w ≡ []
      → AllOrNothing (script d server laws name h1 h2) w (in_transaction name h1 h2 w).1
  unfolding in_transaction end_transaction AllOrNothing Adds
  in_transaction-atomic name h1 h2 w empty =
      let w' = (statements d server name h1 h2 w).1 in
      let (eff, adds) = statements-Adds d server laws name h1 h2 w in
      elim (Option-cases (statements d server name h1 h2 w).0) [
        | inl ok ↦
            let all = adds ok ∙ ap (λ p. p ++ script d server laws name h1 h2) empty in
            elim (laws.commit_atomic w') [
              | inl none_of_it ↦ rw (ok) (inl (none_of_it ∙ eff))
              | inr all_of_it ↦
                  rw (ok) (
                    inr
                      (all_of_it ∙ ap (λ e. e ++ pending w') eff ∙ ap (λ p. effective w ++ p) all))
            ]
        | inr (e, bad) ↦ rw (bad) (inl (laws.rollback_keeps w' ∙ eff))
      ]

  -- Whatever fails, `ExecDB` leaves the table as it was, or all statements for the torrent took
  -- effect: the rows of its name are deleted, and its hashes are inserted, with the hybrid ones
  -- when there is a hash of version 2.
  pub exec_db-atomic :
      (name : String) (h1 h2 : Bytes) (w : W)
      → (effective (exec_db d server name h1 h2 w).1 ≡ effective w)
        ⊎ (effective (exec_db d server name h1 h2 w).1
            ≡ effective w ++ script d server laws name h1 h2)
  unfolding exec_db in_transaction AllOrNothing
  exec_db-atomic name h1 h2 w =
      let w₁ = (server.ping w).1 in
      let w₂ = (server.begin w₁).1 in
      let kept = laws.begin_keeps w₁ ∙ laws.ping_keeps w in
      elim (Option-cases (server.ping w).0) [
        | inr (e, bad) ↦ rw (bad) (inl (laws.ping_keeps w))
        | inl up ↦ elim (Option-cases (server.begin w₁).0) [
          | inr (e, bad) ↦ rw (up, bad) (inl kept)
          | inl open_ok ↦ elim (in_transaction-atomic name h1 h2 w₂ (laws.begun w₁ open_ok)) [
            | inl before ↦ rw (up, open_ok) (inl (before ∙ kept))
            | inr after ↦
                rw (up, open_ok) (inr (after ∙ ap (λ e. e ++ script d server laws name h1 h2) kept))
          ]
        ]
      ]
