-- ===== src/Producer/SqlStore/Transaction.antt =====
-- producer/sqldb/db.go: what a transaction's statements add up to.
use mathlib.Core.List.{append_assoc, append-nil}
use ttobserver_v.Base.{
  ◌≡◌, refl, ◌∙◌, sym, ap, String, take, none, List, [], ◌∷◌, ◌++◌, M, pure, ◌>>=◌, ◌>>◌,
  Option-cases, inl, inr, ◌⊎◌,
}
use ttobserver_v.Shared.Errors.{Fault}
use ttobserver_v.Shared.Database.{Bytes}
use ttobserver_v.SqlDb.{Arg, text, blob}
use ttobserver_v.Producer.SqlStore.{
  Settings, Server, sha1_size, unless, insert_v2, inserts, statements,
}

-- What the server does, told by the statements that took effect, those of the open transaction, and
-- the prepared one: only a commit makes the statements of the transaction effective, all or none.
pub record IsTransactional {W : Type 0} (server : Server W) : Type 0 where
  pub effective : W → List (String × List Arg)
  pub pending : W → List (String × List Arg)
  pub prepared : W → String
  pub ping_keeps : (w : W) → effective (server.ping w).1 ≡ effective w
  pub begin_keeps : (w : W) → effective (server.begin w).1 ≡ effective w
  pub begun : (w : W) → (server.begin w).0 ≡ none → pending (server.begin w).1 ≡ []
  pub exec_keeps :
      (q : String) (a : List Arg) (w : W) → effective (server.exec q a w).1 ≡ effective w
  pub executed :
      (q : String) (a : List Arg) (w : W)
      → (server.exec q a w).0 ≡ none
      → pending (server.exec q a w).1 ≡ pending w ++ ((q, a) ∷ [])
  pub prepare_keeps : (q : String) (w : W) → effective (server.prepare q w).1 ≡ effective w
  pub prepared_is :
      (q : String) (w : W)
      → (server.prepare q w).0 ≡ none
      → (prepared (server.prepare q w).1 ≡ q) × (pending (server.prepare q w).1 ≡ pending w)
  pub exec_prepared_keeps :
      (a : List Arg) (w : W)
      → (effective (server.exec_prepared a w).1 ≡ effective w)
        × (prepared (server.exec_prepared a w).1 ≡ prepared w)
  pub executed_prepared :
      (a : List Arg) (w : W)
      → (server.exec_prepared a w).0 ≡ none
      → pending (server.exec_prepared a w).1 ≡ pending w ++ ((prepared w, a) ∷ [])
  pub close_keeps :
      (w : W)
      → (effective (server.close_prepared w).1 ≡ effective w)
        × (pending (server.close_prepared w).1 ≡ pending w)
  pub rollback_keeps : (w : W) → effective (server.rollback w).1 ≡ effective w
  pub commit_atomic :
      (w : W)
      → (effective (server.commit w).1 ≡ effective w)
        ⊎ (effective (server.commit w).1 ≡ effective w ++ pending w)
  pub committed :
      (w : W)
      → (server.commit w).0 ≡ none
      → effective (server.commit w).1 ≡ effective w ++ pending w

module _ {W : Type 0} (d : Settings) (server : Server W) (laws : IsTransactional server) where
  open laws use {effective, pending, prepared}

  -- The insertions of the hybrid hashes
  abbrev pub script_v2 : String → String → Bytes → List (String × List Arg)
  script_v2 q name [] = []
  script_v2 q name (b ∷ h2) =
      (q, blob (b ∷ h2) ∷ text name ∷ [])
      ∷ (q, blob (take sha1_size (b ∷ h2)) ∷ text name ∷ [])
      ∷ []

  -- What one announcement does to the table: the rows of the name are deleted, its hashes inserted.
  abbrev pub script : String → Bytes → Bytes → List (String × List Arg)
  script name h1 h2 =
      (d.delete_query, text name ∷ [])
      ∷ (d.insert_query, blob h1 ∷ text name ∷ [])
      ∷ script_v2 d.insert_query name h2

  -- A call that leaves the table as it is, and without an error adds statements to the transaction.
  unfoldable pub Adds : M W Fault → List (String × List Arg) → W → Type 0
  Adds call s w =
      (effective (call w).1 ≡ effective w)
      × ((call w).0 ≡ none → pending (call w).1 ≡ pending w ++ s)

  -- The same for the calls that run the prepared statement.
  AddsPrepared : String → M W Fault → List (String × List Arg) → Type 0
  unfolding Adds
  AddsPrepared q call s = (w : W) → prepared w ≡ q → Adds call s w × (prepared (call w).1 ≡ q)

  AddsPrepared-exec :
      (q : String) (a : List Arg) → AddsPrepared q (server.exec_prepared a) ((q, a) ∷ [])
  unfolding AddsPrepared Adds
  AddsPrepared-exec q a w h =
      let (eff, prep) = laws.exec_prepared_keeps a w in
      (
        (eff, λ ok. laws.executed_prepared a w ok ∙ ap (λ p. pending w ++ ((p, a) ∷ [])) h),
        prep ∙ h,
      )

  Adds-unless :
      (call rest : M W Fault) (s t : List (String × List Arg)) (w : W)
      → Adds call s w
      → Adds rest t (call w).1
      → Adds (do e ← call; unless d server e rest) (s ++ t) w
  unfolding Adds
  Adds-unless call rest s t w (eff, adds) (eff', adds') = elim (Option-cases (call w).0) [
    | inl ok ↦
        rw (ok) (
          eff' ∙ eff,
          λ done. adds' done ∙ ap (λ p. p ++ t) (adds ok) ∙ append_assoc (pending w) s t,
        )
    | inr (e, bad) ↦ rw (bad) (eff, λ done. absurd (cc (done)))
  ]

  prepared_after :
      (q : String) (call rest : M W Fault) (w : W)
      → prepared (call w).1 ≡ q
      → prepared (rest (call w).1).1 ≡ q
      → prepared ((do e ← call; unless d server e rest) w).1 ≡ q
  prepared_after q call rest w prep prep' = elim (Option-cases (call w).0) [
    | inl ok ↦ rw (ok) prep'
    | inr (e, bad) ↦ rw (bad) prep
  ]

  AddsPrepared-unless :
      (q : String) (call rest : M W Fault) (s t : List (String × List Arg))
      → AddsPrepared q call s
      → AddsPrepared q rest t
      → AddsPrepared q (do e ← call; unless d server e rest) (s ++ t)
  unfolding AddsPrepared
  AddsPrepared-unless q call rest s t first second w h =
      let (adds, prep) = first w h in
      let (adds', prep') = second (call w).1 prep in
      (Adds-unless call rest s t w adds adds', prepared_after q call rest w prep prep')

  insert_v2-AddsPrepared :
      (q name : String) (h2 : Bytes)
      → AddsPrepared q (insert_v2 d server name h2) (script_v2 q name h2)
  unfolding insert_v2 AddsPrepared Adds
  insert_v2-AddsPrepared q name [] w h = ((refl, λ ok. sym (append-nil (pending w))), h)
  insert_v2-AddsPrepared q name (b ∷ h2) w h =
      let a : List Arg = blob (b ∷ h2) ∷ text name ∷ [] in
      let a' : List Arg = blob (take sha1_size (b ∷ h2)) ∷ text name ∷ [] in
      AddsPrepared-unless q (server.exec_prepared a) (server.exec_prepared a') ((q, a) ∷ [])
        ((q, a') ∷ []) (AddsPrepared-exec q a) (AddsPrepared-exec q a') w h

  inserts-AddsPrepared :
      (q name : String) (h1 h2 : Bytes)
      → AddsPrepared q
          (inserts d server name h1 h2)
          ((q, blob h1 ∷ text name ∷ []) ∷ script_v2 q name h2)
  unfolding inserts
  inserts-AddsPrepared q name h1 h2 =
      let a : List Arg = blob h1 ∷ text name ∷ [] in
      AddsPrepared-unless q (server.exec_prepared a) (insert_v2 d server name h2) ((q, a) ∷ [])
        (script_v2 q name h2) (AddsPrepared-exec q a) (insert_v2-AddsPrepared q name h2)

  -- The insertions, with the statement prepared for them and closed after them
  prepared_inserts : String → Bytes → Bytes → M W Fault
  prepared_inserts name h1 h2 = do
    p ← server.prepare d.insert_query
    unless d server p (do r ← inserts d server name h1 h2; server.close_prepared; pure r)

  prepared_inserts-Adds :
      (name : String) (h1 h2 : Bytes) (w : W)
      → Adds
          (prepared_inserts name h1 h2)
          ((d.insert_query, blob h1 ∷ text name ∷ []) ∷ script_v2 d.insert_query name h2)
          w
  unfolding Adds prepared_inserts AddsPrepared
  prepared_inserts-Adds name h1 h2 w =
      let w' = (server.prepare d.insert_query w).1 in
      let eff = laws.prepare_keeps d.insert_query w in
      elim (Option-cases (server.prepare d.insert_query w).0) [
        | inl ok ↦
            let (prep, pend) = laws.prepared_is d.insert_query w ok in
            let ((eff', adds), _) = inserts-AddsPrepared d.insert_query name h1 h2 w' prep in
            let (eff'', pend'') = laws.close_keeps (inserts d server name h1 h2 w').1 in
            rw (ok) (
              eff'' ∙ eff' ∙ eff,
              λ done.
                  pend''
                  ∙ adds done
                  ∙ ap
                      (λ p.
                        p
                        ++ ((d.insert_query, blob h1 ∷ text name ∷ [])
                            ∷ script_v2 d.insert_query name h2))
                      pend,
            )
        | inr (e, bad) ↦ rw (bad) (eff, λ done. absurd (cc (done)))
      ]

  pub statements-Adds :
      (name : String) (h1 h2 : Bytes) (w : W)
      → Adds (statements d server name h1 h2) (script name h1 h2) w
  unfolding Adds statements prepared_inserts
  statements-Adds name h1 h2 w =
      let a : List Arg = text name ∷ [] in
      Adds-unless (server.exec d.delete_query a) (prepared_inserts name h1 h2)
        ((d.delete_query, a) ∷ []) _ w
        (laws.exec_keeps d.delete_query a w, laws.executed d.delete_query a w)
        (prepared_inserts-Adds name h1 h2 (server.exec d.delete_query a w).1)
