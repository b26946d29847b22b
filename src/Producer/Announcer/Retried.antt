-- ===== src/Producer/Announcer/Retried.antt =====
-- `New` of producer/announcer.go after a start that may have failed, as a node has that tries again
-- to become master.
use mathlib.Core.Path.{subst}
use ttobserver_v.Base.{
  ap, ◌∙◌, sym, ℕ, ◌+◌, ◌≡◌, ◌≢◌, refl, String, Option, none, some, List, [], ◌∷◌, Dict, lookup,
  lookup-insert, length, length-append, string_eq, eq_iff, arith, Option-cases, inl, inr,
}
use ttobserver_v.Shared.Errors.{Err}
use ttobserver_v.Producer.Announcer.Restart.{
  first, start_from-cons, start_from-fault, start_from-keeps,
}
use ttobserver_v.Producer.Announcer.Start.{AreFresh, AreFresh-insert, with_factory-IsAttached}
use ttobserver_v.Producer.Announcer.{
  Config, Factory, Progress, effective_id, attach, initiate, with_factory, start_from, new,
}
use ttobserver_v.Producer.Announcer.Missing.{
  missing, missing-cons, missing-none, missing-insert, missing-AreFresh, AreApart,
  AreFresh-AreApart,
}

module _ {W D P : Type 0} (factories : Dict String (Factory W D P)) (db : D) where
  initiate-fault :
      (i : ℕ) (c : Config) (own : List P) (all : Dict String P) (fac : Factory W D P) (q : Option P)
      (w : W) (e : Err)
      → (initiate factories db i c own all fac q w).0.fault ≡ some e
      → ((initiate factories db i c own all fac q w).0.own ≡ own)
        × ((initiate factories db i c own all fac q w).0.all ≡ all)
  unfolding initiate attach
  initiate-fault i c own all fac q w e h = ground arith

  with_factory-fault :
      (i : ℕ) (c : Config) (own : List P) (all : Dict String P) (f : Option (Factory W D P)) (w : W)
      (e : Err)
      → (with_factory factories db i c own all f w).0.fault ≡ some e
      → ((with_factory factories db i c own all f w).0.own ≡ own)
        × ((with_factory factories db i c own all f w).0.all ≡ all)
  unfolding with_factory
  with_factory-fault i c own all none w e h = (refl, refl)
  with_factory-fault i c own all (some fac) w e h =
      initiate-fault i c own all fac (lookup (effective_id c) all) w e h

  -- A start, failed or not, leaves missing what it has not made.
  start_from-missing :
      (i : ℕ) (cs : List Config) (own : List P) (all : Dict String P) (w : W)
      → AreFresh cs all
      → length (start_from factories db i cs own all w).0.own
          + missing cs (start_from factories db i cs own all w).0.all
        ≡ length own + length cs
  unfolding start_from
  start_from-missing i [] own all w fresh = omega arith
  start_from-missing i (c ∷ cs) own all w fresh =
      let (r, w') = first factories db i c cs own all w in
      elim (Option-cases r.fault) [
        | inl fine ↦
            let a =
              with_factory-IsAttached factories db i c own all (lookup c.kind factories) w fresh.0
                fine in
            let still = AreFresh-insert c a.p cs all fresh.1 fresh.2 in
            let rest =
              start_from-missing (i + 1) cs r.own r.all w'
                (subst (AreFresh {P = P} cs) (sym a.all_grows) still) in
            let one = ap (length {A = P}) a.own_grows ∙ length-append own (a.p ∷ []) in
            let here = start_from-cons factories db i c cs own all w fine in
            let t = (start_from factories db (i + 1) cs r.own r.all w').0 in
            let made : lookup (effective_id c) r.all ≢ none = ground (
              arith,
              a.all_grows,
              lookup-insert (effective_id c) (effective_id c) a.p all,
              eq_iff (effective_id c) (effective_id c),
            ) in
            let kept =
              start_from-keeps factories db (i + 1) cs r.own r.all w' (effective_id c) made in
            subst
              (λ (u : Progress P × W).
                length u.0.own + missing (c ∷ cs) u.0.all ≡ length own + length (c ∷ cs))
              (sym here) (omega (arith, rest, one, missing-cons c cs t.all kept))
        | inr (e, bad) ↦
            let (same, same_all) =
              with_factory-fault i c own all (lookup c.kind factories) w e bad in
            let here = start_from-fault factories db i c cs own all w bad in
            subst
              (λ (u : Progress P × W).
                length u.0.own + missing (c ∷ cs) u.0.all ≡ length own + length (c ∷ cs))
              (sym here)
              (omega (
                arith,
                ap (length {A = P}) same,
                ap (missing {P = P} (c ∷ cs)) same_all,
                missing-AreFresh (c ∷ cs) all fresh,
              ))
      ]

  -- The step of a configuration whose producer is there.
  with_factory-there :
      (i : ℕ) (c : Config) (own : List P) (all : Dict String P) (f : Option (Factory W D P)) (w : W)
      → lookup (effective_id c) all ≢ none
      → (with_factory factories db i c own all f w).0.fault ≡ none
      → ((with_factory factories db i c own all f w).0.own ≡ own)
        × ((with_factory factories db i c own all f w).0.all ≡ all)
  unfolding with_factory initiate
  with_factory-there i c own all none w there h = cc
  with_factory-there i c own all (some fac) w there h = ground arith

  -- A start without a fault makes what is missing.
  start_from-makes :
      (i : ℕ) (cs : List Config) (own : List P) (all : Dict String P) (w : W)
      → AreApart cs
      → (start_from factories db i cs own all w).0.fault ≡ none
      → length (start_from factories db i cs own all w).0.own ≡ length own + missing cs all
  unfolding start_from
  start_from-makes i [] own all w apart h = omega arith
  start_from-makes i (c ∷ cs) own all w apart h =
      let (r, w') = first factories db i c cs own all w in
      elim (Option-cases r.fault) [
        | inl fine ↦
            let here = start_from-cons factories db i c cs own all w fine in
            let rest = start_from-makes (i + 1) cs r.own r.all w' apart.1 (rw here at h) in
            ap (λ (t : Progress P × W). length t.0.own) here
            ∙ elim (Option-cases (lookup (effective_id c) all)) [
              | inl n ↦
                  let a =
                    with_factory-IsAttached factories db i c own all (lookup c.kind factories) w n
                      fine in
                  let one = ap (length {A = P}) a.own_grows ∙ length-append own (a.p ∷ []) in
                  let left =
                    ap (missing {P = P} cs) a.all_grows ∙ missing-insert c a.p cs all apart.0 in
                  omega (arith, rest, one, left, missing-none c cs all n)
              | inr (p, e) ↦
                  let (same, same_all) =
                    with_factory-there i c own all (lookup c.kind factories) w (λ n. cc (e, n))
                      fine in
                  omega (
                    arith,
                    rest,
                    ap (length {A = P}) same,
                    ap (missing {P = P} cs) same_all,
                    missing-cons c cs all (λ n. cc (e, n)),
                  )
            ]
        | inr (e, bad) ↦ absurd (cc (start_from-fault factories db i c cs own all w bad))
      ]

  -- A start, failed or not, from producers that have none of the ids, has made some producers and the
  -- others are missing.
  pub new-missing :
      (confs : List Config) (all : Dict String P) (w : W)
      → AreFresh confs all
      → let r = (new factories db confs all w).0 in
        length r.0.producers + missing confs r.2 ≡ length confs
  unfolding new
  new-missing confs all w fresh = omega (arith, start_from-missing 0 confs [] all w fresh)

  -- A start without a fault makes what is missing.
  pub new-makes :
      (confs : List Config) (all : Dict String P) (w : W)
      → AreApart confs
      → (new factories db confs all w).0.1 ≡ none
      → length (new factories db confs all w).0.0.producers ≡ missing confs all
  unfolding new
  new-makes confs all w apart h = omega (arith, start_from-makes 0 confs [] all w apart h)

module _ {W D P : Type 0} (factories : Dict String (Factory W D P)) where
  -- With configured ids that are pairwise distinct: after a start, failed or not, from producers
  -- that have none of these ids, a start with the same configurations that reports no error makes
  -- as many producers as the first has not made: the two announcers together have as many
  -- producers as there are configurations.
  pub new-retried :
      (db db' : D) (confs : List Config) (all : Dict String P) (w w' : W)
      → AreFresh confs all
      → let r = (new factories db confs all w).0 in
        (new factories db' confs r.2 w').0.1 ≡ none
        → length r.0.producers + length (new factories db' confs r.2 w').0.0.producers
          ≡ length confs
  new-retried db db' confs all w w' fresh h =
      let r = (new factories db confs all w).0 in
      let again = new-makes factories db' confs r.2 w' (AreFresh-AreApart confs all fresh) h in
      omega (arith, new-missing factories db confs all w fresh, again)
