-- ===== src/Producer/Announcer/Restart.antt =====
-- `New` of producer/announcer.go called again with configurations whose producers are there.
use mathlib.Core.Path.{subst}
use ttobserver_v.Base.{
  sym, ℕ, ◌+◌, ◌≡◌, ◌≢◌, refl, String, Option, none, some, List, [], ◌∷◌, Dict, lookup,
  lookup-insert, string_eq, eq_iff, arith, Option-cases, inl, inr, All,
}
use ttobserver_v.Shared.Errors.{Err, Fault}
use ttobserver_v.Producer.Announcer.{
  Config, Factory, Progress, effective_id, attach, initiate, with_factory, start_from, new,
}

module _ {P : Type 0} (i : ℕ) (c : Config) (own : List P) (all : Dict String P) where
  attach-keeps :
      (r : Option P × Fault) (k : String)
      → lookup k all ≢ none
      → lookup k (attach i c own all r).all ≢ none
  unfolding attach
  attach-keeps (some p, none) k h = ground (arith, lookup-insert (effective_id c) k p all)
  attach-keeps (none, none) k h = h
  attach-keeps (o, some e) k h = h

  attach-has :
      (r : Option P × Fault)
      → (attach i c own all r).fault ≡ none
      → lookup (effective_id c) (attach i c own all r).all ≢ none
  unfolding attach
  attach-has (some p, none) h = ground (
    arith,
    lookup-insert (effective_id c) (effective_id c) p all,
    eq_iff (effective_id c) (effective_id c),
  )
  attach-has (none, none) h = cc
  attach-has (o, some e) h = cc

module _ {W D P : Type 0} (factories : Dict String (Factory W D P)) where
  -- The type of a configuration is known, and a producer is there under its id.
  abbrev IsStarted : Dict String P → Config → Type 0
  IsStarted all c = (lookup c.kind factories ≢ none) × (lookup (effective_id c) all ≢ none)

  module _ (db : D) (i : ℕ) (c : Config) (own : List P) (all : Dict String P) (w : W) where
    initiate-keeps :
        (fac : Factory W D P) (p : Option P) (k : String)
        → lookup k all ≢ none
        → lookup k (initiate factories db i c own all fac p w).0.all ≢ none
    unfolding initiate
    initiate-keeps fac (some p) k h = h
    initiate-keeps fac none k h = attach-keeps i c own all (fac c.config_path db w).0 k h

    with_factory-keeps :
        (f : Option (Factory W D P)) (k : String)
        → lookup k all ≢ none
        → lookup k (with_factory factories db i c own all f w).0.all ≢ none
    unfolding with_factory
    with_factory-keeps none k h = h
    with_factory-keeps (some fac) k h = initiate-keeps fac (lookup (effective_id c) all) k h

    initiate-has :
        (fac : Factory W D P) (p : Option P)
        → lookup (effective_id c) all ≡ p
        → (initiate factories db i c own all fac p w).0.fault ≡ none
        → lookup (effective_id c) (initiate factories db i c own all fac p w).0.all ≢ none
    unfolding initiate
    initiate-has fac (some p) e h = λ n. cc
    initiate-has fac none e h = attach-has i c own all (fac c.config_path db w).0 h

    with_factory-has :
        (f : Option (Factory W D P))
        → (with_factory factories db i c own all f w).0.fault ≡ none
        → (f ≢ none)
          × (lookup (effective_id c) (with_factory factories db i c own all f w).0.all ≢ none)
    unfolding with_factory
    with_factory-has none h = cc
    with_factory-has (some fac) h =
        ((λ n. cc), initiate-has fac (lookup (effective_id c) all) refl h)

  pub start_from-keeps :
      (db : D) (i : ℕ) (cs : List Config) (own : List P) (all : Dict String P) (w : W) (k : String)
      → lookup k all ≢ none
      → lookup k (start_from factories db i cs own all w).0.all ≢ none
  unfolding start_from
  start_from-keeps db i [] own all w k h = h
  start_from-keeps db i (c ∷ cs) own all w k h =
      let (r, w') = with_factory factories db i c own all (lookup c.kind factories) w in
      let kept = with_factory-keeps db i c own all w (lookup c.kind factories) k h in
      ground (arith, start_from-keeps db (i + 1) cs r.own r.all w' k kept)

  module _ (db : D) (i : ℕ) (c : Config) (cs : List Config) (own : List P) (all : Dict String P)
      (w : W) where
    abbrev pub first : Progress P × W
    first = with_factory factories db i c own all (lookup c.kind factories) w

    pub start_from-cons :
        first.0.fault ≡ none
        → start_from factories db i (c ∷ cs) own all w
          ≡ start_from factories db (i + 1) cs first.0.own first.0.all first.1
    unfolding start_from
    start_from-cons fine = ground arith

    pub start_from-fault :
        {e : Err} → first.0.fault ≡ some e → start_from factories db i (c ∷ cs) own all w ≡ first
    unfolding start_from
    start_from-fault bad = ground arith

  start_from-IsStarted :
      (db : D) (i : ℕ) (cs : List Config) (own : List P) (all : Dict String P) (w : W)
      → (start_from factories db i cs own all w).0.fault ≡ none
      → All (IsStarted (start_from factories db i cs own all w).0.all) cs
  start_from-IsStarted db i [] own all w h = tt
  start_from-IsStarted db i (c ∷ cs) own all w h =
      let (r, w') = first db i c cs own all w in
      elim (Option-cases r.fault) [
        | inl fine ↦
            let has = with_factory-has db i c own all w (lookup c.kind factories) fine in
            subst (λ (t : Progress P × W). All (IsStarted t.0.all) (c ∷ cs))
              (sym (start_from-cons db i c cs own all w fine))
              (
                (has.0, start_from-keeps db (i + 1) cs r.own r.all w' (effective_id c) has.1),
                start_from-IsStarted db (i + 1) cs r.own r.all w'
                    (rw (start_from-cons db i c cs own all w fine) at h),
              )
        | inr (e, bad) ↦ absurd (cc (start_from-fault db i c cs own all w bad))
      ]

  -- With every configuration started, the loop constructs nothing and collects nothing.
  start_from-again :
      (db : D) (i : ℕ) (cs : List Config) (own : List P) (all : Dict String P) (w : W)
      → All (IsStarted all) cs
      → start_from factories db i cs own all w ≡ (record { own = own; all = all; fault = none }, w)
  unfolding start_from with_factory initiate
  start_from-again db i [] own all w h = refl
  start_from-again db i (c ∷ cs) own all w h =
      ground (arith, start_from-again db (i + 1) cs own all w h.1)

  -- After a start that reported no error, a start with the same configurations, at any database and
  -- in any world, succeeds with an announcer that has no producer at all, and changes nothing.
  pub new-again :
      (db db' : D) (confs : List Config) (all : Dict String P) (w w' : W)
      → (new factories db confs all w).0.1 ≡ none
      → let started = (new factories db confs all w).0.2 in
        new factories db' confs started w'
        ≡ ((record { producers = []; db = db' }, none, started), w')
  unfolding new
  new-again db db' confs all w w' h =
      rw (start_from-again db' 0 confs [] _ w' (start_from-IsStarted db 0 confs [] all w h))
