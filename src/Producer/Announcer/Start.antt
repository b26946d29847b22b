-- ===== src/Producer/Announcer/Start.antt =====
-- `New` of producer/announcer.go: a first start has every configured producer.
use mathlib.Core.Path.{subst}
use ttobserver_v.Base.{
  sym, ap, ◌∙◌, ℕ, ◌+◌, ◌≡◌, ◌≢◌, refl, String, Option, none, some, List, [], ◌∷◌, ◌++◌, Dict,
  lookup, insert, lookup-insert, length, length-append, string_eq, eq_iff, arith, Option-cases, inl,
  inr, All,
}
use ttobserver_v.Shared.Errors.{Fault}
use ttobserver_v.Producer.Announcer.Restart.{first, start_from-cons, start_from-fault}
use ttobserver_v.Producer.Announcer.{
  Config, Factory, Progress, effective_id, attach, initiate, with_factory, start_from, new,
}

-- No configuration has an id that is taken, or that of one after it.
abbrev pub AreFresh : {P : Type 0} → List Config → Dict String P → Type 0
AreFresh [] all = Unit
AreFresh (c ∷ cs) all =
    (lookup (effective_id c) all ≡ none)
    × All (λ d. effective_id c ≢ effective_id d) cs
    × AreFresh cs all

-- A producer that was inserted under another id takes none away.
pub AreFresh-insert :
    {P : Type 0} (c : Config) (p : P) (cs : List Config) (all : Dict String P)
    → All (λ d. effective_id c ≢ effective_id d) cs
    → AreFresh cs all
    → AreFresh cs (insert (effective_id c) p all)
AreFresh-insert c p [] all apart h = tt
AreFresh-insert c p (d ∷ cs) all apart h = (
  ground (
    arith,
    lookup-insert (effective_id c) (effective_id d) p all,
    eq_iff (effective_id c) (effective_id d),
  ),
  h.1,
  AreFresh-insert c p cs all apart.1 h.2,
)

module _ {W D P : Type 0} (factories : Dict String (Factory W D P)) (db : D) where
  -- The step of a fresh configuration that is constructed.
  pub record IsAttached (c : Config) (own : List P) (all : Dict String P) (r : Progress P)
      : Type 0 where
    pub p : P
    pub own_grows : r.own ≡ own ++ p ∷ []
    pub all_grows : r.all ≡ insert (effective_id c) p all

  attach-IsAttached :
      (i : ℕ) (c : Config) (own : List P) (all : Dict String P) (r : Option P × Fault)
      → (attach i c own all r).fault ≡ none
      → IsAttached c own all (attach i c own all r)
  unfolding attach
  attach-IsAttached i c own all (some p, none) h = record {
    p = p;
    own_grows = refl;
    all_grows = refl;
  }
  attach-IsAttached i c own all (none, none) h = cc
  attach-IsAttached i c own all (o, some e) h = cc

  initiate-IsAttached :
      (i : ℕ) (c : Config) (own : List P) (all : Dict String P) (fac : Factory W D P) (q : Option P)
      (w : W)
      → q ≡ none
      → (initiate factories db i c own all fac q w).0.fault ≡ none
      → IsAttached c own all (initiate factories db i c own all fac q w).0
  unfolding initiate
  initiate-IsAttached i c own all fac (some p) w n h = cc
  initiate-IsAttached i c own all fac none w n h =
      attach-IsAttached i c own all (fac c.config_path db w).0 h

  pub with_factory-IsAttached :
      (i : ℕ) (c : Config) (own : List P) (all : Dict String P) (f : Option (Factory W D P)) (w : W)
      → lookup (effective_id c) all ≡ none
      → (with_factory factories db i c own all f w).0.fault ≡ none
      → IsAttached c own all (with_factory factories db i c own all f w).0
  unfolding with_factory
  with_factory-IsAttached i c own all none w n h = cc
  with_factory-IsAttached i c own all (some fac) w n h =
      initiate-IsAttached i c own all fac (lookup (effective_id c) all) w n h

  start_from-length :
      (i : ℕ) (cs : List Config) (own : List P) (all : Dict String P) (w : W)
      → AreFresh cs all
      → (start_from factories db i cs own all w).0.fault ≡ none
      → length (start_from factories db i cs own all w).0.own ≡ length own + length cs
  unfolding start_from
  start_from-length i [] own all w fresh h = omega arith
  start_from-length i (c ∷ cs) own all w fresh h =
      let (r, w') = first factories db i c cs own all w in
      elim (Option-cases r.fault) [
        | inl fine ↦
            let here = start_from-cons factories db i c cs own all w fine in
            let a = with_factory-IsAttached i c own all (lookup c.kind factories) w fresh.0 fine in
            let still = AreFresh-insert c a.p cs all fresh.1 fresh.2 in
            let rest =
              start_from-length (i + 1) cs r.own r.all w'
                (subst (AreFresh {P = P} cs) (sym a.all_grows) still) (rw here at h) in
            let one = ap (length {A = P}) a.own_grows ∙ length-append own (a.p ∷ []) in
            ap (λ (t : Progress P × W). length t.0.own) here ∙ omega (arith, rest, one)
        | inr (e, bad) ↦ absurd (cc (start_from-fault factories db i c cs own all w bad))
      ]

  -- A start that reports no error, with ids that differ and none of them taken, has one producer for
  -- each configuration.
  pub new-length :
      (confs : List Config) (all : Dict String P) (w : W)
      → AreFresh confs all
      → (new factories db confs all w).0.1 ≡ none
      → length (new factories db confs all w).0.0.producers ≡ length confs
  unfolding new
  new-length confs all w fresh h = omega (arith, start_from-length 0 confs [] all w fresh h)
