-- ===== src/Observer/Life/Ready.antt =====
-- `Init` of observer.go: what is set when it reports no error.
use ttobserver_v.Base.{
  String, false, Option, none, some, Dict, is_empty, ◌≢◌, ◌≡◌, refl, arith, Bool-cases, inl, inr,
}
use ttobserver_v.Base.Int.{ℤ, pos, negsuc, int_eq}
use ttobserver_v.Shared.Errors.{Fault, actions_not_set}
use ttobserver_v.Shared.Database.{Database, DbFactory, connect}
use ttobserver_v.Producer.Announcer.{Factory, Announcer, new}
use ttobserver_v.Observer.Life.{
  or_default, Conf, Tools, Parts, open_channel, with_announcer, start_producers, with_extractor,
  with_url, with_db, init,
}

or_default-set : (d : ℤ) → or_default d ≢ pos 0
or_default-set (pos n) = ground arith
or_default-set (negsuc n) = λ e. cc (e)

module _ {W A X V P : Type 0} (tools : Tools A X) (conf : Conf A V)
    (drivers : Dict String (DbFactory W V (Database W)))
    (factories : Dict String (Factory W (Option (Database W)) P)) where
  -- An observer that `Engage` can run: it has an extractor, an announcer on its database and a delay.
  pub record IsReady (db : Option (Database W)) (parts : Parts W X P) : Type 0 where
    pub x : X
    pub has_extractor : parts.extractor ≡ some x
    pub a : Announcer (Option (Database W)) P
    pub has_announcer : parts.announcer ≡ some a
    pub connected : parts.db ≡ db
    pub has_delay : parts.delay ≢ pos 0
    pub can_stop : parts.stopped ≡ open_channel

  with_announcer-IsReady :
      (parts : Parts W X P) (x : X) (r : Announcer (Option (Database W)) P × Fault × Dict String P)
      → parts.extractor ≡ some x
      → (with_announcer tools conf drivers factories parts r).1 ≡ none
      → IsReady parts.db (with_announcer tools conf drivers factories parts r).0
  unfolding with_announcer
  with_announcer-IsReady parts x (a, none, all) e h = record {
    x = x;
    has_extractor = e;
    a = a;
    has_announcer = refl;
    connected = refl;
    has_delay = or_default-set parts.delay;
    can_stop = refl;
  }
  with_announcer-IsReady parts x (a, some y, all) e h = cc

  with_extractor-IsReady :
      (parts : Parts W X P) (r : X × Fault) (all : Dict String P) (w : W)
      → (with_extractor tools conf drivers factories parts r all w).0.1 ≡ none
      → IsReady parts.db (with_extractor tools conf drivers factories parts r all w).0.0
  unfolding with_extractor start_producers
  with_extractor-IsReady parts (x, none) all w h =
      with_announcer-IsReady (record parts { extractor = some (tools.limited x conf.limit) })
        (tools.limited x conf.limit) (new factories parts.db conf.producers all w).0 refl h
  with_extractor-IsReady parts (x, some e) all w h = cc

  with_url-IsReady :
      (parts : Parts W X P) (e : Fault) (all : Dict String P) (w : W)
      → (with_url tools conf drivers factories parts e all w).0.1 ≡ none
      → IsReady parts.db (with_url tools conf drivers factories parts e all w).0.0
        × (is_empty conf.meta_actions ≡ false)
  unfolding with_url
  with_url-IsReady parts none all w h = elim (Bool-cases (is_empty conf.meta_actions)) [
    | inl no_actions ↦ absurd (actions_fault (rw no_actions at h))
    | inr actions ↦ (
      rw actions
          (with_extractor-IsReady parts (tools.compile conf.meta_actions) all w (rw actions at h)),
      actions,
    )
  ]
    where
      actions_fault : ◌≡◌ {A = Fault} (some actions_not_set) none → ⊥
      actions_fault q = cc
  with_url-IsReady parts (some e) all w h = cc

  with_db-IsReady :
      (parts : Parts W X P) (e : Fault) (all : Dict String P) (w : W)
      → (with_db tools conf drivers factories parts e all w).0.1 ≡ none
      → (e ≡ none)
        × IsReady parts.db (with_db tools conf drivers factories parts e all w).0.0
        × (is_empty conf.meta_actions ≡ false)
  unfolding with_db
  with_db-IsReady parts none all w h =
      let r = with_url-IsReady parts (tools.parse_url conf.base_url) all w h in (refl, r.0, r.1)
  with_db-IsReady parts (some e) all w h = cc

  -- `Init` without an error has connected to the database, whose answer it keeps, was given actions,
  -- and has set all that `Engage` uses; the delay is never 0.
  pub init-IsReady :
      (old : Parts W X P) (all : Dict String P) (w : W)
      → (init tools conf drivers factories old all w).0.1 ≡ none
      → let d = (connect drivers conf.driver conf.parameters w).0 in
        (d.1 ≡ none)
        × IsReady d.0 (init tools conf drivers factories old all w).0.0
        × (is_empty conf.meta_actions ≡ false)
  unfolding init
  init-IsReady old all w h =
      let (d, w') = connect drivers conf.driver conf.parameters w in
      with_db-IsReady (record old { db = d.0 }) d.1 all w' h
