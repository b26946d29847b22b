-- ===== src/Observer/Life/Retried.antt =====
-- `Init` of observer.go: the producers that a start makes, and that the next one misses.
use ttobserver_v.Base.{
  ℕ, ◌+◌, String, Option, none, some, List, Dict, is_empty, ◌≡◌, refl, ap, sym, length-map, ◌∙◌,
  arith, length, Bool-cases, inl, inr,
}
use ttobserver_v.Shared.Errors.{Fault, actions_not_set}
use ttobserver_v.Shared.Database.{Database, DbFactory, connect, is_nil_pointer}
use ttobserver_v.Producer.Announcer.{Factory, Announcer, Call, new, close_all}
use ttobserver_v.Producer.Announcer.Start.{AreFresh}
use ttobserver_v.Producer.Announcer.Missing.{missing, AreApart, missing-AreFresh}
use ttobserver_v.Producer.Announcer.Retried.{new-missing, new-makes}
use ttobserver_v.Observer.Life.{
  Conf, Tools, Parts, Channel, close, close_at, close_rest, calls_of, unset, open_channel,
  closed_channel, with_announcer, start_producers, with_extractor, with_url, with_db, init,
}

-- The producers of the announcer, if there is one.
abbrev pub made : {D P : Type 0} → Option (Announcer D P) → ℕ
made none = 0
made (some a) = length a.producers

module _ {W A X V P : Type 0} (tools : Tools A X) (conf : Conf A V)
    (drivers : Dict String (DbFactory W V (Database W)))
    (factories : Dict String (Factory W (Option (Database W)) P)) where
  -- An attempt has made the producers of some configurations, and the others are missing.
  abbrev IsSplit : Parts W X P × Fault × Dict String P → Type 0
  IsSplit r = made r.0.announcer + missing conf.producers r.2 ≡ length conf.producers

  with_announcer-made :
      (parts : Parts W X P) (r : Announcer (Option (Database W)) P × Fault × Dict String P)
      → (made (with_announcer tools conf drivers factories parts r).0.announcer
          ≡ length r.0.producers)
        × ((with_announcer tools conf drivers factories parts r).1 ≡ r.1)
        × ((with_announcer tools conf drivers factories parts r).2 ≡ r.2)
  unfolding with_announcer
  with_announcer-made parts (a, none, all) = (refl, refl, refl)
  with_announcer-made parts (a, some e, all) = (refl, refl, refl)

  module _ (all : Dict String P) (fresh : AreFresh conf.producers all) where
    -- Before `New` nothing is made.
    unmade : (parts : Parts W X P) (e : Fault) → parts.announcer ≡ none → IsSplit (parts, e, all)
    unmade parts e n = omega (arith, ap made n, missing-AreFresh conf.producers all fresh)

    start_producers-IsSplit :
        (parts : Parts W X P) (w : W)
        → IsSplit (start_producers tools conf drivers factories parts all w).0
    unfolding start_producers
    start_producers-IsSplit parts w =
        let r = (new factories parts.db conf.producers all w).0 in
        let (count, fault, kept) = with_announcer-made parts r in
        omega (
          arith,
          count,
          ap (missing {P = P} conf.producers) kept,
          new-missing factories parts.db conf.producers all w fresh,
        )

    with_extractor-IsSplit :
        (parts : Parts W X P) (r : X × Fault) (w : W)
        → parts.announcer ≡ none
        → IsSplit (with_extractor tools conf drivers factories parts r all w).0
    unfolding with_extractor
    with_extractor-IsSplit parts (x, none) w n =
        start_producers-IsSplit (record parts { extractor = some (tools.limited x conf.limit) }) w
    with_extractor-IsSplit parts (x, some e) w n = unmade parts (some e) n

    with_url-IsSplit :
        (parts : Parts W X P) (e : Fault) (w : W)
        → parts.announcer ≡ none
        → IsSplit (with_url tools conf drivers factories parts e all w).0
    unfolding with_url
    with_url-IsSplit parts none w n = elim (Bool-cases (is_empty conf.meta_actions)) [
      | inl no_actions ↦ rw no_actions (unmade parts (some actions_not_set) n)
      | inr actions ↦
          rw actions (with_extractor-IsSplit parts (tools.compile conf.meta_actions) w n)
    ]
    with_url-IsSplit parts (some e) w n = unmade parts (some e) n

    with_db-IsSplit :
        (parts : Parts W X P) (e : Fault) (w : W)
        → parts.announcer ≡ none
        → IsSplit (with_db tools conf drivers factories parts e all w).0
    unfolding with_db
    with_db-IsSplit parts none w n = with_url-IsSplit parts (tools.parse_url conf.base_url) w n
    with_db-IsSplit parts (some e) w n = unmade parts (some e) n

    -- A first attempt has made the producers of some configurations; the others are missing.
    pub init-IsSplit :
        (old : Parts W X P) (w : W)
        → old.announcer ≡ none
        → let r = (init tools conf drivers factories old all w).0 in
          made r.0.announcer + missing conf.producers r.2 ≡ length conf.producers
    unfolding init
    init-IsSplit old w n =
        let (d, w') = connect drivers conf.driver conf.parameters w in
        with_db-IsSplit (record old { db = d.0 }) d.1 w' n

  module _ (all : Dict String P) (apart : AreApart conf.producers) where
    start_producers-makes :
        (parts : Parts W X P) (w : W)
        → (start_producers tools conf drivers factories parts all w).0.1 ≡ none
        → made (start_producers tools conf drivers factories parts all w).0.0.announcer
          ≡ missing conf.producers all
    unfolding start_producers
    start_producers-makes parts w h =
        let r = (new factories parts.db conf.producers all w).0 in
        let (count, fault, kept) = with_announcer-made parts r in
        count ∙ new-makes factories parts.db conf.producers all w apart (cc (h, fault))

    with_extractor-makes :
        (parts : Parts W X P) (r : X × Fault) (w : W)
        → (with_extractor tools conf drivers factories parts r all w).0.1 ≡ none
        → made (with_extractor tools conf drivers factories parts r all w).0.0.announcer
          ≡ missing conf.producers all
    unfolding with_extractor
    with_extractor-makes parts (x, none) w h =
        start_producers-makes (record parts { extractor = some (tools.limited x conf.limit) }) w h
    with_extractor-makes parts (x, some e) w h = cc

    with_url-makes :
        (parts : Parts W X P) (e : Fault) (w : W)
        → (with_url tools conf drivers factories parts e all w).0.1 ≡ none
        → made (with_url tools conf drivers factories parts e all w).0.0.announcer
          ≡ missing conf.producers all
    unfolding with_url
    with_url-makes parts none w h = elim (Bool-cases (is_empty conf.meta_actions)) [
      | inl no_actions ↦ absurd (actions_fault (rw no_actions at h))
      | inr actions ↦
          rw actions
            (with_extractor-makes parts (tools.compile conf.meta_actions) w (rw actions at h))
    ]
      where
        actions_fault : ◌≡◌ {A = Fault} (some actions_not_set) none → ⊥
        actions_fault q = cc
    with_url-makes parts (some e) w h = cc

    with_db-makes :
        (parts : Parts W X P) (e : Fault) (w : W)
        → (with_db tools conf drivers factories parts e all w).0.1 ≡ none
        → made (with_db tools conf drivers factories parts e all w).0.0.announcer
          ≡ missing conf.producers all
    unfolding with_db
    with_db-makes parts none w h = with_url-makes parts (tools.parse_url conf.base_url) w h
    with_db-makes parts (some e) w h = cc

    -- An attempt without a fault makes what is missing.
    pub init-makes :
        (old : Parts W X P) (w : W)
        → (init tools conf drivers factories old all w).0.1 ≡ none
        → made (init tools conf drivers factories old all w).0.0.announcer
          ≡ missing conf.producers all
    unfolding init
    init-makes old w h =
        let (d, w') = connect drivers conf.driver conf.parameters w in
        with_db-makes (record old { db = d.0 }) d.1 w' h

  length-calls_of :
      (a : Option (Announcer (Option (Database W)) P))
      → length (calls_of tools conf drivers factories a) ≡ made a
  unfolding calls_of close_all
  length-calls_of none = refl
  length-calls_of (some a) = length-map Call.close a.producers

  close_rest-closes :
      (parts : Parts W X P) (w : W) (p : Parts W X P) (calls : List (Call P))
      → (close_rest tools conf drivers factories parts w).0 ≡ some (p, calls)
      → length calls ≡ made parts.announcer
  unfolding close_rest
  close_rest-closes parts w p calls e = elim (Bool-cases (is_nil_pointer parts.db)) [
    | inl is_nil ↦ absurd (cc (rw is_nil at e))
    | inr usable ↦
        let e' = (rw usable at e) in
        let same : calls_of tools conf drivers factories parts.announcer ≡ calls = cc (e') in
        sym (ap (length {A = Call P}) same) ∙ length-calls_of parts.announcer
  ]

  close_at-closes :
      (c : Channel) (parts : Parts W X P) (w : W) (p : Parts W X P) (calls : List (Call P))
      → (close_at tools conf drivers factories c parts w).0 ≡ some (p, calls)
      → length calls ≡ made parts.announcer
  unfolding close_at
  close_at-closes unset parts w p calls e = close_rest-closes parts w p calls e
  close_at-closes open_channel parts w p calls e =
      close_rest-closes (record parts { stopped = closed_channel }) w p calls e
  close_at-closes closed_channel parts w p calls e = absurd (cc (e))

  -- `Close` makes one call for each producer of the announcer.
  pub close-closes :
      (parts : Parts W X P) (w : W) (p : Parts W X P) (calls : List (Call P))
      → (close tools conf drivers factories parts w).0 ≡ some (p, calls)
      → length calls ≡ made parts.announcer
  unfolding close
  close-closes parts w p calls e = close_at-closes parts.stopped parts w p calls e
