-- ===== src/Observer/Life/Channels.antt =====
-- `Init` and `Close` of observer.go: the channel `stopped`, the database and the delay.
use ttobserver_v.Base.{
  String, Option, none, some, List, Dict, is_empty, ◌≡◌, refl, [], false, Bool-cases, inl, inr,
}
use ttobserver_v.Base.Int.{ℤ}
use ttobserver_v.Shared.Errors.{Fault}
use ttobserver_v.Shared.Database.{Database, DbFactory, connect, is_nil_pointer}
use ttobserver_v.Producer.Announcer.{Factory, Announcer, Call, new}
use ttobserver_v.Producer.Announcer.Closes.{closes, closes-close_all}
use ttobserver_v.Observer.Life.{
  or_default, calls_of, Conf, Tools, Parts, Channel, unset, open_channel, closed_channel,
  with_announcer, start_producers, with_extractor, with_url, with_db, init, close, close_at,
  close_rest,
}

module _ {W A X V P : Type 0} (tools : Tools A X) (conf : Conf A V)
    (drivers : Dict String (DbFactory W V (Database W)))
    (factories : Dict String (Factory W (Option (Database W)) P)) where
  -- The channel is made when there is no error, and else is as before.
  abbrev pub opened : Channel → Fault → Channel
  opened c none = open_channel
  opened c (some e) = c

  -- The delay is set when there is no error, and else is as before.
  abbrev pub delayed : ℤ → Fault → ℤ
  delayed d none = or_default d
  delayed d (some e) = d

  -- The producers of the announcer, if there is one
  abbrev pub producers_of : Option (Announcer (Option (Database W)) P) → List P
  producers_of none = []
  producers_of (some a) = a.producers

  abbrev IsOpened : Parts W X P → Parts W X P × Fault × Dict String P → Type 0
  IsOpened old r =
      (r.0.stopped ≡ opened old.stopped r.1)
      × (r.0.db ≡ old.db)
      × (r.0.delay ≡ delayed old.delay r.1)

  with_announcer-IsOpened :
      (parts : Parts W X P) (r : Announcer (Option (Database W)) P × Fault × Dict String P)
      → IsOpened parts (with_announcer tools conf drivers factories parts r)
  unfolding with_announcer
  with_announcer-IsOpened parts (a, none, all) = (refl, refl, refl)
  with_announcer-IsOpened parts (a, some e, all) = (refl, refl, refl)

  with_extractor-IsOpened :
      (parts : Parts W X P) (r : X × Fault) (all : Dict String P) (w : W)
      → IsOpened parts (with_extractor tools conf drivers factories parts r all w).0
  unfolding with_extractor start_producers
  with_extractor-IsOpened parts (x, none) all w =
      with_announcer-IsOpened (record parts { extractor = some (tools.limited x conf.limit) })
        (new factories parts.db conf.producers all w).0
  with_extractor-IsOpened parts (x, some e) all w = (refl, refl, refl)

  with_url-IsOpened :
      (parts : Parts W X P) (e : Fault) (all : Dict String P) (w : W)
      → IsOpened parts (with_url tools conf drivers factories parts e all w).0
  unfolding with_url
  with_url-IsOpened parts none all w = elim (Bool-cases (is_empty conf.meta_actions)) [
    | inl no_actions ↦ rw no_actions (refl, refl, refl)
    | inr actions ↦
        rw actions (with_extractor-IsOpened parts (tools.compile conf.meta_actions) all w)
  ]
  with_url-IsOpened parts (some e) all w = (refl, refl, refl)

  with_db-IsOpened :
      (parts : Parts W X P) (e : Fault) (all : Dict String P) (w : W)
      → IsOpened parts (with_db tools conf drivers factories parts e all w).0
  unfolding with_db
  with_db-IsOpened parts none all w = with_url-IsOpened parts (tools.parse_url conf.base_url) all w
  with_db-IsOpened parts (some e) all w = (refl, refl, refl)

  -- `Init` makes the channel and sets the delay when it reports no error, and else leaves both; the
  -- database is what the driver gave.
  pub init-opened :
      (old : Parts W X P) (all : Dict String P) (w : W)
      → let r = (init tools conf drivers factories old all w).0 in
        (r.0.stopped ≡ opened old.stopped r.1)
        × (r.0.db ≡ (connect drivers conf.driver conf.parameters w).0.0)
        × (r.0.delay ≡ delayed old.delay r.1)
  unfolding init
  init-opened old all w =
      let (d, w') = connect drivers conf.driver conf.parameters w in
      with_db-IsOpened (record old { db = d.0 }) d.1 all w'

  close_at-unset :
      (c : Channel) (parts : Parts W X P) (w : W)
      → c ≡ unset
      → is_nil_pointer parts.db ≡ false
      → (calls : List (Call P)) × ((close_at tools conf drivers factories c parts w).0
          ≡ some (parts, calls))
  unfolding close_at close_rest
  close_at-unset unset parts w e u = rw u (_, refl)
  close_at-unset open_channel parts w e u = absurd (cc (e))
  close_at-unset closed_channel parts w e u = absurd (cc (e))

  -- `Close` without a channel, and with a database that is no nil pointer, does not panic, and leaves the observer.
  pub close-unset :
      (parts : Parts W X P) (w : W)
      → parts.stopped ≡ unset
      → is_nil_pointer parts.db ≡ false
      → (calls : List (Call P)) × ((close tools conf drivers factories parts w).0
          ≡ some (parts, calls))
  unfolding close
  close-unset parts w e u = close_at-unset parts.stopped parts w e u

  closes-calls_of :
      (a : Option (Announcer (Option (Database W)) P))
      → closes (calls_of tools conf drivers factories a) ≡ producers_of a
  unfolding calls_of
  closes-calls_of none = refl
  closes-calls_of (some a) = closes-close_all a

  close_at-open :
      (c : Channel) (parts : Parts W X P) (w : W)
      → c ≡ open_channel
      → is_nil_pointer parts.db ≡ false
      → (p : Parts W X P) × (calls : List (Call P)) × ((close_at tools conf drivers factories c
            parts w).0
          ≡ some (p, calls))
        × (closes calls ≡ producers_of parts.announcer)
  unfolding close_at close_rest
  close_at-open open_channel parts w e u = rw u (_, _, refl, closes-calls_of parts.announcer)
  close_at-open unset parts w e u = absurd (cc (e))
  close_at-open closed_channel parts w e u = absurd (cc (e))

  -- `Close` with a channel that is open and a usable database does not panic, and closes each producer of the announcer.
  pub close-open :
      (parts : Parts W X P) (w : W)
      → parts.stopped ≡ open_channel
      → is_nil_pointer parts.db ≡ false
      → (p : Parts W X P) × (calls : List (Call P)) × ((close tools conf drivers factories parts
            w).0
          ≡ some (p, calls))
        × (closes calls ≡ producers_of parts.announcer)
  unfolding close
  close-open parts w e u = close_at-open parts.stopped parts w e u
