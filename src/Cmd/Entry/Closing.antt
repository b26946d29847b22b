-- ===== src/Cmd/Entry/Closing.antt =====
-- `start` of cmd/ttobserver.go: when the producers are closed.
use ttobserver_v.Base.{
  M, Option, none, some, List, [], Dict, ◌≡◌, refl, String, ◌⊎◌, inl, inr, false, Bool-cases, ap,
  ◌∙◌, ◌++◌, if◌then◌else◌,
}
use ttobserver_v.Base.Int.{ℤ}
use ttobserver_v.Shared.Errors.{Fault}
use ttobserver_v.Shared.Database.{Database, DbFactory, connect, is_nil_pointer}
use ttobserver_v.Producer.Announcer.{Factory, Call}
use ttobserver_v.Producer.Announcer.Closes.{closes, closes-append}
use ttobserver_v.Observer.Settings.{Observer, RawMeta}
use ttobserver_v.Observer.Engage.{
  Event, Standing, waiting, stopped, crash, stuck, fatal, can_tick, engage,
}
use ttobserver_v.Observer.Engage.Sends.{engage-closes}
use ttobserver_v.Observer.Life.{Conf, Tools, Parts, unset, open_channel, configured, init}
use ttobserver_v.Observer.Life.Channels.{opened, producers_of, init-opened, close-open}
use ttobserver_v.Observer.Life.Ready.{init-IsReady}
use ttobserver_v.Cmd.Entry.{Exit, exited, observer_of, after_engage, engaged, initiated, start}

module _ {W A X V P : Type 0} (tools : Tools A X) (conf : Conf A V)
    (drivers : Dict String (DbFactory W V (Database W)))
    (factories : Dict String (Factory W (Option (Database W)) P)) (base : Observer W P)
    (extract_data : X → String → M W (RawMeta × Fault)) where
  -- Where `Engage` stands after the events; without an observer or a ticker it panics.
  abbrev pub standing_of : ℤ → Option (Observer W P) → List Event → W → Standing
  standing_of delay none events w = crash
  standing_of delay (some cr) events w = if can_tick delay then (engage cr events w).0.0 else crash

  -- `Init` reported no error, and `Engage` still waits when the signal comes.
  abbrev pub IsInterrupted : (Parts W X P × Fault × Dict String P) × W → List Event → Type 0
  IsInterrupted (r, w) events =
      (r.1 ≡ none)
      × (standing_of r.0.delay (observer_of tools conf drivers factories base extract_data r.0)
            events w
          ≡ waiting)

  -- Either the signal ends the program, and the producers that are closed are those of the announcer,
  -- in their order, or none is closed.
  abbrev pub IsClosing :
      (Parts W X P × Fault × Dict String P) × W → List Event → Exit × List (Call P) → Type 0
  IsClosing r events out =
      (IsInterrupted r events
        × (out.0 ≡ exited 0)
        × (closes out.1 ≡ producers_of tools conf drivers factories r.0.0.announcer))
      ⊎ ((IsInterrupted r events → ⊥) × (closes out.1 ≡ []))

  after_engage-waiting :
      (parts : Parts W X P) (calls : List (Call P)) (w : W)
      → parts.stopped ≡ open_channel
      → is_nil_pointer parts.db ≡ false
      → closes calls ≡ []
      → let out =
          (after_engage tools conf drivers factories base extract_data parts
            (waiting, calls)
            w).0 in
        (out.0 ≡ exited 0)
        × (closes out.1 ≡ producers_of tools conf drivers factories parts.announcer)
  unfolding after_engage
  after_engage-waiting parts calls w e u h =
      let (p, closed, same, those) = close-open tools conf drivers factories parts w e u in
      rw same (refl, closes-append calls closed ∙ ap (λ ps. ps ++ closes closed) h ∙ those)

  after_engage-ended :
      (parts : Parts W X P) (r : Standing × List (Call P)) (w : W)
      → (r.0 ≡ waiting → ⊥)
      → closes r.1 ≡ []
      → closes (after_engage tools conf drivers factories base extract_data parts r w).0.1 ≡ []
  unfolding after_engage
  after_engage-ended parts (waiting, calls) w n h = absurd (n refl)
  after_engage-ended parts (stopped, calls) w n h = h
  after_engage-ended parts (crash, calls) w n h = h
  after_engage-ended parts (stuck, calls) w n h = h
  after_engage-ended parts (fatal e, calls) w n h = h

  engaged-closes :
      (parts : Parts W X P) (o : Option (Observer W P)) (events : List Event) (w : W)
      → parts.stopped ≡ open_channel
      → is_nil_pointer parts.db ≡ false
      → let out = (engaged tools conf drivers factories base extract_data parts o events w).0 in
        ((standing_of parts.delay o events w ≡ waiting)
          × (out.0 ≡ exited 0)
          × (closes out.1 ≡ producers_of tools conf drivers factories parts.announcer))
        ⊎ ((standing_of parts.delay o events w ≡ waiting → ⊥) × (closes out.1 ≡ []))
  unfolding engaged
  engaged-closes parts none events w e u = inr ((λ h. cc (h)), refl)
  engaged-closes parts (some cr) events w e u = elim (Bool-cases (can_tick parts.delay)) [
    | inl ticks ↦ rw ticks (let (r, w') = engage cr events w in go r w' (engage-closes cr events w))
    | inr still ↦ rw still (inr ((λ h. cc (h)), refl))
  ]
    where
      go :
          (r : Standing × List (Call P)) (v : W)
          → closes r.1 ≡ []
          → let out = (after_engage tools conf drivers factories base extract_data parts r v).0 in
            ((r.0 ≡ waiting)
              × (out.0 ≡ exited 0)
              × (closes out.1 ≡ producers_of tools conf drivers factories parts.announcer))
            ⊎ ((r.0 ≡ waiting → ⊥) × (closes out.1 ≡ []))
      go (waiting, calls) v h =
          let (status, count) = after_engage-waiting parts calls v e u h in
          inl (refl, status, count)
      go (stopped, calls) v h =
          inr ((λ q. cc (q)), after_engage-ended parts (stopped, calls) v (λ q. cc (q)) h)
      go (crash, calls) v h =
          inr ((λ q. cc (q)), after_engage-ended parts (crash, calls) v (λ q. cc (q)) h)
      go (stuck, calls) v h =
          inr ((λ q. cc (q)), after_engage-ended parts (stuck, calls) v (λ q. cc (q)) h)
      go (fatal x, calls) v h =
          inr ((λ q. cc (q)), after_engage-ended parts (fatal x, calls) v (λ q. cc (q)) h)

  initiated-IsClosing :
      (r : Parts W X P × Fault × Dict String P) (events : List Event) (w : W)
      → r.0.stopped ≡ opened tools conf drivers factories unset r.1
      → (r.1 ≡ none → is_nil_pointer r.0.db ≡ false)
      → IsClosing
          (r, w)
          events
          (initiated tools conf drivers factories base extract_data r events w).0
  unfolding initiated
  initiated-IsClosing (parts, some x, all) events w e u = inr ((λ h. cc (h.0)), refl)
  initiated-IsClosing (parts, none, all) events w e u =
      elim (engaged-closes parts (observer_of tools conf drivers factories base extract_data parts)
        events w e (u refl)) [
          | inl (h, status, count) ↦ inl ((refl, h), status, count)
          | inr (h, count) ↦ inr ((λ q. h q.1), count)
        ]

  -- With drivers that give no nil pointer as a database when they give no error: a signal that
  -- comes on a single node while Engage waits ends the program with the status 0, and the
  -- producers that are closed are exactly those of the announcer, in their order and each as often
  -- as it is there; if Init fails, or Engage has ended or panicked by then, no producer is closed.
  pub start-IsClosing :
      (events : List Event) (w : W)
      → ((connect drivers conf.driver conf.parameters w).0.1 ≡ none
          → is_nil_pointer (connect drivers conf.driver conf.parameters w).0.0 ≡ false)
      → IsClosing
          (init tools conf drivers factories (configured tools conf drivers factories) [] w)
          events
          (start tools conf drivers factories base extract_data events w).0
  unfolding start
  start-IsClosing events w usable =
      let old = configured tools conf drivers factories in
      let (r, w') = init tools conf drivers factories old [] w in
      let (chan, db, delay) = init-opened tools conf drivers factories old [] w in
      initiated-IsClosing r events w' chan (λ fine.
        let connected = (init-IsReady tools conf drivers factories old [] w fine).0 in
        ap is_nil_pointer db ∙ usable connected)
