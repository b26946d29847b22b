-- ===== src/Cmd/Entry/Retried.antt =====
-- `startClustered` of cmd/ttobserver.go: a node that tries again to lead.
use ttobserver_v.Base.{
  M, Bool-cases, Option-cases, inl, inr, ◌+◌, Option, none, some, List, [], Dict, ◌≡◌, refl, sym,
  ap, ◌∙◌, arith, length, String,
}
use ttobserver_v.Shared.Errors.{Fault}
use ttobserver_v.Shared.Database.{Database, DbFactory}
use ttobserver_v.Producer.Announcer.{Factory, Call}
use ttobserver_v.Producer.Announcer.Start.{AreFresh}
use ttobserver_v.Producer.Announcer.Missing.{missing, AreFresh-AreApart}
use ttobserver_v.Observer.Settings.{Observer, RawMeta}
use ttobserver_v.Observer.Engage.{can_tick}
use ttobserver_v.Observer.Life.{Conf, Tools, Parts, configured, init, close}
use ttobserver_v.Observer.Life.Retried.{made, init-IsSplit, init-makes, close-closes}
use ttobserver_v.Cmd.Entry.{Phase, looking, leading, won, suspend, start_fn, step}

module _ {W A X V P : Type 0} (tools : Tools A X) (conf : Conf A V)
    (drivers : Dict String (DbFactory W V (Database W)))
    (factories : Dict String (Factory W (Option (Database W)) P)) (base : Observer W P)
    (extract_data : X → String → M W (RawMeta × Fault)) where
  abbrev Entered : Type 0
  Entered = (Phase W X P × List (Call P)) × W

  suspend-led :
      (p : Parts W X P) (q : Dict String P) (w : W) (parts : Parts W X P) (all : Dict String P)
      (calls : List (Call P)) (w' : W)
      → ◌≡◌ {A = Entered}
          (suspend tools conf drivers factories base extract_data p q w)
          ((leading parts all, calls), w')
      → ⊥
  unfolding suspend
  suspend-led p q w parts all calls w' e =
      elim (Option-cases (close tools conf drivers factories p w).0) [
        | inl n ↦ absurd (cc (n, e))
        | inr (closed, s) ↦ absurd (cc (s, e))
      ]

  -- An attempt that leads has not closed anything, and one that does not lead has closed what it made.
  start_fn-led :
      (r : Parts W X P × Fault × Dict String P) (w : W) (parts : Parts W X P) (all : Dict String P)
      (calls : List (Call P)) (w' : W)
      → ◌≡◌ {A = Entered}
          (start_fn tools conf drivers factories base extract_data r w)
          ((leading parts all, calls), w')
      → (r.1 ≡ none) × (parts ≡ r.0)
  unfolding start_fn suspend
  start_fn-led (p, none, q) w parts all calls w' e = elim (Bool-cases (can_tick p.delay)) [
    | inl ticks ↦ (refl, cc (rw ticks at e))
    | inr still ↦ absurd (cc (rw still at e))
  ]
  start_fn-led (p, some x, q) w parts all calls w' e =
      absurd (suspend-led p q w parts all calls w' e)

  suspend-closed :
      (p : Parts W X P) (q : Dict String P) (w : W) (parts : Parts W X P) (all : Dict String P)
      (calls : List (Call P)) (w' : W)
      → ◌≡◌ {A = Entered}
          (suspend tools conf drivers factories base extract_data p q w)
          ((looking parts all, calls), w')
      → (length calls ≡ made p.announcer) × (all ≡ q)
  unfolding suspend
  suspend-closed p q w parts all calls w' e =
      elim (Option-cases (close tools conf drivers factories p w).0) [
        | inl n ↦ absurd (cc (n, e))
        | inr (closed, s) ↦
            let same : closed.1 ≡ calls = cc (s, e) in
            let kept : q ≡ all = cc (s, e) in
            (
              sym (ap (length {A = Call P}) same)
                  ∙ close-closes tools conf drivers factories p w closed.0 closed.1 s,
              sym kept,
            )
      ]

  start_fn-closed :
      (r : Parts W X P × Fault × Dict String P) (w : W) (parts : Parts W X P) (all : Dict String P)
      (calls : List (Call P)) (w' : W)
      → ◌≡◌ {A = Entered}
          (start_fn tools conf drivers factories base extract_data r w)
          ((looking parts all, calls), w')
      → (length calls ≡ made r.0.announcer) × (all ≡ r.2)
  unfolding start_fn suspend
  start_fn-closed (p, none, q) w parts all calls w' e = elim (Bool-cases (can_tick p.delay)) [
    | inl ticks ↦ absurd (cc (rw ticks at e))
    | inr still ↦ absurd (cc (rw still at e))
  ]
  start_fn-closed (p, some x, q) w parts all calls w' e = suspend-closed p q w parts all calls w' e

  -- With configured ids that are pairwise distinct, of a node that comes to StartFn twice, the
  -- first time with nothing initiated and with an error, and leads after the second: the producers
  -- that the first attempt closed and those of the announcer that leads are together as many as
  -- the configurations.
  pub step-retried :
      (w w₁ w₂ w₃ : W) (parts led : Parts W X P) (all all' : Dict String P)
      (closed calls : List (Call P))
      → AreFresh {P = P} conf.producers []
      → ◌≡◌ {A = Entered}
          (step tools conf drivers factories base extract_data won
            (looking (configured tools conf drivers factories) [])
            w)
          ((looking parts all, closed), w₁)
      → ◌≡◌ {A = Entered}
          (step tools conf drivers factories base extract_data won (looking parts all) w₂)
          ((leading led all', calls), w₃)
      → length closed + made led.announcer ≡ length conf.producers
  unfolding step
  step-retried w w₁ w₂ w₃ parts led all all' closed calls fresh first second =
      let old = configured tools conf drivers factories in
      let (r, v) = init tools conf drivers factories old [] w in
      let (r', v') = init tools conf drivers factories parts all w₂ in
      let (count, kept) = start_fn-closed r v parts all closed w₁ first in
      let (fine, same) = start_fn-led r' v' led all' calls w₃ second in
      let split = init-IsSplit tools conf drivers factories [] fresh old w refl in
      let makes =
        init-makes tools conf drivers factories all (AreFresh-AreApart conf.producers [] fresh)
          parts w₂ fine in
      omega (
        arith,
        count,
        split,
        makes,
        ap (missing {P = P} conf.producers) kept,
        ap (λ (p : Parts W X P). made p.announcer) same,
      )
