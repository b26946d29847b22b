-- ===== src/Producer/Announcer.antt =====
-- producer/producer.go and producer/announcer.go: factories, `New`, `Send`, `SendNxGet`, `Close`.
pub mod Start
pub mod Restart
pub mod Missing
pub mod Retried
pub mod Closes
mod Tests
use ttobserver_v.Base.{
  ℕ, ◌+◌, String, Bool, Option, none, some, List, [], ◌∷◌, ◌++◌, map, Dict, lookup, insert, M, pure,
  ◌>>=◌, if◌then◌else◌, ◌==◌, string_eq,
}
use ttobserver_v.Shared.Errors.{Fault, unable_to_construct, unknown_type}
use ttobserver_v.Shared.Torrent.{TorrentInfo}

pub record Config : Type 0 where
  pub id : String
  pub kind : String
  pub config_path : String

-- A factory, for producers of type `P`, databases of type `D` and a world `W`.
abbrev pub Factory : Type 0 → Type 0 → Type 0 → Type 0
Factory W D P = String → D → M W (Option P × Fault)

pub data Registered (F : Type 0) : Type 0 where
  panics : Registered F
  registered : Dict String F → Registered F

-- A nil factory is `none`.
unfoldable pub register_factory : {F : Type 0} → String → Option F → Dict String F → Registered F
register_factory name n factories =
    if name == ""
    then panics
    else elim n [ none ↦ panics | some f ↦ registered (insert name f factories) ]

pub record Announcer (D P : Type 0) : Type 0 where
  pub producers : List P
  pub db : D

-- The producers of the announcer so far, the map of all producers by their id, and the error.
pub record Progress (P : Type 0) : Type 0 where
  pub own : List P
  pub all : Dict String P
  pub fault : Fault

-- An empty id is replaced by the type.
unfoldable pub effective_id : Config → String
effective_id conf = if conf.id == "" then conf.kind else conf.id

unfoldable pub attach :
    {P : Type 0} → ℕ → Config → List P → Dict String P → Option P × Fault → Progress P
attach i conf own all (some p, none) = record {
  own = own ++ p ∷ [];
  all = insert (effective_id conf) p all;
  fault = none;
}
attach i conf own all (none, none) = record {
  own = own;
  all = all;
  fault = some (unable_to_construct i conf.kind);
}
attach i conf own all (_, some e) = record { own = own; all = all; fault = some e }

module _ {W D P : Type 0} (factories : Dict String (Factory W D P)) (db : D) where
  -- A producer that is there already is not constructed again.
  unfoldable pub initiate :
      ℕ → Config → List P → Dict String P → Factory W D P → Option P → M W (Progress P)
  unfolding attach
  initiate i conf own all fac (some p) = pure (record { own = own; all = all; fault = none })
  initiate i conf own all fac none = do r ← fac conf.config_path db; pure (attach i conf own all r)

  unfoldable pub with_factory :
      ℕ → Config → List P → Dict String P → Option (Factory W D P) → M W (Progress P)
  unfolding initiate effective_id
  with_factory i conf own all none =
      pure (record { own = own; all = all; fault = some (unknown_type i conf.kind) })
  with_factory i conf own all (some fac) =
      initiate i conf own all fac (lookup (effective_id conf) all)

  -- The loop over the configurations, from the one at position `i`.
  unfoldable pub start_from : ℕ → List Config → List P → Dict String P → M W (Progress P)
  unfolding with_factory
  start_from i [] own all = pure (record { own = own; all = all; fault = none })
  start_from i (conf ∷ confs) own all = do
    r ← with_factory i conf own all (lookup conf.kind factories)
    elim r.fault [ none ↦ start_from (i + 1) confs r.own r.all | some e ↦ pure r ]

  -- `New`: the announcer is returned with the error, beside the new map of all producers.
  unfoldable pub new : List Config → Dict String P → M W (Announcer D P × Fault × Dict String P)
  unfolding start_from
  new confs all = do
    r ← start_from 0 confs [] all
    pure (record { producers = r.own; db = db }, r.fault, r.all)

-- A goroutine that the announcer starts, or a call that it makes.
pub data Call (P : Type 0) : Type 0 where
  send : P → Bool → TorrentInfo → Call P
  send_nx_get : P → ℕ → Call P
  close : P → Call P

module _ {D P : Type 0} (a : Announcer D P) where
  -- A nil torrent is `none`.
  unfoldable pub send_all : Bool → Option TorrentInfo → List (Call P)
  send_all is_new none = []
  send_all is_new (some torrent) = map (λ n. send n is_new torrent) a.producers

  unfoldable pub send_nx_get_all : ℕ → List (Call P)
  send_nx_get_all offset = map (λ n. send_nx_get n offset) a.producers

  unfoldable pub close_all : List (Call P)
  close_all = map close a.producers
