-- ===== src/Producer/Registry.antt =====
-- The packages under producer/: the factory that the `init` of each registers, and its name.
use ttobserver_v.Base.{String, some, [], ◌≡◌, refl, lookup, Dict, string_eq}
use ttobserver_v.Producer.Announcer.{Registered, panics, registered, register_factory}

module _ {F : Type 0} where
  register_file : F → Dict String F → Registered F
  register_file f known = register_factory "file" (some f) known

  register_lmdb : F → Dict String F → Registered F
  register_lmdb f known = register_factory "lmdb" (some f) known

  register_nats : F → Dict String F → Registered F
  register_nats f known = register_factory "nats" (some f) known

  register_redis : F → Dict String F → Registered F
  register_redis f known = register_factory "redis" (some f) known

  register_sqldb : F → Dict String F → Registered F
  register_sqldb f known = register_factory "sqldb" (some f) known

  register_stan : F → Dict String F → Registered F
  register_stan f known = register_factory "stan" (some f) known

  register_telegram : F → Dict String F → Registered F
  register_telegram f known = register_factory "telegram" (some f) known

  register_vkcom : F → Dict String F → Registered F
  register_vkcom f known = register_factory "vkcom" (some f) known

  -- A package after others; a panic ends the program.
  and_then : Registered F → (Dict String F → Registered F) → Registered F
  and_then panics next = panics
  and_then (registered known) next = next known

-- The factories of the packages
pub record Packages (F : Type 0) : Type 0 where
  pub file : F
  pub lmdb : F
  pub nats : F
  pub redis : F
  pub sqldb : F
  pub stan : F
  pub telegram : F
  pub vkcom : F

-- The packages in the order of the imports of observer.go.
unfoldable pub register_all : {F : Type 0} → Packages F → Registered F
unfolding and_then register_file register_lmdb register_nats register_redis register_sqldb
    register_stan register_telegram register_vkcom
register_all p =
    let r = register_file p.file [] in
    let r = and_then r (register_lmdb p.lmdb) in
    let r = and_then r (register_nats p.nats) in
    let r = and_then r (register_redis p.redis) in
    let r = and_then r (register_sqldb p.sqldb) in
    let r = and_then r (register_stan p.stan) in
    let r = and_then r (register_telegram p.telegram) in and_then r (register_vkcom p.vkcom)

-- No package panics, and the name of each has the factory of that package.
register_all-lookup :
    {F : Type 0} (p : Packages F)
    → (known : Dict String F) × (register_all p ≡ registered known)
      × (lookup "file" known ≡ some p.file)
      × (lookup "lmdb" known ≡ some p.lmdb)
      × (lookup "nats" known ≡ some p.nats)
      × (lookup "redis" known ≡ some p.redis)
      × (lookup "sqldb" known ≡ some p.sqldb)
      × (lookup "stan" known ≡ some p.stan)
      × (lookup "telegram" known ≡ some p.telegram)
      × (lookup "vkcom" known ≡ some p.vkcom)
unfolding register_all register_factory
register_all-lookup p = (_, refl, refl, refl, refl, refl, refl, refl, refl, refl)
