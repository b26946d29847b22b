-- ===== src/Producer/Announcer/Missing.antt =====
-- `New` of producer/announcer.go: the configurations that have no producer.
use ttobserver_v.Base.{
  suc, ℕ, ◌+◌, ◌≡◌, ◌≢◌, refl, String, none, some, List, [], ◌∷◌, Dict, lookup, insert,
  lookup-insert, length, string_eq, eq_iff, arith, All,
}
use ttobserver_v.Producer.Announcer.Start.{AreFresh}
use ttobserver_v.Producer.Announcer.{Config, effective_id}

-- How many configurations have an id that no producer has.
abbrev pub missing : {P : Type 0} → List Config → Dict String P → ℕ
missing [] all = 0
missing (c ∷ cs) all = elim (lookup (effective_id c) all) [ none ↦ 1 | some p ↦ 0 ] + missing cs all

pub missing-cons :
    {P : Type 0} (c : Config) (cs : List Config) (all : Dict String P)
    → lookup (effective_id c) all ≢ none
    → missing (c ∷ cs) all ≡ missing cs all
missing-cons c cs all there = ground arith

pub missing-none :
    {P : Type 0} (c : Config) (cs : List Config) (all : Dict String P)
    → lookup (effective_id c) all ≡ none
    → missing (c ∷ cs) all ≡ suc (missing cs all)
missing-none c cs all n = ground (arith, n)

pub missing-insert :
    {P : Type 0} (c : Config) (p : P) (cs : List Config) (all : Dict String P)
    → All (λ d. effective_id c ≢ effective_id d) cs
    → missing cs (insert (effective_id c) p all) ≡ missing cs all
missing-insert c p [] all apart = refl
missing-insert c p (d ∷ cs) all apart = ground (
  arith,
  apart.0,
  lookup-insert (effective_id c) (effective_id d) p all,
  eq_iff (effective_id c) (effective_id d),
  missing-insert c p cs all apart.1,
)

pub missing-AreFresh :
    {P : Type 0} (cs : List Config) (all : Dict String P)
    → AreFresh cs all
    → missing cs all ≡ length cs
missing-AreFresh [] all fresh = refl
missing-AreFresh (c ∷ cs) all fresh = ground (arith, fresh.0, missing-AreFresh cs all fresh.2)

abbrev pub AreApart : List Config → Type 0
AreApart [] = Unit
AreApart (c ∷ cs) = All (λ d. effective_id c ≢ effective_id d) cs × AreApart cs

pub AreFresh-AreApart :
    {P : Type 0} (cs : List Config) (all : Dict String P) → AreFresh cs all → AreApart cs
AreFresh-AreApart [] all fresh = tt
AreFresh-AreApart (c ∷ cs) all fresh = (fresh.1, AreFresh-AreApart cs all fresh.2)
