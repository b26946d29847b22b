-- ===== src/Cmd/Migrate/Newest.antt =====
-- `migrate` of cmd/migrate.go: which torrent of each name is copied.
use mathlib.Core.List.{Memᴰ}
use mathlib.Core.Path.{subst}
use ttobserver_v.Base.{
  ap, ◌≡◌, ◌≢◌, refl, sym, ◌∙◌, String, Option, none, some, List, [], ◌∷◌, Dict, lookup, insert,
  lookup-insert, HasUniqueKeys, insert-HasUniqueKeys, string_eq, eq_iff, ◌==◌, if◌then◌else◌, arith,
  All, ◌⊎◌, inl, inr, Bool-cases,
}
use ttobserver_v.Base.Int.{◌≤ℤ◌, int_leb}
use ttobserver_v.Shared.Database.{DbTorrent}
use ttobserver_v.Cmd.Migrate.{insert_by_id, sort_by_id, index_names, by_name}

-- No identifier falls along the list.
abbrev Ascends : List DbTorrent → Type 0
Ascends [] = Unit
Ascends (t ∷ ts) = All (λ u. t.id ≤ℤ u.id) ts × Ascends ts

module _ (P : DbTorrent → Type 0) where
  All-insert_by_id :
      (t : DbTorrent) (us : List DbTorrent) → P t → All P us → All P (insert_by_id t us)
  unfolding insert_by_id
  All-insert_by_id t [] p ps = (p, tt)
  All-insert_by_id t (u ∷ us) p ps = elim (Bool-cases (int_leb t.id u.id)) [
    | inl first ↦ rw first (p, ps)
    | inr later ↦ rw later (ps.0, All-insert_by_id t us p ps.1)
  ]

  insert_by_id-All :
      (t : DbTorrent) (us : List DbTorrent) → All P (insert_by_id t us) → P t × All P us
  unfolding insert_by_id
  insert_by_id-All t [] h = (h.0, tt)
  insert_by_id-All t (u ∷ us) h = elim (Bool-cases (int_leb t.id u.id)) [
    | inl first ↦ (rw first at h)
    | inr later ↦
        let h' = (rw later at h) in let r = insert_by_id-All t us h'.1 in (r.0, (h'.0, r.1))
  ]

  sort_by_id-All : (ts : List DbTorrent) → All P (sort_by_id ts) → All P ts
  unfolding sort_by_id
  sort_by_id-All [] h = tt
  sort_by_id-All (t ∷ ts) h =
      let r = insert_by_id-All t (sort_by_id ts) h in (r.0, sort_by_id-All ts r.1)

  All-sort_by_id : (ts : List DbTorrent) → All P ts → All P (sort_by_id ts)
  unfolding sort_by_id
  All-sort_by_id [] h = tt
  All-sort_by_id (t ∷ ts) h = All-insert_by_id t (sort_by_id ts) h.0 (All-sort_by_id ts h.1)

All-weaken :
    (P Q : DbTorrent → Type 0) (ts : List DbTorrent)
    → ((t : DbTorrent) → P t → Q t)
    → All P ts
    → All Q ts
All-weaken P Q [] w h = tt
All-weaken P Q (t ∷ ts) w h = (w t h.0, All-weaken P Q ts w h.1)

All-Memᴰ : (ts : List DbTorrent) → All (λ t. Memᴰ t ts) ts
All-Memᴰ [] = tt
All-Memᴰ (t ∷ ts) = (
  Memᴰ.head refl,
  All-weaken (λ u. Memᴰ u ts) (λ u. Memᴰ u (t ∷ ts)) ts (λ u h. Memᴰ.tail h) (All-Memᴰ ts),
)

insert_by_id-Ascends :
    (t : DbTorrent) (us : List DbTorrent) → Ascends us → Ascends (insert_by_id t us)
unfolding insert_by_id
insert_by_id-Ascends t [] h = (tt, tt)
insert_by_id-Ascends t (u ∷ us) h = elim (Bool-cases (int_leb t.id u.id)) [
  | inl first ↦
      let le : t.id ≤ℤ u.id = ground arith in
      let les = All-weaken (λ v. u.id ≤ℤ v.id) (λ v. t.id ≤ℤ v.id) us (λ v l. omega arith) h.0 in
      rw first ((le, les), h)
  | inr later ↦
      let le : u.id ≤ℤ t.id = ground arith in
      rw later (All-insert_by_id (λ v. u.id ≤ℤ v.id) t us le h.0, insert_by_id-Ascends t us h.1)
]

sort_by_id-Ascends : (ts : List DbTorrent) → Ascends (sort_by_id ts)
unfolding sort_by_id
sort_by_id-Ascends [] = tt
sort_by_id-Ascends (t ∷ ts) = insert_by_id-Ascends t (sort_by_id ts) (sort_by_id-Ascends ts)

or_else : Option DbTorrent → Option DbTorrent → Option DbTorrent
or_else (some t) o = some t
or_else none o = o

-- The last torrent of a name
last_named : String → List DbTorrent → Option DbTorrent
unfolding or_else
last_named name [] = none
last_named name (t ∷ ts) = or_else (last_named name ts) (if t.name == name then some t else none)

lookup-index_names :
    (name : String) (ts : List DbTorrent) (m : Dict String DbTorrent)
    → lookup name (index_names ts m) ≡ or_else (last_named name ts) (lookup name m)
unfolding index_names last_named
lookup-index_names name [] m = refl
lookup-index_names name (t ∷ ts) m =
    ground (arith, lookup-index_names name ts (insert t.name t m), lookup-insert t.name name t m)

index_names-HasUniqueKeys :
    (ts : List DbTorrent) (m : Dict String DbTorrent)
    → HasUniqueKeys m
    → HasUniqueKeys (index_names ts m)
unfolding index_names
index_names-HasUniqueKeys [] m h = h
index_names-HasUniqueKeys (t ∷ ts) m h =
    index_names-HasUniqueKeys ts (insert t.name t m) (insert-HasUniqueKeys t.name t m h)

last_named-cons :
    (name : String) (u : DbTorrent) (us : List DbTorrent) (t : DbTorrent)
    → last_named name (u ∷ us) ≡ some t
    → (last_named name us ≡ some t) ⊎ ((last_named name us ≡ none) × (u.name ≡ name) × (u ≡ t))
unfolding last_named
last_named-cons name u us t e = ground (arith, eq_iff u.name name)

last_named-none :
    (name : String) (ts : List DbTorrent) → last_named name ts ≡ none → All (λ u. u.name ≢ name) ts
unfolding last_named
last_named-none name [] e = tt
last_named-none name (t ∷ ts) e = ground (arith, eq_iff t.name name, last_named-none name ts)

last_named-All :
    (P : DbTorrent → Type 0) (name : String) (ts : List DbTorrent) (t : DbTorrent)
    → All P ts
    → last_named name ts ≡ some t
    → P t × (t.name ≡ name)
unfolding last_named
last_named-All P name [] t h e = cc
last_named-All P name (u ∷ us) t h e = elim (last_named-cons name u us t e) [
  | inl later ↦ last_named-All P name us t h.1 later
  | inr (last, named, here) ↦ (subst P here h.0, ap (λ (v : DbTorrent). v.name) (sym here) ∙ named)
]

-- In a list that ascends the last torrent of a name has the greatest identifier.
last_named-greatest :
    (name : String) (ts : List DbTorrent) (t : DbTorrent)
    → Ascends ts
    → last_named name ts ≡ some t
    → All (λ u. u.name ≡ name → u.id ≤ℤ t.id) ts
last_named-greatest name [] t h e = tt
last_named-greatest name (u ∷ us) t h e = elim (last_named-cons name u us t e) [
  | inl later ↦
      let above = last_named-All (λ v. u.id ≤ℤ v.id) name us t h.0 later in
      ((λ _. above.0), last_named-greatest name us t h.1 later)
  | inr (last, named, here) ↦ (
    (λ _. rw here (omega arith)),
    All-weaken (λ v. v.name ≢ name) (λ v. v.name ≡ name → v.id ≤ℤ t.id) us
        (λ v apart q. absurd (apart q)) (last_named-none name us last),
  )
]

-- What is copied: for each name of the old torrents one torrent, of those with that name the one
-- with the greatest identifier.
pub record IsNewest (ts : List DbTorrent) (m : Dict String DbTorrent) : Type 0 where
  pub unique : HasUniqueKeys m
  pub every_name : All (λ u. lookup u.name m ≢ none) ts
  pub one_of :
      (name : String) (t : DbTorrent) → lookup name m ≡ some t → Memᴰ t ts × (t.name ≡ name)
  pub greatest :
      (name : String) (t : DbTorrent)
      → lookup name m ≡ some t
      → All (λ u. u.name ≡ name → u.id ≤ℤ t.id) ts

lookup-by_name :
    (name : String) (ts : List DbTorrent)
    → lookup name (by_name ts) ≡ last_named name (sort_by_id ts)
unfolding by_name or_else
lookup-by_name name ts = ground (arith, lookup-index_names name (sort_by_id ts) [])

not_there : {u : DbTorrent} → Memᴰ u [] → ⊥
not_there m = elim m [ ]

All-get :
    (P : DbTorrent → Type 0) (ts : List DbTorrent) (u : DbTorrent) → All P ts → Memᴰ u ts → P u
All-get P [] u h m = absurd (not_there m)
All-get P (t ∷ ts) u h (Memᴰ.head e) = subst P (sym e) h.0
All-get P (t ∷ ts) u h (Memᴰ.tail m) = All-get P ts u h.1 m

last_named-there : (ts : List DbTorrent) → All (λ u. last_named u.name ts ≢ none) ts
last_named-there ts =
    All-weaken (λ u. Memᴰ u ts) (λ u. last_named u.name ts ≢ none) ts
      (λ u m e. All-get (λ v. v.name ≢ u.name) ts u (last_named-none u.name ts e) m refl)
      (All-Memᴰ ts)

by_name-HasUniqueKeys : (ts : List DbTorrent) → HasUniqueKeys (by_name ts)
unfolding by_name
by_name-HasUniqueKeys ts = index_names-HasUniqueKeys (sort_by_id ts) [] tt

-- For each name of the old torrents one torrent is copied, and of the torrents with that name it is
-- the one with the greatest identifier.
pub by_name-IsNewest : (ts : List DbTorrent) → IsNewest ts (by_name ts)
by_name-IsNewest ts = record {
  unique = by_name-HasUniqueKeys ts;
  every_name =
      All-weaken (λ u. last_named u.name (sort_by_id ts) ≢ none)
        (λ u. lookup u.name (by_name ts) ≢ none) ts
        (λ u h e. h (sym (lookup-by_name u.name ts) ∙ e))
        (sort_by_id-All (λ u. last_named u.name (sort_by_id ts) ≢ none) ts
          (last_named-there (sort_by_id ts)));
  one_of = λ name t e.
      last_named-All (λ v. Memᴰ v ts) name (sort_by_id ts) t
        (All-sort_by_id (λ v. Memᴰ v ts) ts (All-Memᴰ ts)) (sym (lookup-by_name name ts) ∙ e);
  greatest = λ name t e.
      sort_by_id-All (λ u. u.name ≡ name → u.id ≤ℤ t.id) ts
        (last_named-greatest name (sort_by_id ts) t (sort_by_id-Ascends ts)
          (sym (lookup-by_name name ts) ∙ e));
}
