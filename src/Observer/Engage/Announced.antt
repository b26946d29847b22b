-- ===== src/Observer/Engage/Announced.antt =====
-- `Engage` of observer.go: what the checks of one tick announce.
use mathlib.Core.List.{append_assoc}
use ttobserver_v.Base.{
  ℕ, zero, suc, ◌≤◌, ◌≡◌, refl, sym, ap, ◌∙◌, Bool, true, false, List, [], ◌∷◌, ◌++◌, map, M, Keeps,
  arith,
}
use ttobserver_v.Producer.Announcer.{Call}
use ttobserver_v.Observer.Check.{Outcome, returned, panicked}
use ttobserver_v.Observer.Engage.Advance.{next_of, run_checks}

-- The numbers rise strictly, from `lo` on, and stay below `hi`.
abbrev pub Rises : ℕ → ℕ → List ℕ → Type 0
Rises lo hi [] = lo ≤ hi
Rises lo hi (x ∷ xs) = (lo ≤ x) × Rises (suc x) hi xs

Rises-lower : (lo lo' hi : ℕ) (xs : List ℕ) → lo ≤ lo' → Rises lo' hi xs → Rises lo hi xs
Rises-lower lo lo' hi [] below r = omega arith
Rises-lower lo lo' hi (x ∷ xs) below (first, rest) = (omega arith, rest)

pub Rises-append :
    (lo mid hi : ℕ) (xs ys : List ℕ) → Rises lo mid xs → Rises mid hi ys → Rises lo hi (xs ++ ys)
Rises-append lo mid hi [] ys r s = Rises-lower lo mid hi ys r s
Rises-append lo mid hi (x ∷ xs) ys (first, rest) s =
    (first, Rises-append (suc x) mid hi xs ys rest s)

-- An offset that was found, with the calls of its announcement.
abbrev pub Announced : Type 0 → Type 0
Announced P = ℕ × List (Call P)

abbrev pub all_calls : {P : Type 0} → List (Announced P) → List (Call P)
all_calls [] = []
all_calls (a ∷ more) = a.1 ++ all_calls more

abbrev pub offsets : {P : Type 0} → List (Announced P) → List ℕ
offsets = map (λ a. a.0)

-- One more check at an offset, before the others.
abbrev pub put :
    {P : Type 0} → ℕ → Outcome → List (Call P) → List (Announced P) → List (Announced P)
put offset panicked calls rest = rest
put offset (returned false) calls rest = rest
put offset (returned true) calls rest = (offset, calls) ∷ rest

put-Rises :
    {P : Type 0} (offset default : ℕ) (o : Outcome) (calls : List (Call P))
    (rest : List (Announced P)) (os : List Outcome)
    → default ≤ offset
    → ((d : ℕ) → d ≤ suc offset → Rises d (next_of (suc offset) d os) (offsets rest))
    → Rises default (next_of offset default (o ∷ os)) (offsets (put offset o calls rest))
put-Rises offset default panicked calls rest os h more = more default (omega arith)
put-Rises offset default (returned false) calls rest os h more = more default (omega arith)
put-Rises offset default (returned true) calls rest os h more = (h, more (suc offset) (omega arith))

put-calls :
    {P : Type 0} (offset : ℕ) (o : Outcome) (calls : List (Call P)) (rest : List (Announced P))
    (found : Bool)
    → o ≡ returned found
    → (o ≡ returned false → calls ≡ [])
    → all_calls (put offset o calls rest) ≡ calls ++ all_calls rest
put-calls offset o calls rest true e quiet = rw e refl
put-calls offset o calls rest false e quiet = rw (e, quiet e) refl

pub all_calls-append :
    {P : Type 0} (xs ys : List (Announced P)) → all_calls (xs ++ ys) ≡ all_calls xs ++ all_calls ys
all_calls-append [] ys = refl
all_calls-append (x ∷ xs) ys =
    rw (all_calls-append xs ys) (sym (append_assoc x.1 (all_calls xs) (all_calls ys)))

module _ {W P : Type 0} (check : ℕ → M W (Outcome × List (Call P))) where
  -- Of `n` checks from `offset` on, those that find a torrent.
  pub announced_in : ℕ → ℕ → W → List (Announced P)
  announced_in zero offset w = []
  announced_in (suc n) offset w =
      let (r, w') = check offset w in put offset r.0 r.1 (announced_in n (suc offset) w')

  pub announced_in-Rises :
      (n offset default : ℕ) (w : W)
      → default ≤ offset
      → Rises default
          (next_of offset default (run_checks check n offset w).0.0)
          (offsets (announced_in n offset w))
  unfolding run_checks announced_in
  announced_in-Rises zero offset default w h = omega arith
  announced_in-Rises (suc n) offset default w h =
      let (r, w') = check offset w in
      put-Rises offset default r.0 r.1 (announced_in n (suc offset) w')
        (run_checks check n (suc offset) w').0.0 h
        (λ d below. announced_in-Rises n (suc offset) d w' below)

  pub announced_in-calls :
      (n offset : ℕ) (w : W)
      → ((i : ℕ) (v : W) → (b : Bool) × ((check i v).0.0 ≡ returned b))
      → ((i : ℕ) (v : W) → (check i v).0.0 ≡ returned false → (check i v).0.1 ≡ [])
      → all_calls (announced_in n offset w) ≡ (run_checks check n offset w).0.1
  unfolding run_checks announced_in
  announced_in-calls zero offset w returns quiet = refl
  announced_in-calls (suc n) offset w returns quiet =
      let (r, w') = check offset w in
      let (found, e) = returns offset w in
      put-calls offset r.0 r.1 (announced_in n (suc offset) w') found e (quiet offset w)
      ∙ ap (λ c. r.1 ++ c) (announced_in-calls n (suc offset) w' returns quiet)

  pub run_checks-Keeps :
      (q : W → Type 0) (n offset : ℕ)
      → ((i : ℕ) → Keeps q (check i))
      → Keeps q (run_checks check n offset)
  unfolding run_checks
  run_checks-Keeps q zero offset keeps w h = h
  run_checks-Keeps q (suc n) offset keeps w h =
      run_checks-Keeps q n (suc offset) keeps (check offset w).1 (keeps offset w h)
