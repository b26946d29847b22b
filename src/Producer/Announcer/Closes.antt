-- ===== src/Producer/Announcer/Closes.antt =====
-- producer/announcer.go: the calls that close a producer, among the calls of an announcer.
use ttobserver_v.Base.{ap, ◌∙◌, ℕ, ◌≡◌, refl, Bool, Option, none, some, List, [], ◌∷◌, ◌++◌, map}
use ttobserver_v.Shared.Torrent.{TorrentInfo}
use ttobserver_v.Producer.Announcer.{
  Announcer, Call, send, send_nx_get, close, send_all, send_nx_get_all, close_all,
}

-- The producers that are closed, in order
abbrev pub closes : {P : Type 0} → List (Call P) → List P
closes [] = []
closes (close p ∷ calls) = p ∷ closes calls
closes (send p is_new t ∷ calls) = closes calls
closes (send_nx_get p offset ∷ calls) = closes calls

pub closes-append :
    {P : Type 0} (xs ys : List (Call P)) → closes (xs ++ ys) ≡ closes xs ++ closes ys
closes-append [] ys = refl
closes-append (close p ∷ xs) ys = ap (λ ps. p ∷ ps) (closes-append xs ys)
closes-append (send p is_new t ∷ xs) ys = closes-append xs ys
closes-append (send_nx_get p offset ∷ xs) ys = closes-append xs ys

pub closes-appended :
    {P : Type 0} (xs ys : List (Call P)) → closes xs ≡ [] → closes ys ≡ [] → closes (xs ++ ys) ≡ []
closes-appended xs ys h k = closes-append xs ys ∙ ap (λ ps. ps ++ closes ys) h ∙ k

closes-sends :
    {P : Type 0} (is_new : Bool) (t : TorrentInfo) (ps : List P)
    → closes (map (λ n. send n is_new t) ps) ≡ []
closes-sends is_new t [] = refl
closes-sends is_new t (p ∷ ps) = closes-sends is_new t ps

closes-nx :
    {P : Type 0} (offset : ℕ) (ps : List P) → closes (map (λ n. send_nx_get n offset) ps) ≡ []
closes-nx offset [] = refl
closes-nx offset (p ∷ ps) = closes-nx offset ps

closes-all : {P : Type 0} (ps : List P) → closes (map close ps) ≡ ps
closes-all [] = refl
closes-all (p ∷ ps) = ap (λ qs. p ∷ qs) (closes-all ps)

module _ {D P : Type 0} (a : Announcer D P) where
  pub closes-send_all : (is_new : Bool) (t : Option TorrentInfo) → closes (send_all a is_new t) ≡ []
  unfolding send_all
  closes-send_all is_new none = refl
  closes-send_all is_new (some t) = closes-sends is_new t a.producers

  pub closes-send_nx_get_all : (offset : ℕ) → closes (send_nx_get_all a offset) ≡ []
  unfolding send_nx_get_all
  closes-send_nx_get_all offset = closes-nx offset a.producers

  pub closes-close_all : closes (close_all a) ≡ a.producers
  unfolding close_all
  closes-close_all = closes-all a.producers
