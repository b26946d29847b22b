-- ===== src/Cluster/Election.antt =====
-- Several nodes of cluster.go at once: `asMaster` of each, one call of NATS at a time.
use native.Mathlib.Decide.{ℕ_discrete}
use mathlib.Core.Logic.{ite}
use ttobserver_v.Base.{ℕ, ◌≡◌, refl, Bool, true, false, arith, [], ◌∷◌, Option, none, some, not}
use ttobserver_v.Shared.Database.{Bytes}
use ttobserver_v.Cluster.{same_bytes, respond_id}

-- Where a node is: outside `asMaster`; after it has subscribed to the proposals, and once it has
-- asked, whether a node answers its proposal; and in `StartFn`.
pub data Phase : Type 0 where
  idle : Phase
  proposing : Option Bool → Phase
  master : Phase

-- In all of `asMaster` after `Subscribe` a node is subscribed to the proposals.
abbrev pub is_subscribed : Phase → Bool
is_subscribed idle = false
is_subscribed (proposing o) = true
is_subscribed master = true

abbrev pub Nodes : Type 0
Nodes = ℕ → Phase

abbrev pub update : Nodes → ℕ → Phase → Nodes
update s i p j = ite (ℕ_discrete i j) p (s j)

-- One step of one node. `id i` is the identifier of node `i`. A request comes to the nodes that are
-- subscribed at that moment, and what they answer it is fixed then; the node takes the answer, or
-- the lack of one, in a later step, and other nodes make steps between. `late i` says that an
-- answer to node `i` is lost or comes after `MaxWait`: the node takes the timeout for a silence. A node
-- may also give up after it has subscribed, as it does where a call of NATS fails.
pub data Step (id : ℕ → Bytes) (late : ℕ → Type 0) : Nodes → Nodes → Type 0 where
  subscribe : {s : Nodes} (i : ℕ) → s i ≡ idle → Step id late s (update s i (proposing none))
  ask_silent :
      {s : Nodes} (i : ℕ)
      → s i ≡ proposing none
      → ((j : ℕ) → is_subscribed (s j) ≡ true → respond_id (id j) (id i) ≡ false)
      → Step id late s (update s i (proposing (some false)))
  ask_heard :
      {s : Nodes} (i j : ℕ)
      → s i ≡ proposing none
      → is_subscribed (s j) ≡ true
      → respond_id (id j) (id i) ≡ true
      → Step id late s (update s i (proposing (some true)))
  win : {s : Nodes} (i : ℕ) → s i ≡ proposing (some false) → Step id late s (update s i master)
  win_late :
      {s : Nodes} (i : ℕ)
      → s i ≡ proposing (some true)
      → late i
      → Step id late s (update s i master)
  give_up : {s : Nodes} (i : ℕ) → is_subscribed (s i) ≡ true → Step id late s (update s i idle)

pub data Reach (id : ℕ → Bytes) (late : ℕ → Type 0) : Nodes → Type 0 where
  start : Reach id late (λ _. idle)
  next : {s t : Nodes} → Reach id late s → Step id late s t → Reach id late t

same_bytes-eq : (a b : Bytes) → same_bytes a b ≡ true → a ≡ b
unfolding same_bytes
same_bytes-eq [] [] h = refl
same_bytes-eq [] (y ∷ ys) h = cc
same_bytes-eq (x ∷ xs) [] h = cc
same_bytes-eq (x ∷ xs) (y ∷ ys) h = ground (arith, same_bytes-eq xs ys)

-- A node that does not answer an identifier has it itself.
silent-eq : (own received : Bytes) → respond_id own received ≡ false → own ≡ received
unfolding respond_id
silent-eq own received h = same_bytes-eq own received (ground arith)

-- A node that leads, or that nobody has answered.
abbrev is_ahead : Phase → Bool
is_ahead idle = false
is_ahead (proposing none) = false
is_ahead (proposing (some answered)) = not answered
is_ahead master = true

abbrev IsUnique : Nodes → Type 0
IsUnique s = (i j : ℕ) → is_ahead (s i) ≡ true → is_ahead (s j) ≡ true → i ≡ j

ahead-is_subscribed : (p : Phase) → is_ahead p ≡ true → is_subscribed p ≡ true
ahead-is_subscribed idle h = cc
ahead-is_subscribed (proposing o) h = refl
ahead-is_subscribed master h = refl

module _ (id : ℕ → Bytes) (distinct : (i j : ℕ) → id i ≡ id j → i ≡ j) (late : ℕ → Type 0)
    (never_late : (i : ℕ) → late i → ⊥) where
  -- Whoever is ahead is the node itself when all that are subscribed are silent to it.
  silent-ahead :
      (s : Nodes) (i j : ℕ)
      → ((k : ℕ) → is_subscribed (s k) ≡ true → respond_id (id k) (id i) ≡ false)
      → is_ahead (s j) ≡ true
      → j ≡ i
  silent-ahead s i j silent ahead =
      distinct j i (silent-eq (id j) (id i) (silent j (ahead-is_subscribed (s j) ahead)))

  Step-IsUnique : {s t : Nodes} → Step id late s t → IsUnique s → IsUnique t
  Step-IsUnique (subscribe {s} i e) u j k in_j in_k = ground (arith, u j k)
  Step-IsUnique (ask_silent {s} i e silent) u j k in_j in_k =
      ground (arith, silent-ahead s i j silent, silent-ahead s i k silent)
  Step-IsUnique (ask_heard {s} i l e there answers) u j k in_j in_k = ground (arith, u j k)
  Step-IsUnique (win {s} i e) u j k in_j in_k =
      let ahead : is_ahead (s i) ≡ true = rw e refl in ground (arith, u j k, u i k ahead, u j i)
  Step-IsUnique (win_late {s} i e l) u j k in_j in_k = absurd (never_late i l)
  Step-IsUnique (give_up {s} i e) u j k in_j in_k = ground (arith, u j k)

  Reach-ahead : {s : Nodes} → Reach id late s → IsUnique s
  Reach-ahead start i j in_i in_j = cc
  Reach-ahead (next r st) i j in_i in_j = Step-IsUnique st (Reach-ahead r) i j in_i in_j

  -- With distinct node identifiers, and where no answer to a proposal is lost or comes later than
  -- the wait for it, two nodes are never master together, whatever steps the nodes make between a
  -- proposal, its answer and the start of the work.
  pub Reach-IsUnique :
      {s : Nodes} → Reach id late s → (i j : ℕ) → s i ≡ master → s j ≡ master → i ≡ j
  Reach-IsUnique {s} r i j in_i in_j = Reach-ahead r i j (rw in_i refl) (rw in_j refl)
