-- ===== src/Base/Action.antt =====
-- Code with effects: a function of the outside world `W` that returns a result and the world after.
abbrev pub M : Type 0 → Type 0 → Type 0
M W A = W → A × W

abbrev pub pure : {W A : Type 0} → A → M W A
pure a w = (a, w)

infixl 5 ◌>>=◌ ◌>>◌
abbrev pub ◌>>=◌ : {W A B : Type 0} → M W A → (A → M W B) → M W B
◌>>=◌ m f w = f (m w).0 (m w).1

abbrev pub ◌>>◌ : {W A B : Type 0} → M W A → M W B → M W B
◌>>◌ m k w = k (m w).1

-- `q` holds after the action where it held before.
abbrev pub Keeps : {W A : Type 0} → (W → Type 0) → M W A → Type 0
Keeps {W} q m = (w : W) → q w → q (m w).1
