-- ===== src/Shared/Torrent/Poster/Bounds.antt =====
-- The thumbnail of shared/torrent.go, `GetTorrentPoster`: its size.
use Prim.Native.Nat.{max}
use native.Mathlib.Nat.{div-le_of_le-mul}
use ttobserver_v.Base.{ℕ, ◌*◌, ◌/◌, ◌^◌, ◌≤◌, ◌<◌, ◌≡◌, arith, ltb}
use ttobserver_v.Shared.Torrent.Poster.{
  less, times, quotient, at_least_one, fit_width, fit_height, thumb_size,
}

-- On small numbers the operations of int are those of ℕ.
less-ltb : (a b : ℕ) → a < 2 ^ 63 → b < 2 ^ 63 → less a b ≡ ltb a b
unfolding less
less-ltb a b h k = ground arith

product-lt : (a b : ℕ) → a < 2 ^ 31 → b < 2 ^ 31 → a * b < 2 ^ 62
product-lt a b h k = grind arith

quotient-times :
    (a m x : ℕ) → a < 2 ^ 31 → m < 2 ^ 31 → x < 2 ^ 31 → quotient (times a m) x ≡ a * m / x
unfolding quotient times
quotient-times a m x sa sm sx = ground (arith, product-lt a m sa sm)

at_least_one-eq : (n : ℕ) → n < 2 ^ 63 → at_least_one n ≡ max 1 n
unfolding at_least_one
at_least_one-eq n h = ground arith

quotient-le : (a m x : ℕ) → m < x → a * m / x ≤ a
quotient-le a m x h = div-le_of_le-mul x (grind arith)

-- Scaling a side down keeps it below what it was, and at least 1.
scaled-bounds :
    (a m x : ℕ)
    → 0 < a
    → a < 2 ^ 31
    → m < x
    → x < 2 ^ 31
    → (0 < at_least_one (quotient (times a m) x)) × (at_least_one (quotient (times a m) x) ≤ a)
scaled-bounds a m x pa sa mx sx =
    let small : a * m / x ≤ a = quotient-le a m x mx in
    rw (quotient-times a m x sa (omega arith) sx)
      (rw (at_least_one-eq (a * m / x) (omega arith)) (omega arith))

-- What a thumbnail's size promises: it fits, it is no empty picture, and it is not enlarged.
pub record Fits (max_size x y : ℕ) (size : ℕ × ℕ) : Type 0 where
  pub width_fits : size.0 ≤ max_size
  pub height_fits : size.1 ≤ max_size
  pub width_pos : 0 < size.0
  pub height_pos : 0 < size.1
  pub width_le : size.0 ≤ x
  pub height_le : size.1 ≤ y

module _ (m x y : ℕ) (pm : 0 < m) (px : 0 < x) (py : 0 < y) (sm : m < 2 ^ 31) (sx : x < 2 ^ 31)
    (sy : y < 2 ^ 31) where
  fit_width-bounds :
      let s = fit_width m x y in (0 < s.0) × (s.0 ≤ m) × (s.0 ≤ x) × (0 < s.1) × (s.1 ≤ y)
  unfolding fit_width
  fit_width-bounds = ground (arith, less-ltb m x, scaled-bounds y m x)

  fit_height-Fits :
      (w h : ℕ) → 0 < w → w ≤ m → w ≤ x → 0 < h → h ≤ y → Fits m x y (fit_height m (w, h))
  unfolding fit_height
  fit_height-Fits w h pw wm wx ph hy = ground (arith, less-ltb m h, scaled-bounds w m h)

  -- For a square whose side is at least 1 and below 2^31, the thumbnail of a picture with sides of
  -- at least 1 and below 2^31 fits the square, has sides of at least 1 and is not enlarged; a
  -- picture that fits keeps its size.
  pub thumb_size-Fits : Fits m x y (thumb_size m x y) × (x ≤ m → y ≤ m → thumb_size m x y ≡ (x, y))
  unfolding thumb_size
  thumb_size-Fits =
      let b = fit_width-bounds in
      let f = fit_height-Fits (fit_width m x y).0 (fit_width m x y).1 b.0 b.1 b.2 b.3 b.4 in
      ground (arith, less-ltb m x, less-ltb m y, f)
