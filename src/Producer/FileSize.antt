-- ===== src/Producer/FileSize.antt =====
-- producer/shared.go: `FormatFileSize`.
use native.Mathlib.Decide.{dec_le}
use native.Mathlib.Nat.{pow-suc, pow-le-pow_right}
use native.Mathlib.Numerals.{add-one}
use ttobserver_v.Base.{
  ℕ, zero, suc, ◌+◌, ◌*◌, ◌/◌, ◌%◌, ◌^◌, ◌≤◌, ◌<◌, ◌≡◌, String, append_text, ltb, leb, leb→le, ap,
  if◌then◌else◌, arith, Bool-cases, inl, inr,
}
use ttobserver_v.Base.Decimal.{format_uint}

abbrev pub base : ℕ
base = 1024

-- The loop `for n := size / base; n >= base; n /= base`; the pair is d, e. The product is a uint64.
unit_loop : ℕ → ℕ → ℕ → ℕ → ℕ × ℕ
unit_loop zero n d e = (d, e)
unit_loop (suc fuel) n d e =
    let rest = unit_loop fuel (n / base) (d * base % 2 ^ 64) (e + 1) in
    if leb base n then rest else (d, e)

-- Six rounds are more than a 64-bit size needs.
pub unit_of : ℕ → ℕ × ℕ
unfolding unit_loop
unit_of size = unit_loop 6 (size / base) base 0

-- `suff[e]` of "KMGTPEZY", and '?' beyond it
suffix : ℕ → String
suffix zero = "K"
suffix (suc zero) = "M"
suffix (suc (suc zero)) = "G"
suffix (suc (suc (suc zero))) = "T"
suffix (suc (suc (suc (suc zero)))) = "P"
suffix (suc (suc (suc (suc (suc zero))))) = "E"
suffix (suc (suc (suc (suc (suc (suc zero)))))) = "Z"
suffix (suc (suc (suc (suc (suc (suc (suc zero))))))) = "Y"
suffix _ = "?"

-- `ratio size d` stands for `%.2f` of the quotient of the two numbers as float64.
unfoldable pub format_file_size : (ℕ → ℕ → String) → ℕ → String
unfolding unit_of suffix
format_file_size ratio size =
    if ltb size base
    then append_text (format_uint size) " B"
    else (let u = unit_of size in
        append_text (ratio size u.0) (append_text " " (append_text (suffix u.1) "iB")))

-- The unit `d` is the greatest power of 1024 that is not above the size.
pub record IsUnit (size : ℕ) (u : ℕ × ℕ) : Type 0 where
  pub power : u.0 ≡ 1024 ^ (suc u.1)
  pub not_above : u.0 ≤ size
  pub greatest : size < u.0 * 1024

-- Before each test of the loop, for the fuel that is left: `n` is the quotient of the size by `d`.
record Inv (size fuel n d e : ℕ) : Type 0 where
  below : n * d ≤ size
  above : size < n * d + d
  power : d ≡ 1024 ^ suc e
  pos : 0 < n
  enough : n < 1024 ^ suc fuel

product-le : (d n : ℕ) → 1024 ≤ n → d * 1024 ≤ n * d
product-le d n h = grind arith

rest-le : (d r : ℕ) → r < 1024 → r * d + d ≤ 1024 * d
rest-le d r h = grind arith

split : (n d : ℕ) → n * d ≡ 1024 * (n / 1024 * d) + n % 1024 * d
split n d =
    let e : n ≡ 1024 * (n / 1024) + n % 1024 = omega arith in omega (arith, ap (λ (t : ℕ). t * d) e)

step-Inv :
    (size fuel n d e : ℕ)
    → size < 2 ^ 64
    → 1024 ≤ n
    → Inv size (suc fuel) n d e
    → Inv size fuel (n / 1024) (d * 1024 % 2 ^ 64) (suc e)
step-Inv size fuel n d e small more inv =
    let wide : d * 1024 ≤ n * d = product-le d n more in
    let plain : d * 1024 % 2 ^ 64 ≡ d * 1024 = omega arith in
    rw plain (record {
      below = omega (arith, split n d);
      above = omega (arith, split n d, rest-le d (n % 1024) (omega arith));
      power = omega (arith, pow-suc 1024 (suc e));
      pos = omega arith;
      enough = omega (arith, pow-suc 1024 (suc fuel));
    })

last-IsUnit : (size fuel n d e : ℕ) → n < 1024 → Inv size fuel n d e → IsUnit size (d, e)
last-IsUnit size fuel n d e last inv = record {
  power = inv.power;
  not_above = grind arith;
  greatest = grind arith;
}

unit_loop-IsUnit :
    (size fuel n d e : ℕ) → size < 2 ^ 64 → Inv size fuel n d e → IsUnit size (unit_loop fuel n d e)
unfolding unit_loop
unit_loop-IsUnit size zero n d e small inv = last-IsUnit size zero n d e (omega arith) inv
unit_loop-IsUnit size (suc fuel) n d e small inv = elim (Bool-cases (leb 1024 n)) [
  | inl more ↦
      rw (more, add-one)
        (unit_loop-IsUnit size fuel _ _ _ small
          (step-Inv size fuel n d e small (leb→le 1024 n more) inv))
  | inr last ↦ rw last (last-IsUnit size (suc fuel) n d e (ground arith) inv)
]

-- A 64-bit size has an exponent of at most 5.
exponent-le : (size : ℕ) (u : ℕ × ℕ) → size < 2 ^ 64 → IsUnit size u → u.1 ≤ 5
exponent-le size u small h = elim (dec_le u.1 5) [
  | yes le ↦ le
  | no more ↦
      absurd (
        omega
          (arith, pow-le-pow_right {n = 1024} (omega arith) {i = 7} {j = suc u.1} (omega arith)))
]

-- A size of 64 bits that is not below 1024 is shown in the greatest unit that is not above it, and
-- that unit has a letter: the loop stops within its fuel, and the sign '?' is never shown.
pub unit_of-IsUnit :
    (size : ℕ) → 1024 ≤ size → size < 2 ^ 64 → IsUnit size (unit_of size) × ((unit_of size).1 < 8)
unfolding unit_of
unit_of-IsUnit size big small =
    let u = unit_loop-IsUnit size 6 (size / 1024) 1024 0 small (omega arith) in
    (u, omega (arith, exponent-le size _ small u))
