-- ===== src/Base/Decimal.antt =====
-- Decimal text of numbers: `strconv.FormatUint` and `strconv.ParseUint` at base 10 and 64 bits.
use Prim.Native.Nat.{ℕ, zero, suc, ◌+◌, ◌-◌, ◌*◌, ◌/◌, ◌%◌, ◌^◌, ◌<◌, ◌≤◌}
use Prim.Native.Char.{Char, code}
use Prim.Native.String.{String}
use mathlib.Core.Path.{◌≡◌, refl, ap, ◌∙◌}
use mathlib.Core.Logic.{inl, inr}
use native.Mathlib.Nat.{pow-suc}
use mathlib.Core.Bool.{◌&&◌}
use mathlib.Core.Option.{Option, none, some}
use native.Mathlib.Omega.{arith}
use ttobserver_v.Base.Tests.{ltb, leb, ltb→lt, Bool-cases, if◌then◌else◌}

digit : ℕ → Char
digit zero = "0"
digit (suc zero) = "1"
digit (suc (suc zero)) = "2"
digit (suc (suc (suc zero))) = "3"
digit (suc (suc (suc (suc zero)))) = "4"
digit (suc (suc (suc (suc (suc zero))))) = "5"
digit (suc (suc (suc (suc (suc (suc zero)))))) = "6"
digit (suc (suc (suc (suc (suc (suc (suc zero))))))) = "7"
digit (suc (suc (suc (suc (suc (suc (suc (suc zero)))))))) = "8"
digit _ = "9"

code-digit : (n : ℕ) → n < 10 → code (digit n) ≡ n + 48
unfolding digit
code-digit zero h = refl
code-digit (suc zero) h = refl
code-digit (suc (suc zero)) h = refl
code-digit (suc (suc (suc zero))) h = refl
code-digit (suc (suc (suc (suc zero)))) h = refl
code-digit (suc (suc (suc (suc (suc zero))))) h = refl
code-digit (suc (suc (suc (suc (suc (suc zero)))))) h = refl
code-digit (suc (suc (suc (suc (suc (suc (suc zero))))))) h = refl
code-digit (suc (suc (suc (suc (suc (suc (suc (suc zero)))))))) h = refl
code-digit (suc (suc (suc (suc (suc (suc (suc (suc (suc zero))))))))) h = refl
code-digit (suc (suc (suc (suc (suc (suc (suc (suc (suc (suc n)))))))))) h = absurd (omega arith)

-- `strconv.FormatUint(n, 10)`: the digits from the right, on fuel; a 64-bit number has 20 at most.
format_go : ℕ → ℕ → String → String
format_go zero n s = s
format_go (suc f) n s =
    let rest = format_go f (n / 10) (String.◌∷◌ (digit (n % 10)) s) in
    if ltb n 10 then String.◌∷◌ (digit n) s else rest

unfoldable pub format_uint : ℕ → String
unfolding format_go digit
format_uint n = format_go 20 n String.[]

-- The digits of a text in base 10, and `none` at any other character.
parse_go : ℕ → String → Option ℕ
parse_go acc String.[] = some acc
parse_go acc (String.◌∷◌ c s) =
    if leb 48 (code c) && leb (code c) 57 then parse_go (acc * 10 + (code c - 48)) s else none

abbrev in_range : Option ℕ → Option ℕ
in_range none = none
in_range (some n) = if ltb n (2 ^ 64) then some n else none

-- `strconv.ParseUint(s, 10, 64)`: the empty text and numbers beyond 64 bits are errors too.
unfoldable pub parse_uint : String → Option ℕ
unfolding parse_go
parse_uint String.[] = none
parse_uint (String.◌∷◌ c s) = in_range (parse_go 0 (String.◌∷◌ c s))

parse_go-digit :
    (acc n : ℕ) (s : String)
    → n < 10
    → parse_go acc (String.◌∷◌ (digit n) s) ≡ parse_go (acc * 10 + n) s
unfolding parse_go
parse_go-digit acc n s h = ground (arith, code-digit n h)

shorter : (f n : ℕ) → n < 10 ^ suc f → n / 10 < 10 ^ f
shorter f n h = omega (arith, pow-suc 10 f)

parse_go-format_go :
    (f n : ℕ) (s : String) → n < 10 ^ f → parse_go 0 (format_go f n s) ≡ parse_go n s
unfolding format_go
parse_go-format_go zero n s h = ap (λ (k : ℕ). parse_go k s) (omega arith)
parse_go-format_go (suc f) n s h = elim (Bool-cases (ltb n 10)) [
  | inl last ↦
      rw last (parse_go-digit 0 n s (ltb→lt n 10 last) ∙ ap (λ (k : ℕ). parse_go k s) (omega arith))
  | inr more ↦ rw more (
      parse_go-format_go f (n / 10) (String.◌∷◌ (digit (n % 10)) s) (shorter f n h)
      ∙ parse_go-digit (n / 10) (n % 10) s (omega arith)
      ∙ ap (λ (k : ℕ). parse_go k s) (omega arith))
]

parse_uint-format_go :
    (f n : ℕ) (c : Char) (s : String)
    → parse_uint (format_go f n (String.◌∷◌ c s))
      ≡ in_range (parse_go 0 (format_go f n (String.◌∷◌ c s)))
unfolding parse_uint format_go
parse_uint-format_go zero n c s = refl
parse_uint-format_go (suc f) n c s = elim (Bool-cases (ltb n 10)) [
  | inl last ↦ rw last
  | inr more ↦ rw more (parse_uint-format_go f (n / 10) (digit (n % 10)) (String.◌∷◌ c s))
]

parse_uint-format_go-suc :
    (f n : ℕ)
    → parse_uint (format_go (suc f) n String.[])
      ≡ in_range (parse_go 0 (format_go (suc f) n String.[]))
unfolding format_go
parse_uint-format_go-suc f n = elim (Bool-cases (ltb n 10)) [
  | inl last ↦ rw last (unfold parse_uint in refl)
  | inr more ↦ rw more (parse_uint-format_go f (n / 10) (digit (n % 10)) String.[])
]

-- Every 64-bit number is read back from its text.
pub parse_uint-format_uint : (n : ℕ) → n < 2 ^ 64 → parse_uint (format_uint n) ≡ some n
unfolding format_uint
parse_uint-format_uint n h =
    parse_uint-format_go-suc 19 n
    ∙ ap in_range (parse_go-format_go 20 n String.[] (omega arith))
    ∙ unfold parse_go in ground arith

-- A text that is read as a number starts with a digit.
pub parse_uint_first :
    (c : Char) (s : String) (n : ℕ)
    → parse_uint (String.◌∷◌ c s) ≡ some n
    → (48 ≤ code c) × (code c ≤ 57)
unfolding parse_uint parse_go
parse_uint_first c s n read = ground (arith, read)
