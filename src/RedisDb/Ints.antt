-- ===== src/RedisDb/Ints.antt =====
-- `strconv.FormatInt` and `strconv.ParseInt` at base 10 and 64 bits, for shared/redis/db.go.
use Prim.Native.Char.{code}
use ttobserver_v.Base.{
  ℕ, zero, suc, ◌-◌, ◌^◌, String, append_text, Bool, false, true, none, some, ltb, leb, nat_beq,
  if◌then◌else◌, ◌&&◌, ◌<◌, ◌≡◌, arith,
}
use ttobserver_v.Base.Int.{ℤ, pos, negsuc}
use ttobserver_v.Base.Decimal.{format_uint, parse_uint, parse_uint_first, parse_uint-format_uint}
use ttobserver_v.Shared.Errors.{Fault, parse_error}

unfoldable pub format_int : ℤ → String
format_int (pos n) = format_uint n
format_int (negsuc n) = append_text "-" (format_uint (suc n))

-- Texts of digits only
is_digits : String → Bool
is_digits String.[] = true
is_digits (String.◌∷◌ c s) = leb 48 (code c) && leb (code c) 57 && is_digits s

-- The value for a magnitude: the greatest or least number beside an error of range, 0 beside an
-- error of syntax.
in_range : Bool → ℕ → ℤ × Fault
in_range false n = if ltb n (2 ^ 63) then (pos n, none) else (pos (2 ^ 63 - 1), some parse_error)
in_range true zero = (pos 0, none)
in_range true (suc n) =
    if ltb n (2 ^ 63) then (negsuc n, none) else (negsuc (2 ^ 63 - 1), some parse_error)

signed : Bool → String → ℤ × Fault
unfolding in_range is_digits
signed minus String.[] = (pos 0, some parse_error)
signed minus (String.◌∷◌ c s) = elim (parse_uint (String.◌∷◌ c s)) [
  | some n ↦ in_range minus n
  | none ↦ if is_digits (String.◌∷◌ c s) then in_range minus (2 ^ 64) else (pos 0, some parse_error)
]

unfoldable pub parse_int : String → ℤ × Fault
unfolding signed
parse_int String.[] = (pos 0, some parse_error)
parse_int (String.◌∷◌ c s) =
    if nat_beq (code c) b'-'
    then signed true s
    else if nat_beq (code c) b'+'
    then signed false s
    else signed false (String.◌∷◌ c s)

-- A text that is read as a number without a sign is read as the same number with one.
parse_int-parse_uint :
    (s : String) (n : ℕ) → parse_uint s ≡ some n → n < 2 ^ 63 → parse_int s ≡ (pos n, none)
unfolding parse_int signed in_range parse_uint
parse_int-parse_uint String.[] n read small = absurd (cc (read))
parse_int-parse_uint (String.◌∷◌ c s) n read small =
    ground (arith, read, parse_uint_first c s n read)

pub parse_int-format_uint : (n : ℕ) → n < 2 ^ 63 → parse_int (format_uint n) ≡ (pos n, none)
parse_int-format_uint n small =
    parse_int-parse_uint (format_uint n) n (parse_uint-format_uint n (omega (arith, small))) small
