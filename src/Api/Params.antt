-- ===== src/Api/Params.antt =====
-- api/server.go: query parameters that are numbers, parseLimit and parseIntParam.
pub mod Range
mod Tests
use Prim.Native.Char.{Char, code}
use forensic_listener.Prelude.{
  ℕ, ◌+◌, ◌-◌, ◌*◌, ◌^◌, String, Bool, true, false, ◌&&◌, ◌||◌, not, Option, none, some, str_eq,
  ltb, leb, ◌==◌, if◌then◌else◌, ◌>>=◌,
}

-- An int, as its sign and its magnitude.
pub record Signed : Type 0 where
  pub is_negative : Bool
  pub magnitude : ℕ

unfoldable pub digit : Char → Option ℕ
digit ch = let c = code ch in if leb 48 c && leb c 57 then some (c - 48) else none

-- The digits that are left, behind the number read so far.
unfoldable pub digits : ℕ → String → Option ℕ
digits acc String.[] = some acc
digits acc (String.◌∷◌ ch s) = more (digit ch) (λ n. digits n s)
  where
    more : Option ℕ → (ℕ → Option ℕ) → Option ℕ
    more none rest = none
    more (some d) rest = rest (acc * 10 + d)

-- A number has a digit.
unfoldable pub numeral : String → Option ℕ
numeral String.[] = none
numeral (String.◌∷◌ ch s) = digits 0 (String.◌∷◌ ch s)

-- What an int of 64 bits holds.
abbrev pub in_range : Bool → ℕ → Option Signed
in_range negative n =
    if leb n (2 ^ 63 - 1) || (negative && n == 2 ^ 63)
    then some (record { is_negative = negative; magnitude = n })
    else none

-- strconv.Atoi
unfoldable pub atoi : String → Option Signed
atoi String.[] = none
atoi (String.◌∷◌ ch s) =
    if code ch == 45
    then numeral s >>= in_range true
    else if code ch == 43
    then numeral s >>= in_range false
    else numeral (String.◌∷◌ ch s) >>= in_range false

-- value < min, where min is not negative
abbrev pub is_below : Signed → ℕ → Bool
is_below v least = (v.is_negative && not (v.magnitude == 0)) || ltb v.magnitude least

abbrev pub bounded : ℕ → ℕ → ℕ → Option Signed → ℕ
bounded fallback least most none = fallback
bounded fallback least most (some v) =
    if is_below v least then fallback else if ltb most v.magnitude then most else v.magnitude

-- parseIntParam, of the value of the parameter
unfoldable pub parse_int_param : String → ℕ → ℕ → ℕ → ℕ
parse_int_param raw fallback least most =
    if str_eq raw "" then fallback else bounded fallback least most (atoi raw)

-- parseLimit
unfoldable pub parse_limit : String → ℕ → ℕ → ℕ
parse_limit raw fallback most = parse_int_param raw fallback 1 most
