-- ===== src/Api/Params/Range.antt =====
-- api/server.go: a parameter is always in its range, and a numeral in range is taken as it is.
use forensic_listener.Prelude.{
  ℕ, ◌≤◌, min, String, ◌≡◌, false, Option, none, some, arith, str_eq, if◌then◌else◌, Bool-cases,
  inl, inr,
}
use forensic_listener.Api.Params.{Signed, atoi, is_below, bounded, parse_int_param}

bounded_range :
    (fallback least most : ℕ) (o : Option Signed)
    → least ≤ fallback
    → fallback ≤ most
    → (least ≤ bounded fallback least most o) × (bounded fallback least most o ≤ most)
bounded_range fallback least most none a b = (a, b)
bounded_range fallback least most (some v) a b = (ground arith, ground arith)

-- Whatever the request says, the number that a handler goes on with lies between the least and the
-- most that it allows, as its fallback does.
pub param_range :
    (raw : String) (fallback least most : ℕ)
    → least ≤ fallback
    → fallback ≤ most
    → (least ≤ parse_int_param raw fallback least most)
      × (parse_int_param raw fallback least most ≤ most)
unfolding parse_int_param
param_range raw fallback least most a b = elim (Bool-cases (str_eq raw "")) [
  | inl e ↦ rw e (a, b)
  | inr e ↦ rw e (bounded_range fallback least most (atoi raw) a b)
]

-- A number that Atoi reads is clamped from above, and replaced by the fallback if it is too small.
pub param_of :
    (raw : String) (v : Signed) (fallback least most : ℕ)
    → str_eq raw "" ≡ false
    → atoi raw ≡ some v
    → parse_int_param raw fallback least most
      ≡ (if is_below v least then fallback else min v.magnitude most)
unfolding parse_int_param
param_of raw v fallback least most there e = rw (there, e) (ground arith)
