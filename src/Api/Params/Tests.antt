-- ===== src/Api/Params/Tests.antt =====
-- api/server.go: tests of the parameters, and their laws at one value.
use forensic_listener.Prelude.{◌≤◌, min, ◌≡◌, refl, true, false, some, none, arith}
use forensic_listener.Api.Params.{atoi, numeral, digits, digit, parse_int_param}
use forensic_listener.Api.Params.Range.{param_range, param_of}

atoi_negative : atoi "-12" ≡ some (record { is_negative = true; magnitude = 12 })
unfolding atoi numeral digits digit
atoi_negative = refl

atoi_overflow : atoi "9223372036854775808" ≡ none
unfolding atoi numeral digits digit
atoi_overflow = refl

atoi_text : atoi "1x" ≡ none
unfolding atoi numeral digits digit
atoi_text = refl

param_range_applied : (1 ≤ parse_int_param "900" 50 1 200) × (parse_int_param "900" 50 1 200 ≤ 200)
param_range_applied = param_range "900" 50 1 200 (omega arith) (omega arith)

param_of_applied : parse_int_param "900" 50 1 200 ≡ min 900 200
param_of_applied =
    param_of "900" (record { is_negative = false; magnitude = 900 }) 50 1 200 refl
      (unfold atoi numeral digits digit in refl)
