-- ===== src/Daemon/Tests.antt =====
-- A message of the socket: a number is one digit here.
use led_platform.Prelude.{
  Option, [], err, if◌then◌else◌, ltb, none, ok, refl, some, suc, true, ℕ, ◌%◌, ◌+◌, ◌-◌, ◌∷◌, ◌≡◌,
  ◌≢◌,
}
use led_platform.Daemon.Json.Text.{decode_char, is_scalar}
use led_platform.Daemon.Json.Value.{
  display, compare_keys, arr, obj, bool, num, str, nil, elem, done, field, Json, Bytes,
}
use led_platform.Daemon.Json.Scan.{out_of_fuel, expected_comma, rubbish}
use led_platform.Daemon.Json.Parser.{parse, max_depth}
use led_platform.Daemon.Json.Parser.Total.{Within, parse_terminates, parse-Within}
use led_platform.Daemon.Json.Parser.RoundTrip.{parse-display}
use led_platform.Daemon.Json.Parser.Written.{Finite}

abbrev show_digit : ℕ → Bytes
show_digit n = (48 + n % 10) ∷ []

abbrev parse_digit : Bytes → Option ℕ
parse_digit (b ∷ []) = if ltb b 48 then none else some (b - 48)
parse_digit _ = none

-- `{"a":[1,"é\n"],"b":true}`
abbrev message : Json ℕ
message = obj (
    field (97 ∷ []) (arr (elem (num 1) (elem (str (233 ∷ 10 ∷ [])) nil)))
      (field (98 ∷ []) (bool true) done))

digit : Finite show_digit parse_digit 1
digit = record { starts = refl; bytes = (refl, tt); parses = refl }

parse-display_example : parse parse_digit (display show_digit message) ≡ ok message
unfolding is_scalar compare_keys
parse-display_example =
    parse-display show_digit parse_digit message ((tt, (tt, tt)), (tt, tt))
      (
        ((refl, tt), (tt, tt)),
        ((refl, tt), (digit, ((refl, (refl, tt)), tt)), ((refl, tt), tt, tt)),
      )

abbrev cut_short : Bytes
cut_short = 91 ∷ 49 ∷ []

abbrev two_lists : Json ℕ
two_lists = arr (elem (arr nil) nil)

parse_terminates_example : parse parse_digit cut_short ≢ err out_of_fuel
parse_terminates_example = parse_terminates parse_digit cut_short

nested_parses : parse parse_digit (91 ∷ 91 ∷ 93 ∷ 93 ∷ []) ≡ ok (arr (elem (arr nil) nil))
unfolding parse
nested_parses = refl

parse-Within_example : Within (suc max_depth) two_lists
parse-Within_example = parse-Within parse_digit (91 ∷ 91 ∷ 93 ∷ 93 ∷ []) two_lists nested_parses

-- `"\ud83d\ude00"`, a pair of surrogates, is read as two characters U+FFFD.
surrogate_pair :
    parse parse_digit
      (34 ∷ 92 ∷ 117 ∷ 100 ∷ 56 ∷ 51 ∷ 100 ∷ 92 ∷ 117 ∷ 100 ∷ 101 ∷ 48 ∷ 48 ∷ 34 ∷ [])
    ≡ ok (str (0xfffd ∷ 0xfffd ∷ []))
unfolding parse decode_char
surrogate_pair = refl

-- `"\u+041"` is read as `A`.
signed_code : parse parse_digit (34 ∷ 92 ∷ 117 ∷ 43 ∷ 48 ∷ 52 ∷ 49 ∷ 34 ∷ []) ≡ ok (str (65 ∷ []))
unfolding parse decode_char
signed_code = refl

-- `[1`, and `1 1`.
unclosed : parse parse_digit cut_short ≡ err expected_comma
unfolding parse
unclosed = refl

trailing : parse parse_digit (49 ∷ 32 ∷ 49 ∷ []) ≡ err rubbish
unfolding parse
trailing = refl
