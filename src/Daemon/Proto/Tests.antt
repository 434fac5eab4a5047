-- ===== src/Daemon/Proto/Tests.antt =====
-- Requests of the socket: a number is one digit here.
use led_platform.Prelude.{
  Option, [], arith, if◌then◌else◌, ltb, none, ok, refl, some, ℕ, ◌%◌, ◌+◌, ◌-◌, ◌<◌, ◌∷◌, ◌≡◌,
}
use led_platform.Daemon.Json.Value.{display, obj, num, done, field, Bytes}
use led_platform.Daemon.Json.Parser.{parse}
use led_platform.Daemon.Json.Text.{decode_char}
use led_platform.Daemon.Proto.{number_at, from_line, seek}
use led_platform.Daemon.Proto.RoundTrip.{Carries, request_json, from_line-request_json}
use led_platform.Daemon.Proto.Correlated.{Answers, from_line-Names}
use led_platform.Daemon.Proto.Key

abbrev show_digit : ℕ → Bytes
show_digit n = (48 + n % 10) ∷ []

abbrev parse_digit : Bytes → Option ℕ
parse_digit (b ∷ []) = if ltb b 48 then none else some (b - 48)
parse_digit _ = none

-- `{"args":{"to_ms":4},"cmd":"seek","id":2,"v":1}`
abbrev of_u64 : ℕ → ℕ
of_u64 n = n

carries : (n : ℕ) → n < 10 → Carries of_u64 show_digit parse_digit (λ f. some f) n
carries n lt =
    (record { starts = ground arith; bytes = (ground arith, tt); parses = ground arith }, refl)

from_line-request_json_example :
    from_line parse_digit
      (λ f. some f)
      (display show_digit (request_json of_u64 (record { v = 1; id = 2; cmd = seek 4 })))
    ≡ ok (record { v = 1; id = 2; cmd = seek 4 })
from_line-request_json_example =
    from_line-request_json of_u64 show_digit parse_digit (λ f. some f) 2 (seek 4)
      (carries 2 (omega arith)) (carries 1 (omega arith)) (carries 4 (omega arith))

-- `{"id":7}`, which has no version.
abbrev no_version : Bytes
no_version = 123 ∷ 34 ∷ 105 ∷ 100 ∷ 34 ∷ 58 ∷ 55 ∷ 125 ∷ []

no_version_parses : parse parse_digit no_version ≡ ok (obj (field Key.id (num 7) done))
unfolding parse decode_char
no_version_parses = refl

from_line-Names_example :
    Answers
      (number_at (λ f. some f) (obj (field Key.id (num 7) done)) Key.id)
      (from_line parse_digit (λ f. some f) no_version)
from_line-Names_example =
    from_line-Names (λ f. some f) parse_digit no_version (obj (field Key.id (num 7) done))
      no_version_parses
