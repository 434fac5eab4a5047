-- ===== src/Daemon/Json/Parser.antt =====
-- crates/led-daemon-bin/src/json.rs: the parser of values. `parse_f64` is the library's
-- `str::parse::<f64>`; the depth counts down from the levels that are allowed.
pub mod Total
pub mod Written
pub mod Arrays
pub mod Objects
pub mod RoundTrip
use led_platform.Prelude.{
  Option, Result, [], err, false, if◌then◌else◌, length, none, ok, some, suc, true, zero, ℕ, ◌==◌,
  ◌>>=◌, ◌||◌, ◌∷◌,
}
use led_platform.Daemon.Json.Value.{
  false_word, true_word, bool, elem, null_word, null, nil, done, num, Chars, Elems, arr, obj,
  Fields, insert, Json, Bytes, str,
}
use led_platform.Daemon.Json.Scan.{
  is_digit, expected_colon, string, expected_comma, expected_key, unexpected_end, out_of_fuel,
  unexpected_token, rubbish, too_deep, invalid_number, string_from, span_number, Parse, lit, ws,
  ParseError,
}

-- `MAX_DEPTH`.
abbrev pub max_depth : ℕ
max_depth = 16

abbrev pub or_token : {A : Type 0} → A → Option Bytes → Result ParseError (A × Bytes)
or_token a none = err unexpected_token
or_token a (some bs) = ok (a, bs)

module _ {F : Type 0} (parse_f64 : Bytes → Option F) where
  abbrev pub number_of : Bytes × Bytes → Result ParseError (Json F × Bytes)
  number_of (xs, rest) = elim (parse_f64 xs) [
    | none ↦ err invalid_number
    | some x ↦ ok (num x, rest)
  ]

  -- The sign is a number's byte as well, so that one loop takes both.
  unfoldable pub number : Parse (Json F)
  unfolding span_number
  number bs = number_of (span_number bs)

  -- The loop of `array`, with the values one level down.
  unfoldable pub elems_from : Parse (Json F) → ℕ → Parse (Elems F)
  unfolding ws
  elems_from value zero bs = err out_of_fuel
  elems_from value (suc fuel) bs = do
    (v, bs) ← value (ws bs)
    elim (ws bs) [
      | [] ↦ err expected_comma
      | b ∷ bs ↦ elim (b == 44) [
        | true ↦ elems_from value fuel bs >>= λ p. ok (elem v p.0, p.1)
        | false ↦ if b == 93 then ok (elem v nil, bs) else err expected_comma
      ]
    ]

  unfoldable pub array : Parse (Json F) → Parse (Json F)
  unfolding elems_from ws
  array value bs = elim (lit (93 ∷ []) (ws bs)) [
    | some rest ↦ ok (arr nil, rest)
    | none ↦ elems_from value (suc (length bs)) (ws bs) >>= λ p. ok (arr p.0, p.1)
  ]

  -- One field: the key's quote, the key, the colon and the value.
  unfoldable pub read_field : Parse (Json F) → Parse (Chars × Json F)
  unfolding ws lit string_from
  read_field value bs = elim (lit (34 ∷ []) (ws bs)) [
    | none ↦ err expected_key
    | some bs ↦ do
      (k, bs) ← string bs
      elim (lit (58 ∷ []) (ws bs)) [
        | none ↦ err expected_colon
        | some bs ↦ value (ws bs) >>= λ p. ok ((k, p.0), p.1)
      ]
  ]

  unfoldable pub fields_from : Parse (Json F) → ℕ → Fields F → Parse (Fields F)
  unfolding read_field insert ws
  fields_from value zero m bs = err out_of_fuel
  fields_from value (suc fuel) m bs = do
    ((k, v), bs) ← read_field value bs
    elim (ws bs) [
      | [] ↦ err expected_comma
      | b ∷ bs ↦ elim (b == 44) [
        | true ↦ fields_from value fuel (insert k v m) bs
        | false ↦ if b == 125 then ok (insert k v m, bs) else err expected_comma
      ]
    ]

  unfoldable pub object : Parse (Json F) → Parse (Json F)
  unfolding fields_from ws lit
  object value bs = elim (lit (125 ∷ []) (ws bs)) [
    | some rest ↦ ok (obj done, rest)
    | none ↦ fields_from value (suc (length bs)) done (ws bs) >>= λ p. ok (obj p.0, p.1)
  ]

  -- The `match` of `value` on the next byte.
  unfoldable pub token : Parse (Json F) → ℕ → Parse (Json F)
  unfolding lit string_from array object number
  token value c bs =
      if c == 110
      then or_token null (lit null_word (c ∷ bs))
      else if c == 116
      then or_token (bool true) (lit true_word (c ∷ bs))
      else if c == 102
      then or_token (bool false) (lit false_word (c ∷ bs))
      else if c == 34
      then (string bs >>= λ p. ok (str p.0, p.1))
      else if c == 91
      then array value bs
      else if c == 123
      then object value bs
      else if c == 45 || is_digit c
      then number (c ∷ bs)
      else err unexpected_token

  -- `value`, with the levels that are left.
  unfoldable pub value : ℕ → Parse (Json F)
  unfolding token
  value zero bs = err too_deep
  value (suc levels) [] = err unexpected_end
  value (suc levels) (c ∷ bs) = token (value levels) c bs

  -- What follows the value is an error.
  abbrev pub at_end : Json F → Bytes → Result ParseError (Json F)
  at_end v [] = ok v
  at_end v (b ∷ bs) = err rubbish

  unfoldable pub parse : Bytes → Result ParseError (Json F)
  unfolding value ws
  parse s = do (v, bs) ← value (suc max_depth) (ws s); at_end v (ws bs)
