-- ===== src/Daemon/Json/Scan.antt =====
-- crates/led-daemon-bin/src/json.rs: the parser's reading of spaces, words, strings and digits. The
-- position is the list of the bytes left, and an error leaves out where it stood. A loop has fuel, and
-- `out_of_fuel` where that runs out.
pub mod Sound
pub mod RoundTrip
use led_platform.Prelude.{
  ◌>>=◌, Bool, Option, Result, [], drop, err, false, if◌then◌else◌, leb, length, ltb, none, ok,
  some, suc, take, true, zero, ℕ, ◌&&◌, ◌*◌, ◌++◌, ◌+◌, ◌-◌, ◌==◌, ◌||◌, ◌∷◌,
}
use led_platform.Daemon.Json.Text.{from_utf8, is_scalar}
use led_platform.Daemon.Json.Value.{Chars, Bytes}

pub data ParseError : Type 0 where
  too_deep unexpected_end unexpected_token unterminated truncated_escape unknown_escape : ParseError
  truncated_unicode invalid_unicode not_hex raw_control invalid_utf8 truncated_utf8 : ParseError
  invalid_number expected_comma expected_key expected_colon rubbish out_of_fuel : ParseError

abbrev pub Parse : Type 0 → Type 0
Parse A = Bytes → Result ParseError (A × Bytes)

abbrev pub is_space : ℕ → Bool
is_space b = b == 32 || (b == 9 || (b == 10 || b == 13))

unfoldable pub ws : Bytes → Bytes
ws [] = []
ws (b ∷ bs) = if is_space b then ws bs else b ∷ bs

-- What is left after the word, if the bytes start with it.
unfoldable pub lit : Bytes → Bytes → Option Bytes
lit [] bs = some bs
lit (w ∷ word) [] = none
lit (w ∷ word) (b ∷ bs) = if w == b then lit word bs else none

abbrev pub hex_value : ℕ → Option ℕ
hex_value b =
    if leb 48 b && leb b 57
    then some (b - 48)
    else if leb 97 b && leb b 102
    then some (b - 87)
    else if leb 65 b && leb b 70
    then some (b - 55)
    else none

unfoldable pub hex_digits : ℕ → Bytes → Option ℕ
hex_digits n [] = some n
hex_digits n (b ∷ bs) = elim (hex_value b) [ none ↦ none | some d ↦ hex_digits (n * 16 + d) bs ]

-- `u32::from_str_radix(_, 16)` on four bytes: a sign `+` is taken, and digits have to follow.
unfoldable pub from_str_radix : Bytes → Option ℕ
unfolding hex_digits
from_str_radix [] = none
from_str_radix (b ∷ []) = if b == 43 then none else hex_digits 0 (b ∷ [])
from_str_radix (b ∷ c ∷ bs) = if b == 43 then hex_digits 0 (c ∷ bs) else hex_digits 0 (b ∷ c ∷ bs)

-- `char::from_u32(n).unwrap_or('\u{FFFD}')`.
abbrev pub from_u32 : ℕ → ℕ
from_u32 n = if is_scalar n then n else 0xfffd

-- The code of `\u`, on the bytes from there.
unfoldable pub read_unicode : Parse Chars
unfolding from_utf8 from_str_radix is_scalar
read_unicode bs =
    if ltb (length bs) 4 then err truncated_unicode else elim (from_utf8 (take 4 bs)) [
      | none ↦ err invalid_unicode
      | some s ↦ elim (from_str_radix (take 4 bs)) [
        | none ↦ err not_hex
        | some n ↦ ok (from_u32 n ∷ [], drop 4 bs)
      ]
    ]

unfoldable pub read_escape : Parse Chars
unfolding read_unicode
read_escape [] = err truncated_escape
read_escape (e ∷ bs) =
    if e == 34
    then ok (34 ∷ [], bs)
    else if e == 92
    then ok (92 ∷ [], bs)
    else if e == 47
    then ok (47 ∷ [], bs)
    else if e == 110
    then ok (10 ∷ [], bs)
    else if e == 114
    then ok (13 ∷ [], bs)
    else if e == 116
    then ok (9 ∷ [], bs)
    else if e == 98
    then ok (8 ∷ [], bs)
    else if e == 102
    then ok (12 ∷ [], bs)
    else if e == 117
    then read_unicode bs
    else err unknown_escape

-- How many bytes follow the first byte of a character.
abbrev pub extra_bytes : ℕ → Option ℕ
extra_bytes c =
    if ltb c 0x80
    then some 0
    else if leb 0xc0 c && ltb c 0xe0
    then some 1
    else if leb 0xe0 c && ltb c 0xf0
    then some 2
    else if leb 0xf0 c && ltb c 0xf8
    then some 3
    else none

abbrev pub read_raw : ℕ → Option ℕ → Parse Chars
read_raw c none bs = err invalid_utf8
read_raw c (some extra) bs =
    if ltb (length bs) extra then err truncated_utf8 else elim (from_utf8 (c ∷ take extra bs)) [
      | none ↦ err invalid_utf8
      | some s ↦ ok (s, drop extra bs)
    ]

-- What a string has after the byte `c`, which is not its end.
unfoldable pub read_char : ℕ → Parse Chars
unfolding read_escape from_utf8
read_char c bs =
    if c == 92
    then read_escape bs
    else if ltb c 0x20
    then err raw_control
    else read_raw c (extra_bytes c) bs

-- The loop of `string`, after its quote; what was pushed is put before the rest.
unfoldable pub string_from : ℕ → Parse Chars
unfolding read_char
string_from zero bs = err out_of_fuel
string_from (suc fuel) [] = err unterminated
string_from (suc fuel) (c ∷ bs) = elim (c == 34) [
  | true ↦ ok ([], bs)
  | false ↦ do (s, bs) ← read_char c bs; (rest, bs) ← string_from fuel bs; ok (s ++ rest, bs)
]

abbrev pub string : Parse Chars
string bs = string_from (suc (length bs)) bs

abbrev pub is_digit : ℕ → Bool
is_digit b = leb 48 b && leb b 57

-- The bytes of a number after its sign: digits, `.`, `e`, `E`, `+` and `-`.
abbrev pub is_number_byte : ℕ → Bool
is_number_byte b = is_digit b || (b == 46 || (b == 101 || (b == 69 || (b == 43 || b == 45))))

unfoldable pub span_number : Bytes → Bytes × Bytes
span_number [] = ([], [])
span_number (b ∷ bs) =
    let (xs, rest) = span_number bs in if is_number_byte b then (b ∷ xs, rest) else ([], b ∷ bs)
