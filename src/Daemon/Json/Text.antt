-- ===== src/Daemon/Json/Text.antt =====
-- Rust's text: a `char` is its scalar value, a `String` its characters where the code walks them and
-- its UTF-8 bytes where it writes or reads them.
use led_platform.Prelude.{
  Bool, List, Option, [], arith, if◌then◌else◌, leb, length, ltb, none, some, suc, true, zero, ℕ,
  ◌%◌, ◌&&◌, ◌*◌, ◌++◌, ◌+◌, ◌-◌, ◌/◌, ◌||◌, ◌∷◌, ◌≡◌,
}

unfoldable pub is_scalar : ℕ → Bool
is_scalar n = ltb n 0xd800 || leb 0xe000 n && ltb n 0x110000

unfoldable pub utf8 : ℕ → List ℕ
utf8 c =
    if ltb c 0x80
    then c ∷ []
    else if ltb c 0x800
    then (0xc0 + c / 64) ∷ (0x80 + c % 64) ∷ []
    else if ltb c 0x10000
    then (0xe0 + c / 4096) ∷ (0x80 + c / 64 % 64) ∷ (0x80 + c % 64) ∷ []
    else (0xf0 + c / 262144) ∷ (0x80 + c / 4096 % 64) ∷ (0x80 + c / 64 % 64) ∷ (0x80 + c % 64) ∷ []

abbrev pub is_continuation : ℕ → Bool
is_continuation b = leb 0x80 b && ltb b 0xc0

-- The bytes of one character, by its first byte; overlong forms and surrogates are refused.
unfoldable pub decode_two : ℕ → List ℕ → Option (ℕ × List ℕ)
decode_two a (b ∷ bs) =
    let n = (a - 0xc0) * 64 + (b - 0x80) in
    if is_continuation b && leb 0x80 n then some (n, bs) else none
decode_two a _ = none

unfoldable pub decode_three : ℕ → List ℕ → Option (ℕ × List ℕ)
unfolding is_scalar
decode_three a (b ∷ c ∷ bs) =
    let n = (a - 0xe0) * 4096 + (b - 0x80) * 64 + (c - 0x80) in
    if is_continuation b && (is_continuation c && (leb 0x800 n && is_scalar n))
    then some (n, bs)
    else none
decode_three a _ = none

unfoldable pub decode_four : ℕ → List ℕ → Option (ℕ × List ℕ)
unfolding is_scalar
decode_four a (b ∷ c ∷ d ∷ bs) =
    let n = (a - 0xf0) * 262144 + (b - 0x80) * 4096 + (c - 0x80) * 64 + (d - 0x80) in
    if is_continuation b
      && (is_continuation c && (is_continuation d && (leb 0x10000 n && is_scalar n)))
    then some (n, bs)
    else none
decode_four a _ = none

unfoldable pub decode_char : List ℕ → Option (ℕ × List ℕ)
unfolding decode_two decode_three decode_four
decode_char [] = none
decode_char (a ∷ bs) =
    if ltb a 0x80
    then some (a, bs)
    else if ltb a 0xc0
    then none
    else if ltb a 0xe0
    then decode_two a bs
    else if ltb a 0xf0
    then decode_three a bs
    else if ltb a 0xf8
    then decode_four a bs
    else none

abbrev pub push_char : ℕ → Option (List ℕ) → Option (List ℕ)
push_char c none = none
push_char c (some cs) = some (c ∷ cs)

-- `std::str::from_utf8`; the fuel is the number of bytes, and a character takes one at least.
unfoldable pub decode_all : ℕ → List ℕ → Option (List ℕ)
decode_all fuel [] = some []
decode_all zero (b ∷ bs) = none
decode_all (suc fuel) (b ∷ bs) = elim (decode_char (b ∷ bs)) [
  | none ↦ none
  | some (c, rest) ↦ push_char c (decode_all fuel rest)
]

unfoldable pub from_utf8 : List ℕ → Option (List ℕ)
unfolding decode_all
from_utf8 bs = decode_all (length bs) bs

pub decode_char-utf8 :
    (c : ℕ) (rest : List ℕ) → is_scalar c ≡ true → decode_char (utf8 c ++ rest) ≡ some (c, rest)
unfolding decode_char utf8 is_scalar
decode_char-utf8 c rest s = ground arith
