-- ===== src/Daemon/Json/Scan/RoundTrip.antt =====
-- What is escaped reads back.
use mathlib.Core.List.{append-nil, append_assoc}
use led_platform.Prelude.{
  ltb→lt, suc, zero, sym, Bool-cases, [], ap, arith, drop, false, inl, inr, length, length-append,
  ltb, ok, refl, some, subst, take-append_length, true, ℕ, ◌%◌, ◌++◌, ◌+◌, ◌/◌, ◌<◌, ◌==◌, ◌∙◌, ◌∷◌,
  ◌≡◌, ◌≢◌, ◌≤◌, ◌⊎◌,
}
use led_platform.Daemon.Json.Text.{
  decode_char-utf8, decode_char, decode_all, utf8, from_utf8, is_scalar,
}
use led_platform.Daemon.Json.Value.{escape, escape_char, hex_digit, Chars, Bytes}
use led_platform.Daemon.Json.Scan.{
  string, string_from, read_escape, from_u32, hex_digits, from_str_radix, read_raw, read_char,
  extra_bytes, read_unicode, hex_value,
}

abbrev pub AllScalar : Chars → Type 0
AllScalar [] = Unit {0}
AllScalar (c ∷ cs) = (is_scalar c ≡ true) × AllScalar cs

drop-append_length : (xs ys : Bytes) → drop (length xs) (xs ++ ys) ≡ ys
drop-append_length [] ys = refl
drop-append_length (x ∷ xs) ys = drop-append_length xs ys

-- The first byte of a character, how many follow it, and whether it is a character of one byte.
abbrev Head : ℕ → Type 0
Head c =
    (b : ℕ) × (tail : Bytes) × (utf8 c ≡ b ∷ tail)
    × (extra_bytes b ≡ some (length tail))
    × ((b ≡ c) ⊎ (128 ≤ b))

utf8-Head : (c : ℕ) → is_scalar c ≡ true → Head c
unfolding utf8 is_scalar
utf8-Head c s = elim (Bool-cases (ltb c 0x80)) [
  | inl y ↦ (c, [], rw y refl, ground arith, inl refl)
  | inr n ↦ elim (Bool-cases (ltb c 0x800)) [
    | inl y ↦ (0xc0 + c / 64, (0x80 + c % 64) ∷ [], rw (n, y) refl, ground arith, inr (omega arith))
    | inr n₂ ↦ elim (Bool-cases (ltb c 0x10000)) [
      | inl y ↦ (
        0xe0 + c / 4096,
        (0x80 + c / 64 % 64) ∷ (0x80 + c % 64) ∷ [],
        rw (n, n₂, y) refl,
        ground arith,
        inr (omega arith),
      )
      | inr n₃ ↦ (
        0xf0 + c / 262144,
        (0x80 + c / 4096 % 64) ∷ (0x80 + c / 64 % 64) ∷ (0x80 + c % 64) ∷ [],
        rw (n, n₂, n₃) refl,
        ground arith,
        inr (omega arith),
      )
    ]
  ]
]

from_utf8-one :
    (b c : ℕ) (tail : Bytes)
    → utf8 c ≡ b ∷ tail
    → is_scalar c ≡ true
    → from_utf8 (b ∷ tail) ≡ some (c ∷ [])
unfolding from_utf8 decode_all
from_utf8-one b c tail e s =
    let one : decode_char (b ∷ tail) ≡ some (c, []) =
      subst (λ (bs : Bytes). decode_char bs ≡ some (c, [])) (append-nil (utf8 c) ∙ e)
        (decode_char-utf8 c [] s) in
    rw (one, decode_all) refl

read_raw-one :
    (b c : ℕ) (tail more : Bytes)
    → from_utf8 (b ∷ tail) ≡ some (c ∷ [])
    → read_raw b (some (length tail)) (tail ++ more) ≡ ok (c ∷ [], more)
read_raw-one b c tail more e =
    let enough : ltb (length (tail ++ more)) (length tail) ≡ false =
      ground (arith, length-append tail more) in
    rw (enough, take-append_length tail more, e, drop-append_length tail more)

-- What an escaped character reads as, after its first byte.
abbrev Reads : ℕ → Bytes → Type 0
Reads c [] = ⊥
Reads c (b ∷ tail) =
    ((b == 34) ≡ false) × ((more : Bytes) → read_char b (tail ++ more) ≡ ok (c ∷ [], more))

hex_value-hex_digit : (d : ℕ) → d < 16 → hex_value (hex_digit d) ≡ some d
hex_value-hex_digit d lt = ground arith

hex_digit_lt : (d : ℕ) → d < 16 → hex_digit d < 128
hex_digit_lt d lt = ground arith

decode_char-ascii : (a : ℕ) (bs : Bytes) → a < 128 → decode_char (a ∷ bs) ≡ some (a, bs)
unfolding decode_char
decode_char-ascii a bs lt = let small : ltb a 0x80 ≡ true = ground arith in rw small refl

decode_all-ascii :
    (fuel a : ℕ) (bs cs : Bytes)
    → a < 128
    → decode_all fuel bs ≡ some cs
    → decode_all (suc fuel) (a ∷ bs) ≡ some (a ∷ cs)
unfolding decode_all
decode_all-ascii fuel a bs cs lt e = rw (decode_char-ascii a bs lt, decode_all) (rw e refl)

from_utf8-ascii :
    (x y : ℕ) → x < 128 → y < 128 → from_utf8 (48 ∷ 48 ∷ x ∷ y ∷ []) ≡ some (48 ∷ 48 ∷ x ∷ y ∷ [])
unfolding from_utf8
from_utf8-ascii x y a b =
    let none_left : decode_all 0 [] ≡ some [] = unfold decode_all in refl in
    let last = decode_all-ascii 0 y [] [] b none_left in
    let two = decode_all-ascii 1 x (y ∷ []) (y ∷ []) a last in
    let three = decode_all-ascii 2 48 (x ∷ y ∷ []) (x ∷ y ∷ []) (omega arith) two in
    decode_all-ascii 3 48 (48 ∷ x ∷ y ∷ []) (48 ∷ x ∷ y ∷ []) (omega arith) three

from_str_radix-control :
    (c : ℕ)
    → c < 32
    → from_str_radix (48 ∷ 48 ∷ hex_digit (c / 16) ∷ hex_digit (c % 16) ∷ []) ≡ some c
unfolding from_str_radix hex_digits
from_str_radix-control c lt =
    let high = hex_value-hex_digit (c / 16) (omega arith) in
    let low = hex_value-hex_digit (c % 16) (omega arith) in
    rw (high, low, hex_digits) (ap (λ (n : ℕ). some n) (omega arith))

read_unicode-control :
    (c : ℕ) (more : Bytes)
    → c < 32
    → read_unicode (48 ∷ 48 ∷ hex_digit (c / 16) ∷ hex_digit (c % 16) ∷ more) ≡ ok (c ∷ [], more)
unfolding read_unicode
read_unicode-control c more lt =
    let text =
      from_utf8-ascii (hex_digit (c / 16)) (hex_digit (c % 16))
        (hex_digit_lt (c / 16) (omega arith)) (hex_digit_lt (c % 16) (omega arith)) in
    let scalar : from_u32 c ≡ c = unfold is_scalar in ground arith in
    rw (text, from_str_radix-control c lt, scalar, read_unicode) (ground arith)

utf8-Reads : (c : ℕ) → is_scalar c ≡ true → c ≢ 34 → c ≢ 92 → 32 ≤ c → Reads c (utf8 c)
unfolding read_char
utf8-Reads c s quote slash printable =
    let (b, tail, e, extra, low) = utf8-Head c s in
    let here : Reads c (b ∷ tail) = (
      ground (arith, low),
      λ more.
          let not_slash : (b == 92) ≡ false = ground (arith, low) in
          let not_control : ltb b 32 ≡ false = ground (arith, low) in
          rw (not_slash, not_control, extra, read_char)
            (read_raw-one b c tail more (from_utf8-one b c tail e s)),
    ) in
    subst (Reads c) (sym e) here

escape_char-Reads : (c : ℕ) → is_scalar c ≡ true → Reads c (escape_char c)
unfolding escape_char read_char read_escape
escape_char-Reads c s =
    let at : (k : ℕ) → c ≡ k → Reads k (escape_char k) → Reads c (escape_char c) =
      λ k e r. subst (λ (x : ℕ). Reads x (escape_char x)) (sym e) r in
    elim (Bool-cases (c == 34)) [
      | inl y ↦ at 34 (ground arith) (refl, λ more. refl)
      | inr n ↦ elim (Bool-cases (c == 92)) [
        | inl y ↦ at 92 (ground arith) (refl, λ more. refl)
        | inr n₂ ↦ elim (Bool-cases (c == 10)) [
          | inl y ↦ at 10 (ground arith) (refl, λ more. refl)
          | inr n₃ ↦ elim (Bool-cases (c == 13)) [
            | inl y ↦ at 13 (ground arith) (refl, λ more. refl)
            | inr n₄ ↦ elim (Bool-cases (c == 9)) [
              | inl y ↦ at 9 (ground arith) (refl, λ more. refl)
              | inr n₅ ↦ elim (Bool-cases (ltb c 0x20)) [
                | inl y ↦
                    rw (n, n₂, n₃, n₄, n₅, y, escape_char)
                      (refl, λ more. read_unicode-control c more (ltb→lt c 0x20 y))
                | inr n₆ ↦
                    rw (n, n₂, n₃, n₄, n₅, n₆, escape_char)
                      (utf8-Reads c s (ground arith) (ground arith) (ground arith))
              ]
            ]
          ]
        ]
      ]
    ]

-- One character of a string.
string_from-step :
    (fuel c : ℕ) (cs bs more rest : Bytes)
    → Reads c bs
    → string_from fuel more ≡ ok (cs, rest)
    → string_from (suc fuel) (bs ++ more) ≡ ok (c ∷ cs, rest)
unfolding string_from
string_from-step fuel c cs [] more rest r e = absurd r
string_from-step fuel c cs (b ∷ tail) more rest (q, r) e = rw (q, r more, string_from) (rw e refl)

Reads-length : (c : ℕ) (bs : Bytes) → Reads c bs → 1 ≤ length bs
Reads-length c [] r = absurd r
Reads-length c (b ∷ bs) r = omega arith

string_from-escape :
    (fuel : ℕ) (s : Chars) (rest : Bytes)
    → AllScalar s
    → length (escape s) < fuel
    → string_from fuel (escape s ++ 34 ∷ rest) ≡ ok (s, rest)
unfolding escape
string_from-escape zero s rest all lt = absurd (omega arith)
string_from-escape (suc fuel) [] rest all lt = unfold string_from in refl
string_from-escape (suc fuel) (c ∷ s) rest (scalar, all) lt =
    let r = escape_char-Reads c scalar in
    let fewer : length (escape s) < fuel =
      omega (arith, length-append (escape_char c) (escape s), Reads-length c (escape_char c) r) in
    subst (λ (bs : Bytes). string_from (suc fuel) bs ≡ ok (c ∷ s, rest))
      (sym (append_assoc (escape_char c) (escape s) (34 ∷ rest)))
      (string_from-step fuel c s (escape_char c) (escape s ++ 34 ∷ rest) rest r
        (string_from-escape fuel s rest all fewer))

pub string-escape :
    (s : Chars) (rest : Bytes) → AllScalar s → string (escape s ++ 34 ∷ rest) ≡ ok (s, rest)
string-escape s rest all =
    string_from-escape (suc (length (escape s ++ 34 ∷ rest))) s rest all
      (omega (arith, length-append (escape s) (34 ∷ rest)))
