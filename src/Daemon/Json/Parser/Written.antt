-- ===== src/Daemon/Json/Parser/Written.antt =====
-- The values that are written whole, and the first byte of what is written.
use Prim.Native.Nat.{Ordering}
use led_platform.Prelude.{
  arith, none, ℕ, Option, [], false, ok, refl, some, true, ◌++◌, ◌==◌, ◌||◌, ◌∷◌, ◌≡◌,
}
use led_platform.Daemon.Json.Value.{
  Elems, compare_keys, Chars, Json, display, Fields, Bytes, arr, obj, null, bool, num, str, nil,
  elem, done, field,
}
use led_platform.Daemon.Json.Scan.{ws, lit, is_digit, is_space, span_number, is_number_byte}
use led_platform.Daemon.Json.Scan.RoundTrip.{AllScalar}
use led_platform.Daemon.Json.Parser.{Parse, token, number_of, number}

abbrev pub IsNumber : Bytes → Type 0
IsNumber [] = Unit {0}
IsNumber (b ∷ bs) = (is_number_byte b ≡ true) × IsNumber bs

abbrev pub Starts : Bytes → Type 0
Starts [] = ⊥
Starts (b ∷ bs) = (b == 45 || is_digit b) ≡ true

-- What may follow a value: the end, or a byte that is no number's.
abbrev pub Closed : Bytes → Type 0
Closed [] = Unit {0}
Closed (b ∷ bs) = is_number_byte b ≡ false

span_number-append :
    (xs rest : Bytes) → IsNumber xs → Closed rest → span_number (xs ++ rest) ≡ (xs, rest)
unfolding span_number
span_number-append [] [] n c = refl
span_number-append [] (b ∷ rest) n c = rw c refl
span_number-append (x ∷ xs) rest (q, n) c = rw (q, span_number-append xs rest n c) refl

-- The value starts with a byte that is neither a space nor a closing bracket.
abbrev pub Opens : Bytes → Type 0
Opens [] = ⊥
Opens (b ∷ bs) = (is_space b ≡ false) × ((93 == b) ≡ false) × ((125 == b) ≡ false)

Starts-Opens : (bs : Bytes) → Starts bs → Opens bs
Starts-Opens [] s = absurd s
Starts-Opens (b ∷ bs) s = (ground arith, ground arith, ground arith)

pub ws-Opens : (xs ys : Bytes) → Opens xs → ws (xs ++ ys) ≡ xs ++ ys
unfolding ws
ws-Opens [] ys o = absurd o
ws-Opens (b ∷ xs) ys (space, bracket, brace) = rw space refl

pub lit-Opens :
    (xs ys : Bytes)
    → Opens xs
    → (lit (93 ∷ []) (xs ++ ys) ≡ none) × (lit (125 ∷ []) (xs ++ ys) ≡ none)
unfolding lit
lit-Opens [] ys o = absurd o
lit-Opens (b ∷ xs) ys (space, bracket, brace) = (rw bracket refl, rw brace refl)

module _ {F : Type 0} where
  abbrev pub AllAbove : Chars → Fields F → Type 0
  AllAbove k done = Unit {0}
  AllAbove k (field k' v m) = (compare_keys k' k ≡ Ordering.gt) × AllAbove k m

  abbrev pub Ascending : Fields F → Type 0
  Ascending done = Unit {0}
  Ascending (field k v m) = AllAbove k m × Ascending m

module _ {F : Type 0} (show_f64 : F → Bytes) (parse_f64 : Bytes → Option F) where
  -- A finite number: its text is a number's, and parses to it.
  pub record Finite (x : F) : Type 0 where
    pub starts : Starts (show_f64 x)
    pub bytes : IsNumber (show_f64 x)
    pub parses : parse_f64 (show_f64 x) ≡ some x

  abbrev mutual
    -- Characters are characters, numbers are finite, and the keys of a map ascend.
    pub Proper : Json F → Type 0
    Proper (num x) = Finite x
    Proper (str s) = AllScalar s
    Proper (arr es) = ProperElems es
    Proper (obj m) = Ascending m × ProperFields m
    Proper _ = Unit {0}

    pub ProperElems : Elems F → Type 0
    ProperElems nil = Unit {0}
    ProperElems (elem v es) = Proper v × ProperElems es

    pub ProperFields : Fields F → Type 0
    ProperFields done = Unit {0}
    ProperFields (field k v m) = AllScalar k × Proper v × ProperFields m

  pub number-show :
      (x : F) (rest : Bytes)
      → Finite x
      → Closed rest
      → number parse_f64 (show_f64 x ++ rest) ≡ ok (num x, rest)
  unfolding number
  number-show x rest f c =
      rw (span_number-append (show_f64 x) rest f.bytes c) (rw (f.parses, number_of) refl)

  pub display-Opens : (v : Json F) → Proper v → Opens (display show_f64 v)
  unfolding display
  display-Opens null p = (refl, refl, refl)
  display-Opens (bool true) p = (refl, refl, refl)
  display-Opens (bool false) p = (refl, refl, refl)
  display-Opens (num x) p = Starts-Opens (show_f64 x) p.starts
  display-Opens (str s) p = (refl, refl, refl)
  display-Opens (arr nil) p = (refl, refl, refl)
  display-Opens (arr (elem v es)) p = (refl, refl, refl)
  display-Opens (obj done) p = (refl, refl, refl)
  display-Opens (obj (field k v m)) p = (refl, refl, refl)

  pub token-number :
      (val : Parse (Json F)) (b : ℕ) (bs : Bytes)
      → (b == 45 || is_digit b) ≡ true
      → token parse_f64 val b bs ≡ number parse_f64 (b ∷ bs)
  unfolding token
  token-number val b bs s = ground arith
