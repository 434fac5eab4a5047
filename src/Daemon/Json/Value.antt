-- ===== src/Daemon/Json/Value.antt =====
-- crates/led-daemon-bin/src/json.rs: the value and how it is written. `F` is `f64`, and `show_f64`
-- the library's `Display` for it, with the shorter form of the whole numbers.
use Prim.Native.Nat.{compare, Ordering}
use led_platform.Prelude.{
  Bool, List, Option, [], false, if◌then◌else◌, ltb, none, some, true, ℕ, ◌%◌, ◌++◌, ◌+◌, ◌/◌, ◌==◌,
  ◌∷◌,
}
use led_platform.Daemon.Json.Text.{utf8}

-- The characters of a `String`.
abbrev pub Chars : Type 0
Chars = List ℕ

abbrev pub Bytes : Type 0
Bytes = List ℕ

mutual
  pub data Json (F : Type 0) : Type 0 where
    null : Json F
    bool : Bool → Json F
    num : F → Json F
    str : Chars → Json F
    arr : Elems F → Json F
    obj : Fields F → Json F

  -- `Vec<Json>`.
  pub data Elems (F : Type 0) : Type 0 where
    nil : Elems F
    elem : Json F → Elems F → Elems F

  -- `BTreeMap<String, Json>`, in the order of its keys.
  pub data Fields (F : Type 0) : Type 0 where
    done : Fields F
    field : Chars → Json F → Fields F → Fields F

-- The order of strings; that of the characters is that of their UTF-8 bytes.
unfoldable pub compare_keys : Chars → Chars → Ordering
compare_keys [] [] = Ordering.eq
compare_keys [] (y ∷ ys) = Ordering.lt
compare_keys (x ∷ xs) [] = Ordering.gt
compare_keys (x ∷ xs) (y ∷ ys) = elim (compare x y) [
  | Ordering.lt ↦ Ordering.lt
  | Ordering.eq ↦ compare_keys xs ys
  | Ordering.gt ↦ Ordering.gt
]

-- Where the key goes, against the first key of a map; `rest` has it further on.
abbrev pub placed :
    {F : Type 0} → Ordering → Chars → Json F → Chars → Json F → Fields F → Fields F → Fields F
placed Ordering.lt k v k' v' m rest = field k v (field k' v' m)
placed Ordering.eq k v k' v' m rest = field k' v m
placed Ordering.gt k v k' v' m rest = field k' v' rest

-- `BTreeMap::insert`: the last value of a key stays.
unfoldable pub insert : {F : Type 0} → Chars → Json F → Fields F → Fields F
unfolding compare_keys
insert k v done = field k v done
insert k v (field k' v' m) = placed (compare_keys k k') k v k' v' m (insert k v m)

unfoldable pub find : {F : Type 0} → Chars → Fields F → Option (Json F)
unfolding compare_keys
find k done = none
find k (field k' v m) = elim (compare_keys k k') [ Ordering.eq ↦ some v | _ ↦ find k m ]

-- `Json::get`.
unfoldable pub get : {F : Type 0} → Json F → Chars → Option (Json F)
unfolding find
get (obj m) k = find k m
get _ k = none

unfoldable pub as_str : {F : Type 0} → Json F → Option Chars
as_str (str s) = some s
as_str _ = none

-- A digit of `{:04x}`.
abbrev pub hex_digit : ℕ → ℕ
hex_digit d = if ltb d 10 then 48 + d else 87 + d

unfoldable pub escape_char : ℕ → Bytes
unfolding utf8
escape_char c =
    if c == 34
    then 92 ∷ 34 ∷ []
    else if c == 92
    then 92 ∷ 92 ∷ []
    else if c == 10
    then 92 ∷ 110 ∷ []
    else if c == 13
    then 92 ∷ 114 ∷ []
    else if c == 9
    then 92 ∷ 116 ∷ []
    else if ltb c 0x20
    then 92 ∷ 117 ∷ 48 ∷ 48 ∷ hex_digit (c / 16) ∷ hex_digit (c % 16) ∷ []
    else utf8 c

unfoldable pub escape : Chars → Bytes
unfolding escape_char
escape [] = []
escape (c ∷ cs) = escape_char c ++ escape cs

abbrev pub quoted : Chars → Bytes
quoted s = 34 ∷ escape s ++ 34 ∷ []

abbrev pub null_word : Bytes
null_word = 110 ∷ 117 ∷ 108 ∷ 108 ∷ []

abbrev pub true_word : Bytes
true_word = 116 ∷ 114 ∷ 117 ∷ 101 ∷ []

abbrev pub false_word : Bytes
false_word = 102 ∷ 97 ∷ 108 ∷ 115 ∷ 101 ∷ []

module _ {F : Type 0} (show_f64 : F → Bytes) where
  unfoldable mutual
    unfolding escape

    -- `Display for Json`.
    pub display : Json F → Bytes
    display null = null_word
    display (bool true) = true_word
    display (bool false) = false_word
    display (num x) = show_f64 x
    display (str s) = quoted s
    display (arr nil) = 91 ∷ 93 ∷ []
    display (arr (elem v es)) = 91 ∷ display v ++ display_elems es
    display (obj done) = 123 ∷ 125 ∷ []
    display (obj (field k v m)) = 123 ∷ (quoted k ++ (58 ∷ (display v ++ display_fields m)))

    -- The elements after the first, and the bracket.
    pub display_elems : Elems F → Bytes
    display_elems nil = 93 ∷ []
    display_elems (elem v es) = 44 ∷ display v ++ display_elems es

    pub display_fields : Fields F → Bytes
    display_fields done = 125 ∷ []
    display_fields (field k v m) = 44 ∷ (quoted k ++ (58 ∷ (display v ++ display_fields m)))
