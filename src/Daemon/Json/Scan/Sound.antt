-- ===== src/Daemon/Json/Scan/Sound.antt =====
-- The scanner ends on every input, and leaves no more than it was given.
use led_platform.Prelude.{
  Bool, Bool-cases, Option, Option-cases, Result, [], ap, arith, err, false, if◌then◌else◌, inl,
  inr, length, length-drop, ltb, none, ok, refl, some, suc, take, true, zero, ℕ, ◌+◌, ◌<◌, ◌==◌,
  ◌>>=◌, ◌∷◌, ◌≡◌, ◌≢◌, ◌≤◌, ◌⊎◌,
}
use led_platform.Daemon.Json.Text.{}
use led_platform.Daemon.Json.Value.{Bytes}
use led_platform.Daemon.Json.Scan.{
  from_str_radix, read_raw, Chars, from_utf8, out_of_fuel, string, extra_bytes, is_number_byte,
  span_number, read_char, ParseError, lit, read_unicode, string_from, ws, read_escape,
}

-- A parse that had fuel enough: what it leaves is no longer than what it was given, and the value is
-- as it should be.
abbrev pub Sound : {A : Type 0} → (A → Type 0) → Bytes → Result ParseError (A × Bytes) → Type 0
Sound P bs (ok (a, rest)) = (length rest ≤ length bs) × P a
Sound P bs (err e) = e ≢ out_of_fuel

abbrev pub Any : {A : Type 0} → A → Type 0
Any a = Unit {0}

pub Sound-bind :
    {A B : Type 0} (P : A → Type 0) (Q : B → Type 0) (bs bs' : Bytes)
    (m : Result ParseError (A × Bytes)) (f : A × Bytes → Result ParseError (B × Bytes))
    → Sound P bs' m
    → length bs' ≤ length bs
    → ((a : A) (rest : Bytes) → length rest ≤ length bs' → P a → Sound Q bs (f (a, rest)))
    → Sound Q bs (m >>= f)
Sound-bind P Q bs bs' (ok (a, rest)) f (le, p) short k = k a rest le p
Sound-bind P Q bs bs' (err e) f ne short k = ne

pub Sound-if :
    {A : Type 0} (P : A → Type 0) (bs : Bytes) (b : Bool) (x y : Result ParseError (A × Bytes))
    → Sound P bs x
    → Sound P bs y
    → Sound P bs (if b then x else y)
Sound-if P bs true x y p q = p
Sound-if P bs false x y p q = q

pub Sound-longer :
    {A : Type 0} (P : A → Type 0) (bs bs' : Bytes) (m : Result ParseError (A × Bytes))
    → Sound P bs' m
    → length bs' ≤ length bs
    → Sound P bs m
Sound-longer P bs bs' (ok (a, rest)) (le, p) short = (omega arith, p)
Sound-longer P bs bs' (err e) ne short = ne

-- An error that is not the fuel's.
abbrev Plain : ParseError → Type 0
Plain e = e ≢ out_of_fuel

pub ws-shorter : (bs : Bytes) → length (ws bs) ≤ length bs
unfolding ws
ws-shorter [] = omega arith
ws-shorter (b ∷ bs) = ground (arith, ws-shorter bs)

pub lit-shorter :
    (word bs rest : Bytes) → lit word bs ≡ some rest → length rest + length word ≡ length bs
unfolding lit
lit-shorter [] bs rest e = ground arith
lit-shorter (w ∷ word) [] rest e = absurd (ground arith)
lit-shorter (w ∷ word) (b ∷ bs) rest e = ground (arith, lit-shorter word bs rest)

read_unicode-Sound : (bs : Bytes) → Sound Any bs (read_unicode bs)
unfolding read_unicode
read_unicode-Sound bs = elim (Option-cases (from_utf8 (take 4 bs))) [
  | inl n ↦ Sound-if Any bs (ltb (length bs) 4) _ _ (λ e. ground arith) (rw n (λ e. ground arith))
  | inr (s, y) ↦ elim (Option-cases (from_str_radix (take 4 bs))) [
    | inl n ↦
        Sound-if Any bs (ltb (length bs) 4) _ _ (λ e. ground arith) (rw (y, n) (λ e. ground arith))
    | inr (k, z) ↦
        Sound-if Any bs (ltb (length bs) 4) _ _ (λ e. ground arith)
          (rw (y, z) (omega (arith, length-drop 4 bs), tt))
  ]
]

Sound-escape :
    (b : Bool) (e k : ℕ) (bs : Bytes) (r : Result ParseError (Chars × Bytes))
    → Sound Any (e ∷ bs) r
    → Sound Any (e ∷ bs) (if b then ok (k ∷ [], bs) else r)
Sound-escape true e k bs r s = (omega arith, tt)
Sound-escape false e k bs r s = s

read_escape-Sound : (bs : Bytes) → Sound Any bs (read_escape bs)
unfolding read_escape
read_escape-Sound [] = λ e. ground arith
read_escape-Sound (e ∷ bs) =
    let unicode : Sound Any (e ∷ bs) (read_unicode bs) =
      Sound-longer Any (e ∷ bs) bs (read_unicode bs) (read_unicode-Sound bs) (omega arith) in
    Sound-escape (e == 34) e 34 bs _ (
      Sound-escape (e == 92) e 92 bs _ (
        Sound-escape (e == 47) e 47 bs _ (
          Sound-escape (e == 110) e 10 bs _ (
            Sound-escape (e == 114) e 13 bs _ (
              Sound-escape (e == 116) e 9 bs _ (
                Sound-escape (e == 98) e 8 bs _ (
                  Sound-escape (e == 102) e 12 bs _
                    (Sound-if Any (e ∷ bs) (e == 117) _ _ unicode (λ x. ground arith)))))))))

read_raw-Sound : (c : ℕ) (o : Option ℕ) (bs : Bytes) → Sound Any bs (read_raw c o bs)
read_raw-Sound c none bs = λ e. ground arith
read_raw-Sound c (some extra) bs = elim (Option-cases (from_utf8 (c ∷ take extra bs))) [
  | inl n ↦
      Sound-if Any bs (ltb (length bs) extra) _ _ (λ e. ground arith) (rw n (λ e. ground arith))
  | inr (s, y) ↦
      Sound-if Any bs (ltb (length bs) extra) _ _ (λ e. ground arith)
        (rw y (omega (arith, length-drop extra bs), tt))
]

read_char-Sound : (c : ℕ) (bs : Bytes) → Sound Any bs (read_char c bs)
unfolding read_char
read_char-Sound c bs =
    Sound-if Any bs (c == 92) _ _ (read_escape-Sound bs)
      (Sound-if Any bs (ltb c 32) _ _ (λ e. ground arith) (read_raw-Sound c (extra_bytes c) bs))

string_from-Sound : (fuel : ℕ) (bs : Bytes) → length bs < fuel → Sound Any bs (string_from fuel bs)
unfolding string_from
string_from-Sound zero bs lt = absurd (omega arith)
string_from-Sound (suc fuel) [] lt = λ e. ground arith
string_from-Sound (suc fuel) (c ∷ bs) lt = elim (Bool-cases (c == 34)) [
  | inl y ↦ rw (y, string_from) (omega arith, tt)
  | inr n ↦
      rw (n, string_from)
        (Sound-bind Any Any (c ∷ bs) bs (read_char c bs) _ (read_char-Sound c bs) (omega arith)
          (λ s bs₁ le u.
            Sound-bind Any Any (c ∷ bs) bs₁ (string_from fuel bs₁) _
              (string_from-Sound fuel bs₁ (omega arith)) (omega arith)
              (λ rest bs₂ le₂ u₂. (omega arith, tt))))
]

pub string-Sound : (bs : Bytes) → Sound Any bs (string bs)
string-Sound bs = string_from-Sound (suc (length bs)) bs (omega arith)

pub span_number-shorter : (bs : Bytes) → length (span_number bs).1 ≤ length bs
unfolding span_number
span_number-shorter [] = omega arith
span_number-shorter (b ∷ bs) = elim (Bool-cases (is_number_byte b)) [
  | inl y ↦ rw (y, span_number) (omega (arith, span_number-shorter bs))
  | inr n ↦ rw (n, span_number) (omega arith)
]

pub Bytes-cases : (bs : Bytes) → (bs ≡ []) ⊎ ((b : ℕ) × (rest : Bytes) × (bs ≡ b ∷ rest))
Bytes-cases [] = inl refl
Bytes-cases (b ∷ rest) = inr (b, rest, refl)

-- What `ws` leaves has a first byte: the rest is shorter than what was there.
pub ws-takes : (bs : Bytes) (b : ℕ) (rest : Bytes) → ws bs ≡ b ∷ rest → length rest < length bs
ws-takes bs b rest e = omega (arith, ws-shorter bs, ap length e)
