-- ===== src/Daemon/Json/Parser/Total.antt =====
-- The parser ends on every input, and what it accepts is nested no deeper than the limit.
use Prim.Native.Nat.{Ordering}
use led_platform.Prelude.{
  Bool-cases, Option, Option-cases, Result, [], arith, err, false, inl, inr, length, ok, refl,
  subst, suc, true, zero, ℕ, ◌<◌, ◌==◌, ◌>>=◌, ◌||◌, ◌∷◌, ◌≡◌, ◌≢◌, ◌≤◌,
}
use led_platform.Daemon.Json.Value.{
  placed, Bytes, arr, obj, null, bool, str, nil, elem, done, field, Json, Elems, Fields, Chars,
  insert, compare_keys,
}
use led_platform.Daemon.Json.Scan.{Parse, ParseError}
use led_platform.Daemon.Json.Scan.Sound.{
  Sound-if, ws-takes, string-Sound, Bytes-cases, Any, lit-shorter, span_number-shorter, Sound-bind,
  ws-shorter, Sound-longer, Sound,
}
use led_platform.Daemon.Json.Parser.{
  is_digit, false_word, true_word, null_word, string, span_number, lit, token, array, number_of,
  or_token, read_field, elems_from, object, fields_from, number, at_end, out_of_fuel, ws, value,
  parse, max_depth,
}

module _ {F : Type 0} where
  abbrev mutual
    -- Nested no deeper than the levels.
    pub Within : ℕ → Json F → Type 0
    Within zero v = ⊥
    Within (suc d) (arr es) = WithinElems d es
    Within (suc d) (obj m) = WithinFields d m
    Within (suc d) _ = Unit {0}

    pub WithinElems : ℕ → Elems F → Type 0
    WithinElems d nil = Unit {0}
    WithinElems d (elem v es) = Within d v × WithinElems d es

    pub WithinFields : ℕ → Fields F → Type 0
    WithinFields d done = Unit {0}
    WithinFields d (field k v m) = Within d v × WithinFields d m

  placed-Within :
      (d : ℕ) (o : Ordering) (k : Chars) (v : Json F) (k' : Chars) (v' : Json F) (m rest : Fields F)
      → Within d v
      → WithinFields d (field k' v' m)
      → WithinFields d rest
      → WithinFields d (placed o k v k' v' m rest)
  placed-Within d Ordering.lt k v k' v' m rest w (w', inside) r = (w, (w', inside))
  placed-Within d Ordering.eq k v k' v' m rest w (w', inside) r = (w, inside)
  placed-Within d Ordering.gt k v k' v' m rest w (w', inside) r = (w', r)

  insert-Within :
      (d : ℕ) (k : Chars) (v : Json F) (m : Fields F)
      → Within d v
      → WithinFields d m
      → WithinFields d (insert k v m)
  unfolding insert
  insert-Within d k v done w inside = (w, tt)
  insert-Within d k v (field k' v' m) w (w', inside) =
      placed-Within d (compare_keys k k') k v k' v' m (insert k v m) w (w', inside)
        (insert-Within d k v m w inside)

module _ {F : Type 0} (parse_f64 : Bytes → Option F) (d : ℕ) (val : Parse (Json F))
    (sound : (bs : Bytes) → Sound (Within d) bs (val bs)) where
  ws-Sound : (bs : Bytes) → Sound (Within d) bs (val (ws bs))
  ws-Sound bs = Sound-longer (Within d) bs (ws bs) (val (ws bs)) (sound (ws bs)) (ws-shorter bs)

  elems_from-Sound :
      (fuel : ℕ) (bs : Bytes)
      → length bs < fuel
      → Sound (WithinElems d) bs (elems_from parse_f64 val fuel bs)
  unfolding elems_from
  elems_from-Sound zero bs lt = absurd (omega arith)
  elems_from-Sound (suc fuel) bs lt =
      Sound-bind (Within d) (WithinElems d) bs bs (val (ws bs)) _ (ws-Sound bs) (omega arith)
        (λ v bs₁ le w. elim (Bytes-cases (ws bs₁)) [
          | inl n ↦ rw (n, elems_from) (λ e. ground arith)
          | inr (b, rest, y) ↦
              let rec : Sound (WithinElems d) bs
                  (elems_from parse_f64 val fuel rest >>= λ p. ok (elem v p.0, p.1)) =
                Sound-bind (WithinElems d) (WithinElems d) bs rest
                  (elems_from parse_f64 val fuel rest) _
                  (elems_from-Sound fuel rest (omega (arith, ws-takes bs₁ b rest y)))
                  (omega (arith, ws-takes bs₁ b rest y))
                  (λ es bs₂ le₂ inner. (omega (arith, ws-takes bs₁ b rest y), (w, inner))) in
              elim (Bool-cases (b == 44)) [
                | inl comma ↦ rw (y, comma, elems_from) rec
                | inr other ↦
                    rw (y, other, elems_from)
                      (Sound-if (WithinElems d) bs (b == 93) _ _
                        (omega (arith, ws-takes bs₁ b rest y), (w, tt)) (λ e. ground arith))
              ]
        ])

  array-Sound : (bs : Bytes) → Sound (Within (suc d)) bs (array parse_f64 val bs)
  unfolding array
  array-Sound bs = elim (Option-cases (lit (93 ∷ []) (ws bs))) [
    | inr (rest, y) ↦
        rw (y, array) (omega (arith, lit-shorter (93 ∷ []) (ws bs) rest y, ws-shorter bs), tt)
    | inl n ↦
        rw (n, array)
          (Sound-bind (WithinElems d) (Within (suc d)) bs (ws bs)
            (elems_from parse_f64 val (suc (length bs)) (ws bs)) _
            (elems_from-Sound (suc (length bs)) (ws bs) (omega (arith, ws-shorter bs)))
            (ws-shorter bs) (λ es rest le w. (omega (arith, ws-shorter bs), w)))
  ]

  abbrev ValueWithin : Chars × Json F → Type 0
  ValueWithin kv = Within d kv.1

  read_field-Sound : (bs : Bytes) → Sound ValueWithin bs (read_field parse_f64 val bs)
  unfolding read_field
  read_field-Sound bs = elim (Option-cases (lit (34 ∷ []) (ws bs))) [
    | inl n ↦ rw (n, read_field) (λ e. ground arith)
    | inr (bs₁, y) ↦
        rw (y, read_field)
          (Sound-bind Any ValueWithin bs bs₁ (string bs₁) _ (string-Sound bs₁)
            (omega (arith, lit-shorter (34 ∷ []) (ws bs) bs₁ y, ws-shorter bs))
            (λ k bs₂ le u. elim (Option-cases (lit (58 ∷ []) (ws bs₂))) [
              | inl n ↦ rw (n, read_field) (λ e. ground arith)
              | inr (bs₃, z) ↦
                  let near : length bs₃ ≤ length bs = omega (
                    arith,
                    lit-shorter (34 ∷ []) (ws bs) bs₁ y,
                    ws-shorter bs,
                    lit-shorter (58 ∷ []) (ws bs₂) bs₃ z,
                    ws-shorter bs₂,
                  ) in
                  rw (z, read_field)
                    (Sound-bind (Within d) ValueWithin bs bs₃ (val (ws bs₃)) _ (ws-Sound bs₃) near
                      (λ v bs₄ le₄ w. (omega (arith, near), w)))
            ]))
  ]

  fields_from-Sound :
      (fuel : ℕ) (m : Fields F) (bs : Bytes)
      → length bs < fuel
      → WithinFields d m
      → Sound (WithinFields d) bs (fields_from parse_f64 val fuel m bs)
  unfolding fields_from
  fields_from-Sound zero m bs lt inside = absurd (omega arith)
  fields_from-Sound (suc fuel) m bs lt inside =
      Sound-bind ValueWithin (WithinFields d) bs bs (read_field parse_f64 val bs) _
        (read_field-Sound bs) (omega arith)
        (λ kv bs₁ le w.
          let all = insert-Within d kv.0 kv.1 m w inside in
          elim (Bytes-cases (ws bs₁)) [
            | inl n ↦ rw (n, fields_from) (λ e. ground arith)
            | inr (b, rest, y) ↦
                let short = ws-takes bs₁ b rest y in
                elim (Bool-cases (b == 44)) [
                  | inl comma ↦
                      rw (y, comma, fields_from)
                        (Sound-longer (WithinFields d) bs rest
                          (fields_from parse_f64 val fuel (insert kv.0 kv.1 m) rest)
                          (fields_from-Sound fuel (insert kv.0 kv.1 m) rest (omega (arith, short))
                            all)
                          (omega (arith, short)))
                  | inr other ↦
                      rw (y, other, fields_from)
                        (Sound-if (WithinFields d) bs (b == 125) _ _ (omega (arith, short), all)
                          (λ e. ground arith))
                ]
          ])

  object-Sound : (bs : Bytes) → Sound (Within (suc d)) bs (object parse_f64 val bs)
  unfolding object
  object-Sound bs = elim (Option-cases (lit (125 ∷ []) (ws bs))) [
    | inr (rest, y) ↦
        rw (y, object) (omega (arith, lit-shorter (125 ∷ []) (ws bs) rest y, ws-shorter bs), tt)
    | inl n ↦
        rw (n, object)
          (Sound-bind (WithinFields d) (Within (suc d)) bs (ws bs)
            (fields_from parse_f64 val (suc (length bs)) done (ws bs)) _
            (fields_from-Sound (suc (length bs)) done (ws bs) (omega (arith, ws-shorter bs)) tt)
            (ws-shorter bs) (λ m rest le w. (omega (arith, ws-shorter bs), w)))
  ]

  number_of-Sound :
      (xs rest bs : Bytes)
      → length rest ≤ length bs
      → Sound (Within (suc d)) bs (number_of parse_f64 (xs, rest))
  number_of-Sound xs rest bs le = elim (Option-cases (parse_f64 xs)) [
    | inl n ↦ rw (n, number_of) (λ e. ground arith)
    | inr (x, y) ↦ rw (y, number_of) (le, tt)
  ]

  number-Sound : (bs : Bytes) → Sound (Within (suc d)) bs (number parse_f64 bs)
  unfolding number
  number-Sound bs =
      number_of-Sound (span_number bs).0 (span_number bs).1 bs (span_number-shorter bs)

  or_token-Sound :
      (word bs : Bytes) (v : Json F)
      → Within (suc d) v
      → Sound (Within (suc d)) bs (or_token v (lit word bs))
  or_token-Sound word bs v w = elim (Option-cases (lit word bs)) [
    | inl n ↦ rw (n, or_token) (λ e. ground arith)
    | inr (rest, y) ↦ rw (y, or_token) (omega (arith, lit-shorter word bs rest y), w)
  ]

  token-Sound : (c : ℕ) (bs : Bytes) → Sound (Within (suc d)) (c ∷ bs) (token parse_f64 val c bs)
  unfolding token
  token-Sound c bs =
      let P : Json F → Type 0 = Within (suc d) in
      let text : Sound P (c ∷ bs) (string bs >>= λ p. ok (str p.0, p.1)) =
        Sound-bind Any P (c ∷ bs) bs (string bs) _ (string-Sound bs) (omega arith)
          (λ s rest le u. (omega arith, tt)) in
      let list =
        Sound-longer P (c ∷ bs) bs (array parse_f64 val bs) (array-Sound bs) (omega arith) in
      let map =
        Sound-longer P (c ∷ bs) bs (object parse_f64 val bs) (object-Sound bs) (omega arith) in
      Sound-if P (c ∷ bs) (c == 110) _ _ (or_token-Sound null_word (c ∷ bs) null tt) (
        Sound-if P (c ∷ bs) (c == 116) _ _ (or_token-Sound true_word (c ∷ bs) (bool true) tt) (
          Sound-if P (c ∷ bs) (c == 102) _ _ (or_token-Sound false_word (c ∷ bs) (bool false) tt) (
            Sound-if P (c ∷ bs) (c == 34) _ _ text (
              Sound-if P (c ∷ bs) (c == 91) _ _ list (
                Sound-if P (c ∷ bs) (c == 123) _ _ map (
                  Sound-if P (c ∷ bs) (c == 45 || is_digit c) _ _ (number-Sound (c ∷ bs))
                    (λ e. ground arith)))))))

module _ {F : Type 0} (parse_f64 : Bytes → Option F) where
  value-Sound : (d : ℕ) (bs : Bytes) → Sound (Within d) bs (value parse_f64 d bs)
  unfolding value
  value-Sound zero bs = λ e. ground arith
  value-Sound (suc d) [] = λ e. ground arith
  value-Sound (suc d) (c ∷ bs) = token-Sound parse_f64 d (value parse_f64 d) (value-Sound d) c bs

  abbrev pub Outcome : Result ParseError (Json F) → Type 0
  Outcome (ok v) = Within (suc max_depth) v
  Outcome (err e) = e ≢ out_of_fuel

  at_end-Outcome :
      (v : Json F) (bs : Bytes) → Within (suc max_depth) v → Outcome (at_end parse_f64 v bs)
  at_end-Outcome v [] w = w
  at_end-Outcome v (b ∷ bs) w = λ e. ground arith

  value_done-Outcome :
      (m : Result ParseError (Json F × Bytes)) (bs : Bytes)
      → Sound (Within (suc max_depth)) bs m
      → Outcome (m >>= λ p. at_end parse_f64 p.0 (ws p.1))
  value_done-Outcome (err e) bs s = s
  value_done-Outcome (ok (v, bs₁)) bs (le, w) = at_end-Outcome v (ws bs₁) w

  parse-Outcome : (s : Bytes) → Outcome (parse parse_f64 s)
  unfolding parse
  parse-Outcome s =
      value_done-Outcome (value parse_f64 (suc max_depth) (ws s)) (ws s)
        (value-Sound (suc max_depth) (ws s))

  -- For every sequence of bytes, and every parser of floating-point numbers, `parse` comes to a
  -- value or to one of its own errors: the fuel of its loops does not run out.
  pub parse_terminates : (s : Bytes) → parse parse_f64 s ≢ err out_of_fuel
  parse_terminates s e = subst Outcome e (parse-Outcome s) refl

  -- A value that `parse` accepts is nested no deeper than `MAX_DEPTH` below its top.
  pub parse-Within : (s : Bytes) (v : Json F) → parse parse_f64 s ≡ ok v → Within (suc max_depth) v
  parse-Within s v e = subst Outcome e (parse-Outcome s)
