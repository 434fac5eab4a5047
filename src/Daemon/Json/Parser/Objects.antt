-- ===== src/Daemon/Json/Parser/Objects.antt =====
-- An object that is written reads back, where its values do.
use mathlib.Core.List.{append_assoc}
use Prim.Native.Nat.{Ordering}
use led_platform.Prelude.{
  ap, arith, length, length-append, none, subst, sym, zero, ◌∙◌, ◌≤◌, suc, ℕ, Option, [], ok, refl,
  some, ◌++◌, ◌∷◌, ◌≡◌,
}
use led_platform.Daemon.Json.Value.{
  insert, compare_keys, done, field, obj, display_fields, escape, quoted, Chars, Json, display,
  Fields, Bytes,
}
use led_platform.Daemon.Json.Scan.{string, ws, lit}
use led_platform.Daemon.Json.Scan.RoundTrip.{AllScalar, string-escape}
use led_platform.Daemon.Json.Parser.{object, fields_from, read_field, Parse}
use led_platform.Daemon.Json.Parser.Total.{WithinFields, Within}
use led_platform.Daemon.Json.Parser.Written.{
  lit-Opens, ws-Opens, Opens, ProperFields, AllAbove, Ascending, Closed, Proper,
}
use led_platform.Daemon.Json.Parser.Arrays.{ws_reads}

pub field-append :
    (q a b rest : Bytes) → (q ++ (58 ∷ (a ++ b))) ++ rest ≡ q ++ (58 ∷ (a ++ (b ++ rest)))
field-append q a b rest = rw (append_assoc q (58 ∷ (a ++ b)) rest, append_assoc a b rest) refl

module _ {F : Type 0} where
  abbrev join : Fields F → Fields F → Fields F
  join done m = m
  join (field k v n) m = field k v (join n m)

  join-last :
      (n : Fields F) (k : Chars) (v : Json F) (m : Fields F)
      → join (join n (field k v done)) m ≡ join n (field k v m)
  join-last done k v m = refl
  join-last (field k₀ v₀ n) k v m = rw (join-last n k v m) refl

  above-join :
      (n : Fields F) (k₀ k : Chars) (v : Json F) (m : Fields F)
      → AllAbove k₀ (join n (field k v m))
      → compare_keys k k₀ ≡ Ordering.gt
  above-join done k₀ k v m (a, b) = a
  above-join (field k₁ v₁ n) k₀ k v m (a, b) = above-join n k₀ k v m b

  -- A key above all the others goes to the end.
  insert-join :
      (n : Fields F) (k : Chars) (v : Json F) (m : Fields F)
      → Ascending (join n (field k v m))
      → insert k v n ≡ join n (field k v done)
  unfolding insert
  insert-join done k v m a = refl
  insert-join (field k₀ v₀ n) k v m (above, a) =
      rw (above-join n k₀ k v m above, insert-join n k v m a, insert) refl

module _ {F : Type 0} (show_f64 : F → Bytes) (parse_f64 : Bytes → Option F) where
  module _ (d : ℕ) (val : Parse (Json F))
      (reads : (v : Json F) (rest : Bytes)
        → Within d v
        → Proper show_f64 parse_f64 v
        → Closed rest
        → val (display show_f64 v ++ rest) ≡ ok (v, rest)) where
    read_field-step :
        (bs after key_rest rest : Bytes) (k : Chars) (v : Json F)
        → lit (34 ∷ []) (ws bs) ≡ some after
        → string after ≡ ok (k, 58 ∷ key_rest)
        → val (ws key_rest) ≡ ok (v, rest)
        → read_field parse_f64 val bs ≡ ok ((k, v), rest)
    unfolding read_field ws lit
    read_field-step bs after key_rest rest k v q s e =
        rw (q, read_field) (rw (s, read_field) (rw e refl))

    read_field-display :
        (k : Chars) (v : Json F) (rest : Bytes)
        → AllScalar k
        → Within d v
        → Proper show_f64 parse_f64 v
        → Closed rest
        → read_field parse_f64 val (quoted k ++ (58 ∷ (display show_f64 v ++ rest)))
          ≡ ok ((k, v), rest)
    read_field-display k v rest a w p c =
        let after : Bytes = 58 ∷ (display show_f64 v ++ rest) in
        let key : string ((escape k ++ 34 ∷ []) ++ after) ≡ ok (k, after) =
          rw (append_assoc (escape k) (34 ∷ []) after) (string-escape k after a) in
        let quote : lit (34 ∷ []) (ws (quoted k ++ after)) ≡ some ((escape k ++ 34 ∷ []) ++ after) =
          unfold lit in unfold ws in refl in
        read_field-step (quoted k ++ after) _ _ rest k v quote key
          (ws_reads show_f64 parse_f64 d val reads v rest w p c)

    fields_from-last :
        (fuel : ℕ) (m : Fields F) (bs rest : Bytes) (k : Chars) (v : Json F)
        → read_field parse_f64 val bs ≡ ok ((k, v), 125 ∷ rest)
        → fields_from parse_f64 val (suc fuel) m bs ≡ ok (insert k v m, rest)
    unfolding fields_from ws
    fields_from-last fuel m bs rest k v e = rw e refl

    fields_from-next :
        (fuel : ℕ) (m : Fields F) (bs more : Bytes) (k : Chars) (v : Json F)
        → read_field parse_f64 val bs ≡ ok ((k, v), 44 ∷ more)
        → fields_from parse_f64 val (suc fuel) m bs
          ≡ fields_from parse_f64 val fuel (insert k v m) more
    unfolding fields_from ws
    fields_from-next fuel m bs more k v e = rw e refl

    fields_from-display :
        (fuel : ℕ) (n : Fields F) (k : Chars) (v : Json F) (m : Fields F) (rest : Bytes)
        → Ascending (join n (field k v m))
        → WithinFields d (field k v m)
        → ProperFields show_f64 parse_f64 (field k v m)
        → length (display_fields show_f64 m) ≤ fuel
        → fields_from parse_f64 val fuel n
            (quoted k ++ (58 ∷ (display show_f64 v ++ (display_fields show_f64 m ++ rest))))
          ≡ ok (join n (field k v m), rest)
    unfolding display
    fields_from-display zero n k v done rest a w p le = absurd (omega arith)
    fields_from-display zero n k v (field k' v' m) rest a w p le = absurd (omega arith)
    fields_from-display (suc fuel) n k v done rest a (w, x) (scalar, p, y) le =
        fields_from-last fuel n _ rest k v (read_field-display k v (125 ∷ rest) scalar w p refl)
        ∙ ap (λ (m : Fields F). ok (m, rest)) (insert-join n k v done a)
    fields_from-display (suc fuel) n k v (field k' v' m) rest a (w, x) (scalar, p, y) le =
        let body = quoted k' ++ (58 ∷ (display show_f64 v' ++ display_fields show_f64 m)) in
        let shorter : length (display_fields show_f64 m) ≤ fuel = omega (
          arith,
          length-append (quoted k') (58 ∷ (display show_f64 v' ++ display_fields show_f64 m)),
          length-append (display show_f64 v') (display_fields show_f64 m),
        ) in
        let all : Ascending (join (join n (field k v done)) (field k' v' m)) =
          subst (λ (fs : Fields F). Ascending fs) (sym (join-last n k v (field k' v' m))) a in
        let later =
          fields_from-display fuel (join n (field k v done)) k' v' m rest all x y shorter in
        fields_from-next fuel n _ (body ++ rest) k v
          (read_field-display k v (44 ∷ (body ++ rest)) scalar w p refl)
        ∙ ap (λ (acc : Fields F). fields_from parse_f64 val fuel acc (body ++ rest))
            (insert-join n k v (field k' v' m) a)
        ∙ ap (λ (bs : Bytes). fields_from parse_f64 val fuel (join n (field k v done)) bs)
            (field-append (quoted k') (display show_f64 v') (display_fields show_f64 m) rest)
        ∙ later
        ∙ ap (λ (fs : Fields F). ok (fs, rest)) (join-last n k v (field k' v' m))

    object-step :
        (bs rest : Bytes) (m : Fields F)
        → lit (125 ∷ []) (ws bs) ≡ none
        → fields_from parse_f64 val (suc (length bs)) done (ws bs) ≡ ok (m, rest)
        → object parse_f64 val bs ≡ ok (obj m, rest)
    unfolding object
    object-step bs rest m n e = rw (n, object) (rw e refl)

    pub object-display :
        (k : Chars) (v : Json F) (m : Fields F) (rest : Bytes)
        → Ascending (field k v m)
        → WithinFields d (field k v m)
        → ProperFields show_f64 parse_f64 (field k v m)
        → object parse_f64 val
            (quoted k ++ (58 ∷ (display show_f64 v ++ (display_fields show_f64 m ++ rest))))
          ≡ ok (obj (field k v m), rest)
    object-display k v m rest a w p =
        let after = 58 ∷ (display show_f64 v ++ (display_fields show_f64 m ++ rest)) in
        let bs = quoted k ++ after in
        let enough : length (display_fields show_f64 m) ≤ suc (length bs) = omega (
          arith,
          length-append (quoted k) after,
          length-append (display show_f64 v) (display_fields show_f64 m ++ rest),
          length-append (display_fields show_f64 m) rest,
        ) in
        let starts : Opens (quoted k) = (refl, refl, refl) in
        object-step bs rest (field k v m)
          (rw (ws-Opens (quoted k) after starts) (lit-Opens (quoted k) after starts).1)
          (rw (ws-Opens (quoted k) after starts)
            (fields_from-display (suc (length bs)) done k v m rest a w p enough))
