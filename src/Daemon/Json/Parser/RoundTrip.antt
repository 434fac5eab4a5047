-- ===== src/Daemon/Json/Parser/RoundTrip.antt =====
-- What is written reads back.
use mathlib.Core.List.{append-nil, append_assoc}
use led_platform.Prelude.{
  subst, ap, Option, [], false, ok, refl, suc, true, zero, ℕ, ◌++◌, ◌∙◌, ◌∷◌, ◌≡◌,
}
use led_platform.Daemon.Json.Value.{
  display_elems, display_fields, Chars, escape, quoted, arr, obj, null, bool, num, str, nil, elem,
  done, field, Json, Bytes, display,
}
use led_platform.Daemon.Json.Scan.{lit, ws}
use led_platform.Daemon.Json.Scan.RoundTrip.{string-escape, AllScalar}
use led_platform.Daemon.Json.Parser.{array, object, number, token, value, parse, max_depth}
use led_platform.Daemon.Json.Parser.Total.{Within}
use led_platform.Daemon.Json.Parser.Written.{
  number-show, ws-Opens, display-Opens, token-number, Starts, Closed, Proper,
}
use led_platform.Daemon.Json.Parser.Arrays.{array-display}
use led_platform.Daemon.Json.Parser.Objects.{object-display, field-append}

module _ {F : Type 0} (show_f64 : F → Bytes) (parse_f64 : Bytes → Option F) where
  value-number :
      (d : ℕ) (bs rest : Bytes)
      → Starts bs
      → value parse_f64 (suc d) (bs ++ rest) ≡ number parse_f64 (bs ++ rest)
  unfolding value
  value-number d [] rest s = absurd s
  value-number d (b ∷ bs) rest s =
      token-number show_f64 parse_f64 (value parse_f64 d) b (bs ++ rest) s

  value-str :
      (d : ℕ) (s : Chars) (rest : Bytes)
      → AllScalar s
      → value parse_f64 (suc d) (quoted s ++ rest) ≡ ok (str s, rest)
  unfolding value token
  value-str d s rest a = rw (append_assoc (escape s) (34 ∷ []) rest, string-escape s rest a) refl

  value-array :
      (d : ℕ) (bs : Bytes)
      → value parse_f64 (suc d) (91 ∷ bs) ≡ array parse_f64 (value parse_f64 d) bs
  unfolding value token
  value-array d bs = refl

  value-object :
      (d : ℕ) (bs : Bytes)
      → value parse_f64 (suc d) (123 ∷ bs) ≡ object parse_f64 (value parse_f64 d) bs
  unfolding value token
  value-object d bs = refl

  value-display :
      (d : ℕ) (v : Json F) (rest : Bytes)
      → Within d v
      → Proper show_f64 parse_f64 v
      → Closed rest
      → value parse_f64 d (display show_f64 v ++ rest) ≡ ok (v, rest)
  unfolding display
  value-display zero v rest w p c = absurd w
  value-display (suc d) null rest w p c = unfold value in unfold token in unfold lit in refl
  value-display (suc d) (bool true) rest w p c = unfold value in unfold token in unfold lit in refl
  value-display (suc d) (bool false) rest w p c = unfold value in unfold token in unfold lit in refl
  value-display (suc d) (num x) rest w p c =
      value-number d (show_f64 x) rest p.starts ∙ number-show show_f64 parse_f64 x rest p c
  value-display (suc d) (str s) rest w p c = value-str d s rest p
  value-display (suc d) (arr nil) rest w p c =
      unfold value in unfold token in unfold array in unfold ws in unfold lit in refl
  value-display (suc d) (obj done) rest w p c =
      unfold value in unfold token in unfold object in unfold ws in unfold lit in refl
  value-display (suc d) (arr (elem v es)) rest w p c =
      ap (λ (bs : Bytes). value parse_f64 (suc d) (91 ∷ bs))
        (append_assoc (display show_f64 v) (display_elems show_f64 es) rest)
      ∙ value-array d _
      ∙ array-display show_f64 parse_f64 d (value parse_f64 d) (value-display d) v es rest w p
  value-display (suc d) (obj (field k v m)) rest w (a, p) c =
      ap (λ (bs : Bytes). value parse_f64 (suc d) (123 ∷ bs))
        (field-append (quoted k) (display show_f64 v) (display_fields show_f64 m) rest)
      ∙ value-object d _
      ∙ object-display show_f64 parse_f64 d (value parse_f64 d) (value-display d) k v m rest a w p

  -- If the nesting of a value is within the limit, its characters are Unicode scalar values, the
  -- keys of its maps ascend, and its numbers print as number text that parses back to them, then
  -- `parse` reads what `Display` writes of it back to the same value.
  pub parse-display :
      (v : Json F)
      → Within (suc max_depth) v
      → Proper show_f64 parse_f64 v
      → parse parse_f64 (display show_f64 v) ≡ ok v
  unfolding parse
  parse-display v w p =
      let text = display show_f64 v in
      let start : ws text ≡ text =
        subst (λ (bs : Bytes). ws bs ≡ bs) (append-nil text)
          (ws-Opens text [] (display-Opens show_f64 parse_f64 v p)) in
      let whole : value parse_f64 (suc max_depth) text ≡ ok (v, []) =
        subst (λ (bs : Bytes). value parse_f64 (suc max_depth) bs ≡ ok (v, [])) (append-nil text)
          (value-display (suc max_depth) v [] w p tt) in
      rw start (rw whole (unfold ws in refl))
