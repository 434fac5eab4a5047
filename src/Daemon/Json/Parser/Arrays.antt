-- ===== src/Daemon/Json/Parser/Arrays.antt =====
-- An array that is written reads back, where its elements do.
use mathlib.Core.List.{append_assoc}
use led_platform.Prelude.{
  arith, length, length-append, none, suc, zero, ℕ, ◌≤◌, Option, [], ok, refl, ◌++◌, ◌∷◌, ◌≡◌,
}
use led_platform.Daemon.Json.Value.{Elems, display_elems, Json, display, Bytes, arr, nil, elem}
use led_platform.Daemon.Json.Scan.{ws, lit}
use led_platform.Daemon.Json.Scan.RoundTrip.{}
use led_platform.Daemon.Json.Parser.{elems_from, array, Parse}
use led_platform.Daemon.Json.Parser.Total.{Within, WithinElems}
use led_platform.Daemon.Json.Parser.Written.{
  lit-Opens, display-Opens, ProperElems, ws-Opens, Closed, Proper,
}

module _ {F : Type 0} (show_f64 : F → Bytes) (parse_f64 : Bytes → Option F) where
  module _ (d : ℕ) (val : Parse (Json F))
      (reads : (v : Json F) (rest : Bytes)
        → Within d v
        → Proper show_f64 parse_f64 v
        → Closed rest
        → val (display show_f64 v ++ rest) ≡ ok (v, rest)) where
    pub ws_reads :
        (v : Json F) (rest : Bytes)
        → Within d v
        → Proper show_f64 parse_f64 v
        → Closed rest
        → val (ws (display show_f64 v ++ rest)) ≡ ok (v, rest)
    ws_reads v rest w p c =
        rw (ws-Opens (display show_f64 v) rest (display-Opens show_f64 parse_f64 v p))
          (reads v rest w p c)

    elems_from-last :
        (fuel : ℕ) (bs rest : Bytes) (v : Json F)
        → val (ws bs) ≡ ok (v, 93 ∷ rest)
        → elems_from parse_f64 val (suc fuel) bs ≡ ok (elem v nil, rest)
    unfolding elems_from
    elems_from-last fuel bs rest v e = rw e refl

    elems_from-next :
        (fuel : ℕ) (bs more rest : Bytes) (v : Json F) (es : Elems F)
        → val (ws bs) ≡ ok (v, 44 ∷ more)
        → elems_from parse_f64 val fuel more ≡ ok (es, rest)
        → elems_from parse_f64 val (suc fuel) bs ≡ ok (elem v es, rest)
    unfolding elems_from
    elems_from-next fuel bs more rest v es e f = rw e (rw f refl)

    elems_from-display :
        (fuel : ℕ) (v : Json F) (es : Elems F) (rest : Bytes)
        → WithinElems d (elem v es)
        → ProperElems show_f64 parse_f64 (elem v es)
        → length (display_elems show_f64 es) ≤ fuel
        → elems_from parse_f64 val fuel (display show_f64 v ++ (display_elems show_f64 es ++ rest))
          ≡ ok (elem v es, rest)
    unfolding display
    elems_from-display zero v nil rest w p le = absurd (omega arith)
    elems_from-display zero v (elem v' es) rest w p le = absurd (omega arith)
    elems_from-display (suc fuel) v nil rest (w, x) (p, y) le =
        elems_from-last fuel _ rest v (ws_reads v (93 ∷ rest) w p refl)
    elems_from-display (suc fuel) v (elem v' es) rest (w, x) (p, y) le =
        let shorter : length (display_elems show_f64 es) ≤ fuel =
          omega (arith, length-append (display show_f64 v') (display_elems show_f64 es)) in
        elems_from-next fuel _ _ rest v (elem v' es) (ws_reads v _ w p refl) (
          rw (append_assoc (display show_f64 v') (display_elems show_f64 es) rest)
            (elems_from-display fuel v' es rest x y shorter))

    array-step :
        (bs rest : Bytes) (es : Elems F)
        → lit (93 ∷ []) (ws bs) ≡ none
        → elems_from parse_f64 val (suc (length bs)) (ws bs) ≡ ok (es, rest)
        → array parse_f64 val bs ≡ ok (arr es, rest)
    unfolding array
    array-step bs rest es n e = rw (n, array) (rw e refl)

    pub array-display :
        (v : Json F) (es : Elems F) (rest : Bytes)
        → WithinElems d (elem v es)
        → ProperElems show_f64 parse_f64 (elem v es)
        → array parse_f64 val (display show_f64 v ++ (display_elems show_f64 es ++ rest))
          ≡ ok (arr (elem v es), rest)
    array-display v es rest w p =
        let o = display-Opens show_f64 parse_f64 v p.0 in
        let more = display_elems show_f64 es ++ rest in
        let bs = display show_f64 v ++ more in
        let enough : length (display_elems show_f64 es) ≤ suc (length bs) = omega (
          arith,
          length-append (display show_f64 v) more,
          length-append (display_elems show_f64 es) rest,
        ) in
        array-step bs rest (elem v es)
          (rw (ws-Opens (display show_f64 v) more o) (lit-Opens (display show_f64 v) more o).0)
          (rw (ws-Opens (display show_f64 v) more o)
            (elems_from-display (suc (length bs)) v es rest w p enough))
