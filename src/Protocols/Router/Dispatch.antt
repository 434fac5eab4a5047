-- ===== src/Protocols/Router/Dispatch.antt =====
-- Every universe goes to the one back end of its index, or else to the default.
use led_platform.Prelude.{
  Bool-cases, inl, inr, leb, Bool, List, Option, [], ap, arith, false, get_elem?, if◌then◌else◌,
  none, refl, set, some, subst, suc, sym, true, u64, zero, ℕ, ◌+◌, ◌==◌, ◌||◌, ◌∙◌, ◌∷◌, ◌≡◌, ◌≢◌,
  ◌≤◌,
}
use led_platform.Layout.Apply.{UniverseData}
use led_platform.Protocols.Router.{sort_routes, insert_route, sent_by, RouteEntry, RouterDevice}

module _ {B : Type 0} where
  abbrev pub Missing : ℕ → List (RouteEntry B) → Type 0
  Missing k [] = Unit {0}
  Missing k (r ∷ rs) = (r.universe_idx ≢ k) × Missing k rs

  -- No index comes twice.
  abbrev pub Distinct : List (RouteEntry B) → Type 0
  Distinct [] = Unit {0}
  Distinct (r ∷ rs) = Missing r.universe_idx rs × Distinct rs

  abbrev Above : ℕ → List (RouteEntry B) → Type 0
  Above k [] = Unit {0}
  Above k (r ∷ rs) = (k ≤ r.universe_idx) × Above k rs

  abbrev pub Sorted : List (RouteEntry B) → Type 0
  Sorted [] = Unit {0}
  Sorted (r ∷ rs) = Above r.universe_idx rs × Sorted rs

  -- What a binary search of a sorted slice promises.
  abbrev pub Found : List (RouteEntry B) → ℕ → Option ℕ → Type 0
  Found rs k none = Missing k rs
  Found rs k (some i) = (r : RouteEntry B) × (get_elem? rs i ≡ some r) × (r.universe_idx ≡ k)

  abbrev pub has_route : ℕ → List (RouteEntry B) → Bool
  has_route k [] = false
  has_route k (r ∷ rs) = r.universe_idx == k || has_route k rs

module _ {B : Type 0} (send : B → UniverseData → B × Bool)
    (search : List (RouteEntry B) → ℕ → Option ℕ) where
  -- A route that a universe is at the place of hands it to its back end.
  abbrev pub touched : ℕ → UniverseData → RouteEntry B → RouteEntry B
  touched k u r = if r.universe_idx == k then record r { backend = (send r.backend u).0 } else r

  -- The back end of an index takes the universe, the others stay.
  abbrev pub given : ℕ → UniverseData → List (RouteEntry B) → List (RouteEntry B)
  given k u [] = []
  given k u (r ∷ rs) = touched k u r ∷ given k u rs

  abbrev pub given_default : UniverseData → Option B → Option B
  given_default u none = none
  given_default u (some b) = some (send b u).0

  -- The universe at the place `k`.
  abbrev pub dispatched_one : ℕ → UniverseData → RouterDevice B → RouterDevice B
  dispatched_one k u d =
      if has_route k d.routes
      then record d { routes = given k u d.routes }
      else record d { fallback = given_default u d.fallback }

  -- A frame, universe by universe.
  abbrev pub dispatched : ℕ → List UniverseData → RouterDevice B → RouterDevice B
  dispatched k [] d = record d { frames_sent = u64 (d.frames_sent + 1) }
  dispatched k (u ∷ us) d = dispatched (suc k) us (dispatched_one k u d)

  pub given-Missing :
      (k : ℕ) (u : UniverseData) (rs : List (RouteEntry B))
      → Missing k rs
      → (given k u rs ≡ rs) × (has_route k rs ≡ false)
  given-Missing k u [] m = (refl, refl)
  given-Missing k u (r ∷ rs) (ne, m) =
      let other : (r.universe_idx == k) ≡ false = ground (arith, ne) in
      let (e, h) = given-Missing k u rs m in (rw (other, e) refl, rw (other, h) refl)

  Missing-get :
      (k : ℕ) (rs : List (RouteEntry B)) (i : ℕ) (r : RouteEntry B)
      → Missing k rs
      → get_elem? rs i ≡ some r
      → r.universe_idx ≢ k
  Missing-get k [] i r m e = absurd (ground arith)
  Missing-get k (x ∷ rs) zero r (ne, m) e = λ q. ne (ground (arith, q))
  Missing-get k (x ∷ rs) (suc i) r (ne, m) e = Missing-get k rs i r m e

  -- Writing the one route of an index is giving it the universe.
  pub set-given :
      (rs : List (RouteEntry B)) (i k : ℕ) (u : UniverseData) (r : RouteEntry B)
      → Distinct rs
      → get_elem? rs i ≡ some r
      → r.universe_idx ≡ k
      → (set rs i (sent_by send search r u) ≡ given k u rs) × (has_route k rs ≡ true)
  set-given [] i k u r d e q = absurd (ground arith)
  set-given (x ∷ rs) zero k u r (m, d) e q =
      let same : x ≡ r = ground arith in
      let here : (x.universe_idx == k) ≡ true = ground arith in
      let (g, h) =
        given-Missing k u rs (
          subst (λ (j : ℕ). Missing j rs) (ap (λ (y : RouteEntry B). y.universe_idx) same ∙ q) m) in
      (
        rw (here, g) (ap (λ (y : RouteEntry B). sent_by send search y u ∷ rs) (sym same)),
        rw here refl,
      )
  set-given (x ∷ rs) (suc i) k u r (m, d) e q =
      let apart : r.universe_idx ≢ x.universe_idx = Missing-get x.universe_idx rs i r m e in
      let other : (x.universe_idx == k) ≡ false = ground (arith, apart) in
      let (g, h) = set-given rs i k u r d e q in (rw (other, g) refl, rw (other, h) refl)

  given-Missing_kept :
      (j k : ℕ) (u : UniverseData) (rs : List (RouteEntry B))
      → Missing j rs
      → Missing j (given k u rs)
  given-Missing_kept j k u [] m = tt
  given-Missing_kept j k u (r ∷ rs) (ne, m) = elim (Bool-cases (r.universe_idx == k)) [
    | inl y ↦ rw y (ne, given-Missing_kept j k u rs m)
    | inr n ↦ rw n (ne, given-Missing_kept j k u rs m)
  ]

  pub given-Distinct :
      (k : ℕ) (u : UniverseData) (rs : List (RouteEntry B)) → Distinct rs → Distinct (given k u rs)
  given-Distinct k u [] d = tt
  given-Distinct k u (r ∷ rs) (m, d) =
      let m' = given-Missing_kept r.universe_idx k u rs m in
      elim (Bool-cases (r.universe_idx == k)) [
        | inl y ↦ rw y (m', given-Distinct k u rs d)
        | inr n ↦ rw n (m', given-Distinct k u rs d)
      ]

  given-Above :
      (j k : ℕ) (u : UniverseData) (rs : List (RouteEntry B)) → Above j rs → Above j (given k u rs)
  given-Above j k u [] a = tt
  given-Above j k u (r ∷ rs) (le, a) = elim (Bool-cases (r.universe_idx == k)) [
    | inl y ↦ rw y (le, given-Above j k u rs a)
    | inr n ↦ rw n (le, given-Above j k u rs a)
  ]

  pub given-Sorted :
      (k : ℕ) (u : UniverseData) (rs : List (RouteEntry B)) → Sorted rs → Sorted (given k u rs)
  given-Sorted k u [] s = tt
  given-Sorted k u (r ∷ rs) (a, s) =
      let a' = given-Above r.universe_idx k u rs a in
      elim (Bool-cases (r.universe_idx == k)) [
        | inl y ↦ rw y (a', given-Sorted k u rs s)
        | inr n ↦ rw n (a', given-Sorted k u rs s)
      ]

  insert_route-Missing :
      (j : ℕ) (r : RouteEntry B) (rs : List (RouteEntry B))
      → r.universe_idx ≢ j
      → Missing j rs
      → Missing j (insert_route send search r rs)
  unfolding insert_route
  insert_route-Missing j r [] ne m = (ne, tt)
  insert_route-Missing j r (x ∷ rs) ne (nx, m) =
      elim (Bool-cases (leb r.universe_idx x.universe_idx)) [
        | inl y ↦ rw (y, insert_route) (ne, (nx, m))
        | inr n ↦ rw (n, insert_route) (nx, insert_route-Missing j r rs ne m)
      ]

  sort_routes-Missing :
      (j : ℕ) (rs : List (RouteEntry B)) → Missing j rs → Missing j (sort_routes send search rs)
  unfolding sort_routes
  sort_routes-Missing j [] m = tt
  sort_routes-Missing j (r ∷ rs) (ne, m) =
      insert_route-Missing j r (sort_routes send search rs) ne (sort_routes-Missing j rs m)

  insert_route-Distinct :
      (r : RouteEntry B) (rs : List (RouteEntry B))
      → Missing r.universe_idx rs
      → Distinct rs
      → Distinct (insert_route send search r rs)
  unfolding insert_route
  insert_route-Distinct r [] m d = (tt, tt)
  insert_route-Distinct r (x ∷ rs) (nx, m) (mx, d) =
      elim (Bool-cases (leb r.universe_idx x.universe_idx)) [
        | inl y ↦ rw (y, insert_route) ((nx, m), (mx, d))
        | inr n ↦
            rw (n, insert_route)
              (
                insert_route-Missing x.universe_idx r rs (λ q. nx (sym q)) mx,
                insert_route-Distinct r rs m d,
              )
      ]

  pub sort_routes-Distinct :
      (rs : List (RouteEntry B)) → Distinct rs → Distinct (sort_routes send search rs)
  unfolding sort_routes
  sort_routes-Distinct [] d = tt
  sort_routes-Distinct (r ∷ rs) (m, d) =
      insert_route-Distinct r (sort_routes send search rs) (sort_routes-Missing r.universe_idx rs m)
        (sort_routes-Distinct rs d)

  Above-mono : (j k : ℕ) (rs : List (RouteEntry B)) → j ≤ k → Above k rs → Above j rs
  Above-mono j k [] le a = tt
  Above-mono j k (r ∷ rs) le (b, a) = (omega arith, Above-mono j k rs le a)

  insert_route-Above :
      (j : ℕ) (r : RouteEntry B) (rs : List (RouteEntry B))
      → j ≤ r.universe_idx
      → Above j rs
      → Above j (insert_route send search r rs)
  unfolding insert_route
  insert_route-Above j r [] le a = (le, tt)
  insert_route-Above j r (x ∷ rs) le (b, a) =
      elim (Bool-cases (leb r.universe_idx x.universe_idx)) [
        | inl y ↦ rw (y, insert_route) (le, (b, a))
        | inr n ↦ rw (n, insert_route) (b, insert_route-Above j r rs le a)
      ]

  insert_route-Sorted :
      (r : RouteEntry B) (rs : List (RouteEntry B))
      → Sorted rs
      → Sorted (insert_route send search r rs)
  unfolding insert_route
  insert_route-Sorted r [] s = (tt, tt)
  insert_route-Sorted r (x ∷ rs) (a, s) = elim (Bool-cases (leb r.universe_idx x.universe_idx)) [
    | inl y ↦
        let le : r.universe_idx ≤ x.universe_idx = ground arith in
        rw (y, insert_route) ((le, Above-mono r.universe_idx x.universe_idx rs le a), (a, s))
    | inr n ↦
        rw (n, insert_route)
          (insert_route-Above x.universe_idx r rs (ground arith) a, insert_route-Sorted r rs s)
  ]

  pub sort_routes-Sorted : (rs : List (RouteEntry B)) → Sorted (sort_routes send search rs)
  unfolding sort_routes
  sort_routes-Sorted [] = tt
  sort_routes-Sorted (r ∷ rs) =
      insert_route-Sorted r (sort_routes send search rs) (sort_routes-Sorted rs)
