-- ===== src/Protocols/Router/Delivery.antt =====
-- `send_physical` of the router against its description without a search.
use led_platform.Prelude.{
  u64, ◌+◌, Bool, Bool-cases, List, Option, [], ap, false, inl, inr, none, refl, some, suc, true, ℕ,
  ◌∙◌, ◌∷◌, ◌≡◌,
}
use mathlib.Core.List.{Perm}
use led_platform.Protocols.Router.Order.{dispatched-Alike, sort_routes-Permᴰ}
use led_platform.Layout.Apply.{UniverseData}
use led_platform.Protocols.Router.{
  next_universe, or_default, find_backend, new, send_target, send_physical, send_from, RouteEntry,
  RouterDevice,
}
use led_platform.Protocols.Router.Dispatch.{
  dispatched_one, sort_routes-Sorted, set-given, given-Missing, sort_routes-Distinct, dispatched,
  given-Distinct, given-Sorted, Distinct, has_route, Found, Sorted,
}

module _ {B : Type 0} (send : B → UniverseData → B × Bool)
    (search : List (RouteEntry B) → ℕ → Option ℕ)
    (takes : (b : B) (u : UniverseData) → (send b u).1 ≡ true)
    (finds : (rs : List (RouteEntry B)) (k : ℕ) → Sorted rs → Found rs k (search rs k)) where
  abbrev router : List (RouteEntry B) → Option B → ℕ → RouterDevice B
  router routes fallback n = record { routes = routes; fallback = fallback; frames_sent = n }

  send_unrouted :
      (k : ℕ) (u : UniverseData) (rs : List (RouteEntry B)) (fallback : Option B) (n : ℕ)
      → has_route k rs ≡ false
      → send_target send search (router rs fallback n) u (or_default send search none fallback)
        ≡ (dispatched_one send search k u (router rs fallback n), true)
  send_unrouted k u rs none n h = rw h refl
  send_unrouted k u rs (some b) n h = rw (h, takes b u) refl

  send_target-dispatched_one :
      (k : ℕ) (u : UniverseData) (rs : List (RouteEntry B)) (fallback : Option B) (n : ℕ)
      (o : Option ℕ)
      → Distinct rs
      → Found rs k o
      → send_target send search (router rs fallback n) u (or_default send search o fallback)
        ≡ (dispatched_one send search k u (router rs fallback n), true)
  send_target-dispatched_one k u rs fallback n none d f =
      send_unrouted k u rs fallback n (given-Missing send search k u rs f).1
  send_target-dispatched_one k u rs fallback n (some i) d (r, e, q) =
      let (g, h) = set-given send search rs i k u r d e q in
      rw (e, h) (rw (takes r.backend u, g) refl)

  dispatched_one-Distinct :
      (k : ℕ) (u : UniverseData) (d : RouterDevice B)
      → Distinct d.routes
      → Distinct (dispatched_one send search k u d).routes
  dispatched_one-Distinct k u d v = elim (Bool-cases (has_route k d.routes)) [
    | inl y ↦ rw y (given-Distinct send search k u d.routes v)
    | inr n ↦ rw n v
  ]

  dispatched_one-Sorted :
      (k : ℕ) (u : UniverseData) (d : RouterDevice B)
      → Sorted d.routes
      → Sorted (dispatched_one send search k u d).routes
  dispatched_one-Sorted k u d v = elim (Bool-cases (has_route k d.routes)) [
    | inl y ↦ rw y (given-Sorted send search k u d.routes v)
    | inr n ↦ rw n v
  ]

  dispatched-Sorted :
      (k : ℕ) (us : List UniverseData) (d : RouterDevice B)
      → Sorted d.routes
      → Sorted (dispatched send search k us d).routes
  dispatched-Sorted k [] d v = v
  dispatched-Sorted k (u ∷ us) d v =
      dispatched-Sorted (suc k) us (dispatched_one send search k u d)
        (dispatched_one-Sorted k u d v)

  dispatched_one_count :
      (k : ℕ) (u : UniverseData) (d : RouterDevice B)
      → (dispatched_one send search k u d).frames_sent ≡ d.frames_sent
  dispatched_one_count k u d = elim (Bool-cases (has_route k d.routes)) [
    | inl y ↦ rw y refl
    | inr n ↦ rw n refl
  ]

  dispatched_count :
      (k : ℕ) (us : List UniverseData) (d : RouterDevice B)
      → (dispatched send search k us d).frames_sent ≡ u64 (d.frames_sent + 1)
  dispatched_count k [] d = refl
  dispatched_count k (u ∷ us) d =
      dispatched_count (suc k) us (dispatched_one send search k u d)
      ∙ ap (λ (n : ℕ). u64 (n + 1)) (dispatched_one_count k u d)

  send_from-dispatched :
      (k : ℕ) (us : List UniverseData) (d : RouterDevice B)
      → Distinct d.routes
      → Sorted d.routes
      → send_from send search k us d ≡ (dispatched send search k us d, true)
  unfolding send_from find_backend
  send_from-dispatched k [] d v s = refl
  send_from-dispatched k (u ∷ us) d v s =
      let e =
        send_target-dispatched_one k u d.routes d.fallback d.frames_sent (search d.routes k) v
          (finds d.routes k s) in
      ap
        (λ (p : RouterDevice B × Bool).
          next_universe send search p (λ d'. send_from send search (suc k) us d'))
        e
      ∙ send_from-dispatched (suc k) us (dispatched_one send search k u d)
          (dispatched_one-Distinct k u d v) (dispatched_one-Sorted k u d s)

  -- A router before its first frame, with the routes as they were listed.
  abbrev pub listed : List (RouteEntry B) → Option B → RouterDevice B
  listed routes fallback = router routes fallback 0

  -- For routes with distinct indices, in any order, back ends that take what they are sent, and a
  -- search that finds exactly the indices of a sorted table, `send_physical` on a new router
  -- succeeds and does what a description without search or sorting does on the routes as they were
  -- listed: the universe at each place of the frame goes to the one back end of that index, or
  -- else to the default where there is one. The router keeps all its routes, in the order of their
  -- indices, and counts one frame.
  pub send_physical-dispatched :
      (routes : List (RouteEntry B)) (fallback : Option B) (us : List UniverseData)
      → Distinct routes
      → let (d, sent) = send_physical send search us (new send search routes fallback) in
        let wanted = dispatched send search 0 us (listed routes fallback) in
        (sent ≡ true)
        × Perm d.routes wanted.routes
        × Sorted d.routes
        × (d.fallback ≡ wanted.fallback)
        × (d.frames_sent ≡ 1)
  unfolding send_physical new
  send_physical-dispatched routes fallback us v =
      let d = new send search routes fallback in
      let e =
        send_from-dispatched 0 us d (sort_routes-Distinct send search routes v)
          (sort_routes-Sorted send search routes) in
      let same =
        dispatched-Alike send search 0 us d (listed routes fallback) (record {
          routes = sort_routes-Permᴰ send search routes;
          fallback = refl;
          count = refl;
        }) in
      rw e (
        refl,
        ∣ same.routes ∣₁,
        dispatched-Sorted 0 us d (sort_routes-Sorted send search routes),
        same.fallback,
        dispatched_count 0 us d,
      )
