-- ===== src/Protocols/Router/Order.antt =====
-- The order of a routing table does not matter to what its routes are given.
use led_platform.Prelude.{
  Bool, Bool-cases, List, Option, [], ap, inl, inr, refl, suc, true, false, leb, sym, u64, ℕ, ◌+◌,
  ◌==◌, ◌||◌, ◌∙◌, ◌∷◌, ◌≡◌,
}
use mathlib.Core.List.{Permᴰ}
use led_platform.Layout.Apply.{UniverseData}
use led_platform.Protocols.Router.{sort_routes, insert_route, RouteEntry, RouterDevice}
use led_platform.Protocols.Router.Dispatch.{
  dispatched_one, dispatched, given, given_default, has_route, touched,
}

or_swap : (p q h : Bool) → (p || (q || h)) ≡ (q || (p || h))
or_swap true true h = refl
or_swap true false h = refl
or_swap false true h = refl
or_swap false false h = refl

module _ {B : Type 0} where
  has_route-Permᴰ :
      (k : ℕ) {rs ss : List (RouteEntry B)} → Permᴰ rs ss → has_route k rs ≡ has_route k ss
  has_route-Permᴰ k Permᴰ.nil = refl
  has_route-Permᴰ k (Permᴰ.cons {b = b} {l₁ = l₁} e p) =
      ap (λ (r : RouteEntry B). r.universe_idx == k || has_route k l₁) e
      ∙ ap (λ (h : Bool). b.universe_idx == k || h) (has_route-Permᴰ k p)
  has_route-Permᴰ k (Permᴰ.swap {a = a} {b = b} {a' = a'} {l = l} e₁ e₂) =
      or_swap (a.universe_idx == k) (b.universe_idx == k) (has_route k l)
      ∙ ap (λ (r : RouteEntry B). r.universe_idx == k || (a.universe_idx == k || has_route k l)) e₂
      ∙ ap (λ (r : RouteEntry B). a'.universe_idx == k || (r.universe_idx == k || has_route k l)) e₁
  has_route-Permᴰ k (Permᴰ.trans p q) = has_route-Permᴰ k p ∙ has_route-Permᴰ k q

module _ {B : Type 0} (send : B → UniverseData → B × Bool)
    (search : List (RouteEntry B) → ℕ → Option ℕ) where
  given-Permᴰ :
      (k : ℕ) (u : UniverseData) {rs ss : List (RouteEntry B)}
      → Permᴰ rs ss
      → Permᴰ (given send search k u rs) (given send search k u ss)
  given-Permᴰ k u Permᴰ.nil = Permᴰ.nil
  given-Permᴰ k u (Permᴰ.cons e p) = Permᴰ.cons (ap (touched send search k u) e) (given-Permᴰ k u p)
  given-Permᴰ k u (Permᴰ.swap e₁ e₂) =
      Permᴰ.swap (ap (touched send search k u) e₁) (ap (touched send search k u) e₂)
  given-Permᴰ k u (Permᴰ.trans p q) = Permᴰ.trans (given-Permᴰ k u p) (given-Permᴰ k u q)

  insert_route-Permᴰ :
      (r : RouteEntry B) (rs : List (RouteEntry B)) → Permᴰ (insert_route send search r rs) (r ∷ rs)
  unfolding insert_route
  insert_route-Permᴰ r [] = Permᴰ.cons refl Permᴰ.nil
  insert_route-Permᴰ r (x ∷ xs) = elim (Bool-cases (leb r.universe_idx x.universe_idx)) [
    | inl y ↦ rw (y, insert_route) (Permᴰ.trans (Permᴰ.swap refl refl) (Permᴰ.swap refl refl))
    | inr n ↦
        rw (n, insert_route)
          (Permᴰ.trans (Permᴰ.cons refl (insert_route-Permᴰ r xs)) (Permᴰ.swap refl refl))
  ]

  pub sort_routes-Permᴰ : (rs : List (RouteEntry B)) → Permᴰ (sort_routes send search rs) rs
  unfolding sort_routes
  sort_routes-Permᴰ [] = Permᴰ.nil
  sort_routes-Permᴰ (r ∷ rs) =
      Permᴰ.trans (insert_route-Permᴰ r (sort_routes send search rs))
        (Permᴰ.cons refl (sort_routes-Permᴰ rs))

  -- Routers with the same routes in any order, the same default and the same count.
  pub record Alike (d e : RouterDevice B) : Type 0 where
    pub routes : Permᴰ d.routes e.routes
    pub fallback : d.fallback ≡ e.fallback
    pub count : d.frames_sent ≡ e.frames_sent

  dispatched_one-Alike :
      (k : ℕ) (u : UniverseData) (d e : RouterDevice B)
      → Alike d e
      → Alike (dispatched_one send search k u d) (dispatched_one send search k u e)
  dispatched_one-Alike k u d e a = elim (Bool-cases (has_route k d.routes)) [
    | inl y ↦
        let y' : has_route k e.routes ≡ true = sym (has_route-Permᴰ k a.routes) ∙ y in
        rw (y, y')
          (record { routes = given-Permᴰ k u a.routes; fallback = a.fallback; count = a.count })
    | inr n ↦
        let n' : has_route k e.routes ≡ false = sym (has_route-Permᴰ k a.routes) ∙ n in
        rw (n, n')
          (record {
            routes = a.routes;
            fallback = ap (given_default send search u) a.fallback;
            count = a.count;
          })
  ]

  pub dispatched-Alike :
      (k : ℕ) (us : List UniverseData) (d e : RouterDevice B)
      → Alike d e
      → Alike (dispatched send search k us d) (dispatched send search k us e)
  dispatched-Alike k [] d e a = record {
    routes = a.routes;
    fallback = a.fallback;
    count = ap (λ (n : ℕ). u64 (n + 1)) a.count;
  }
  dispatched-Alike k (u ∷ us) d e a =
      dispatched-Alike (suc k) us (dispatched_one send search k u d)
        (dispatched_one send search k u e) (dispatched_one-Alike k u d e a)
