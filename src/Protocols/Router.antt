-- ===== src/Protocols/Router.antt =====
-- crates/led-protocols/src/router.rs: `RouterDevice`, over any type `B` of back ends with the result of
-- their `send_universe`. `search` is the library's `binary_search_by_key`, on the sorted routes.
pub mod Dispatch
pub mod Order
pub mod Delivery
mod Tests
use led_platform.Prelude.{
  Bool, List, Option, [], false, get_elem?, if◌then◌else◌, leb, none, set, some, suc, true, u64, ℕ,
  ◌+◌, ◌∷◌,
}
use led_platform.Layout.Apply.{UniverseData}

pub record RouteEntry (B : Type 0) : Type 0 where
  pub universe_idx : ℕ
  pub backend : B

pub record RouterDevice (B : Type 0) : Type 0 where
  pub routes : List (RouteEntry B)
  pub fallback : Option B
  pub frames_sent : ℕ

-- Where a universe goes.
pub data Target : Type 0 where
  route : ℕ → Target
  default skipped : Target

module _ {B : Type 0} (send : B → UniverseData → B × Bool)
    (search : List (RouteEntry B) → ℕ → Option ℕ) where
  -- `sort_by_key`, which is stable.
  unfoldable pub insert_route : RouteEntry B → List (RouteEntry B) → List (RouteEntry B)
  insert_route r [] = r ∷ []
  insert_route r (x ∷ xs) =
      let further = x ∷ insert_route r xs in
      if leb r.universe_idx x.universe_idx then r ∷ x ∷ xs else further

  unfoldable pub sort_routes : List (RouteEntry B) → List (RouteEntry B)
  unfolding insert_route
  sort_routes [] = []
  sort_routes (r ∷ rs) = insert_route r (sort_routes rs)

  unfoldable pub new : List (RouteEntry B) → Option B → RouterDevice B
  unfolding sort_routes
  new routes fallback = record { routes = sort_routes routes; fallback = fallback; frames_sent = 0 }

  abbrev pub or_default : Option ℕ → Option B → Target
  or_default (some i) fallback = route i
  or_default none (some b) = default
  or_default none none = skipped

  unfoldable pub find_backend : RouterDevice B → ℕ → Target
  find_backend d universe_idx = or_default (search d.routes universe_idx) d.fallback

  abbrev pub sent_by : RouteEntry B → UniverseData → RouteEntry B
  sent_by r u = record r { backend = (send r.backend u).0 }

  -- A route out of range is a panic, which is a failure here.
  abbrev pub send_route :
      RouterDevice B → ℕ → UniverseData → Option (RouteEntry B) → RouterDevice B × Bool
  send_route d i u none = (d, false)
  send_route d i u (some r) =
      (record d { routes = set d.routes i (sent_by r u) }, (send r.backend u).1)

  abbrev pub send_default : RouterDevice B → UniverseData → Option B → RouterDevice B × Bool
  send_default d u none = (d, true)
  send_default d u (some b) = (record d { fallback = some (send b u).0 }, (send b u).1)

  abbrev pub send_target : RouterDevice B → UniverseData → Target → RouterDevice B × Bool
  send_target d u (route i) = send_route d i u (get_elem? d.routes i)
  send_target d u default = send_default d u d.fallback
  send_target d u skipped = (d, true)

  abbrev pub next_universe :
      RouterDevice B × Bool → (RouterDevice B → RouterDevice B × Bool) → RouterDevice B × Bool
  next_universe (d, true) rest = rest d
  next_universe (d, false) rest = (d, false)

  unfoldable pub send_from : ℕ → List UniverseData → RouterDevice B → RouterDevice B × Bool
  unfolding find_backend
  send_from idx [] d = (record d { frames_sent = u64 (d.frames_sent + 1) }, true)
  send_from idx (u ∷ us) d =
      next_universe (send_target d u (find_backend d idx)) (λ d'. send_from (suc idx) us d')

  unfoldable pub send_physical : List UniverseData → RouterDevice B → RouterDevice B × Bool
  unfolding send_from
  send_physical universes d = send_from 0 universes d
