-- ===== src/Layout/Index.antt =====
-- The loops of `CompiledLayout::compile`: what each adds to the tables that it builds.
use mathlib.Core.List.{append-nil, append_assoc}
use led_platform.Prelude.{
  ℕ, ◌≡◌, refl, sym, ◌∙◌, Bool, true, false, ◌&&◌, ◌||◌, List, [], ◌∷◌, ◌++◌, ◌==◌, if◌then◌else◌,
  arith,
}
use led_platform.Layout.Compile.{
  DeviceId, PixelPhysical, contains, add_universe, per_device, Built, index_universes, index_at,
}

-- The device has an entry, and the universe is in it.
abbrev pub holds : DeviceId → ℕ → List (DeviceId × List ℕ) → Bool
holds dev u [] = false
holds dev u ((d, us) ∷ rest) = if d == dev then contains us u else holds dev u rest

abbrev pub absent : DeviceId → List (DeviceId × List ℕ) → Bool
absent dev [] = true
absent dev ((d, us) ∷ rest) = if d == dev then false else absent dev rest

abbrev pub Unique : List (DeviceId × List ℕ) → Type 0
Unique [] = Unit {0}
Unique ((d, us) ∷ rest) = (absent d rest ≡ true) × Unique rest

contains-append : (us : List ℕ) (u v : ℕ) → contains (us ++ u ∷ []) v ≡ (u == v || contains us v)
unfolding contains
contains-append [] u v = ground arith
contains-append (w ∷ us) u v = ground (arith, contains-append us u v)

holds-add_universe :
    (d u : ℕ) (dev v : ℕ) (pd : List (DeviceId × List ℕ))
    → holds dev v (add_universe d u pd) ≡ ((d == dev && u == v) || holds dev v pd)
unfolding add_universe contains
holds-add_universe d u dev v [] = ground arith
holds-add_universe d u dev v ((e, us) ∷ pd) =
    ground (arith, contains-append us u v, holds-add_universe d u dev v pd)

absent-add_universe :
    (d u dev : ℕ) (pd : List (DeviceId × List ℕ))
    → absent dev pd ≡ true
    → (d == dev) ≡ false
    → absent dev (add_universe d u pd) ≡ true
unfolding add_universe
absent-add_universe d u dev [] a n = ground arith
absent-add_universe d u dev ((e, us) ∷ pd) a n = ground (arith, absent-add_universe d u dev pd)

add_universe-Unique :
    (d u : ℕ) (pd : List (DeviceId × List ℕ)) → Unique pd → Unique (add_universe d u pd)
unfolding add_universe
add_universe-Unique d u [] h = (refl, tt)
add_universe-Unique d u ((e, us) ∷ pd) h =
    ground (arith, add_universe-Unique d u pd h.1, absent-add_universe d u e pd)

pub per_device-Unique :
    (xs : List PixelPhysical) (acc : List (DeviceId × List ℕ))
    → Unique acc
    → Unique (per_device xs acc)
unfolding per_device
per_device-Unique [] acc h = h
per_device-Unique (a ∷ xs) acc h =
    per_device-Unique xs (add_universe a.device a.universe acc)
      (add_universe-Unique a.device a.universe acc h)

pub holds-per_device :
    (xs : List PixelPhysical) (acc : List (DeviceId × List ℕ)) (dev u : ℕ)
    → holds dev u acc ≡ true
    → holds dev u (per_device xs acc) ≡ true
unfolding per_device
holds-per_device [] acc dev u h = h
holds-per_device (a ∷ xs) acc dev u h =
    holds-per_device xs (add_universe a.device a.universe acc) dev u
      (ground (arith, holds-add_universe a.device a.universe dev u acc))

abbrev pub AllHeld : List (DeviceId × List ℕ) → List PixelPhysical → Type 0
AllHeld pd [] = Unit {0}
AllHeld pd (a ∷ xs) = (holds a.device a.universe pd ≡ true) × AllHeld pd xs

pub per_device-AllHeld :
    (xs : List PixelPhysical) (acc : List (DeviceId × List ℕ)) → AllHeld (per_device xs acc) xs
unfolding per_device
per_device-AllHeld [] acc = tt
per_device-AllHeld (a ∷ xs) acc = (
  holds-per_device xs (add_universe a.device a.universe acc) a.device a.universe
      (ground (arith, holds-add_universe a.device a.universe a.device a.universe acc)),
  per_device-AllHeld xs (add_universe a.device a.universe acc),
)

pub universes-index_universes :
    (dev : ℕ) (us : List ℕ) (b : Built) → (index_universes dev us b).universes ≡ b.universes ++ us
unfolding index_universes
universes-index_universes dev [] b = sym (append-nil b.universes)
universes-index_universes dev (u ∷ us) b =
    universes-index_universes dev us _ ∙ append_assoc b.universes (u ∷ []) us

pub ranges-index_universes :
    (dev : ℕ) (us : List ℕ) (b : Built) → (index_universes dev us b).device_ranges ≡ b.device_ranges
unfolding index_universes
ranges-index_universes dev [] b = refl
ranges-index_universes dev (u ∷ us) b = ranges-index_universes dev us _

-- The universes of one device give no other key.
pub index_at-index_universes_ne :
    (dev : ℕ) (us : List ℕ) (b : Built) (d u : ℕ)
    → ((dev == d && contains us u) ≡ false)
    → index_at d u (index_universes dev us b).index_of ≡ index_at d u b.index_of
unfolding index_universes index_at contains
index_at-index_universes_ne dev [] b d u h = refl
index_at-index_universes_ne dev (v ∷ us) b d u h =
    index_at-index_universes_ne dev us _ d u (ground arith) ∙ ground arith
