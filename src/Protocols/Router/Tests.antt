-- ===== src/Protocols/Router/Tests.antt =====
-- Two routes, out of order, and a default; a search from the front; a back end lists what it took.
use led_platform.Prelude.{
  Bool, Bool-cases, List, Option, [], arith, if◌then◌else◌, inl, inr, none, refl, some, suc, true,
  ℕ, ◌==◌, ◌∷◌, ◌≡◌, ◌≢◌,
}
use mathlib.Core.List.{Perm}
use led_platform.Layout.Apply.{UniverseData}
use led_platform.Protocols.Router.{RouteEntry, send_physical, new}
use led_platform.Protocols.Router.Dispatch.{Sorted, Found, dispatched}
use led_platform.Protocols.Router.Delivery.{send_physical-dispatched}

abbrev Log : Type 0
Log = List ℕ

abbrev note : Log → UniverseData → Log × Bool
note log u = (u.universe ∷ log, true)

abbrev one_further : Option ℕ → Option ℕ
one_further none = none
one_further (some i) = some (suc i)

abbrev find_first : List (RouteEntry Log) → ℕ → Option ℕ
find_first [] k = none
find_first (r ∷ rs) k =
    let further = one_further (find_first rs k) in if r.universe_idx == k then some 0 else further

further-Found :
    (r : RouteEntry Log) (rs : List (RouteEntry Log)) (k : ℕ) (o : Option ℕ)
    → r.universe_idx ≢ k
    → Found rs k o
    → Found (r ∷ rs) k (one_further o)
further-Found r rs k none ne f = (ne, f)
further-Found r rs k (some i) ne f = f

find_first-Found : (rs : List (RouteEntry Log)) (k : ℕ) → Sorted rs → Found rs k (find_first rs k)
find_first-Found [] k s = tt
find_first-Found (r ∷ rs) k (a, s) = elim (Bool-cases (r.universe_idx == k)) [
  | inl y ↦ rw y (r, refl, ground arith)
  | inr n ↦ rw n (further-Found r rs k (find_first rs k) (ground arith) (find_first-Found rs k s))
]

abbrev routes : List (RouteEntry Log)
routes = record { universe_idx = 2; backend = [] } ∷ record { universe_idx = 0; backend = [] } ∷ []

abbrev numbered : ℕ → UniverseData
numbered n = record { universe = n; data_bytes = [] }

abbrev frame : List UniverseData
frame = numbered 10 ∷ numbered 11 ∷ numbered 12 ∷ []

fanned_out : send_physical note find_first frame (new note find_first routes (some [])) ≡ (
  record {
    routes =
        record { universe_idx = 0; backend = 10 ∷ [] }
        ∷ record { universe_idx = 2; backend = 12 ∷ [] }
        ∷ [];
    fallback = some (11 ∷ []);
    frames_sent = 1;
  },
  true,
)
unfolding send_physical new
fanned_out = refl

send_physical-dispatched_example :
    let (d, sent) = send_physical note find_first frame (new note find_first routes (some [])) in
    let wanted =
      dispatched note find_first 0 frame
        (record { routes = routes; fallback = some []; frames_sent = 0 }) in
    (sent ≡ true)
    × Perm d.routes wanted.routes
    × Sorted d.routes
    × (d.fallback ≡ wanted.fallback)
    × (d.frames_sent ≡ 1)
send_physical-dispatched_example =
    send_physical-dispatched note find_first (λ b u. refl) find_first-Found routes (some []) frame
      ((λ q. ground (arith, q), tt), (tt, tt))
