-- ===== src/Hardware/Shares.antt =====
-- `repartir`: what each unit gets, and when the show is shared out.
use led_platform.Prelude.{
  dec_lt, is_ok, leb, ltb, not, ◌||◌, ◌≤◌, Bool-cases, ap, err, inl, inr, length, mul_mono, u32,
  u64, zero, ◌&&◌, ◌==◌, ok, List, Result, [], arith, false, min, refl, suc, ◌*◌, ◌+◌, ◌-◌, ◌<◌,
  ◌∷◌, ◌≡◌, ◌⊎◌, ℕ,
}
use led_platform.Hardware.Repartition.{
  UnidadeVazia, is_recusa, Fatia, RepartirError, fatias_from, repartir, push_fatia,
}

abbrev pub total_pixels : List Fatia → ℕ
total_pixels [] = 0
total_pixels (f ∷ fs) = f.pixel_count + total_pixels fs

push_fatia-inversion :
    (f : Fatia) (r : Result RepartirError (List Fatia)) (fs : List Fatia)
    → push_fatia f r ≡ ok fs
    → (gs : List Fatia) × (r ≡ ok gs) × (fs ≡ f ∷ gs)
push_fatia-inversion f (ok gs) fs e = (gs, refl, ground arith)
push_fatia-inversion f (err x) fs e = absurd (ground arith)

-- One round of the loop that goes on.
pub fatias_from-inversion :
    (n i total tecto unidades : ℕ) (vazia : UnidadeVazia) (fs : List Fatia)
    → i * tecto < 4294967296
    → fatias_from (suc n) i total tecto unidades vazia ≡ ok fs
    → (gs : List Fatia) × (fatias_from n (suc i) total tecto unidades vazia ≡ ok gs)
      × (fs ≡ record { pixel_offset = i * tecto; pixel_count = min (total - i * tecto) tecto } ∷ gs)
      × ((0 < min (total - i * tecto) tecto) ⊎ (is_recusa vazia ≡ false))
unfolding fatias_from
fatias_from-inversion n i total tecto unidades vazia fs w e =
    elim (Bool-cases (min (total - u64 (i * tecto)) tecto == 0 && is_recusa vazia)) [
      | inl empty ↦ absurd (ground arith)
      | inr kept ↦
          let small : u64 (i * tecto) ≡ i * tecto = omega arith in
          let (gs, r, p) =
            push_fatia-inversion
              (record {
                pixel_offset = u32 (u64 (i * tecto));
                pixel_count = min (total - u64 (i * tecto)) tecto;
              })
              (fatias_from n (suc i) total tecto unidades vazia) fs (ground arith) in
          (gs, r, ground (arith, small), ground (arith, small))
    ]

-- Unit `k` of the loop starts at the units before it and takes what is left, up to the limit.
abbrev pub IsShared : ℕ → ℕ → ℕ → List Fatia → Type 0
IsShared i total tecto [] = Unit {0}
IsShared i total tecto (f ∷ fs) =
    (f.pixel_offset ≡ i * tecto)
    × (f.pixel_count ≡ min (total - i * tecto) tecto)
    × IsShared (suc i) total tecto fs

pub fatias_from-IsShared :
    (n i total tecto unidades : ℕ) (vazia : UnidadeVazia) (fs : List Fatia)
    → (i + n) * tecto < 4294967296
    → fatias_from n i total tecto unidades vazia ≡ ok fs
    → IsShared i total tecto fs
      × (length fs ≡ n)
      × (total_pixels fs ≡ min (total - i * tecto) (n * tecto))
fatias_from-IsShared zero i total tecto unidades vazia fs w e = unfold fatias_from in ground arith
fatias_from-IsShared (suc n) i total tecto unidades vazia fs w e =
    let (gs, r, p, q) =
      fatias_from-inversion n i total tecto unidades vazia fs
        (omega (arith, mul_mono i (i + suc n) tecto)) e in
    let (s, l, t) = fatias_from-IsShared n (suc i) total tecto unidades vazia gs (omega arith) r in
    rw p ((refl, refl, s), ap suc l, omega (arith, t))

-- Where `repartir` succeeds, with products below 2^32, there are as many slices as units, slice
-- `k` starts at `k` times the limit and takes what is left, up to the limit, and the slices add up
-- to all the pixels.
pub repartir-IsShared :
    (total tecto unidades : ℕ) (vazia : UnidadeVazia) (fs : List Fatia)
    → tecto * unidades < 4294967296
    → repartir total tecto unidades vazia ≡ ok fs
    → IsShared 0 total tecto fs × (length fs ≡ unidades) × (total_pixels fs ≡ total)
unfolding repartir
repartir-IsShared total tecto unidades vazia fs w e =
    let r : fatias_from unidades 0 total tecto unidades vazia ≡ ok fs = ground arith in
    let fits : total ≤ tecto * unidades = ground arith in
    let (s, l, t) = fatias_from-IsShared unidades 0 total tecto unidades vazia fs (omega arith) r in
    (s, l, omega (arith, t))

is_ok-push_fatia :
    (f : Fatia) (r : Result RepartirError (List Fatia)) → is_ok (push_fatia f r) ≡ is_ok r
is_ok-push_fatia f (ok fs) = refl
is_ok-push_fatia f (err e) = refl

is_ok-fatias_from :
    (n i total tecto unidades : ℕ) (vazia : UnidadeVazia)
    → 0 < tecto
    → (i + n) * tecto < 4294967296
    → is_ok (fatias_from n i total tecto unidades vazia)
      ≡ (not (is_recusa vazia) || (n == 0 || ltb ((i + (n - 1)) * tecto) total))
unfolding fatias_from
is_ok-fatias_from zero i total tecto unidades vazia p w = ground arith
is_ok-fatias_from (suc n) i total tecto unidades vazia p w =
    let small : u64 (i * tecto) ≡ i * tecto = omega (arith, mul_mono i (i + suc n) tecto) in
    let ih = is_ok-fatias_from n (suc i) total tecto unidades vazia p (omega arith) in
    let f : Fatia = record {
      pixel_offset = u32 (u64 (i * tecto));
      pixel_count = min (total - u64 (i * tecto)) tecto;
    } in
    let pushed = is_ok-push_fatia f (fatias_from n (suc i) total tecto unidades vazia) in
    ground (arith, small, ih, pushed, mul_mono i (i + n) tecto)

-- With products below 2^32 `repartir` succeeds exactly when there are units, the limit is not 0,
-- the pixels fit, and, where empty units are refused, the last unit gets a pixel.
pub is_ok-repartir :
    (total tecto unidades : ℕ) (vazia : UnidadeVazia)
    → tecto * unidades < 4294967296
    → is_ok (repartir total tecto unidades vazia) ≡ (
        ltb 0 unidades
        && (ltb 0 tecto
            && (leb total (tecto * unidades)
                && (not (is_recusa vazia) || ltb ((unidades - 1) * tecto) total))))
unfolding repartir
is_ok-repartir total tecto unidades vazia w = elim (dec_lt 0 tecto) [
  | yes p ↦ ground (arith, is_ok-fatias_from unidades 0 total tecto unidades vazia p (omega arith))
  | no n ↦ ground arith
]
