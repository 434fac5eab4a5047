-- ===== src/Hardware/Ports.antt =====
-- `repartir_portas_de`: where each port starts, and that no two ports share a universe.
use led_platform.Hardware.Shares.{IsShared, repartir-IsShared}
use native.Mathlib.Nat.{add-zero, zero-add, div-mul-le_self}
use led_platform.Prelude.{
  div_mono, suc-mul_mono, ◌≤◌, ap, get_elem?, min, some, zero, ◌-◌, ◌/◌, List, Result-cases, [],
  arith, inl, inr, length, mul_mono, ok, suc, u32, ◌*◌, ◌+◌, ◌<◌, ◌∷◌, ◌≡◌, ℕ,
}
use led_platform.Hardware.Repartition.{
  aceita, repartir, repartir_portas_de, div_ceil, Fatia, FatiaDePorta, porta_of, portas_from,
}

-- Port `k` starts `k` ports' worth of universes after the first.
abbrev pub IsAligned : ℕ → ℕ → ℕ → List FatiaDePorta → Type 0
IsAligned k step first [] = Unit {0}
IsAligned k step first (p ∷ ps) =
    (p.universe_start ≡ first + k * step)
    × (p.universe_start < 65536)
    × IsAligned (suc k) step first ps

-- The slices are those of the shares.
abbrev pub SameSlices : List Fatia → List FatiaDePorta → Type 0
SameSlices [] [] = Unit {0}
SameSlices (f ∷ fs) (p ∷ ps) =
    (p.pixel_offset ≡ f.pixel_offset) × (p.pixel_count ≡ f.pixel_count) × SameSlices fs ps
SameSlices _ _ = ⊥

portas_from-inversion :
    (k step first : ℕ) (f : Fatia) (fs : List Fatia) (ps : List FatiaDePorta)
    → portas_from k step first (f ∷ fs) ≡ ok ps
    → (p : FatiaDePorta) × (qs : List FatiaDePorta) × (porta_of k step first f ≡ ok p)
      × (portas_from (suc k) step first fs ≡ ok qs)
      × (ps ≡ p ∷ qs)
unfolding portas_from
portas_from-inversion k step first f fs ps e = elim (Result-cases (porta_of k step first f)) [
  | inr (x, n) ↦ absurd (ground arith)
  | inl (p, a) ↦ elim (Result-cases (portas_from (suc k) step first fs)) [
    | inr (x, n) ↦ absurd (ground arith)
    | inl (qs, b) ↦ (p, qs, a, b, ground arith)
  ]
]

porta_of-start :
    (k step first : ℕ) (f : Fatia) (p : FatiaDePorta)
    → first + k * step < 4294967296
    → porta_of k step first f ≡ ok p
    → (p.universe_start ≡ first + k * step)
      × (p.universe_start < 65536)
      × (p.pixel_offset ≡ f.pixel_offset)
      × (p.pixel_count ≡ f.pixel_count)
unfolding porta_of
porta_of-start k step first f p w e =
    let small : u32 (first + u32 (k * step)) ≡ first + k * step = omega arith in
    ground (arith, small)

portas_from-IsAligned :
    (fs : List Fatia) (k step first : ℕ) (ps : List FatiaDePorta)
    → first + (k + length fs) * step < 4294967296
    → portas_from k step first fs ≡ ok ps
    → IsAligned k step first ps × SameSlices fs ps
portas_from-IsAligned [] k step first ps w e = unfold portas_from in ground arith
portas_from-IsAligned (f ∷ fs) k step first ps w e =
    let (p, qs, a, b, q) = portas_from-inversion k step first f fs ps e in
    let (s, l, o, c) =
      porta_of-start k step first f p (omega (arith, mul_mono k (k + suc (length fs)) step)) a in
    let (al, sl) = portas_from-IsAligned fs (suc k) step first qs (omega arith) b in
    rw q ((s, l, al), (o, c, sl))

get-IsAligned :
    (ps : List FatiaDePorta) (k step first i : ℕ) (p : FatiaDePorta)
    → IsAligned k step first ps
    → get_elem? ps i ≡ some p
    → (p.universe_start ≡ first + (k + i) * step) × (p.universe_start < 65536)
get-IsAligned [] k step first i p a g = absurd (ground arith)
get-IsAligned (q ∷ ps) k step first zero p a g =
    (ground (arith, a.0, ap (λ (n : ℕ). n * step) (add-zero k)), ground (arith, a.1))
get-IsAligned (q ∷ ps) k step first (suc i) p a g =
    let (s, l) = get-IsAligned ps (suc k) step first i p a.2 g in (omega (arith, s), l)

get-SameSlices :
    (fs : List Fatia) (ps : List FatiaDePorta) (k total tecto i : ℕ) (p : FatiaDePorta)
    → IsShared k total tecto fs
    → SameSlices fs ps
    → get_elem? ps i ≡ some p
    → (p.pixel_offset ≡ (k + i) * tecto) × (p.pixel_count ≡ min (total - (k + i) * tecto) tecto)
get-SameSlices [] [] k total tecto i p s c g = absurd (ground arith)
get-SameSlices [] (q ∷ ps) k total tecto i p s c g = absurd c
get-SameSlices (f ∷ fs) [] k total tecto i p s c g = absurd c
get-SameSlices (f ∷ fs) (q ∷ ps) k total tecto zero p s c g =
    let z : (k + 0) * tecto ≡ k * tecto = omega arith in rw z (ground (arith, s.0, s.1, c.0, c.1))
get-SameSlices (f ∷ fs) (q ∷ ps) k total tecto (suc i) p s c g =
    let z : (k + suc i) * tecto ≡ (suc k + i) * tecto = omega arith in
    rw z (get-SameSlices fs ps (suc k) total tecto i p s.2 c.2 g)

module _ (ports ppu max_pixels n first : ℕ) (ps : List FatiaDePorta)
    (narrow : max_pixels < 4294967296)
    (unwrapped : first + ports * div_ceil (max_pixels / ports) ppu < 4294967296)
    (shared_out : repartir_portas_de ports ppu max_pixels n first ≡ ok ps) where
  -- Where `repartir_portas_de` succeeds, with pixels and universe numbers below 2^32, port `k`
  -- starts at `k` shares of pixels, takes what is left up to a share, and starts `k` times a
  -- share's universes after the first universe, below 65,536.
  porta-at :
      (k : ℕ) (p : FatiaDePorta)
      → get_elem? ps k ≡ some p
      → (p.pixel_offset ≡ k * (max_pixels / ports))
        × (p.pixel_count ≡ min (n - k * (max_pixels / ports)) (max_pixels / ports))
        × (p.universe_start ≡ first + k * div_ceil (max_pixels / ports) ppu)
        × (p.universe_start < 65536)
  unfolding repartir_portas_de
  porta-at k p g = elim (Result-cases (repartir n (max_pixels / ports) ports aceita)) [
    | inr (x, e) ↦ absurd (ground arith)
    | inl (fs, e) ↦
        let r : portas_from 0 (div_ceil (max_pixels / ports) ppu) first fs ≡ ok ps = ground arith in
        let (s, l, t) =
          repartir-IsShared n (max_pixels / ports) ports aceita fs
            (omega (arith, div-mul-le_self max_pixels ports)) e in
        let (al, sl) =
          portas_from-IsAligned fs 0 (div_ceil (max_pixels / ports) ppu) first ps
            (rw l (rw (zero-add ports) unwrapped)) r in
        let (start, lt) = get-IsAligned ps 0 (div_ceil (max_pixels / ports) ppu) first k p al g in
        let (offset, count) = get-SameSlices fs ps 0 n (max_pixels / ports) k p s sl g in
        let z : 0 + k ≡ k = omega arith in (rw z at offset, rw z at count, rw z at start, lt)
  ]

  -- Where `repartir_portas_de` shares a node out over its ports, with pixels and universe numbers
  -- below 2^32, the universes that the pixels of a port fill end at or before the first universe
  -- of every later port.
  pub portas-apart :
      (i k : ℕ) (p q : FatiaDePorta)
      → get_elem? ps i ≡ some p
      → get_elem? ps k ≡ some q
      → i < k
      → p.universe_start + div_ceil p.pixel_count ppu ≤ q.universe_start
  portas-apart i k p q g h lt =
      let (po, pc, pu, pl) = porta-at i p g in
      let (qo, qc, qu, ql) = porta-at k q h in
      let cap : ℕ = max_pixels / ports in
      let le : div_ceil p.pixel_count ppu ≤ div_ceil cap ppu =
        div_mono (p.pixel_count + (ppu - 1)) (cap + (ppu - 1)) ppu (omega (arith, pc)) in
      omega (arith, pu, qu, le, suc-mul_mono i k (div_ceil cap ppu) lt)
