-- ===== src/Layout/Readback.antt =====
-- `apply` as a whole: it does not panic, and every pixel is read back from its own channels.
use native.Mathlib.Nat.{add-zero}
use led_platform.Prelude.{
  Bool-cases, subst, List, Option-cases, [], ap, arith, false, get_elem?, inl, inr, length, none,
  refl, some, suc, true, zero, ◌+◌, ◌-◌, ◌<◌, ◌∙◌, ◌∷◌, ◌≡◌, ◌≤◌, ◌⊎◌, ℕ,
}
use led_platform.Color.{PixelColor, channels, write}
use led_platform.Layout.Compile.{Target, CompiledLayout}
use led_platform.Layout.Apply.{UniverseData, apply_pixel, apply_from, apply}
use led_platform.Layout.Channels.{
  channel_at, width, covers, channel_at-apply_pixel, width-apply_pixel, apply_pixel-total,
}

-- Every target lies inside its universe of the scratch.
abbrev pub AllInside : List Target → List UniverseData → Type 0
AllInside targets s =
    (i : ℕ) (t : Target)
    → get_elem? targets i ≡ some t
    → t.byte + channels t.format ≤ width s t.uni_index

-- No channel belongs to two targets.
abbrev pub IsDisjoint : List Target → Type 0
IsDisjoint targets =
    (i k : ℕ) (t v : Target) (u j : ℕ)
    → get_elem? targets i ≡ some t
    → get_elem? targets k ≡ some v
    → covers t u j ≡ true
    → covers v u j ≡ true
    → i ≡ k

-- One round of the loop.
apply_from-cases :
    (targets : List Target) (id : ℕ) (px : PixelColor) (pixels : List PixelColor)
    (s s' : List UniverseData)
    → apply_from targets id (px ∷ pixels) s ≡ some s'
    → ((get_elem? targets id ≡ none) × (apply_from targets (suc id) pixels s ≡ some s'))
      ⊎ ((t : Target) × (s₁ : List UniverseData) × (get_elem? targets id ≡ some t)
          × (apply_pixel t px s ≡ some s₁)
          × (apply_from targets (suc id) pixels s₁ ≡ some s'))
unfolding apply_from
apply_from-cases targets id px pixels s s' e = elim (Option-cases (get_elem? targets id)) [
  | inl n ↦ inl (n, ground arith)
  | inr (t, g) ↦ elim (Option-cases (apply_pixel t px s)) [
    | inl n ↦ absurd (ground arith)
    | inr (s₁, a) ↦ inr (t, s₁, g, a, ground arith)
  ]
]

pub apply_from-total :
    (targets : List Target) (id : ℕ) (pixels : List PixelColor) (s : List UniverseData)
    → AllInside targets s
    → (s' : List UniverseData) × (apply_from targets id pixels s ≡ some s')
unfolding apply_from
apply_from-total targets id [] s h = (s, refl)
apply_from-total targets id (px ∷ pixels) s h = elim (Option-cases (get_elem? targets id)) [
  | inl n ↦ let (s', e) = apply_from-total targets (suc id) pixels s h in (s', rw (n, apply_from) e)
  | inr (t, g) ↦
      let (s₁, a) = apply_pixel-total t px s (h id t g) in
      let (s', e) =
        apply_from-total targets (suc id) pixels s₁
          (λ i v q. rw (width-apply_pixel t px s s₁ v.uni_index a) (h i v q)) in
      (s', rw (g, apply_from) (rw a e))
]

-- Channels that no target of the pixels left covers are kept.
pub apply_from-kept :
    (targets : List Target) (id : ℕ) (pixels : List PixelColor) (s s' : List UniverseData) (u j : ℕ)
    → apply_from targets id pixels s ≡ some s'
    → ((i : ℕ) (t : Target)
        → id ≤ i
        → i < id + length pixels
        → get_elem? targets i ≡ some t
        → covers t u j ≡ false)
    → channel_at s' u j ≡ channel_at s u j
apply_from-kept targets id [] s s' u j e h = unfold apply_from in ground arith
apply_from-kept targets id (px ∷ pixels) s s' u j e h =
    elim (apply_from-cases targets id px pixels s s' e) [
      | inl (n, e') ↦ apply_from-kept targets (suc id) pixels s s' u j e' later
      | inr (t, s₁, g, a, e') ↦
          apply_from-kept targets (suc id) pixels s₁ s' u j e' later
          ∙ channel_at-apply_pixel t px s s₁ u j a
          ∙ ground (arith, h id t (omega arith) (omega arith) g)
    ]
  where
    later :
        (i : ℕ) (t : Target)
        → suc id ≤ i
        → i < suc id + length pixels
        → get_elem? targets i ≡ some t
        → covers t u j ≡ false
    later i t l m g = h i t (omega arith) (omega arith) g

-- A pixel's bytes stand in its target's channels.
pub apply_from-written :
    (targets : List Target) (id k : ℕ) (pixels : List PixelColor) (px : PixelColor)
    (s s' : List UniverseData) (t : Target) (u j : ℕ)
    → IsDisjoint targets
    → apply_from targets id pixels s ≡ some s'
    → get_elem? pixels k ≡ some px
    → get_elem? targets (id + k) ≡ some t
    → covers t u j ≡ true
    → channel_at s' u j ≡ get_elem? (write t.format px) (j - t.byte)
apply_from-written targets id k [] px s s' t u j d e g h c = absurd (ground arith)
apply_from-written targets id zero (px₀ ∷ pixels) px s s' t u j d e g h c =
    elim (apply_from-cases targets id px₀ pixels s s' e) [
      | inl (n, e') ↦ absurd (ground arith)
      | inr (v, s₁, q, a, e') ↦
          apply_from-kept targets (suc id) pixels s₁ s' u j e' alone
          ∙ channel_at-apply_pixel v px₀ s s₁ u j a
          ∙ ground arith
    ]
  where
    here : get_elem? targets id ≡ some t
    here = rw (add-zero id) at h

    alone :
        (i : ℕ) (w : Target)
        → suc id ≤ i
        → i < suc id + length pixels
        → get_elem? targets i ≡ some w
        → covers w u j ≡ false
    alone i w l m q = elim (Bool-cases (covers w u j)) [
      | inl y ↦ absurd (omega (arith, d i id w t u j q here y c))
      | inr n ↦ n
    ]
apply_from-written targets id (suc k) (px₀ ∷ pixels) px s s' t u j d e g h c =
    elim (apply_from-cases targets id px₀ pixels s s' e) [
      | inl (n, e') ↦ apply_from-written targets (suc id) k pixels px s s' t u j d e' g there c
      | inr (v, s₁, q, a, e') ↦
          apply_from-written targets (suc id) k pixels px s₁ s' t u j d e' g there c
    ]
  where
    there : get_elem? targets (suc id + k) ≡ some t
    there = subst (λ n. get_elem? targets n ≡ some t) (omega arith) h

-- With targets inside the scratch that do not overlap, a frame is applied, and channel `q` of
-- pixel `i` holds byte `q` of its colour on the wire.
pub apply-readback :
    (l : CompiledLayout) (pixels : List PixelColor) (s : List UniverseData)
    → AllInside l.targets s
    → IsDisjoint l.targets
    → (s' : List UniverseData) × (apply l pixels s ≡ some s')
      × ((i q : ℕ) (px : PixelColor) (t : Target)
          → get_elem? pixels i ≡ some px
          → get_elem? l.targets i ≡ some t
          → q < channels t.format
          → channel_at s' t.uni_index (t.byte + q) ≡ get_elem? (write t.format px) q)
unfolding apply
apply-readback l pixels s h d =
    let (s', e) = apply_from-total l.targets 0 pixels s h in
    (
      s',
      e,
      λ i q px t g r lt.
          apply_from-written l.targets 0 i pixels px s s' t t.uni_index (t.byte + q) d e g
            (subst (λ n. get_elem? l.targets n ≡ some t) (omega arith) r) (ground arith)
          ∙ ap (get_elem? (write t.format px)) (omega arith),
    )

-- Applying a frame leaves every channel of the scratch that none of the frame's pixels reaches by
-- its target as it was.
apply-kept :
    (l : CompiledLayout) (pixels : List PixelColor) (s s' : List UniverseData) (u j : ℕ)
    → apply l pixels s ≡ some s'
    → ((i : ℕ) (t : Target)
        → i < length pixels
        → get_elem? l.targets i ≡ some t
        → covers t u j ≡ false)
    → channel_at s' u j ≡ channel_at s u j
unfolding apply
apply-kept l pixels s s' u j e h =
    apply_from-kept l.targets 0 pixels s s' u j e λ i t z lt. h i t (omega arith)
