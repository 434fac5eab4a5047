-- ===== src/Layout/Channels.antt =====
-- What one write of `apply` does to the scratch, channel by channel.
use led_platform.Prelude.{
  Bool, List, Option, Option-cases, [], ap, arith, get_elem?, if◌then◌else◌, inl, inr, leb, length,
  ltb, none, refl, set, some, suc, zero, ◌&&◌, ◌+◌, ◌-◌, ◌<◌, ◌==◌, ◌∷◌, ◌≡◌, ◌≤◌, ℕ,
}
use led_platform.Color.{channels_pos, PixelColor, channels, write, length-write}
use led_platform.Layout.Compile.{Target}
use led_platform.Layout.Apply.{UniverseData, overwrite, splice, apply_pixel}

-- Channel `j` of the universe at index `u`, and the number of its channels.
abbrev pub channel_at : List UniverseData → ℕ → ℕ → Option ℕ
channel_at [] u j = none
channel_at (d ∷ s) zero j = get_elem? d.data_bytes j
channel_at (d ∷ s) (suc u) j = channel_at s u j

abbrev pub width : List UniverseData → ℕ → ℕ
width [] u = 0
width (d ∷ s) zero = length d.data_bytes
width (d ∷ s) (suc u) = width s u

-- The target's bytes include channel `j` of universe `u`.
abbrev pub covers : Target → ℕ → ℕ → Bool
covers t u j = u == t.uni_index && (leb t.byte j && ltb j (t.byte + channels t.format))

length-overwrite : (xs bs : List ℕ) → length (overwrite xs bs) ≡ length xs
unfolding overwrite
length-overwrite xs [] = refl
length-overwrite [] (b ∷ bs) = refl
length-overwrite (x ∷ xs) (b ∷ bs) = ap suc (length-overwrite xs bs)

length-splice : (xs : List ℕ) (i : ℕ) (bs : List ℕ) → length (splice xs i bs) ≡ length xs
unfolding splice
length-splice xs zero bs = length-overwrite xs bs
length-splice [] (suc i) bs = refl
length-splice (x ∷ xs) (suc i) bs = ap suc (length-splice xs i bs)

get_elem?-overwrite :
    (xs bs : List ℕ) (j : ℕ)
    → length bs ≤ length xs
    → get_elem? (overwrite xs bs) j ≡ (if ltb j (length bs) then get_elem? bs j else get_elem? xs j)
unfolding overwrite
get_elem?-overwrite xs [] j h = ground arith
get_elem?-overwrite [] (b ∷ bs) j h = absurd (omega arith)
get_elem?-overwrite (x ∷ xs) (b ∷ bs) zero h = ground arith
get_elem?-overwrite (x ∷ xs) (b ∷ bs) (suc j) h = ground (arith, get_elem?-overwrite xs bs j)

get_elem?-splice :
    (xs : List ℕ) (i : ℕ) (bs : List ℕ) (j : ℕ)
    → i + length bs ≤ length xs
    → get_elem? (splice xs i bs) j
      ≡ (if leb i j && ltb j (i + length bs) then get_elem? bs (j - i) else get_elem? xs j)
unfolding splice
get_elem?-splice xs zero bs j h = ground (arith, get_elem?-overwrite xs bs j)
get_elem?-splice [] (suc i) bs j h = absurd (omega arith)
get_elem?-splice (x ∷ xs) (suc i) bs zero h = ground arith
get_elem?-splice (x ∷ xs) (suc i) bs (suc j) h = ground (arith, get_elem?-splice xs i bs j)

channel_at-set :
    (s : List UniverseData) (i : ℕ) (d : UniverseData) (u j : ℕ)
    → i < length s
    → channel_at (set s i d) u j ≡ (if u == i then get_elem? d.data_bytes j else channel_at s u j)
channel_at-set [] i d u j h = absurd (omega arith)
channel_at-set (e ∷ s) zero d zero j h = ground arith
channel_at-set (e ∷ s) zero d (suc u) j h = ground arith
channel_at-set (e ∷ s) (suc i) d zero j h = ground arith
channel_at-set (e ∷ s) (suc i) d (suc u) j h = ground (arith, channel_at-set s i d u j)

width-set :
    (s : List UniverseData) (i : ℕ) (d e : UniverseData) (u : ℕ)
    → get_elem? s i ≡ some e
    → length d.data_bytes ≡ length e.data_bytes
    → width (set s i d) u ≡ width s u
width-set [] i d e u g h = refl
width-set (f ∷ s) zero d e zero g h = ground arith
width-set (f ∷ s) zero d e (suc u) g h = refl
width-set (f ∷ s) (suc i) d e zero g h = refl
width-set (f ∷ s) (suc i) d e (suc u) g h = width-set s i d e u g h

channel_at-get :
    (s : List UniverseData) (i j : ℕ) (e : UniverseData)
    → get_elem? s i ≡ some e
    → (channel_at s i j ≡ get_elem? e.data_bytes j)
      × (width s i ≡ length e.data_bytes)
      × (i < length s)
channel_at-get [] i j e g = absurd (ground arith)
channel_at-get (d ∷ s) zero j e g = ground arith
channel_at-get (d ∷ s) (suc i) j e g = ground (arith, channel_at-get s i j e)

get-of-width :
    (s : List UniverseData) (i : ℕ) → 0 < width s i → (e : UniverseData) × (get_elem? s i ≡ some e)
get-of-width [] i h = absurd (omega arith)
get-of-width (d ∷ s) zero h = (d, refl)
get-of-width (d ∷ s) (suc i) h = get-of-width s i h

pub channel_at-apply_pixel :
    (t : Target) (px : PixelColor) (s s' : List UniverseData) (u j : ℕ)
    → apply_pixel t px s ≡ some s'
    → channel_at s' u j
      ≡ (if covers t u j then get_elem? (write t.format px) (j - t.byte) else channel_at s u j)
unfolding apply_pixel
channel_at-apply_pixel t px s s' u j e = elim (Option-cases (get_elem? s t.uni_index)) [
  | inl n ↦ absurd (ground arith)
  | inr (d, g) ↦ ground (
    arith,
    channel_at-get s t.uni_index j d g,
    channel_at-set s t.uni_index
        (record d { data_bytes = splice d.data_bytes t.byte (write t.format px) }) u j,
    get_elem?-splice d.data_bytes t.byte (write t.format px) j,
    length-write t.format px,
  )
]

pub width-apply_pixel :
    (t : Target) (px : PixelColor) (s s' : List UniverseData) (u : ℕ)
    → apply_pixel t px s ≡ some s'
    → width s' u ≡ width s u
unfolding apply_pixel
width-apply_pixel t px s s' u e = elim (Option-cases (get_elem? s t.uni_index)) [
  | inl n ↦ absurd (ground arith)
  | inr (d, g) ↦
      let d' : UniverseData = record d {
        data_bytes = splice d.data_bytes t.byte (write t.format px);
      } in
      ground (
        arith,
        width-set s t.uni_index d' d u g (length-splice d.data_bytes t.byte (write t.format px)),
      )
]

-- A target inside its universe is written.
pub apply_pixel-total :
    (t : Target) (px : PixelColor) (s : List UniverseData)
    → t.byte + channels t.format ≤ width s t.uni_index
    → (s' : List UniverseData) × (apply_pixel t px s ≡ some s')
unfolding apply_pixel
apply_pixel-total t px s h =
    let (d, g) = get-of-width s t.uni_index (omega (arith, channels_pos t.format)) in
    (
      set s t.uni_index (record d { data_bytes = splice d.data_bytes t.byte (write t.format px) }),
      ground (arith, g, channel_at-get s t.uni_index 0 d g),
    )
