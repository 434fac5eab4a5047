-- ===== src/Color.antt =====
-- Colours and their bytes on the wire: crates/led-core/src/types.rs. A byte is a number below 256,
-- which `IsByteColor` states of the three channels. `write` returns the bytes that the source
-- writes to the first places of its slice.
use Prim.Native.Nat.{min as least}
use led_platform.Prelude.{ℕ, ◌+◌, ◌-◌, ◌<◌, ◌≡◌, List, [], ◌∷◌, ◌++◌, length, arith}

pub record PixelColor : Type 0 where
  pub r : ℕ
  pub g : ℕ
  pub b : ℕ

pub data RgbOrder : Type 0 where
  rgb grb bgr : RgbOrder

-- `RgbOrder::bytes`.
unfoldable pub bytes : RgbOrder → PixelColor → List ℕ
bytes RgbOrder.rgb c = c.r ∷ c.g ∷ c.b ∷ []
bytes grb c = c.g ∷ c.r ∷ c.b ∷ []
bytes bgr c = c.b ∷ c.g ∷ c.r ∷ []

pub data WhiteMode : Type 0 where
  none min min_subtract : WhiteMode

unfoldable pub white : WhiteMode → PixelColor → ℕ
white WhiteMode.none c = 0
white WhiteMode.min c = least (least c.r c.g) c.b
white min_subtract c = least (least c.r c.g) c.b

unfoldable pub residual_rgb : WhiteMode → PixelColor → PixelColor
unfolding white
residual_rgb WhiteMode.none c = c
residual_rgb WhiteMode.min c = c
residual_rgb min_subtract c =
    let w = white min_subtract c in record { r = c.r - w; g = c.g - w; b = c.b - w }

pub data ColorFormat : Type 0 where
  rgb : RgbOrder → ColorFormat
  rgbw : RgbOrder → WhiteMode → ColorFormat

abbrev pub channels : ColorFormat → ℕ
channels (ColorFormat.rgb order) = 3
channels (rgbw order wm) = 4

-- The white byte comes from the original colour; the order is applied to the residue.
unfoldable pub write : ColorFormat → PixelColor → List ℕ
unfolding bytes residual_rgb white
write (ColorFormat.rgb order) c = bytes order c
write (rgbw order wm) c = bytes order (residual_rgb wm c) ++ white wm c ∷ []

pub length-write : (f : ColorFormat) (c : PixelColor) → length (write f c) ≡ channels f
unfolding write
length-write f c = ground arith

pub record IsByteColor (c : PixelColor) : Type 0 where
  pub r_lt : c.r < 256
  pub g_lt : c.g < 256
  pub b_lt : c.b < 256

abbrev pub AllBytes : List ℕ → Type 0
AllBytes [] = Unit {0}
AllBytes (x ∷ xs) = (x < 256) × AllBytes xs

pub write-AllBytes : (f : ColorFormat) (c : PixelColor) → IsByteColor c → AllBytes (write f c)
unfolding write
write-AllBytes f c h = ground arith

-- What a strip shows: the white die adds its byte to each colour.
abbrev pub Shows : RgbOrder → List ℕ → PixelColor → Type 0
Shows RgbOrder.rgb (x ∷ y ∷ z ∷ w ∷ []) c = (x + w ≡ c.r) × (y + w ≡ c.g) × (z + w ≡ c.b)
Shows grb (x ∷ y ∷ z ∷ w ∷ []) c = (y + w ≡ c.r) × (x + w ≡ c.g) × (z + w ≡ c.b)
Shows bgr (x ∷ y ∷ z ∷ w ∷ []) c = (z + w ≡ c.r) × (y + w ≡ c.g) × (x + w ≡ c.b)
Shows _ _ c = ⊥

-- For every channel order, `MinSubtract` writes four bytes whose coloured bytes each add up with
-- the white byte to the logical colour, and the smallest of the three residual colours is 0.
write-min_subtract :
    (order : RgbOrder) (c : PixelColor)
    → let rest = residual_rgb min_subtract c in
      Shows order (write (rgbw order min_subtract) c) c × (least (least rest.r rest.g) rest.b ≡ 0)
unfolding write
write-min_subtract order c = ground arith

pub channels_pos : (f : ColorFormat) → 0 < channels f
channels_pos f = ground arith
