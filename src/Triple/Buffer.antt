-- ===== src/Triple/Buffer.antt =====
-- crates/led-triple/src/lib.rs: the operations.
use Prim.Native.Nat.{bit_and, bit_or}
use led_platform.Prelude.{
  Bool, List, Option, [], false, get_elem?, if◌then◌else◌, not, set, true, ◌==◌, ◌∷◌, ℕ,
}

abbrev pub index_mask : ℕ
index_mask = 3

abbrev pub fresh : ℕ
fresh = 4

-- `Inner`, `Producer::idx` and `Consumer::idx`.
pub record Buffer {ℓ} (A : Type ℓ) : Type ℓ where
  pub slots : List A
  pub shared : ℕ
  pub producer : ℕ
  pub consumer : ℕ

module _ {ℓ} {A : Type ℓ} where
  unfoldable pub triple_buffer : A → A → A → Buffer A
  triple_buffer a b c = record { slots = a ∷ b ∷ c ∷ []; shared = 2; producer = 0; consumer = 1 }

  -- A write through `Producer::input`.
  unfoldable pub input : Buffer A → A → Buffer A
  input s v = record s { slots = set s.slots s.producer v }

  -- `Producer::publish`.
  unfoldable pub publish : Buffer A → Buffer A
  publish s = record s { shared = bit_or s.producer fresh; producer = bit_and s.shared index_mask }

  -- The load of `Consumer::update`.
  unfoldable pub is_fresh : Buffer A → Bool
  is_fresh s = not (bit_and s.shared fresh == 0)

  -- Its swap.
  unfoldable pub take_shared : Buffer A → Buffer A
  take_shared s = record s { shared = s.consumer; consumer = bit_and s.shared index_mask }

  -- `Consumer::update` with nothing between its two operations.
  unfoldable pub update : Buffer A → Buffer A × Bool
  unfolding is_fresh take_shared
  update s = if is_fresh s then (take_shared s, true) else (s, false)

  -- `Consumer::output`.
  unfoldable pub output : Buffer A → Option A
  output s = get_elem? s.slots s.consumer
