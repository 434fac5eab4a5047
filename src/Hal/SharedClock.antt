-- ===== src/Hal/SharedClock.antt =====
-- crates/led-hal/src/shared_clock.rs: `SharedClock` and `calibrate_offset`. `wall` is what
-- `epoch.elapsed()` shows in milliseconds, below 2^64. A reading is two steps of a thread, the
-- offset that it loads with the wall time, and the atomic `fetch_max`; other threads may act between
-- the two.
use led_platform.Prelude.{
  if◌then◌else◌, leb, max, saturating_add, ◌++◌, ◌+◌, ◌-◌, ◌<◌, ◌∷◌, ◌≤◌, List, ℕ, arith, ◌≡◌,
}

-- `i64`; the constructors of a signed number.
pub data Offset : Type 0 where
  pos negsuc : ℕ → Offset

pub record SharedClock : Type 0 where
  pub offset_ms : Offset
  pub last_now : ℕ

abbrev pub new : SharedClock
new = record { offset_ms = pos 0; last_now = 0 }

unfoldable pub with_offset : Offset → SharedClock
with_offset offset_ms = record new { offset_ms = offset_ms }

unfoldable pub adjusted : Offset → ℕ → ℕ
unfolding saturating_add
adjusted (pos n) wall = saturating_add wall n
adjusted (negsuc n) wall = wall - (n + 1)

-- `fetch_max`, and the number returned.
unfoldable pub fetch_max : SharedClock → ℕ → SharedClock × ℕ
fetch_max c value = (record c { last_now = max (c.last_now) value }, max (c.last_now) value)

unfoldable pub now_ms : SharedClock → ℕ → SharedClock × ℕ
unfolding adjusted fetch_max
now_ms c wall = fetch_max c (adjusted (c.offset_ms) wall)

unfoldable pub set_offset_ms : SharedClock → Offset → SharedClock
set_offset_ms c offset_ms = record c { offset_ms = offset_ms }

-- `reference as i64 - local as i64`, on timestamps below 2^63.
unfoldable pub calibrate_offset : ℕ → ℕ → Offset
calibrate_offset reference_ts_ms local_ts_ms =
    if leb local_ts_ms reference_ts_ms
    then pos (reference_ts_ms - local_ts_ms)
    else negsuc (local_ts_ms - reference_ts_ms - 1)

-- What threads do to a shared clock: a thread that has loaded the offset keeps the adjusted time as
-- `held` until its `fetch_max`, which may come at any later step.
pub data Steps : SharedClock → List ℕ → SharedClock → List ℕ → Type 0 where
  here : {c : SharedClock} {held : List ℕ} → Steps c held c held
  loads :
      {c d : SharedClock} {held kept : List ℕ} (wall : ℕ)
      → Steps c (adjusted (c.offset_ms) wall ∷ held) d kept
      → Steps c held d kept
  stores :
      {c d : SharedClock} {kept : List ℕ} (before after : List ℕ) (value : ℕ)
      → Steps (fetch_max c value).0 (before ++ after) d kept
      → Steps c (before ++ value ∷ after) d kept
  sets :
      {c d : SharedClock} {held kept : List ℕ} (offset_ms : Offset)
      → Steps (set_offset_ms c offset_ms) held d kept
      → Steps c held d kept

last_now_mono :
    {c d : SharedClock} {held kept : List ℕ} → Steps c held d kept → c.last_now ≤ d.last_now
unfolding fetch_max set_offset_ms
last_now_mono here = omega arith
last_now_mono (loads wall s) = last_now_mono s
last_now_mono (stores before after value s) = omega (arith, last_now_mono s)
last_now_mono (sets offset_ms s) = last_now_mono s

-- Whatever threads do between two readings of a shared clock, offsets set back included, the later
-- `fetch_max` returns no less than the earlier one, and no less than its own value.
fetch_max_mono :
    (c d : SharedClock) {held kept : List ℕ} (v w : ℕ)
    → Steps (fetch_max c v).0 held d kept
    → ((fetch_max c v).1 ≤ (fetch_max d w).1) × (w ≤ (fetch_max d w).1)
unfolding fetch_max
fetch_max_mono c d v w s = (omega (arith, last_now_mono s), omega arith)

-- If the reference clock shows `r` when the local one shows `l`, then after `w` further
-- milliseconds a new clock with the calibrated offset shows `r + w`, which is below 2^64.
now_ms-calibrate :
    (reference local wall : ℕ)
    → reference + wall < 18446744073709551616
    → (now_ms (with_offset (calibrate_offset reference local)) (local + wall)).1 ≡ reference + wall
unfolding now_ms with_offset calibrate_offset adjusted fetch_max saturating_add
now_ms-calibrate reference local wall fits = ground arith
