-- ===== src/Hal/Cluster/Health.antt =====
-- The health of a cluster's segments over every history of calls.
use led_platform.Prelude.{
  ◌≢◌, ◌<◌, leb, u32, u64, ltb, ◌+◌, if◌then◌else◌, true, is_some, Bool-cases, [], false, inl, inr,
  none, refl, replicate, some, suc, true, zero, ◌++◌, ◌↔◌, ◌∷◌, ◌≤◌, ◌⊎◌, Option, List, ℕ, arith,
  ◌≡◌,
}
use led_platform.Color.{PixelColor}
use led_platform.Hal.Cluster.{
  SegmentState, healthy, degraded, failed, is_failed, SegmentHealth, SyncedCluster, state_after,
  new_cluster, hot_join, rejoin_at, rejoin_segment, send_segments, send_frame, record_failure,
  record_success, settle, new_health,
}

-- The state that goes with a count of failures, which stops at ten.
abbrev Stated : SegmentState → ℕ → Type 0
Stated state fails =
    ((state ≡ healthy) × (fails < 3))
    ⊎ (((state ≡ degraded) × (3 ≤ fails) × (fails < 10)) ⊎ ((state ≡ failed) × (fails ≡ 10)))

abbrev pub IsSound : {R : Type 0} → SegmentHealth R → Type 0
IsSound h = Stated h.state h.consecutive_fails

state_after-Stated : (fails : ℕ) → fails ≤ 10 → Stated (state_after fails) fails
state_after-Stated fails le = elim (Bool-cases (leb 10 fails)) [
  | inl y ↦ rw y (inr (inr (refl, ground (arith, y))))
  | inr n ↦ elim (Bool-cases (leb 3 fails)) [
    | inl y ↦ rw (n, y) (inr (inl (refl, ground (arith, y), ground (arith, n))))
    | inr m ↦ rw (n, m) (inl (refl, ground (arith, m)))
  ]
]

abbrev pub AllSound : {R : Type 0} → List (SegmentHealth R) → Type 0
AllSound [] = Unit {0}
AllSound (h ∷ hs) = IsSound h × AllSound hs

pub data Call (R : Type 0) : Type 0 where
  joins : Call R
  rejoins : ℕ → Call R
  frames : (ℕ → Option R) → ℕ → ℕ → List PixelColor → ℕ → Call R

failed-cases :
    (state : SegmentState)
    → ((is_failed state ≡ true) × (state ≡ failed)) ⊎ ((is_failed state ≡ false) × (state ≢ failed))
unfolding is_failed
failed-cases healthy = inr (refl, λ e. ground arith)
failed-cases degraded = inr (refl, λ e. ground arith)
failed-cases failed = inl (refl, refl)

new-AllSound : (R : Type 0) (n : ℕ) → AllSound (replicate n (new_health {R = R}))
new-AllSound R zero = tt
new-AllSound R (suc n) = (inl (refl, omega arith), new-AllSound R n)

module _ {R : Type 0} where
  unfoldable pub call : SyncedCluster R → Call R → SyncedCluster R
  call c joins = hot_join c
  call c (rejoins i) = rejoin_segment c i
  call c (frames sends now elapsed_us pixels timestamp_ms) =
      (send_frame sends now elapsed_us pixels timestamp_ms c).0

  unfoldable pub calls : SyncedCluster R → List (Call R) → SyncedCluster R
  unfolding call
  calls c [] = c
  calls c (x ∷ xs) = calls (call c x) xs

  settle-IsSound :
      (h : SegmentHealth R) (r : Option R)
      → is_failed (h.state) ≡ false
      → IsSound h
      → IsSound (settle h r)
  unfolding record_success record_failure is_failed
  settle-IsSound h none n s = inl (refl, omega arith)
  settle-IsSound h (some x) n (inl (st, lt)) =
      state_after-Stated (u32 (h.consecutive_fails + 1)) (omega arith)
  settle-IsSound h (some x) n (inr (inl (st, ge, lt))) =
      state_after-Stated (u32 (h.consecutive_fails + 1)) (omega arith)
  settle-IsSound h (some x) n (inr (inr (st, e))) = absurd (ground (arith, n, st))

  send_segments-AllSound :
      (sends : ℕ → Option R) (i : ℕ) (hs : List (SegmentHealth R))
      → AllSound hs
      → AllSound (send_segments sends i hs).0
  unfolding send_segments
  send_segments-AllSound sends i [] a = tt
  send_segments-AllSound sends i (h ∷ hs) (s, a) = elim (Bool-cases (is_failed (h.state))) [
    | inl y ↦ rw y (s, send_segments-AllSound sends (suc i) hs a)
    | inr n ↦ rw n (settle-IsSound h (sends i) n s, send_segments-AllSound sends (suc i) hs a)
  ]

  rejoin_at-AllSound :
      (hs : List (SegmentHealth R)) (i : ℕ) → AllSound hs → AllSound (rejoin_at hs i)
  unfolding rejoin_at
  rejoin_at-AllSound [] i a = tt
  rejoin_at-AllSound (h ∷ hs) zero (s, a) = (inl (refl, omega arith), a)
  rejoin_at-AllSound (h ∷ hs) (suc i) (s, a) = (s, rejoin_at-AllSound hs i a)

  join-AllSound : (hs : List (SegmentHealth R)) → AllSound hs → AllSound (hs ++ new_health ∷ [])
  join-AllSound [] a = (inl (refl, omega arith), tt)
  join-AllSound (h ∷ hs) (s, a) = (s, join-AllSound hs a)

  calls-AllSound_from :
      (xs : List (Call R)) (c : SyncedCluster R)
      → AllSound (c.segments)
      → AllSound (calls c xs).segments
  unfolding calls hot_join rejoin_segment send_frame
  calls-AllSound_from [] c a = a
  calls-AllSound_from (joins ∷ xs) c a = calls-AllSound_from xs _ (join-AllSound (c.segments) a)
  calls-AllSound_from (rejoins i ∷ xs) c a =
      calls-AllSound_from xs _ (rejoin_at-AllSound (c.segments) i a)
  calls-AllSound_from (frames sends now elapsed pixels ts ∷ xs) c a =
      calls-AllSound_from xs _ (send_segments-AllSound sends 0 (c.segments) a)

  -- After every history of joins, rejoins and frames on a new cluster, each segment is healthy
  -- with fewer than 3 consecutive failures, degraded with 3 to 9, or failed with exactly 10.
  pub calls-AllSound :
      (hals tolerance : ℕ) (xs : List (Call R))
      → AllSound (calls (new_cluster {R = R} hals tolerance) xs).segments
  unfolding new_cluster
  calls-AllSound hals tolerance xs = calls-AllSound_from xs _ (new-AllSound R hals)

  -- A segment after a frame that its `Hal` takes, or refuses with a reason.
  abbrev Settles : SegmentHealth R → Option R → SegmentHealth R → Type 0
  Settles h none g =
      (g.state ≡ healthy)
      × (g.consecutive_fails ≡ 0)
      × (g.frames_sent ≡ u64 (h.frames_sent + 1))
      × (g.last_fail_reason ≡ h.last_fail_reason)
  Settles h (some reason) g =
      (g.state ≡ (
        if ltb g.consecutive_fails 3
        then healthy
        else if ltb g.consecutive_fails 10
        then degraded
        else failed))
      × (g.consecutive_fails ≡ u32 (h.consecutive_fails + 1))
      × (g.frames_sent ≡ h.frames_sent)
      × (g.last_fail_reason ≡ some reason)

  settle-Settles : (h : SegmentHealth R) (r : Option R) → Settles h r (settle h r)
  unfolding record_success record_failure
  settle-Settles h none = (refl, refl, refl, refl)
  settle-Settles h (some reason) = (ground arith, refl, refl, refl)

  -- What a frame does to each segment: a failed one is left alone.
  abbrev pub Settled : (ℕ → Option R) → ℕ → List (SegmentHealth R) → List (SegmentHealth R) → Type 0
  Settled sends i [] [] = Unit {0}
  Settled sends i (h ∷ hs) (g ∷ gs) =
      (((h.state ≡ failed) × (g ≡ h)) ⊎ ((h.state ≢ failed) × Settles h (sends i) g))
      × Settled sends (suc i) hs gs
  Settled sends i _ _ = ⊥

  -- No segment that is not failed takes the frame.
  abbrev pub NoneTakes : (ℕ → Option R) → ℕ → List (SegmentHealth R) → Type 0
  NoneTakes sends i [] = Unit {0}
  NoneTakes sends i (h ∷ hs) =
      ((h.state ≡ failed) ⊎ (is_some (sends i) ≡ true)) × NoneTakes sends (suc i) hs

  send_segments-Settled :
      (sends : ℕ → Option R) (i : ℕ) (hs : List (SegmentHealth R))
      → Settled sends i hs (send_segments sends i hs).0
        × (((send_segments sends i hs).1 ≡ false) ↔ NoneTakes sends i hs)
  unfolding send_segments
  send_segments-Settled sends i [] = (tt, (λ e. tt, λ t. refl))
  send_segments-Settled sends i (h ∷ hs) =
      let (s, iff) = send_segments-Settled sends (suc i) hs in
      let (to, back) = iff in
      elim (failed-cases h.state) [
        | inl (y, f) ↦ rw y ((inl (f, refl), s), (λ e. (inl f, to e), λ t. back t.1))
        | inr (n, ne) ↦ rw n (
          (inr (ne, settle-Settles h (sends i)), s),
          (λ e. (inr (ground arith), to (ground arith)), λ t. ground (arith, back t.1, t.0, ne)),
        )
      ]

  -- A frame leaves each failed segment as it was; every other one is healthy with no failures and
  -- one frame more, modulo 2^64, if its own `Hal` takes the frame, and else has one consecutive
  -- failure more, modulo 2^32, its reason, and the state that goes with the count: healthy below
  -- 3, degraded below 10, failed from there on. The frame is refused exactly when no segment that
  -- is not failed takes it, and is cached in either case.
  pub send_frame-Settled :
      (sends : ℕ → Option R) (now elapsed_us : ℕ) (pixels : List PixelColor) (ts : ℕ)
      (c : SyncedCluster R)
      → Settled sends 0 (c.segments) (send_frame sends now elapsed_us pixels ts c).0.segments
        × (((send_frame sends now elapsed_us pixels ts c).1 ≡ false)
            ↔ NoneTakes sends 0 (c.segments))
        × ((send_frame sends now elapsed_us pixels ts c).0.last_frame ≡ some (pixels, ts))
  unfolding send_frame
  send_frame-Settled sends now elapsed_us pixels ts c =
      let (s, iff) = send_segments-Settled sends 0 (c.segments) in (s, iff, refl)
