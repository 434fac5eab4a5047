-- ===== src/Protocols/Sacn/Numbered.antt =====
-- What `SacnDevice` sends of a frame, and the numbers that it keeps.
use led_platform.Prelude.{
  ap, ◌∙◌, subst, Bool, Bool-cases, List, Option, [], arith, if◌then◌else◌, inl, inr, length, none,
  refl, some, suc, true, u64, u8, ℕ, ◌+◌, ◌*◌, zero, ◌<◌, ◌==◌, ◌∷◌, ◌≡◌,
}
use led_platform.Layout.Apply.{UniverseData}
use led_platform.Protocols.Sacn.{dmx_slots_len}
use led_platform.Protocols.Sacn.Packet.{Says, build_data_packet-Says}
use led_platform.Protocols.Sacn.Device.{
  Dest, unicast, multicast, SocketAddr, SacnDevice, SacnError, wrong_length, bump, send_all,
  send_physical, dest_for, multicast_addr,
}

-- Where the datagrams of a universe go: to the one controller, or to the group 239.255.hi.lo.
abbrev pub GoesTo : Dest → ℕ → SocketAddr → Type 0
GoesTo (unicast controller) universe addr = addr ≡ controller
GoesTo multicast universe addr =
    (addr.a ≡ 239)
    × (addr.b ≡ 255)
    × (256 * addr.c + addr.d ≡ universe)
    × (addr.d < 256)
    × (addr.port ≡ 5568)

-- How often a universe comes.
abbrev pub occurrences : ℕ → List UniverseData → ℕ
occurrences v [] = 0
occurrences v (u ∷ us) = let rest = occurrences v us in if u.universe == v then suc rest else rest

-- A byte that was counted up so many times.
abbrev pub counted_up : ℕ → ℕ → ℕ
counted_up n zero = n
counted_up n (suc k) = u8 (n + suc k)

-- Datagram by datagram: where it goes, and a number one higher than the last of its universe, where
-- `seqs` are the numbers before the frame and `before` its universes that were sent already.
abbrev pub AreNumbered :
    Dest → (ℕ → ℕ) → List UniverseData → List UniverseData → List (SocketAddr × List ℕ) → Type 0
AreNumbered dest seqs before [] [] = Unit {0}
AreNumbered dest seqs before (u ∷ us) ((addr, pkt) ∷ ds) =
    GoesTo dest u.universe addr
    × Says pkt (counted_up (seqs u.universe) (suc (occurrences u.universe before))) u.universe
        u.data_bytes
    × AreNumbered dest seqs (u ∷ before) us ds
AreNumbered dest seqs before _ _ = ⊥

-- The device after the universes `us`: the numbers of all universes are counted up, the rest is kept.
pub record Counted (st : SacnDevice) (us : List UniverseData) (st' : SacnDevice) : Type 0 where
  pub dest : st'.dest ≡ st.dest
  pub cid : st'.cid ≡ st.cid
  pub source_name : st'.source_name ≡ st.source_name
  pub priority : st'.priority ≡ st.priority
  pub seqs : (v : ℕ) → st'.seqs v ≡ counted_up (st.seqs v) (occurrences v us)

-- The universes before the first of a wrong length, and whether there is one.
abbrev pub prefix : List UniverseData → List UniverseData
prefix [] = []
prefix (u ∷ us) = let rest = prefix us in if length u.data_bytes == 512 then u ∷ rest else []

abbrev pub verdict : List UniverseData → Option SacnError
verdict [] = none
verdict (u ∷ us) =
    let rest = verdict us in if length u.data_bytes == 512 then rest else some wrong_length

-- Only a whole frame is counted.
abbrev pub counted : Option SacnError → ℕ → ℕ
counted none n = u64 (n + 1)
counted (some e) n = n

abbrev pub AllU16 : List UniverseData → Type 0
AllU16 [] = Unit {0}
AllU16 (u ∷ us) = (u.universe < 65536) × AllU16 us

dest_for-GoesTo :
    (dest : Dest) (universe : ℕ) → universe < 65536 → GoesTo dest universe (dest_for dest universe)
unfolding dest_for multicast_addr
dest_for-GoesTo (unicast addr) universe lt = refl
dest_for-GoesTo multicast universe lt = (refl, refl, omega arith, omega arith, refl)

counted_up-suc : (n k : ℕ) → u8 (counted_up n k + 1) ≡ counted_up n (suc k)
counted_up-suc n zero = refl
counted_up-suc n (suc k) = omega arith

suc-counted_up : (n k : ℕ) → counted_up (u8 (n + 1)) k ≡ counted_up n (suc k)
suc-counted_up n zero = refl
suc-counted_up n (suc k) = omega arith

-- One datagram more, at the front of the ones that are counted.
bump-before :
    (seqs₀ seqs : ℕ → ℕ) (before : List UniverseData) (u : UniverseData)
    → ((v : ℕ) → seqs v ≡ counted_up (seqs₀ v) (occurrences v before))
    → (v : ℕ) → bump seqs u.universe v ≡ counted_up (seqs₀ v) (occurrences v (u ∷ before))
bump-before seqs₀ seqs before u h v = elim (Bool-cases (u.universe == v)) [
  | inl y ↦
      let same : u.universe ≡ v = ground arith in
      rw y (
        ap (λ (w : ℕ). u8 (seqs w + 1)) same
        ∙ ap (λ (n : ℕ). u8 (n + 1)) (h v)
        ∙ counted_up-suc (seqs₀ v) (occurrences v before))
  | inr n ↦ rw n (h v)
]

bump-after :
    (seqs : ℕ → ℕ) (us : List UniverseData) (u : UniverseData) (v : ℕ)
    → counted_up (bump seqs u.universe v) (occurrences v us)
      ≡ counted_up (seqs v) (occurrences v (u ∷ us))
bump-after seqs us u v = elim (Bool-cases (u.universe == v)) [
  | inl y ↦
      let same : u.universe ≡ v = ground arith in
      rw y (
        ap (λ (w : ℕ). counted_up (u8 (seqs w + 1)) (occurrences v us)) same
        ∙ suc-counted_up (seqs v) (occurrences v us))
  | inr n ↦ rw n refl
]

stop-Counted : (st : SacnDevice) → Counted st [] st
stop-Counted st = record {
  dest = refl;
  cid = refl;
  source_name = refl;
  priority = refl;
  seqs = λ v. refl;
}

module _ (accepts : ℕ → Bool) (all : (k : ℕ) → accepts k ≡ true) where
  -- The numbers `seqs` of the device are those before the frame, counted up by what was sent.
  send_all-AreNumbered :
      (k : ℕ) (seqs : ℕ → ℕ) (before us : List UniverseData) (st : SacnDevice)
      → ((v : ℕ) → st.seqs v ≡ counted_up (seqs v) (occurrences v before))
      → length st.cid ≡ 16
      → AllU16 us
      → AreNumbered st.dest seqs before (prefix us) (send_all accepts k us st).datagrams
        × ((send_all accepts k us st).error ≡ verdict us)
        × ((send_all accepts k us st).device.frames_sent ≡ counted (verdict us) st.frames_sent)
        × Counted st (prefix us) (send_all accepts k us st).device
  unfolding send_all
  send_all-AreNumbered k seqs before [] st h c small = (
    tt,
    refl,
    refl,
    record { dest = refl; cid = refl; source_name = refl; priority = refl; seqs = λ v. refl },
  )
  send_all-AreNumbered k seqs before (u ∷ us) st h c (s, small) =
      elim (Bool-cases (length u.data_bytes == dmx_slots_len)) [
        | inr n ↦ rw (n, send_all) (tt, refl, refl, stop-Counted st)
        | inl y ↦
            let st' : SacnDevice = record st { seqs = bump st.seqs u.universe } in
            let (ih, ie, ic, id) =
              send_all-AreNumbered (suc k) seqs (u ∷ before) us st'
                (bump-before seqs st.seqs before u h) c small in
            let here : (u.universe == u.universe) ≡ true = ground arith in
            let once_more : occurrences u.universe (u ∷ before)
                ≡ suc (occurrences u.universe before) =
              rw here refl in
            let number : st'.seqs u.universe
                ≡ counted_up (seqs u.universe) (suc (occurrences u.universe before)) =
              bump-before seqs st.seqs before u h u.universe
              ∙ ap (counted_up (seqs u.universe)) once_more in
            let (pkt, e, says) =
              build_data_packet-Says st.cid st.source_name st.priority (st'.seqs u.universe)
                u.universe u.data_bytes c s (ground (arith, y)) in
            rw (y, e, all k, send_all)
              (
                (
                  dest_for-GoesTo st.dest u.universe s,
                  subst (λ (n : ℕ). Says pkt n u.universe u.data_bytes) number says,
                  ih,
                ),
                ie,
                ic,
                record {
                  dest = id.dest;
                  cid = id.cid;
                  source_name = id.source_name;
                  priority = id.priority;
                  seqs = λ v. id.seqs v ∙ bump-after st.seqs (prefix us) u v;
                },
              )
      ]

  -- On a socket that takes every datagram, with a `cid` of 16 bytes and universes below 65,536,
  -- `send_physical` sends the universes before the first whose length is not 512, each to the one
  -- controller or to the multicast group 239.255.hi.lo of its number, in an E1.31 packet of 638
  -- bytes with the identifier, its universe, its slots, start code 0 and the number after the last
  -- of its universe modulo 256; it fails exactly when there is a universe of another length, and
  -- counts a frame only when it does not. The device keeps for every universe the number that it
  -- had, counted up by as many of its datagrams as were sent, and all its settings.
  pub send_physical-numbered :
      (us : List UniverseData) (st : SacnDevice)
      → length st.cid ≡ 16
      → AllU16 us
      → AreNumbered st.dest st.seqs [] (prefix us) (send_physical accepts us st).datagrams
        × ((send_physical accepts us st).error ≡ verdict us)
        × ((send_physical accepts us st).device.frames_sent ≡ counted (verdict us) st.frames_sent)
        × Counted st (prefix us) (send_physical accepts us st).device
  unfolding send_physical
  send_physical-numbered us st c small = send_all-AreNumbered 0 st.seqs [] us st (λ v. refl) c small
