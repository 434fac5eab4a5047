-- ===== src/Protocols/ArtNetDevice.antt =====
-- crates/led-protocols/src/artnet.rs: `ArtNetDevice::send_physical`. A universe that `seqs` does not
-- hold reads as 0, which is what `or_insert(0)` makes of it. `accepts k` tells whether the socket
-- takes datagram `k` of the call.
use mathlib.Core.List.{append-nil}
use led_platform.Prelude.{
  u64, false, Option-cases, [], if◌then◌else◌, inl, inr, length, ltb, none, refl, some, suc, true,
  ◌%◌, ◌+◌, ◌<◌, ◌==◌, ◌∷◌, ◌≤◌, Bool, Option, List, ℕ, arith, ◌≡◌,
}
use led_platform.Layout.Apply.{UniverseData}
use led_platform.Protocols.ArtNet.{
  art_dmx_max_slots, build_art_dmx, parse_art_dmx, padded, parse-build_art_dmx,
}

pub record ArtNetState : Type 0 where
  pub seqs : ℕ → ℕ
  pub frames_sent : ℕ

pub data SendError : Type 0 where
  payload_too_long transport : SendError

-- The state after the call, the datagrams that the socket took, and the result.
pub record Physical : Type 0 where
  pub state : ArtNetState
  pub datagrams : List (List ℕ)
  pub error : Option SendError

-- Wraps 1..=255 and skips 0.
abbrev pub next_seq : ℕ → ℕ
next_seq s = if s == 255 then 1 else s + 1

abbrev pub bump : (ℕ → ℕ) → ℕ → ℕ → ℕ
bump seqs u v = if u == v then next_seq (seqs u) else seqs v

abbrev pub stop : ArtNetState → SendError → Physical
stop st why = record { state = st; datagrams = []; error = some why }

abbrev pub send_one : Bool → ArtNetState → Option (List ℕ) → Physical → Physical
send_one taken st none rest = stop st payload_too_long
send_one taken st (some packet) rest =
    if taken
    then record { state = rest.state; datagrams = packet ∷ rest.datagrams; error = rest.error }
    else stop st transport

unfoldable pub send_all : (ℕ → Bool) → ℕ → List UniverseData → ArtNetState → Physical
send_all accepts k [] st = record {
  state = record st { frames_sent = u64 (st.frames_sent + 1) };
  datagrams = [];
  error = none;
}
send_all accepts k (u ∷ us) st =
    let st' : ArtNetState = record st { seqs = bump (st.seqs) (u.universe) } in
    let rest = send_all accepts (suc k) us st' in
    let packet = build_art_dmx (u.universe) (st'.seqs u.universe) 0 (u.data_bytes) in
    if ltb art_dmx_max_slots (length (u.data_bytes))
    then stop st payload_too_long
    else send_one (accepts k) st' packet rest

unfoldable pub send_physical : (ℕ → Bool) → List UniverseData → ArtNetState → Physical
unfolding send_all
send_physical accepts universes st = send_all accepts 0 universes st

-- Datagram by datagram: its universe, the number after the last that this universe had, its bytes.
abbrev pub AreNumbered : (ℕ → ℕ) → List UniverseData → List (List ℕ) → Type 0
AreNumbered seqs [] [] = Unit {0}
AreNumbered seqs (u ∷ us) (d ∷ ds) =
    (parse_art_dmx d
      ≡ some (u.universe % 32768, next_seq (seqs (u.universe)), padded (u.data_bytes)))
    × (0 < next_seq (seqs (u.universe)))
    × (next_seq (seqs (u.universe)) < 256)
    × AreNumbered (bump seqs (u.universe)) us ds
AreNumbered seqs _ _ = ⊥

abbrev pub IsSendable : UniverseData → Type 0
IsSendable u = (u.universe < 65536) × (0 < length (u.data_bytes)) × (length (u.data_bytes) ≤ 512)

abbrev pub AllSendable : List UniverseData → Type 0
AllSendable [] = Unit {0}
AllSendable (u ∷ us) = IsSendable u × AllSendable us

built :
    (u : UniverseData) (seq : ℕ)
    → IsSendable u
    → (packet : List ℕ) × (build_art_dmx (u.universe) seq 0 (u.data_bytes) ≡ some packet)
      × (parse_art_dmx packet ≡ some (u.universe % 32768, seq, padded (u.data_bytes)))
built u seq (small, full, fits) =
    elim (Option-cases (build_art_dmx (u.universe) seq 0 (u.data_bytes))) [
      | inl n ↦ absurd (unfold build_art_dmx in ground arith)
      | inr (packet, e) ↦ (
        packet,
        e,
        rw (append-nil packet) at
            (parse-build_art_dmx (u.universe) seq 0 (u.data_bytes) packet [] small full e),
      )
    ]

module _ (accepts : ℕ → Bool) (all : (k : ℕ) → accepts k ≡ true) where
  send_all-AreNumbered :
      (k : ℕ) (us : List UniverseData) (st : ArtNetState)
      → AllSendable us
      → ((v : ℕ) → st.seqs v < 256)
      → AreNumbered (st.seqs) us (send_all accepts k us st).datagrams
        × ((send_all accepts k us st).error ≡ none)
        × ((send_all accepts k us st).state.frames_sent ≡ u64 (st.frames_sent + 1))
  unfolding send_all
  send_all-AreNumbered k [] st h b = (tt, refl, refl)
  send_all-AreNumbered k (u ∷ us) st (h, hs) b =
      let seqs' : ℕ → ℕ = bump (st.seqs) (u.universe) in
      let (packet, e, p) = built u (next_seq (st.seqs (u.universe))) h in
      let same : seqs' (u.universe) ≡ next_seq (st.seqs (u.universe)) = ground arith in
      let bounded : (v : ℕ) → seqs' v < 256 = λ v. ground (arith, b v, b (u.universe)) in
      let (ih, ie, ic) = send_all-AreNumbered (suc k) us (record st { seqs = seqs' }) hs bounded in
      let fits : ltb art_dmx_max_slots (length (u.data_bytes)) ≡ false = ground (arith, h.2) in
      rw (fits, same, e, all k)
        (((p, ground (arith, b (u.universe)), ground (arith, b (u.universe)), ih)), ie, ic)

  -- On a socket that takes every datagram, for universes below 65,536 with 1 to 512 bytes,
  -- `send_physical` succeeds and counts one frame as a `u64`, and its datagrams parse, in order,
  -- to each universe modulo 2^15, its padded bytes, and the number after the last of the same
  -- universe, which is from 1 to 255.
  send_physical-AreNumbered :
      (us : List UniverseData) (st : ArtNetState)
      → AllSendable us
      → ((v : ℕ) → st.seqs v < 256)
      → AreNumbered (st.seqs) us (send_physical accepts us st).datagrams
        × ((send_physical accepts us st).error ≡ none)
        × ((send_physical accepts us st).state.frames_sent ≡ u64 (st.frames_sent + 1))
  unfolding send_physical
  send_physical-AreNumbered us st h b = send_all-AreNumbered 0 us st h b
