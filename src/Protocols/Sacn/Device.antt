-- ===== src/Protocols/Sacn/Device.antt =====
-- crates/led-protocols/src/device.rs: `SacnDevice`. A universe that `seqs` does not hold reads as 0,
-- which is what `or_insert(0)` makes of it. `accepts k` tells whether the socket takes datagram `k` of
-- the call.
use led_platform.Prelude.{
  Bool, List, Option, [], if◌then◌else◌, length, none, some, suc, u64, u8, ℕ, ◌+◌, ◌/◌, ◌==◌, ◌∷◌,
}
use led_platform.Layout.Apply.{UniverseData}
use led_platform.Protocols.Sacn.{dmx_slots_len, build_data_packet}

abbrev pub sacn_port : ℕ
sacn_port = 5568

-- A socket address: four bytes and a port.
pub record SocketAddr : Type 0 where
  pub a : ℕ
  pub b : ℕ
  pub c : ℕ
  pub d : ℕ
  pub port : ℕ

pub data Dest : Type 0 where
  unicast : SocketAddr → Dest
  multicast : Dest

pub record SacnDevice : Type 0 where
  pub dest : Dest
  pub cid : List ℕ
  pub source_name : List ℕ
  pub priority : ℕ
  pub seqs : ℕ → ℕ
  pub frames_sent : ℕ

pub data SacnError : Type 0 where
  wrong_length transport : SacnError

pub record Transmission : Type 0 where
  pub device : SacnDevice
  pub datagrams : List (SocketAddr × List ℕ)
  pub error : Option SacnError

unfoldable pub multicast_addr : ℕ → SocketAddr
multicast_addr universe = record {
  a = 239;
  b = 255;
  c = u8 (universe / 256);
  d = u8 universe;
  port = sacn_port;
}

unfoldable pub dest_for : Dest → ℕ → SocketAddr
unfolding multicast_addr
dest_for (unicast addr) universe = addr
dest_for multicast universe = multicast_addr universe

unfoldable pub build : Dest → List ℕ → List ℕ → SacnDevice
build dest cid source_name = record {
  dest = dest;
  cid = cid;
  source_name = source_name;
  priority = 100;
  seqs = λ u. 0;
  frames_sent = 0;
}

abbrev pub bump : (ℕ → ℕ) → ℕ → ℕ → ℕ
bump seqs u v = if u == v then u8 (seqs u + 1) else seqs v

abbrev pub stop : SacnDevice → SacnError → Transmission
stop st why = record { device = st; datagrams = []; error = some why }

abbrev pub send_one : Bool → SacnDevice → SocketAddr → Option (List ℕ) → Transmission → Transmission
send_one taken st dest none rest = stop st wrong_length
send_one taken st dest (some pkt) rest =
    if taken then record rest { datagrams = (dest, pkt) ∷ rest.datagrams } else stop st transport

unfoldable pub send_all : (ℕ → Bool) → ℕ → List UniverseData → SacnDevice → Transmission
unfolding dest_for
send_all accepts k [] st = record {
  device = record st { frames_sent = u64 (st.frames_sent + 1) };
  datagrams = [];
  error = none;
}
send_all accepts k (u ∷ us) st =
    let st' : SacnDevice = record st { seqs = bump st.seqs u.universe } in
    let rest = send_all accepts (suc k) us st' in
    let packet =
      build_data_packet st.cid st.source_name st.priority (st'.seqs u.universe) u.universe
        u.data_bytes in
    if length u.data_bytes == dmx_slots_len
    then send_one (accepts k) st' (dest_for st.dest u.universe) packet rest
    else stop st wrong_length

unfoldable pub send_physical : (ℕ → Bool) → List UniverseData → SacnDevice → Transmission
unfolding send_all
send_physical accepts universes st = send_all accepts 0 universes st
