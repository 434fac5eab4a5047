-- ===== src/Protocols/Sacn.antt =====
-- crates/led-protocols/src/packet.rs: the E1.31 data packet and its accessors. Every byte of the
-- buffer is written, so that the packet is the list of its bytes; a read out of bounds is `none`. The
-- source name is its bytes, and `cid` has sixteen.
pub mod Packet
pub mod Device
pub mod Numbered
mod Tests
use led_platform.Prelude.{
  Bool, List, Option, [], drop, false, get_elem?, if◌then◌else◌, leb, length, min, none, replicate,
  some, take, true, u8, ℕ, ◌&&◌, ◌*◌, ◌++◌, ◌+◌, ◌-◌, ◌/◌, ◌==◌, ◌∷◌,
}

abbrev pub dmx_slots_len : ℕ
dmx_slots_len = 512

abbrev pub packet_len : ℕ
packet_len = 638

abbrev pub be16 : ℕ → List ℕ → List ℕ
be16 v rest = u8 (v / 256) ∷ u8 v ∷ rest

abbrev pub be32 : ℕ → List ℕ → List ℕ
be32 v rest = u8 (v / 16777216) ∷ u8 (v / 65536) ∷ u8 (v / 256) ∷ u8 v ∷ rest

-- `0x7000 | n`, for an `n` below `0x1000`.
abbrev pub flags_length : ℕ → ℕ
flags_length n = 0x7000 + n

abbrev pub acn_pid : List ℕ
acn_pid = 0x41 ∷ 0x53 ∷ 0x43 ∷ 0x2d ∷ 0x45 ∷ 0x31 ∷ 0x2e ∷ 0x31 ∷ 0x37 ∷ 0 ∷ 0 ∷ 0 ∷ []

-- The root layer before the sender's identifier, 22 bytes.
unfoldable pub root_head : List ℕ
root_head = be16 0x0010 (be16 0 []) ++ acn_pid ++ be16 (flags_length (packet_len - 16)) (be32 4 [])

unfoldable pub framing_head : List ℕ
framing_head = be16 (flags_length (packet_len - 38)) (be32 2 [])

-- 64 bytes, the last of them zero.
unfoldable pub name_field : List ℕ → List ℕ
name_field name = take 63 name ++ replicate (64 - min (length name) 63) 0

-- From the priority to the start code, 18 bytes.
unfoldable pub framing_tail : ℕ → ℕ → ℕ → List ℕ
framing_tail priority sequence universe =
    priority
    ∷ be16 0 (
        sequence
        ∷ 0
        ∷ be16 universe (
            be16 (flags_length (packet_len - 115))
              (0x02 ∷ 0xa1 ∷ be16 0 (be16 1 (be16 (dmx_slots_len + 1) (0 ∷ []))))))

-- `copy_from_slice` panics on another length.
unfoldable pub build_data_packet : List ℕ → List ℕ → ℕ → ℕ → ℕ → List ℕ → Option (List ℕ)
unfolding root_head framing_head name_field framing_tail
build_data_packet cid source_name priority sequence universe dmx =
    if length dmx == dmx_slots_len
    then some (
        root_head
        ++ (cid
            ++ (framing_head
                ++ (name_field source_name ++ (framing_tail priority sequence universe ++ dmx)))))
    else none

abbrev pub join_u16 : Option ℕ → Option ℕ → Option ℕ
join_u16 (some hi) (some lo) = some (hi * 256 + lo)
join_u16 _ _ = none

unfoldable pub get_u16 : List ℕ → ℕ → Option ℕ
get_u16 pkt off = join_u16 (get_elem? pkt off) (get_elem? pkt (off + 1))

abbrev pub bytes_equal : List ℕ → List ℕ → Bool
bytes_equal [] [] = true
bytes_equal (x ∷ xs) (y ∷ ys) = x == y && bytes_equal xs ys
bytes_equal _ _ = false

unfoldable pub acn_pid_ok : List ℕ → Bool
acn_pid_ok pkt = leb 16 (length pkt) && bytes_equal (take 12 (drop 4 pkt)) acn_pid

unfoldable pub sequence_of : List ℕ → Option ℕ
sequence_of pkt = get_elem? pkt 111

unfoldable pub universe_of : List ℕ → Option ℕ
unfolding get_u16
universe_of pkt = get_u16 pkt 113

unfoldable pub start_code : List ℕ → Option ℕ
start_code pkt = get_elem? pkt 125

-- `&pkt[126..126 + DMX_SLOTS]`.
unfoldable pub dmx_slots : List ℕ → Option (List ℕ)
dmx_slots pkt =
    if leb (126 + dmx_slots_len) (length pkt)
    then some (take dmx_slots_len (drop 126 pkt))
    else none
