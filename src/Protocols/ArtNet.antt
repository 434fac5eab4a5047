-- ===== src/Protocols/ArtNet.antt =====
-- crates/led-protocols/src/artnet.rs: the ArtDmx packet and its parser. A universe above the 15 bits
-- of a port address loses its top bit.
use led_platform.Prelude.{
  dec_le, take-append_length, ◌≤◌, [], false, if◌then◌else◌, leb, length, length-append,
  length-replicate, none, replicate, some, take, u8, ◌%◌, ◌&&◌, ◌*◌, ◌++◌, ◌+◌, ◌-◌, ◌/◌, ◌<◌, ◌==◌,
  ◌∷◌, Bool, Option, List, ℕ, arith, ◌≡◌,
}

abbrev pub op_dmx : ℕ
op_dmx = 0x5000

abbrev pub art_dmx_header_len : ℕ
art_dmx_header_len = 18

abbrev pub art_dmx_max_slots : ℕ
art_dmx_max_slots = 512

abbrev pub art_prot_ver : ℕ
art_prot_ver = 14

-- `(data.len() + 1) & !1`.
abbrev pub even_len : ℕ → ℕ
even_len n = (n + 1) / 2 * 2

-- The payload with its zero byte where the length is odd.
abbrev pub padded : List ℕ → List ℕ
padded data_bytes = data_bytes ++ replicate (even_len (length data_bytes) - length data_bytes) 0

-- The bytes `buf[..len]` that are sent; a payload above 512 bytes does not fit `buf`.
unfoldable pub build_art_dmx : ℕ → ℕ → ℕ → List ℕ → Option (List ℕ)
build_art_dmx universe sequence physical data_bytes =
    let even = even_len (length data_bytes) in
    if leb (length data_bytes) art_dmx_max_slots
    then some (
        0x41
        ∷ 0x72
        ∷ 0x74
        ∷ 0x2d
        ∷ 0x4e
        ∷ 0x65
        ∷ 0x74
        ∷ 0
        ∷ u8 op_dmx
        ∷ u8 (op_dmx / 256)
        ∷ 0
        ∷ art_prot_ver
        ∷ sequence
        ∷ physical
        ∷ u8 universe
        ∷ universe / 256 % 128
        ∷ u8 (even / 256)
        ∷ u8 even
        ∷ padded data_bytes)
    else none

-- `pkt[0..8] == ARTNET_ID`, on the eight bytes.
abbrev pub is_artnet_id : ℕ → ℕ → ℕ → ℕ → ℕ → ℕ → ℕ → ℕ → Bool
is_artnet_id a b c d e f g h =
    a == 0x41
    && (b == 0x72
        && (c == 0x74 && (d == 0x2d && (e == 0x4e && (f == 0x65 && (g == 0x74 && h == 0))))))

unfoldable pub opcode : List ℕ → Option ℕ
opcode (a ∷ b ∷ c ∷ d ∷ e ∷ f ∷ g ∷ h ∷ lo ∷ hi ∷ _) =
    if is_artnet_id a b c d e f g h then some (lo + hi * 256) else none
opcode _ = none

abbrev pub is_dmx : Option ℕ → Bool
is_dmx none = false
is_dmx (some op) = op == op_dmx

unfoldable pub after_header : ℕ → ℕ → ℕ → ℕ → ℕ → List ℕ → Option (ℕ × ℕ × List ℕ)
after_header sequence sub_uni net l₁ l₀ rest =
    let len = l₁ * 256 + l₀ in
    if leb 2 len && leb len art_dmx_max_slots && leb len (length rest)
    then some (sub_uni + net % 128 * 256, sequence, take len rest)
    else none

unfoldable pub parse_art_dmx : List ℕ → Option (ℕ × ℕ × List ℕ)
unfolding opcode after_header
parse_art_dmx
      (a ∷ b ∷ c ∷ d ∷ e ∷ f ∷ g ∷ h ∷ lo ∷ hi ∷ _ ∷ _ ∷ sequence ∷ _ ∷ sub_uni ∷ net ∷ l₁ ∷ l₀
        ∷ rest) =
    if is_dmx (opcode (a ∷ b ∷ c ∷ d ∷ e ∷ f ∷ g ∷ h ∷ lo ∷ hi ∷ []))
    then after_header sequence sub_uni net l₁ l₀ rest
    else none
parse_art_dmx _ = none

length-padded : (xs : List ℕ) → length (padded xs) ≡ even_len (length xs)
length-padded xs = omega (
  arith,
  length-append xs (replicate (even_len (length xs) - length xs) 0),
  length-replicate (even_len (length xs) - length xs) (let z : ℕ = 0 in z),
)

after_header-payload :
    (universe sequence : ℕ) (payload rest : List ℕ)
    → universe < 65536
    → 2 ≤ length payload
    → length payload ≤ 512
    → after_header sequence
        (u8 universe)
        (universe / 256 % 128)
        (u8 (length payload / 256))
        (u8 (length payload))
        (payload ++ rest)
      ≡ some (universe % 32768, sequence, payload)
unfolding after_header
after_header-payload universe sequence payload rest small full fits =
    let n : u8 (length payload / 256) * 256 + u8 (length payload) ≡ length payload = omega arith in
    let m : u8 universe + universe / 256 % 128 % 128 * 256 ≡ universe % 32768 = omega arith in
    rw (n, m) (ground (arith, length-append payload rest, take-append_length payload rest))

-- For a universe below 65,536 and a payload that is not empty, an ArtDmx packet that is built is
-- parsed back, whatever follows it, to the universe modulo 2^15, the sequence number and the
-- payload padded to an even length.
pub parse-build_art_dmx :
    (universe sequence physical : ℕ) (data_bytes packet rest : List ℕ)
    → universe < 65536
    → 0 < length data_bytes
    → build_art_dmx universe sequence physical data_bytes ≡ some packet
    → parse_art_dmx (packet ++ rest) ≡ some (universe % 32768, sequence, padded data_bytes)
unfolding build_art_dmx parse_art_dmx opcode
parse-build_art_dmx universe sequence physical data_bytes packet rest small full e =
    elim (dec_le (length data_bytes) 512) [
      | no n ↦ absurd (ground arith)
      | yes le ↦
          let l = length-padded data_bytes in
          let h =
            after_header-payload universe sequence (padded data_bytes) rest small (omega (arith, l))
              (omega (arith, l)) in
          ground (arith, rw l at h)
    ]
