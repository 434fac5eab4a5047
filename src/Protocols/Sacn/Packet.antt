-- ===== src/Protocols/Sacn/Packet.antt =====
-- What the accessors read in a packet that was built.
use mathlib.Core.List.{append_assoc}
use led_platform.Prelude.{
  leb, sym, ◌==◌, ◌∙◌, List, [], ap, arith, drop, get_elem?, length, length-append,
  length-replicate, length-take, min, refl, replicate, some, suc, take, true, zero, ℕ, ◌++◌, ◌+◌,
  ◌-◌, ◌<◌, ◌∷◌, ◌≡◌,
}
use led_platform.Protocols.Sacn.{
  dmx_slots_len, framing_tail, dmx_slots, start_code, universe_of, name_field, sequence_of,
  acn_pid_ok, framing_head, build_data_packet, root_head, packet_len,
}

drop-append_right : (xs ys : List ℕ) (n k : ℕ) → n ≡ length xs + k → drop n (xs ++ ys) ≡ drop k ys
drop-append_right [] ys n k e = ap (λ (m : ℕ). drop m ys) (omega (arith, e))
drop-append_right (x ∷ xs) ys zero k e = absurd (omega (arith, e))
drop-append_right (x ∷ xs) ys (suc n) k e = drop-append_right xs ys n k (omega (arith, e))

get_elem?-append_right :
    (xs ys : List ℕ) (n k : ℕ) → n ≡ length xs + k → get_elem? (xs ++ ys) n ≡ get_elem? ys k
get_elem?-append_right [] ys n k e = ap (λ (m : ℕ). get_elem? ys m) (omega (arith, e))
get_elem?-append_right (x ∷ xs) ys zero k e = absurd (omega (arith, e))
get_elem?-append_right (x ∷ xs) ys (suc n) k e = get_elem?-append_right xs ys n k (omega (arith, e))

take_all : (xs : List ℕ) (n : ℕ) → length xs ≡ n → take n xs ≡ xs
take_all [] zero e = refl
take_all [] (suc n) e = refl
take_all (x ∷ xs) zero e = absurd (omega arith)
take_all (x ∷ xs) (suc n) e = ap (◌∷◌ x) (take_all xs n (omega arith))

-- What a packet says.
pub record Says (pkt : List ℕ) (sequence universe : ℕ) (dmx : List ℕ) : Type 0 where
  pub whole : length pkt ≡ packet_len
  pub pid : acn_pid_ok pkt ≡ true
  pub numbered : sequence_of pkt ≡ some sequence
  pub addressed : universe_of pkt ≡ some universe
  pub start : start_code pkt ≡ some 0
  pub slots : dmx_slots pkt ≡ some dmx

abbrev before_tail : List ℕ → List ℕ → List ℕ
before_tail cid name = root_head ++ (cid ++ (framing_head ++ name_field name))

length-before_tail : (cid name : List ℕ) → length cid ≡ 16 → length (before_tail cid name) ≡ 108
unfolding root_head framing_head name_field
length-before_tail cid name e = omega (
  arith,
  length-append cid (framing_head ++ name_field name),
  length-append (take 63 name) (replicate (64 - min (length name) 63) 0),
  length-take 63 name,
  length-replicate (64 - min (length name) 63) (let z : ℕ = 0 in z),
)

-- The packet, cut before its priority.
assembled :
    (cid name rest : List ℕ)
    → root_head ++ (cid ++ (framing_head ++ (name_field name ++ rest)))
      ≡ before_tail cid name ++ rest
assembled cid name rest = sym (
    append_assoc root_head (cid ++ (framing_head ++ name_field name)) rest
    ∙ ap (λ (xs : List ℕ). root_head ++ xs)
        (append_assoc cid (framing_head ++ name_field name) rest
          ∙ ap (λ (xs : List ℕ). cid ++ xs) (append_assoc framing_head (name_field name) rest)))

-- What follows the name, at its place in the packet.
module _ (cid name : List ℕ) (c : length cid ≡ 16) (priority sequence universe : ℕ)
    (dmx : List ℕ) where
  abbrev tail : List ℕ
  tail = framing_tail priority sequence universe ++ dmx

  abbrev packet : List ℕ
  packet = before_tail cid name ++ tail

  byte_after : (n k : ℕ) → n ≡ 108 + k → get_elem? packet n ≡ get_elem? tail k
  byte_after n k e =
      get_elem?-append_right (before_tail cid name) tail n k
        (omega (arith, length-before_tail cid name c, e))

  sequence_of-packet : sequence_of packet ≡ some sequence
  unfolding sequence_of framing_tail
  sequence_of-packet = byte_after 111 3 refl

  start_code-packet : start_code packet ≡ some 0
  unfolding start_code framing_tail
  start_code-packet = byte_after 125 17 refl

  universe_of-packet : universe < 65536 → universe_of packet ≡ some universe
  unfolding universe_of framing_tail
  universe_of-packet small =
      rw (byte_after 113 5 refl, byte_after 114 6 refl) (ap (λ (n : ℕ). some n) (omega arith))

  length-packet : length dmx ≡ 512 → length packet ≡ packet_len
  unfolding framing_tail
  length-packet d =
      omega (arith, length-append (before_tail cid name) tail, length-before_tail cid name c, d)

  dmx_slots-packet : length dmx ≡ 512 → dmx_slots packet ≡ some dmx
  unfolding dmx_slots
  dmx_slots-packet d =
      let enough : leb 638 (length packet) ≡ true = ground (arith, length-packet d) in
      let after : drop 126 packet ≡ dmx =
        unfold framing_tail in
        drop-append_right (before_tail cid name) tail 126 18
          (omega (arith, length-before_tail cid name c)) in
      rw (enough, after, take_all dmx 512 d) refl

  acn_pid_ok-packet : length dmx ≡ 512 → acn_pid_ok packet ≡ true
  unfolding acn_pid_ok root_head
  acn_pid_ok-packet d =
      let enough : leb 16 (length packet) ≡ true = ground (arith, length-packet d) in rw enough refl

  packet-Says : universe < 65536 → length dmx ≡ 512 → Says packet sequence universe dmx
  packet-Says u d = record {
    whole = length-packet d;
    pid = acn_pid_ok-packet d;
    numbered = sequence_of-packet;
    addressed = universe_of-packet u;
    start = start_code-packet;
    slots = dmx_slots-packet d;
  }

pub build_data_packet-Says :
    (cid name : List ℕ) (priority sequence universe : ℕ) (dmx : List ℕ)
    → length cid ≡ 16
    → universe < 65536
    → length dmx ≡ 512
    → (pkt : List ℕ) × (build_data_packet cid name priority sequence universe dmx ≡ some pkt)
      × Says pkt sequence universe dmx
unfolding build_data_packet
build_data_packet-Says cid name priority sequence universe dmx c u d =
    let full : (length dmx == dmx_slots_len) ≡ true = ground (arith, d) in
    (
      packet cid name c priority sequence universe dmx,
      rw full (
          ap (λ (xs : List ℕ). some xs)
            (assembled cid name (tail cid name c priority sequence universe dmx))),
      packet-Says cid name c priority sequence universe dmx u d,
    )
