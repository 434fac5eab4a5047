-- ===== src/Daemon/Output/Protocol.antt =====
-- crates/led-daemon-bin/src/output.rs: `OutputProtocol`. Texts are their bytes.
use led_platform.Prelude.{
  Bool, List, Option, [], false, if◌then◌else◌, is_some, leb, map, none, some, true, ℕ, ◌&&◌, ◌+◌,
  ◌||◌, ◌∷◌,
}
use led_platform.Hardware.Profile.{Protocol}
use led_platform.Protocols.Sacn.{bytes_equal}

pub data OutputProtocol : Type 0 where
  ddp art_net sacn : OutputProtocol

unfoldable pub faixa_de_universos : OutputProtocol → Option (ℕ × ℕ)
faixa_de_universos OutputProtocol.ddp = none
faixa_de_universos OutputProtocol.art_net = some (0, 32767)
faixa_de_universos OutputProtocol.sacn = some (1, 63999)

unfoldable pub usa_universos : OutputProtocol → Bool
unfolding faixa_de_universos
usa_universos p = is_some (faixa_de_universos p)

-- `ALL`.
abbrev pub all_protocols : List OutputProtocol
all_protocols = OutputProtocol.ddp ∷ OutputProtocol.art_net ∷ OutputProtocol.sacn ∷ []

unfoldable pub name_of : OutputProtocol → List ℕ
name_of OutputProtocol.ddp = b'd' ∷ b'd' ∷ b'p' ∷ []
name_of OutputProtocol.art_net = b'a' ∷ b'r' ∷ b't' ∷ b'n' ∷ b'e' ∷ b't' ∷ []
name_of OutputProtocol.sacn = b's' ∷ b'a' ∷ b'c' ∷ b'n' ∷ []

unfoldable pub default_port : OutputProtocol → ℕ
default_port OutputProtocol.ddp = 4048
default_port OutputProtocol.art_net = 6454
default_port OutputProtocol.sacn = 5568

unfoldable pub from_protocol : Protocol → OutputProtocol
from_protocol Protocol.ddp = OutputProtocol.ddp
from_protocol Protocol.art_net = OutputProtocol.art_net
from_protocol Protocol.sacn = OutputProtocol.sacn

unfoldable pub to_protocol : OutputProtocol → Protocol
to_protocol OutputProtocol.ddp = Protocol.ddp
to_protocol OutputProtocol.art_net = Protocol.art_net
to_protocol OutputProtocol.sacn = Protocol.sacn

-- `u8::to_ascii_lowercase`.
abbrev pub lowercase : ℕ → ℕ
lowercase c = if leb b'A' c && leb c b'Z' then c + 32 else c

abbrev pub art_dash_net : List ℕ
art_dash_net = b'a' ∷ b'r' ∷ b't' ∷ b'-' ∷ b'n' ∷ b'e' ∷ b't' ∷ []

abbrev pub e131 : List ℕ
e131 = b'e' ∷ b'1' ∷ b'3' ∷ b'1' ∷ []

unfoldable pub parse_protocol : List ℕ → Option OutputProtocol
unfolding name_of
parse_protocol text =
    let s = map lowercase text in
    if bytes_equal s (name_of OutputProtocol.ddp)
    then some OutputProtocol.ddp
    else if bytes_equal s (name_of OutputProtocol.art_net) || bytes_equal s art_dash_net
    then some OutputProtocol.art_net
    else if bytes_equal s (name_of OutputProtocol.sacn) || bytes_equal s e131
    then some OutputProtocol.sacn
    else none

-- The derived equality.
unfoldable pub same_output : OutputProtocol → OutputProtocol → Bool
same_output OutputProtocol.ddp OutputProtocol.ddp = true
same_output OutputProtocol.art_net OutputProtocol.art_net = true
same_output OutputProtocol.sacn OutputProtocol.sacn = true
same_output _ _ = false
