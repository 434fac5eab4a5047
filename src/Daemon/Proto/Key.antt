-- ===== src/Daemon/Proto/Key.antt =====
-- crates/led-daemon-bin/src/proto.rs: the keys of a request, and the client's name where none is given.
use led_platform.Prelude.{[], ◌∷◌}
use led_platform.Daemon.Json.Value.{Chars}

abbrev pub v : Chars
v = b'v' ∷ []

abbrev pub id : Chars
id = b'i' ∷ b'd' ∷ []

abbrev pub cmd : Chars
cmd = b'c' ∷ b'm' ∷ b'd' ∷ []

abbrev pub args : Chars
args = b'a' ∷ b'r' ∷ b'g' ∷ b's' ∷ []

abbrev pub client : Chars
client = b'c' ∷ b'l' ∷ b'i' ∷ b'e' ∷ b'n' ∷ b't' ∷ []

abbrev pub confirm : Chars
confirm = b'c' ∷ b'o' ∷ b'n' ∷ b'f' ∷ b'i' ∷ b'r' ∷ b'm' ∷ []

abbrev pub path : Chars
path = b'p' ∷ b'a' ∷ b't' ∷ b'h' ∷ []

abbrev pub to_ms : Chars
to_ms = b't' ∷ b'o' ∷ b'_' ∷ b'm' ∷ b's' ∷ []

abbrev pub assume_integrity : Chars
assume_integrity =
    b'a' ∷ b's' ∷ b's' ∷ b'u' ∷ b'm' ∷ b'e' ∷ b'_' ∷ b'i' ∷ b'n' ∷ b't' ∷ b'e' ∷ b'g' ∷ b'r' ∷ b'i'
    ∷ b't' ∷ b'y' ∷ []

abbrev pub desconhecido : Chars
desconhecido =
    b'd' ∷ b'e' ∷ b's' ∷ b'c' ∷ b'o' ∷ b'n' ∷ b'h' ∷ b'e' ∷ b'c' ∷ b'i' ∷ b'd' ∷ b'o' ∷ []
