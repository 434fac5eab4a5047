-- ===== src/Daemon/Proto/Word.antt =====
-- crates/led-daemon-bin/src/proto.rs: the names of the commands.
use led_platform.Prelude.{[], ◌∷◌}
use led_platform.Daemon.Json.Value.{Chars}

abbrev pub hello : Chars
hello = b'h' ∷ b'e' ∷ b'l' ∷ b'l' ∷ b'o' ∷ []

abbrev pub ping : Chars
ping = b'p' ∷ b'i' ∷ b'n' ∷ b'g' ∷ []

abbrev pub version : Chars
version = b'v' ∷ b'e' ∷ b'r' ∷ b's' ∷ b'i' ∷ b'o' ∷ b'n' ∷ []

abbrev pub status : Chars
status = b's' ∷ b't' ∷ b'a' ∷ b't' ∷ b'u' ∷ b's' ∷ []

abbrev pub load : Chars
load = b'l' ∷ b'o' ∷ b'a' ∷ b'd' ∷ []

abbrev pub unload : Chars
unload = b'u' ∷ b'n' ∷ b'l' ∷ b'o' ∷ b'a' ∷ b'd' ∷ []

abbrev pub play : Chars
play = b'p' ∷ b'l' ∷ b'a' ∷ b'y' ∷ []

abbrev pub pause : Chars
pause = b'p' ∷ b'a' ∷ b'u' ∷ b's' ∷ b'e' ∷ []

abbrev pub stop : Chars
stop = b's' ∷ b't' ∷ b'o' ∷ b'p' ∷ []

abbrev pub seek : Chars
seek = b's' ∷ b'e' ∷ b'e' ∷ b'k' ∷ []

abbrev pub subscribe : Chars
subscribe = b's' ∷ b'u' ∷ b'b' ∷ b's' ∷ b'c' ∷ b'r' ∷ b'i' ∷ b'b' ∷ b'e' ∷ []

abbrev pub shutdown : Chars
shutdown = b's' ∷ b'h' ∷ b'u' ∷ b't' ∷ b'd' ∷ b'o' ∷ b'w' ∷ b'n' ∷ []
