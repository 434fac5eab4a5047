-- ===== src/Hal/NetworkGuard.antt =====
-- crates/led-hal/src/network_guard.rs: the policy on wireless interfaces. What the probes read of the
-- system is an argument; texts are their characters, and the texts of errors are left out.
use led_platform.Prelude.{
  Bool, List, Option, [], false, if◌then◌else◌, is_some, leb, length, map, none, not, some, suc,
  true, zero, ℕ, ◌&&◌, ◌==◌, ◌||◌, ◌∷◌,
}
use led_platform.Daemon.Output.Spec.{strip_prefix}
use led_platform.Daemon.Output.Protocol.{lowercase}
use led_platform.Protocols.Sacn.{bytes_equal}

abbrev pub Text : Type 0
Text = List ℕ

pub data NetworkPolicyError : Type 0 where
  wifi_active : List Text → NetworkPolicyError
  probe_unavailable probe_failed : NetworkPolicyError

-- `char::is_whitespace`.
abbrev pub is_whitespace : ℕ → Bool
is_whitespace c =
    leb 9 c && leb c 13
    || c == 32
    || c == 0x85
    || c == 0xa0
    || c == 0x1680
    || leb 0x2000 c && leb c 0x200a
    || c == 0x2028
    || c == 0x2029
    || c == 0x202f
    || c == 0x205f
    || c == 0x3000

unfoldable pub trim_start : Text → Text
trim_start [] = []
trim_start (c ∷ cs) = let rest = trim_start cs in if is_whitespace c then rest else c ∷ cs

-- Whether a text is nothing but spaces.
abbrev pub is_blank : Text → Bool
is_blank [] = true
is_blank (c ∷ cs) = is_whitespace c && is_blank cs

unfoldable pub trim_end : Text → Text
trim_end [] = []
trim_end (c ∷ cs) =
    let rest = trim_end cs in if is_whitespace c && is_blank cs then [] else c ∷ rest

unfoldable pub trim : Text → Text
unfolding trim_start trim_end
trim t = trim_end (trim_start t)

-- One entry of `/sys/class/net`; the operating state is `none` where it cannot be read.
pub record Interface : Type 0 where
  pub iface_name : Text
  pub has_wireless : Bool
  pub has_phy80211 : Bool
  pub operstate : Option Text

abbrev pub up_text : Text
up_text = b'u' ∷ b'p' ∷ []

abbrev pub is_up : Option Text → Bool
unfolding trim
is_up none = false
is_up (some state) = bytes_equal (trim state) up_text

-- The loop over the entries that can be read.
unfoldable pub active_of : List Interface → List Text
unfolding trim
active_of [] = []
active_of (e ∷ es) =
    let rest = active_of es in
    if (e.has_wireless || e.has_phy80211) && is_up e.operstate then e.iface_name ∷ rest else rest

abbrev pub verdict : List Text → Option NetworkPolicyError
verdict [] = none
verdict (i ∷ is_) = some (wifi_active (i ∷ is_))

-- Whether the directory exists, and its entries where it can be listed; no error is `none`.
unfoldable pub probe_linux : Bool → Option (List Interface) → Option NetworkPolicyError
unfolding active_of
probe_linux false entries = some probe_failed
probe_linux true none = some probe_failed
probe_linux true (some entries) = verdict (active_of entries)

-- `str::lines`: a text that ends a line begins no other. A carriage return before the end of a line
-- is kept here, since the caller trims the line.
abbrev pub begin_line : ℕ → List Text → List Text
begin_line c [] = (c ∷ []) ∷ []
begin_line c (l ∷ ls) = (c ∷ l) ∷ ls

unfoldable pub lines : Text → List Text
lines [] = []
lines (c ∷ cs) = if c == 10 then [] ∷ lines cs else begin_line c (lines cs)

-- `str::trim_start_matches`; the prefix is not empty, so that fuel for one round per character is
-- enough.
unfoldable pub trim_start_matches : ℕ → Text → Text → Text
unfolding strip_prefix
trim_start_matches zero prefix t = t
trim_start_matches (suc fuel) prefix t = elim (strip_prefix prefix t) [
  | none ↦ t
  | some rest ↦ trim_start_matches fuel prefix rest
]

abbrev pub hardware_port : Text
hardware_port =
    b'H' ∷ b'a' ∷ b'r' ∷ b'd' ∷ b'w' ∷ b'a' ∷ b'r' ∷ b'e' ∷ b' ' ∷ b'P' ∷ b'o' ∷ b'r' ∷ b't' ∷ b':'
    ∷ []

abbrev pub device_mark : Text
device_mark = b'D' ∷ b'e' ∷ b'v' ∷ b'i' ∷ b'c' ∷ b'e' ∷ b':' ∷ []

abbrev pub wi_fi_name : Text
wi_fi_name = b'w' ∷ b'i' ∷ b'-' ∷ b'f' ∷ b'i' ∷ []

abbrev pub airport_name : Text
airport_name = b'a' ∷ b'i' ∷ b'r' ∷ b'p' ∷ b'o' ∷ b'r' ∷ b't' ∷ []

-- The text after a mark, without the spaces around it.
unfoldable pub after_mark : Text → Text → Text
unfolding trim_start_matches trim
after_mark mark line = trim (trim_start_matches (length line) mark line)

unfoldable pub names_wifi : Text → Bool
names_wifi name =
    bytes_equal (map lowercase name) wi_fi_name || bytes_equal (map lowercase name) airport_name

abbrev pub push_name : Text → List Text → List Text
push_name [] names = names
push_name (c ∷ cs) names = (c ∷ cs) ∷ names

-- The loop over the lines; the flag is `in_wifi_block`.
unfoldable pub wifi_names : Bool → List Text → List Text
unfolding after_mark names_wifi trim strip_prefix
wifi_names in_block [] = []
wifi_names in_block (l ∷ ls) =
    let line = trim l in
    let is_port = is_some (strip_prefix hardware_port line) in
    let is_device = in_block && is_some (strip_prefix device_mark line) in
    let in_block' =
      if is_port then names_wifi (after_mark hardware_port line) else in_block && not is_device in
    let rest = wifi_names in_block' ls in
    if not is_port && is_device then push_name (after_mark device_mark line) rest else rest

unfoldable pub parse_macos_wifi_interfaces : Text → List Text
unfolding lines wifi_names
parse_macos_wifi_interfaces output = wifi_names false (lines output)

-- `is_active` is what `ifconfig` says of an interface.
unfoldable pub only_active : (Text → Bool) → List Text → List Text
only_active is_active [] = []
only_active is_active (i ∷ is_) =
    let rest = only_active is_active is_ in if is_active i then i ∷ rest else rest

-- What `networksetup` printed, or `none` where it could not be run or failed.
unfoldable pub probe_macos : (Text → Bool) → Option Text → Option NetworkPolicyError
unfolding only_active parse_macos_wifi_interfaces
probe_macos is_active none = some probe_failed
probe_macos is_active (some output) =
    verdict (only_active is_active (parse_macos_wifi_interfaces output))
